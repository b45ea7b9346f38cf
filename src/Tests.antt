-- ===== src/Tests.antt =====
-- Runs of the definitions on concrete inputs, and instances of the theorems.
pub mod Mailbox
pub mod Managing
pub mod Federating
pub mod Syncing
pub mod Wiring
pub mod Messages
pub mod Rounds
pub mod Speculating
pub mod Forking
pub mod Configuring
