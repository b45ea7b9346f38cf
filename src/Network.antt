-- ===== src/Network.antt =====
-- absnetworkinterface.h and absnetworkinterface.cpp: what a communication manager asks of its network
-- interface, and the registry of objects that every such interface keeps.
pub mod Registry
use fncs.Base.{ℕ, List, Bool, Result, Name}
use fncs.Message.{Message}

-- A call of the network interface. Messages may arrive meanwhile: the interface hands these to the
-- callback of the manager, in this order, before it comes back.
abbrev pub Call : Type 0 → Type 0 → Type 0
Call S A = S → S × List Message × Result A

-- The operations of the class over the state of the subclass. An answer that the sources write
-- through a pointer or a reference is a result.
pub record Network (S : Type 0) : Type 0 where
  pub send : Message → Call S (Unit {0})
  pub broadcast : Message → Call S ℕ
  pub barier : Call S (Unit {0})
  pub sleep : Call S Bool
  pub reduce_min_time : ℕ → Call S ℕ
  pub reduce_min_time_and_action : ℕ × ℕ → Call S (ℕ × ℕ)
  pub reduce_min_time_and_sleep : ℕ → Bool → Call S ℕ
  pub get_next_times : ℕ → Call S (List ℕ)
  pub reduce_total_send_receive : (sent received : ℕ) → Call S ℕ
  pub register_object : Name → Call S (Unit {0})
  pub finalize_registrations : Call S (Unit {0})
