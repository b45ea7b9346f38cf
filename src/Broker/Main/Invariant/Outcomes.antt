-- ===== src/Broker/Main/Invariant/Outcomes.antt =====
-- Postconditions of the outcomes of a handler.
use fncs.Base.{ℕ, Bool, true, false, List, ◌++◌, if◌then◌else◌}
use fncs.Broker.{Broker, Packet, Outcome, done, exits, aborts, faults, after, ◌>>=◌}

-- What holds of the state if the handler returns
pub data Post {ℓ κ} {A : Type ℓ} (P : A → Type κ) : Outcome A → Type (ℓ ⊔ κ) where
  on_done : (a : A) (ps : List Packet) → P a → Post P (done a ps)
  on_exits : (code : ℕ) (ps : List Packet) → Post P (exits code ps)
  on_aborts : Post P aborts
  on_faults : Post P faults

pub Post-after {ℓ κ} :
    {A : Type ℓ} {P : A → Type κ} {m : Outcome A} (ps : List Packet)
    → Post P m
    → Post P (after ps m)
Post-after ps (on_done a qs h) = on_done a (ps ++ qs) h
Post-after ps (on_exits code qs) = on_exits code (ps ++ qs)
Post-after ps on_aborts = on_aborts
Post-after ps on_faults = on_faults

pub Post->>= {ℓ κ μ ν} :
    {A : Type ℓ} {B : Type κ} {Q : A → Type μ} {P : B → Type ν} {m : Outcome A} {f : A → Outcome B}
    → Post Q m
    → ((a : A) → Q a → Post P (f a))
    → Post P (m >>= f)
Post->>= (on_done a ps q) rest = Post-after ps (rest a q)
Post->>= (on_exits code ps) rest = on_exits code ps
Post->>= on_aborts rest = on_aborts
Post->>= on_faults rest = on_faults

pub Post-if {ℓ κ} :
    {A : Type ℓ} {P : A → Type κ} {m n : Outcome A} (b : Bool)
    → Post P m
    → Post P n
    → Post P (if b then m else n)
Post-if true h k = h
Post-if false h k = k

pub Post-any {ℓ} : {A : Type ℓ} (m : Outcome A) → Post (λ a. Unit {0}) m
Post-any (done a ps) = on_done a ps tt
Post-any (exits code ps) = on_exits code ps
Post-any aborts = on_aborts
Post-any faults = on_faults

pub Post-done : {P : Broker → Type 0} {b : Broker} {ps : List Packet} → Post P (done b ps) → P b
Post-done (on_done b ps h) = h
