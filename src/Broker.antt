-- ===== src/Broker.antt =====
-- fncsbroker.cpp: the state of the broker, and what a handler does with it.
--
-- The parallel vectors that the source indexes by context are one list of records, which
-- `add_context` extends as it resizes them. The frames that a handler receives from its socket are
-- its arguments; the frames that it sends are packets. All peers are connected, so sending does not
-- fail, and closing a socket does not fail.
pub mod Rounds
pub mod Collecting
pub mod Sleeping
pub mod Contexts
pub mod Routing
pub mod Main
use fncs.Base.{
  ℕ, zero, suc, ◌+◌, ◌-◌, ◌≡◌, Bool, true, false, Option, none, some, List, [], ◌∷◌, ◌++◌, map,
  length, get_elem?, set, Name, Table, ℤ, pos, negsuc, keys, values, ltb, if◌then◌else◌, refl,
}

pub record AggregateType : Type 0 where
  pub time : ℕ
  pub action : ℕ

pub record TimeBool : Type 0 where
  pub time : ℕ
  pub had_message : Bool

-- The entries of the vectors at one context.
pub record Context : Type 0 where
  pub net_sim_id : Name
  pub net_sim_obj_count : ℕ
  -- `contexts`, `parent_contexts` and `world_sizes`
  pub members : List Name
  pub parents : List ℤ
  pub world_size : ℕ
  pub valid : Bool
  pub child_init_complete : Bool
  pub reduce_min_time : Table Name ℕ
  pub sleep_state : Table Name ℕ
  pub sleep_incoming : Table Name TimeBool
  pub reduce_min_time_action : Table Name AggregateType
  pub reduce_sent : Table Name ℕ
  pub reduce_recv : Table Name ℕ
  pub reduce_sent_total : ℕ
  pub reduce_recv_total : ℕ
  pub reduce_fail_time : Table Name ℕ
  pub all_gather : Table Name ℕ
  pub finalized : List Name
  pub barrier : List Name
  pub succed : List Name
  pub asleep : List Name
  pub finished : List Name
  pub reinit_map : Table Name Name
  -- `logicalID_to_realID`: `hello_handler` numbers from 0, so the keys are the positions.
  pub logical_to_real : List Name
  pub sleeping_sim : Bool

pub record Broker : Type 0 where
  pub total_size : ℕ
  pub obj_to_id : Table Name ℕ
  pub new_net_sim_id : Name
  pub new_connections : List Name
  pub new_parents : List ℤ
  pub child_ini_map : Table Name Name
  pub contexts : List Context

-- What the broker sends to one simulator.
pub data Frame : Type 0 where
  ack is_valid not_valid : Frame
  time : ℕ → Frame
  time_action : ℕ → ℕ → Frame
  difference : ℕ → Frame
  next_times : List ℕ → Frame
  object_count : ℕ → Frame
  context_id : ℕ → Frame
  route delay : List ℕ → Option (List ℕ) → Frame

-- What it publishes to all of them.
pub data Signal : Type 0 where
  die die_child finished : Signal
  child_died : ℕ → Signal
  die_parent : ℤ → Signal

-- `reply` goes out by `broker`, `forward` by `async_broker`, `publish` by `killer`.
pub data Packet : Type 0 where
  reply forward : Name → Frame → Packet
  publish : Signal → Packet

-- A handler returns, leaves the program by `graceful_death`, fails an assertion (or lets an exception
-- escape), or does what the C++ standard leaves undefined. The packets are those sent on the way.
pub data Outcome {ℓ} (A : Type ℓ) : Type ℓ where
  done : A → List Packet → Outcome A
  exits : ℕ → List Packet → Outcome A
  aborts : Outcome A
  faults : Outcome A

abbrev pub after {ℓ} : {A : Type ℓ} → List Packet → Outcome A → Outcome A
after ps (done a qs) = done a (ps ++ qs)
after ps (exits code qs) = exits code (ps ++ qs)
after ps aborts = aborts
after ps faults = faults

infixl 5 ◌>>=◌ ◌>>◌
abbrev pub ◌>>=◌ {ℓ κ} : {A : Type ℓ} {B : Type κ} → Outcome A → (A → Outcome B) → Outcome B
done a ps >>= f = after ps (f a)
exits code ps >>= f = exits code ps
aborts >>= f = aborts
faults >>= f = faults

abbrev pub ◌>>◌ {ℓ} : {A : Type ℓ} → Outcome (Unit {0}) → Outcome A → Outcome A
m >> k = m >>= λ _. k

abbrev pub return {ℓ} : {A : Type ℓ} → A → Outcome A
return a = done a []

abbrev pub emit : List Packet → Outcome (Unit {0})
emit ps = done tt ps

abbrev pub map_outcome {ℓ κ} : {A : Type ℓ} {B : Type κ} → (A → B) → Outcome A → Outcome B
map_outcome f (done a ps) = done (f a) ps
map_outcome f (exits code ps) = exits code ps
map_outcome f aborts = aborts
map_outcome f faults = faults

abbrev pub exit_success : ℕ
exit_success = 0

abbrev pub exit_failure : ℕ
exit_failure = 1

-- `graceful_death`
abbrev pub graceful_death {ℓ} : {A : Type ℓ} → ℕ → Outcome A
graceful_death code = exits code (publish die ∷ [])

abbrev pub assert : Bool → Outcome (Unit {0})
assert true = return tt
assert false = aborts

abbrev pub replies : Frame → List Name → List Packet
replies frame = map (λ name. reply name frame)

-- The records of a context; an index out of range is undefined behaviour.
unfoldable pub get_context : Broker → ℤ → Outcome Context
get_context b (negsuc n) = faults
get_context b (pos n) = elim (get_elem? b.contexts n) [ none ↦ faults | some c ↦ return c ]

unfoldable pub set_context : Broker → ℤ → Context → Broker
set_context b (negsuc n) c = b
set_context b (pos n) c = record b { contexts = set b.contexts n c }

-- A handler of one context, in the broker.
unfoldable pub at_context : ℤ → (Context → Outcome Context) → Broker → Outcome Broker
unfolding get_context set_context
at_context i f b = do c ← get_context b i; c' ← f c; return (set_context b i c')

-- `min_element` by value, from the first element on
unfoldable pub min_element : ℕ → List ℕ → ℕ
min_element m [] = m
min_element m (v ∷ vs) = min_element (if ltb v m then v else m) vs
