-- ===== src/Broker/Routing.antt =====
-- fncsbroker.cpp: who owns an object, and the messages that go through the broker.
pub mod Delivery
use fncs.Base.{
  ℕ, zero, suc, ◌≡◌, Bool, true, false, Option, none, some, List, [], ◌∷◌, ◌++◌, length, get_elem?,
  Result, ok, throws, assert_fails, undefined, Name, name_key, ◌==◌, Table, lookup, has_key, put,
  ltb, if◌then◌else◌, add64, ℤ,
}
use fncs.Message.{Message, set_data}
use fncs.Message.Header.{from_envelope}
use fncs.Broker.{
  Context, Broker, Frame, route, delay, forward, Outcome, done, exits, aborts, faults, ◌>>=◌,
  return, emit, ◌>>◌, graceful_death, exit_failure, get_context, set_context,
}

-- The logical id of a simulator in a context, from `n` on
unfoldable pub logical_id : Name → ℕ → List Name → Option ℕ
logical_id identity n [] = none
logical_id identity n (name ∷ rest) =
    if name == identity then some n else logical_id identity (suc n) rest

-- `register_handler`
unfoldable pub register_handler : Name → ℤ → Name → Broker → Outcome Broker
unfolding get_context set_context logical_id
register_handler identity context name b = do
  c ← get_context b context
  if identity == c.net_sim_id
      then return
          (set_context b context (record c { net_sim_obj_count = add64 c.net_sim_obj_count 1 }))
      else (if has_key name b.obj_to_id
          then graceful_death exit_failure
          else elim (logical_id identity 0 c.logical_to_real) [
            | none ↦ graceful_death exit_failure
            | some n ↦ return (record b { obj_to_id = put name n b.obj_to_id })
          ])

-- `zmqx_recv` of at most `limit` bytes: a longer frame fails its assertion.
unfoldable pub receive : ℕ → List ℕ → Outcome (List ℕ)
receive limit frame = if ltb limit (length frame) then aborts else return frame

-- Nothing catches what the message code throws.
abbrev pub uncaught : Result Message → Outcome Message
uncaught (ok m) = return m
uncaught (throws e) = aborts
uncaught assert_fails = aborts
uncaught undefined = faults

-- The payload frame of a message, read when its header says that there is one. `route_handler` goes
-- on with as many bytes as the header says, so that a shorter frame leaves some without a value.
unfoldable pub receive_route_data : Message → List ℕ → Outcome (Option (List ℕ))
unfolding receive
receive_route_data m data_frame =
    if ltb 0 m.size
    then (do
      bytes ← receive m.size data_frame
      sent ← uncaught (set_data m bytes m.size)
      return (some bytes))
    else return none

-- `delay_handler` goes on with as many bytes as came.
unfoldable pub receive_delay_data : Message → List ℕ → Outcome (Option (List ℕ))
unfolding receive
receive_delay_data m data_frame =
    if ltb 0 m.size
    then (do
      bytes ← receive m.size data_frame
      sent ← uncaught (set_data m bytes (length bytes))
      return (if ltb 0 (length bytes) then some bytes else none))
    else return none

-- `route_handler`, whose buffer for the envelope has 256 bytes
unfoldable pub route_handler : Name → ℤ → List ℕ → List ℕ → Broker → Outcome Broker
unfolding receive receive_route_data get_context
route_handler identity context envelope_frame data_frame b = do
  envelope ← receive 256 envelope_frame
  m ← uncaught (from_envelope envelope none)
  payload ← receive_route_data m data_frame
  elim (lookup m.to b.obj_to_id) [
    | none ↦ graceful_death exit_failure
    | some n ↦ do
      c ← get_context b context
      elim (get_elem? c.logical_to_real n) [
        | none ↦ graceful_death exit_failure
        | some owner ↦ done b (forward owner (route envelope payload) ∷ [])
      ]
  ]

-- `delay_handler`
unfoldable pub delay_handler : Name → ℤ → List ℕ → List ℕ → Broker → Outcome Broker
unfolding receive receive_delay_data get_context
delay_handler identity context envelope_frame data_frame b = do
  envelope ← receive 256 envelope_frame
  m ← uncaught (from_envelope envelope none)
  payload ← receive_delay_data m data_frame
  c ← get_context b context
  done b (forward c.net_sim_id (delay envelope payload) ∷ [])
