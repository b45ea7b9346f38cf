-- ===== src/CommManager/Accepting.antt =====
-- commmanager/abscommmanager.cpp: what a tick-based simulator's manager does with one message that it accepts.
use mathlib.Core.List.{append-nil}
use fncs.Base.{
  ◌≡◌, refl, arith, Bool, inl, inr, Option, none, some, List, [], ◌∷◌, ◌++◌, map, ok, Name,
  name_key, ◌==◌, lookup, has_key, lookup-put, has_key-lookup, name_beq_iff, has_key-put,
  if◌then◌else◌, add64, Bool-cases,
}
use fncs.Base.Actions.{Returns, resume}
use fncs.Message.{Message}
use fncs.ObjectComm.{ObjectComm, new_message as box_message, push_message}
use fncs.CommManager.{
  CommManager, accept, call_back, after_call_back, write_interface, signal_new_message,
  get_object_interface, adjust_network_delay,
}

abbrev pub inbox_of : Option ObjectComm → List (Option Message)
inbox_of none = []
inbox_of (some comm) = comm.inbox

-- Every mailbox keeps all messages.
unfoldable pub KeepsAll : {S : Type 0} → CommManager S → Type 0
KeepsAll m =
    (name : Name) (comm : ObjectComm) → lookup name m.interfaces ≡ some comm → comm.strategy ≡ none

-- The state in which a message leaves the manager: one message more is counted and it is in the
-- mailbox of its object, behind the others.
unfoldable pub Accepted : {S : Type 0} → Message → CommManager S → CommManager S → Type 0
Accepted given m m' =
    (m'.receive_count ≡ add64 m.receive_count 1)
    × (m'.send_count ≡ m.send_count)
    × (m'.kind ≡ m.kind)
    × (m'.current_interface ≡ m.current_interface)
    × ((name : Name) → has_key name m'.interfaces ≡ has_key name m.interfaces)
    × ((name : Name)
        → inbox_of (lookup name m'.interfaces)
          ≡ inbox_of (lookup name m.interfaces)
            ++ map some (if given.to == name then given ∷ [] else []))
    × KeepsAll m'

box_message-kept :
    (comm : ObjectComm) (given : Message)
    → comm.strategy ≡ none
    → box_message comm given ≡ ok (push_message comm given)
unfolding box_message push_message
box_message-kept comm given h = rw (h) refl

module _ {S : Type 0} where
  call_back-Accepted :
      (f : Option (Message → Bool → Bool × Bool)) (given : Message) (m m' : CommManager S)
      → Accepted given m m'
      → Returns
          (λ m'' _. Accepted given m m'')
          (resume (call_back f given m') (after_call_back given))
  unfolding Accepted KeepsAll adjust_network_delay
  call_back-Accepted none given m m' a = a
  call_back-Accepted (some f) given m m' a = elim (Bool-cases ((f given m'.respond).1)) [
    | inl b ↦ rw b a
    | inr b ↦ rw b a
  ]

  signal_new_message-kept :
      (name : Name) (given : Message) (m : CommManager S) (comm : ObjectComm)
      → lookup name m.interfaces ≡ some comm
      → comm.strategy ≡ none
      → signal_new_message name given m ≡ (write_interface name (push_message comm given) m, ok tt)
  unfolding signal_new_message get_object_interface
  signal_new_message-kept name given m comm e h = rw (e, box_message-kept comm given h) refl

  pub accept-Accepted :
      (given : Message) (m : CommManager S) (comm : ObjectComm)
      → KeepsAll m
      → lookup given.to m.interfaces ≡ some comm
      → Returns (λ m' _. Accepted given m m') (accept given m)
  unfolding accept KeepsAll Accepted push_message
  accept-Accepted given m comm keeps e =
      let counted = record m { receive_count = add64 m.receive_count 1 } in
      rw (e) (
        rw (signal_new_message-kept given.to given counted comm e (keeps given.to comm e)) (
          call_back-Accepted m.sync_algo_call_back_recv given m
            (write_interface given.to (push_message comm given) counted)
            (
              refl,
              refl,
              refl,
              refl,
              λ name. ground (
                arith,
                has_key-put given.to name (push_message comm given) m.interfaces,
                has_key-lookup given.to comm m.interfaces e,
                name_beq_iff given.to name,
              ),
              λ name. ground (
                arith,
                lookup-put given.to name (push_message comm given) m.interfaces,
                e,
                name_beq_iff given.to name,
                append-nil (inbox_of (lookup name m.interfaces)),
              ),
              λ name comm' e'. ground (
                arith,
                lookup-put given.to name (push_message comm given) m.interfaces,
                keeps given.to comm e,
                keeps name comm',
              ),
            )))
