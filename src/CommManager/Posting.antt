-- ===== src/CommManager/Posting.antt =====
-- commmanager/graceperiodcommmanager.cpp: what `sendAll` of a tick-based simulator sends and counts.
use mathlib.Core.List.{append-nil, append_assoc}
use fncs.Base.{
  ℕ, ◌+◌, ◌-◌, ◌^◌, ◌<◌, ◌≡◌, refl, ap, sym, ◌∙◌, arith, false, inl, inr, some, List, [], ◌∷◌, ◌++◌,
  ok, Name, name_key, Table, keys, lookup, has_key, put, Distinct, All, has_key-append,
  lookup-append, put-append, if◌then◌else◌, add64, IsU64, Bool-cases, append_snoc, name_beq_iff,
}
use fncs.Base.Actions.{Returns, Returns->>=, Returns-rescue, Returns-imp, rescue, ◌>>◌, modify}
use fncs.Settings.{Settings}
use fncs.Message.{Message, is_broadcast}
use fncs.ObjectComm.{ObjectComm, clear}
use fncs.Network.{Network}
use fncs.CommManager.{grace_period, CommManager, write_interface}
use fncs.CommManager.Receiving.{call-quiet}
use fncs.CommManager.Sending.{
  int_word, is_interface_error, post, send_as, send_each, send_boxes, send_all, clear_at,
}

-- A network interface that takes every message at once: `sent` reads its log, and `receivers` is the
-- number of objects that it reports for a broadcast.
pub record Takes {S : Type 0} (net : Network S) (sent : S → List Message) (receivers : ℕ)
    : Type 0 where
  pub taken :
      (message : Message) (s : S)
      → (s' : S) × (net.send message s ≡ (s', [], ok tt)) × (sent s' ≡ sent s ++ (message ∷ []))
  pub spread :
      (message : Message) (s : S)
      → (s' : S) × (net.broadcast message s ≡ (s', [], ok receivers))
        × (sent s' ≡ sent s ++ (message ∷ []))

-- The messages of all outboxes, in the order of the objects' names
abbrev pub outgoing : Table Name ObjectComm → List Message
outgoing [] = []
outgoing ((name, comm) ∷ interfaces) = comm.outbox ++ outgoing interfaces

abbrev pub emptied : Table Name ObjectComm → Table Name ObjectComm
emptied [] = []
emptied ((name, comm) ∷ interfaces) = (name, record comm { outbox = [] }) ∷ emptied interfaces

-- How many messages the receivers get
abbrev pub copies : (receivers : ℕ) → List Message → ℕ
copies receivers [] = 0
copies receivers (message ∷ messages) =
    (if is_broadcast message then receivers - 1 else 1) + copies receivers messages

-- The state of the outer loop: the objects that are `done` and those still to do.
Ahead : (done todo : Table Name ObjectComm) → Type 0
Ahead done todo = All (λ e. has_key (e.0) done ≡ false) todo × Distinct todo

Ahead-next :
    (name : Name) (comm comm' : ObjectComm) (done todo : Table Name ObjectComm)
    → Ahead done ((name, comm) ∷ todo)
    → Ahead (done ++ ((name, comm') ∷ [])) todo
unfolding Ahead has_key
Ahead-next name comm comm' done [] h = (tt, tt)
Ahead-next name comm comm' done ((other, box) ∷ todo)
      ((first, (next, rest)), (new, (apart, distinct))) =
    let (others, _) =
      Ahead-next name comm comm' done todo ((first, rest), (ground (arith, new), distinct)) in
    (
      (
        ground (
          arith,
          has_key-append other done ((name, comm') ∷ []),
          next,
          new,
          name_beq_iff name other,
          name_beq_iff other name,
        ),
        others,
      ),
      (apart, distinct),
    )

All-none :
    (todo : Table Name ObjectComm) → All (λ e. has_key {V = ObjectComm} (e.0) [] ≡ false) todo
unfolding has_key
All-none [] = tt
All-none (e ∷ todo) = (refl, All-none todo)

copies-append :
    (receivers : ℕ) (messages messages' : List Message)
    → copies receivers (messages ++ messages')
      ≡ copies receivers messages + copies receivers messages'
copies-append receivers [] messages' = omega arith
copies-append receivers (message ∷ messages) messages' =
    omega (arith, copies-append receivers messages messages')

module _ {S : Type 0} (i : Settings) (net : Network S) (t : ℕ) (sent : S → List Message)
    (receivers : ℕ) (takes : Takes net sent receivers) (some_receiver : 0 < receivers)
    (few : receivers < 2 ^ 31) where
  -- The state after these messages have been sent
  Posted : List Message → CommManager S → CommManager S → Type 0
  Posted messages m m' =
      (m'.kind ≡ m.kind)
      × (m'.interfaces ≡ m.interfaces)
      × (m'.receive_count ≡ m.receive_count)
      × (m'.send_count ≡ add64 m.send_count (copies receivers messages))
      × (sent m'.current_interface ≡ sent m.current_interface ++ messages)

  post-Posted :
      (message : Message) (m : CommManager S)
      → Returns (λ m' _. Posted (message ∷ []) m m') (post i net t message m)
  unfolding post int_word Posted
  post-Posted message m = elim (Bool-cases (is_broadcast message)) [
    | inl spread_it ↦
        let (s', e, log) = takes.spread message m.current_interface in
        rw (spread_it, call-quiet i t (net.broadcast message) m s' receivers e)
          (refl, refl, refl, ground (arith, some_receiver, few), log)
    | inr single ↦
        let counted : CommManager S = record m { send_count = add64 m.send_count 1 } in
        let (s', e, log) = takes.taken message m.current_interface in
        rw (single, call-quiet i t (net.send message) counted s' tt e)
          (refl, refl, refl, ground arith, log)
  ]

  Posted-cons :
      (message : Message) (messages : List Message) (m m' m'' : CommManager S)
      → Posted (message ∷ []) m m'
      → Posted messages m' m''
      → Posted (message ∷ messages) m m''
  unfolding Posted
  Posted-cons message messages m m' m'' (a, b, c, d, e) (a', b', c', d', e') = (
    a' ∙ a,
    b' ∙ b,
    c' ∙ c,
    omega (arith, d, d'),
    e'
        ∙ ap (λ log. log ++ messages) e
        ∙ append_assoc (sent m.current_interface) (message ∷ []) messages,
  )

  send_each-Posted :
      (messages : List Message) (m : CommManager S)
      → m.kind ≡ grace_period
      → IsU64 m.send_count
      → Returns (λ m' _. Posted messages m m') (send_each i net t messages m)
  unfolding send_each Posted
  send_each-Posted [] m k small = (refl, refl, refl, omega (arith, small), sym (append-nil _))
  send_each-Posted (message ∷ messages) m k small =
      rw (ap (λ kind. send_as i net t kind message m) k) (
        Returns->>= (λ m' _. Posted (message ∷ []) m m')
          (λ m'' _. Posted (message ∷ messages) m m'')
          (rescue is_interface_error (post i net t message m)) (λ _. send_each i net t messages)
          (Returns-rescue (λ m' _. Posted (message ∷ []) m m') is_interface_error
            (post i net t message m) (post-Posted message m))
          (λ m' _ p.
            Returns-imp (λ m'' _. Posted messages m' m'')
              (λ m'' _. Posted (message ∷ messages) m m'') (send_each i net t messages m')
              (send_each-Posted messages m' (p.0 ∙ k) (omega (arith, p.3)))
              (λ m'' _ p'. Posted-cons message messages m m' m'' p p')))

  -- The state after the outer loop over the objects still to do
  Emptied : (done todo : Table Name ObjectComm) → CommManager S → CommManager S → Type 0
  Emptied done todo m m' =
      (m'.interfaces ≡ done ++ emptied todo)
      × (m'.receive_count ≡ m.receive_count)
      × (m'.send_count ≡ add64 m.send_count (copies receivers (outgoing todo)))
      × (sent m'.current_interface ≡ sent m.current_interface ++ outgoing todo)

  send_boxes-Emptied :
      (done todo : Table Name ObjectComm) (m : CommManager S)
      → m.interfaces ≡ done ++ todo
      → Ahead done todo
      → m.kind ≡ grace_period
      → IsU64 m.send_count
      → Returns (λ m' _. Emptied done todo m m') (send_boxes i net t (keys todo) m)
  unfolding send_boxes Emptied Posted Ahead clear
  send_boxes-Emptied done [] m e ahead k small = (e, refl, omega (arith, small), sym (append-nil _))
  send_boxes-Emptied done ((name, comm) ∷ todo) m e ahead k small =
      let done' = done ++ ((name, clear comm) ∷ []) in
      let (first, _) = ahead.0 in
      let (new, _) = ahead.1 in
      let here : lookup name m.interfaces ≡ some comm =
        ap (lookup name) e ∙ lookup-append name comm done todo first in
      rw here (
        Returns->>= (λ m' _. Posted comm.outbox m m')
          (λ m'' _. Emptied done ((name, comm) ∷ todo) m m'') (send_each i net t comm.outbox m)
          (λ _.
            modify (λ m'. clear_at name (lookup name m'.interfaces) m')
            >> send_boxes i net t (keys todo))
          (send_each-Posted comm.outbox m k small)
          (λ m' _ p.
            let e' : m'.interfaces ≡ done ++ (name, comm) ∷ todo = p.1 ∙ e in
            let here' : lookup name m'.interfaces ≡ some comm =
              ap (lookup name) e' ∙ lookup-append name comm done todo first in
            let m2 = write_interface name (clear comm) m' in
            let tidy : m2.interfaces ≡ done' ++ todo =
              ap (put name (clear comm)) e'
              ∙ put-append name comm (clear comm) done todo first new
              ∙ append_snoc done (name, clear comm) todo in
            rw here' (
              Returns-imp (λ m'' _. Emptied done' todo m2 m'')
                (λ m'' _. Emptied done ((name, comm) ∷ todo) m m'')
                (send_boxes i net t (keys todo) m2)
                (send_boxes-Emptied done' todo m2 tidy
                  (Ahead-next name comm (clear comm) done todo ahead) (p.0 ∙ k)
                  (omega (arith, p.3)))
                (λ m'' _ q. (
                  q.0 ∙ sym (append_snoc done (name, clear comm) (emptied todo)),
                  q.1 ∙ p.2,
                  omega (arith, p.3, q.2, copies-append receivers comm.outbox (outgoing todo)),
                  q.3
                      ∙ ap (λ log. log ++ outgoing todo) (p.4)
                      ∙ append_assoc (sent m.current_interface) comm.outbox (outgoing todo),
                )))))

  -- A tick-based simulator whose objects have different names, with a 64-bit count of what it has
  -- sent, over a network interface that takes every message at once and tells of at least one and
  -- fewer than 2^31 objects, sends the messages of all its outboxes, in the order of the objects'
  -- names and of their writing. It empties the outboxes and leaves the rest of the mailboxes and the
  -- count of received messages alone. It counts a broadcast once for each object but one, any other
  -- message once, modulo 2^64.
  pub send_all_lem :
      (m : CommManager S)
      → m.kind ≡ grace_period
      → IsU64 m.send_count
      → Distinct m.interfaces
      → Returns
          (λ m' _.
            (m'.interfaces ≡ emptied m.interfaces)
            × (m'.receive_count ≡ m.receive_count)
            × (m'.send_count ≡ add64 m.send_count (copies receivers (outgoing m.interfaces)))
            × (sent m'.current_interface ≡ sent m.current_interface ++ outgoing m.interfaces))
          (send_all i net t m)
  unfolding send_all Emptied Ahead
  send_all_lem m k small distinct =
      send_boxes-Emptied [] m.interfaces m refl (All-none m.interfaces, distinct) k small
