-- ===== src/CommManager/Counting.antt =====
-- commmanager/abscommmanager.cpp: what a tick-based simulator's manager has counted and put into its
-- mailboxes after the network interface has handed it messages.
use mathlib.Core.List.{append-nil, append_assoc}
use fncs.Base.{
  ℕ, ◌^◌, ◌<◌, ◌≡◌, refl, ap, ◌∙◌, sym, arith, Bool, true, false, not, ◌⊎◌, inl, inr, ◌&&◌, Option,
  some, List, [], ◌∷◌, ◌++◌, map, length, select, length-select, All, ok, Name, name_key, ◌==◌,
  lookup, has_key, lookup-has_key, ltb, add64, IsU64, Bool-cases,
}
use fncs.Base.Actions.{Returns, Returns->>=, Returns-imp, lift}
use fncs.Settings.{Settings, get_cur_sim_time, grace_time}
use fncs.Message.{Message, is_broadcast}
use fncs.Network.{Network, Call}
use fncs.CommManager.{grace_period, CommManager}
use fncs.CommManager.Receiving.{message_received, deliver, receive_at, receive_as, call}
use fncs.CommManager.Sending.{reduce_total_send_receive}
use fncs.CommManager.Accepting.{inbox_of, KeepsAll, Accepted, accept-Accepted}

-- Not older than the packet lost period
abbrev pub fresh : Settings → (now : ℕ) → Message → Bool
fresh i now given = not (ltb given.time_stamp (grace_time i now))

abbrev pub fresh_to : Settings → (now : ℕ) → Name → Message → Bool
fresh_to i now name given = fresh i now given && given.to == name

select-cons :
    (p : Message → Bool) (given : Message) (received : List Message) (box : List (Option Message))
    → (box ++ map some (select p (given ∷ []))) ++ map some (select p received)
      ≡ box ++ map some (select p (given ∷ received))
select-cons p given received box = elim (Bool-cases (p given)) [
  | inl passes ↦ rw passes (append_assoc box (some given ∷ []) _)
  | inr fails ↦ rw (fails, append-nil box) refl
]

module _ {S : Type 0} (i : Settings) (now : ℕ) where
  -- An old message, or one to a registered object
  unfoldable pub IsDeliverable : CommManager S → Message → Type 0
  IsDeliverable m given =
      (fresh i now given ≡ false)
      ⊎ ((is_broadcast given ≡ false) × (has_key given.to m.interfaces ≡ true))

  -- The state after the messages have arrived: the fresh ones are counted, and each mailbox has those
  -- to its object behind what it had, in order.
  unfoldable pub Delivered : List Message → CommManager S → CommManager S → Type 0
  Delivered received m m' =
      (m'.receive_count ≡ add64 m.receive_count (length (select (fresh i now) received)))
      × (m'.send_count ≡ m.send_count)
      × (m'.kind ≡ m.kind)
      × (m'.current_interface ≡ m.current_interface)
      × ((name : Name) → has_key name m'.interfaces ≡ has_key name m.interfaces)
      × ((name : Name)
          → inbox_of (lookup name m'.interfaces)
            ≡ inbox_of (lookup name m.interfaces)
              ++ map some (select (fresh_to i now name) received))
      × KeepsAll m'

  receive_at-Delivered :
      (given : Message) (m : CommManager S)
      → KeepsAll m
      → IsU64 m.receive_count
      → IsDeliverable m given
      → Returns (λ m' _. Delivered (given ∷ []) m m') (receive_at i now given m)
  unfolding receive_at IsDeliverable Delivered Accepted
  receive_at-Delivered given m keeps small d =
      elim (Bool-cases (ltb given.time_stamp (grace_time i now))) [
        | inl old ↦ rw old (
          omega (arith, small),
          refl,
          refl,
          refl,
          λ name. refl,
          λ name. sym (append-nil _),
          keeps,
        )
        | inr new ↦ rw new (elim d [
          | inl old ↦ absurd (ground (arith))
          | inr (single, known) ↦ rw single (
              let (comm, e) = lookup-has_key given.to m.interfaces known in
              accept-Accepted given m comm keeps e)
        ])
      ]

  Delivered-cons :
      (given : Message) (received : List Message) (m m' m'' : CommManager S)
      → Delivered (given ∷ []) m m'
      → Delivered received m' m''
      → Delivered (given ∷ received) m m''
  unfolding Delivered
  Delivered-cons given received m m' m'' (a, b, c, d, e, f, g) (a', b', c', d', e', f', g') = (
    ground (arith, a, a'),
    b' ∙ b,
    c' ∙ c,
    d' ∙ d,
    λ name. e' name ∙ e name,
    λ name.
        f' name
        ∙ ap (λ xs. xs ++ map some (select (fresh_to i now name) received)) (f name)
        ∙ select-cons (fresh_to i now name) given received _,
    g',
  )

module _ {S : Type 0} (i : Settings) (t now : ℕ) (clock : get_cur_sim_time i t ≡ ok now) where
  Delivered-small :
      (received : List Message) (m m' : CommManager S)
      → Delivered i now received m m'
      → IsU64 m'.receive_count
  unfolding Delivered
  Delivered-small received m m' d = omega (arith, d.0)

  still-IsDeliverable :
      (received : List Message) (given : Message) (m m' : CommManager S)
      → Delivered i now received m m'
      → IsDeliverable i now m given
      → IsDeliverable i now m' given
  unfolding Delivered IsDeliverable
  still-IsDeliverable received given m m' d (inl old) = inl old
  still-IsDeliverable received given m m' d (inr (single, known)) =
      inr (single, d.4 given.to ∙ known)

  All-still :
      (received messages : List Message) (m m' : CommManager S)
      → Delivered i now received m m'
      → All (IsDeliverable i now m) messages
      → All (IsDeliverable i now m') messages
  All-still received [] m m' d all = tt
  All-still received (given ∷ messages) m m' d (first, rest) =
      (still-IsDeliverable received given m m' d first, All-still received messages m m' d rest)

  message_received-tick :
      (given : Message) (m : CommManager S)
      → m.kind ≡ grace_period
      → message_received i t given m ≡ receive_at i now given m
  unfolding message_received
  message_received-tick given m k = rw clock (ap (λ kind. receive_as i kind now given m) k)

  -- A tick-based simulator whose clock can be read, whose mailboxes keep all messages and whose count
  -- of received messages fits 64 bits takes in any sequence of messages of which each is old or goes
  -- to a registered object, as a single message: it counts the fresh ones, modulo 2^64, and leaves in
  -- each mailbox the fresh ones to its object, behind what it had, in order. The count of sent
  -- messages, the registered names and the network interface stay as they are.
  pub deliver_lem :
      (received : List Message) (m : CommManager S)
      → m.kind ≡ grace_period
      → KeepsAll m
      → IsU64 m.receive_count
      → All (IsDeliverable i now m) received
      → Returns (λ m' _. Delivered i now received m m') (deliver i t received m)
  unfolding deliver Delivered
  deliver_lem [] m k keeps small all =
      (omega (arith, small), refl, refl, refl, λ name. refl, λ name. sym (append-nil _), keeps)
  deliver_lem (given ∷ received) m k keeps small (first, rest) =
      rw (message_received-tick given m k) (
        Returns->>= (λ m' _. Delivered i now (given ∷ []) m m')
          (λ m'' _. Delivered i now (given ∷ received) m m'') (receive_at i now given m)
          (λ _. deliver i t received) (receive_at-Delivered i now given m keeps small first)
          (λ m' _ d.
            Returns-imp (λ m'' _. Delivered i now received m' m'')
              (λ m'' _. Delivered i now (given ∷ received) m m'') (deliver i t received m')
              (deliver_lem received m' (d.2 ∙ k) (d.6) (Delivered-small (given ∷ []) m m' d)
                (All-still (given ∷ []) received m m' d rest))
              (λ m'' _ d'. Delivered-cons i now given received m m' m'' d d')))

  pub call-Delivered :
      {A : Type 0} (c : Call S A) (m : CommManager S) (s : S) (received : List Message) (a : A)
      → m.kind ≡ grace_period
      → KeepsAll m
      → IsU64 m.receive_count
      → All (IsDeliverable i now m) received
      → c m.current_interface ≡ (s, received, ok a)
      → Returns
          (λ m' result.
            (result ≡ a) × Delivered i now received (record m { current_interface = s }) m')
          (call i t c m)
  unfolding call KeepsAll IsDeliverable
  call-Delivered c m s received a k keeps small all answer =
      let asked = record m { current_interface = s } in
      rw answer (
        Returns->>= (λ m' _. Delivered i now received asked m')
          (λ m' result. (result ≡ a) × Delivered i now received asked m')
          (deliver i t received asked) (λ _. lift (ok a))
          (deliver_lem received asked k keeps small all) (λ m' _ d. (refl, d)))

  -- A tick-based simulator whose clock can be read, whose mailboxes keep all messages and whose counts
  -- fit 64 bits asks for the number of messages under way. Meanwhile fewer than 2^64 messages arrive,
  -- each old or a single message to a registered object, and the network interface answers. Then that
  -- answer is returned, and the counts start anew: nothing sent, and just the fresh messages of those
  -- received.
  pub reduce_total_send_receive_lem :
      (net : Network S) (m : CommManager S) (s : S) (received : List Message) (diff : ℕ)
      → m.kind ≡ grace_period
      → KeepsAll m
      → IsU64 m.send_count
      → IsU64 m.receive_count
      → length received < 2 ^ 64
      → net.reduce_total_send_receive m.send_count m.receive_count m.current_interface
        ≡ (s, received, ok diff)
      → All (IsDeliverable i now m) received
      → Returns
          (λ m' result.
            (result ≡ diff)
            × (m'.send_count ≡ 0)
            × (m'.receive_count ≡ length (select (fresh i now) received)))
          (reduce_total_send_receive i net t m)
  unfolding reduce_total_send_receive Delivered
  reduce_total_send_receive_lem net m s received diff k keeps small small' short answer all =
      let asked = record m { current_interface = s } in
      Returns->>= (λ m' result. (result ≡ diff) × Delivered i now received asked m')
        (λ m' result.
          (result ≡ diff)
          × (m'.send_count ≡ 0)
          × (m'.receive_count ≡ length (select (fresh i now) received)))
        (call i t (net.reduce_total_send_receive m.send_count m.receive_count) m) _
        (call-Delivered (net.reduce_total_send_receive m.send_count m.receive_count) m s received
          diff k keeps small' all answer)
        (λ m' result d. (
          d.0,
          omega (arith, (d.1).1, small),
          omega (arith, (d.1).0, small', short, length-select (fresh i now) received),
        ))
