-- ===== src/Broker/Collecting/SendRecv.antt =====
-- A round of `reduce_send_recv`.
use mathlib.Core.List.{Perm, perm_middle, append-nil}
use mathlib.Core.List.Perm
use fncs.Base.{
  ℕ, suc, ◌+◌, ◌-◌, ◌^◌, ◌≡◌, ◌≢◌, ◌<◌, ◌≤◌, ◌⊎◌, refl, ap, sym, ◌∙◌, arith, true, false, List, [],
  ◌∷◌, ◌++◌, length, All, Name, name_key, nat_key, ◌==◌, name_beq_iff, ==_iff, Table, keys, values,
  has_key, add_key, put, put_new, add_key-perm, length-add_key, has_key-add_key, ltb, if◌then◌else◌,
  add64, Bool-cases, inl, inr,
}
use fncs.Broker.{
  Context, done, exits, replies, difference, publish, die, graceful_death, exit_failure,
}
use fncs.Broker.Rounds.{reduce_send_recv_handler, answer_send_recv, sum64}
use fncs.Broker.Collecting.{Distinct, run, collect, round}
use fncs.Broker.Collecting.Instances.{send_recv_gathering}

abbrev pub total : List ℕ → ℕ
total [] = 0
total (v ∷ vs) = v + total vs

sum64-eq-total : (acc : ℕ) (vs : List ℕ) → acc + total vs < 2 ^ 64 → sum64 acc vs ≡ acc + total vs
unfolding sum64
sum64-eq-total acc [] h = omega arith
sum64-eq-total acc (v ∷ vs) h =
    let e : add64 acc v ≡ acc + v = omega arith in
    rw e (sum64-eq-total (acc + v) vs (omega arith) ∙ omega arith)

total-add_key :
    (n : Name) (v : ℕ) (t : Table Name ℕ) → total (values (add_key n v t)) ≡ v + total (values t)
unfolding add_key
total-add_key n v [] = refl
total-add_key n v ((i, w) ∷ t) = ground (arith, total-add_key n v t)

-- What the simulators sent and received since the last round, in order of arrival.
abbrev pub sents : List (Name × (ℕ × ℕ)) → List ℕ
sents [] = []
sents ((n, (sent, recv)) ∷ cs) = sent ∷ sents cs

abbrev pub recvs : List (Name × (ℕ × ℕ)) → List ℕ
recvs [] = []
recvs ((n, (sent, recv)) ∷ cs) = recv ∷ recvs cs

-- What the tables hold after the contributions `cs`, beside what they held before.
record Holds (t t' : Table Name ℕ × Table Name ℕ) (cs : List (Name × (ℕ × ℕ))) : Type 0 where
  sent_total : total (values t'.0) ≡ total (sents cs) + total (values t.0)
  recv_total : total (values t'.1) ≡ total (recvs cs) + total (values t.1)
  recv_length : length t'.1 ≡ length cs + length t.1
  sent_keys : Perm (keys t'.0) (keys cs ++ keys t.0)

Absent : Table Name ℕ → List Name → Type 0
Absent r = All (λ n. has_key n r ≡ false)

Absent-put :
    (n : Name) (v : ℕ) (r : Table Name ℕ) (ns : List Name)
    → has_key n r ≡ false
    → All (λ m. n ≢ m) ns
    → Absent r ns
    → Absent (put n v r) ns
unfolding Absent
Absent-put n v r [] new ne h = tt
Absent-put n v r (m ∷ ns) new ne h = (
  rw (put_new n v r new) (ground (arith, has_key-add_key n m v r, name_beq_iff n m, ne.0, h.0)),
  Absent-put n v r ns new ne.1 h.1,
)

module _ (c : Context) (valid : c.valid ≡ true) where
  collect-Holds :
      (t : Table Name ℕ × Table Name ℕ) (cs : List (Name × (ℕ × ℕ)))
      → Distinct (keys cs)
      → Absent t.1 (keys cs)
      → Holds t (collect (send_recv_gathering c valid) t cs) cs
  unfolding collect send_recv_gathering Absent
  collect-Holds (s, r) [] d h = record {
    sent_total = omega arith;
    recv_total = omega arith;
    recv_length = omega arith;
    sent_keys = Perm.refl _;
  }
  collect-Holds (s, r) ((n, (sent, recv)) ∷ cs) d h =
      let rest =
        collect-Holds (add_key n sent s, put n recv r) cs d.1
          (Absent-put n recv r (keys cs) h.0 d.0 h.1) in
      let put_recv = put_new n recv r h.0 in
      let put_total : total (values (put n recv r)) ≡ recv + total (values r) =
        ap (λ x. total (values x)) put_recv ∙ total-add_key n recv r in
      let put_length : length (put n recv r) ≡ suc (length r) =
        ap length put_recv ∙ length-add_key n recv r in
      record {
        sent_total = omega (arith, rest.sent_total, total-add_key n sent s);
        recv_total = omega (arith, rest.recv_total, put_total);
        recv_length = omega (arith, rest.recv_length, put_length);
        sent_keys = Perm.trans rest.sent_keys (
            Perm.trans (Perm.append_left (keys cs) (Perm.map _ (add_key-perm n sent s)))
              (perm_middle (keys cs) (keys s)));
      }

answer_send_recv_lem :
    (c : Context) (s r : Table Name ℕ)
    → length r ≡ c.world_size
    → c.reduce_sent_total + total (values s) < 2 ^ 64
    → c.reduce_recv_total + total (values r) < 2 ^ 64
    → let sent = c.reduce_sent_total + total (values s) in
      let recv = c.reduce_recv_total + total (values r) in
      answer_send_recv (record c { reduce_sent = s; reduce_recv = r }) ≡ (
        if ltb sent recv
        then graceful_death exit_failure
        else done
            (record c {
              reduce_sent = [];
              reduce_recv = [];
              reduce_sent_total = sent;
              reduce_recv_total = recv;
            })
            (replies (difference (sent - recv)) (keys s)))
unfolding answer_send_recv
answer_send_recv_lem c s r size hs hr =
    let es : add64 c.reduce_sent_total (sum64 0 (values s))
        ≡ c.reduce_sent_total + total (values s) =
      omega (arith, sum64-eq-total 0 (values s) (omega arith)) in
    let er : add64 c.reduce_recv_total (sum64 0 (values r))
        ≡ c.reduce_recv_total + total (values r) =
      omega (arith, sum64-eq-total 0 (values r) (omega arith)) in
    let full : (length r == c.world_size) ≡ true = (==_iff _ _).1 size in rw (full, es, er)

Absent-nil : (ns : List Name) → Absent [] ns
unfolding Absent has_key
Absent-nil [] = tt
Absent-nil (n ∷ ns) = (refl, Absent-nil ns)

-- The round up to the comparison of the totals.
send_recv_result :
    (c : Context) (cs : List (Name × (ℕ × ℕ)))
    → c.valid ≡ true
    → Distinct (keys cs)
    → length cs ≡ c.world_size
    → 0 < c.world_size
    → c.reduce_sent_total + total (sents cs) < 2 ^ 64
    → c.reduce_recv_total + total (recvs cs) < 2 ^ 64
    → let sent = c.reduce_sent_total + total (sents cs) in
      let recv = c.reduce_recv_total + total (recvs cs) in
      (ns : List Name) × (run
          (λ n v. reduce_send_recv_handler n v.0 v.1)
          cs
          (record c { reduce_sent = []; reduce_recv = [] })
        ≡ (if ltb sent recv
            then graceful_death exit_failure
            else done
                (record c {
                  reduce_sent = [];
                  reduce_recv = [];
                  reduce_sent_total = sent;
                  reduce_recv_total = recv;
                })
                (replies (difference (sent - recv)) ns)))
      × Perm ns (keys cs)
unfolding send_recv_gathering
send_recv_result c cs valid distinct size some hs hr =
    let g = send_recv_gathering c valid in
    let t : Table Name ℕ × Table Name ℕ = collect g ([], []) cs in
    let h = collect-Holds c valid ([], []) cs distinct (Absent-nil (keys cs)) in
    let sent : total (values t.0) ≡ total (sents cs) = omega (arith, h.sent_total) in
    let recv : total (values t.1) ≡ total (recvs cs) = omega (arith, h.recv_total) in
    (
      keys t.0,
      round g cs distinct size some
          ∙ answer_send_recv_lem c t.0 t.1 (omega (arith, h.recv_length)) (omega arith)
              (omega arith)
          ∙ rw (sent, recv),
      rw append-nil at h.sent_keys,
    )

-- In a valid context in which no round is under way, as many simulators as its world has, at least
-- one, each report once what they sent and received, in any order, and the totals fit 64 bits. If
-- no more was received than sent in all, every simulator gets one reply, the number of messages
-- under way, and the totals are kept; else the broker takes the federation down.
pub reduce_send_recv_round :
    (c : Context) (cs : List (Name × (ℕ × ℕ)))
    → c.valid ≡ true
    → c.reduce_sent ≡ []
    → c.reduce_recv ≡ []
    → Distinct (keys cs)
    → length cs ≡ c.world_size
    → 0 < c.world_size
    → c.reduce_sent_total + total (sents cs) < 2 ^ 64
    → c.reduce_recv_total + total (recvs cs) < 2 ^ 64
    → let sent = c.reduce_sent_total + total (sents cs) in
      let recv = c.reduce_recv_total + total (recvs cs) in
      let result = run (λ n v. reduce_send_recv_handler n v.0 v.1) cs c in
      ((recv ≤ sent)
        × ((ns : List Name) × (result
              ≡ done
                  (record c { reduce_sent_total = sent; reduce_recv_total = recv })
                  (replies (difference (sent - recv)) ns))
            × Perm ns (keys cs)))
      ⊎ ((sent < recv) × (result ≡ exits exit_failure (publish die ∷ [])))
unfolding send_recv_gathering
reduce_send_recv_round c cs valid empty_sent empty_recv distinct size some hs hr =
    let start : record c { reduce_sent = []; reduce_recv = [] } ≡ c =
      λ i. record c { reduce_sent = sym empty_sent i; reduce_recv = sym empty_recv i } in
    let (ns, e, p) = send_recv_result c cs valid distinct size some hs hr in
    let result = ap (run (λ n v. reduce_send_recv_handler n v.0 v.1) cs) (sym start) ∙ e in
    let sent = c.reduce_sent_total + total (sents cs) in
    let recv = c.reduce_recv_total + total (recvs cs) in
    elim (Bool-cases (ltb sent recv)) [
      | inl less ↦ inr (ground arith, result ∙ rw less)
      | inr other ↦ inl (
        ground arith,
        (
          ns,
          result
              ∙ rw other (
                  ap
                    (λ (x : Context).
                      done (record x { reduce_sent_total = sent; reduce_recv_total = recv })
                        (replies (difference (sent - recv)) ns))
                    start),
          p,
        ),
      )
    ]
