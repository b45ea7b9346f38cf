-- ===== src/Broker/Collecting/MinTime.antt =====
-- A round of `reduce_min_time`, and one of `reduce_fail_time`.
use mathlib.Core.Logic.Or
use mathlib.Core.List.{
  Perm, Mem, Mem-prop, append-nil, mem-cons, mem-cons_self, mem-cons_of_mem, not-mem-nil,
}
use mathlib.Core.List.Perm
use native.Mathlib.Bridge.{le_prop}
use fncs.Base.{
  ℕ, ◌≡◌, inl, inr, Bool-cases, ◌<◌, ◌≤◌, refl, sym, ◌∙◌, subst, arith, true, false, List, [], ◌∷◌,
  length, All, Name, name_key, keys, values, ltb, if◌then◌else◌,
}
use fncs.Broker.{Context, done, replies, time, min_element, publish, child_died}
use fncs.Broker.Rounds.{
  reduce_min_time_handler, answer_min_time, reduce_fail_time_handler, answer_fail_time,
}
use fncs.Broker.Collecting.{Distinct, run, collect, collect-perm, round}
use fncs.Broker.Collecting.Instances.{min_time_gathering, fail_time_gathering}

abbrev pub IsLeast : ℕ → List ℕ → Type 0
IsLeast m vs = ((v : ℕ) → Mem v vs → m ≤ v) × Mem m vs

All-mem : (m : ℕ) (vs : List ℕ) → All (λ v. m ≤ v) vs → (v : ℕ) → Mem v vs → m ≤ v
All-mem m [] h v mem = absurd (not-mem-nil mem)
All-mem m (w ∷ vs) h v mem = Or.elim le_prop (mem-cons.0 mem) (λ e. rw e h.0) (All-mem m vs h.1 v)

min_element-le : (m : ℕ) (vs : List ℕ) → min_element m vs ≤ m
unfolding min_element
min_element-le m [] = omega arith
min_element-le m (v ∷ vs) = ground (arith, min_element-le (if ltb v m then v else m) vs)

min_element_below : (m : ℕ) (vs : List ℕ) → All (λ v. min_element m vs ≤ v) vs
unfolding min_element
min_element_below m [] = tt
min_element_below m (v ∷ vs) = (
  ground (arith, min_element-le (if ltb v m then v else m) vs),
  min_element_below (if ltb v m then v else m) vs,
)

min_element-mem : (m : ℕ) (vs : List ℕ) → Mem (min_element m vs) (m ∷ vs)
unfolding min_element
min_element-mem m [] = mem-cons_self
min_element-mem m (v ∷ vs) = elim (Bool-cases (ltb v m)) [
  | inl less ↦ rw less (mem-cons_of_mem m (min_element-mem v vs))
  | inr other ↦ rw other (
      Or.elim Mem-prop (mem-cons.0 (min_element-mem m vs)) (λ e. rw e mem-cons_self)
        (λ mem. mem-cons_of_mem m (mem-cons_of_mem v mem)))
]

pub min_element-IsLeast : (m : ℕ) (vs : List ℕ) → IsLeast (min_element m vs) (m ∷ vs)
min_element-IsLeast m vs = (
  All-mem (min_element m vs) (m ∷ vs) (min_element-le m vs, min_element_below m vs),
  min_element-mem m vs,
)

pub IsLeast-perm : {m : ℕ} {vs ws : List ℕ} → Perm vs ws → IsLeast m vs → IsLeast m ws
IsLeast-perm {m} p h = (λ v mem. h.0 v (Perm.subset (Perm.symm p) v mem), Perm.subset p m h.1)

answer_min_time_lem :
    (c : Context) (t cs : List (Name × ℕ))
    → Perm t cs
    → 0 < length cs
    → (m : ℕ) × (ns : List Name) × (answer_min_time c t
        ≡ done (record c { reduce_min_time = [] }) (replies (time m) ns))
      × Perm ns (keys cs)
      × IsLeast m (values cs)
unfolding answer_min_time
answer_min_time_lem c [] [] p some = absurd (omega arith)
answer_min_time_lem c [] (x ∷ cs) p some =
    absurd (not-mem-nil (Perm.subset (Perm.symm p) x mem-cons_self))
answer_min_time_lem c ((n, v) ∷ t) cs p some = (
  min_element v (values t),
  n ∷ keys t,
  refl,
  Perm.map _ p,
  IsLeast-perm (Perm.map _ p) (min_element-IsLeast v (values t)),
)

-- In a valid context in which no round is under way, as many simulators as its world has, at least
-- one, each send their time once, in any order. Then every one of them gets one reply, and it is
-- the least of the times; the context is as before the round.
pub reduce_min_time_round :
    (c : Context) (cs : List (Name × ℕ))
    → c.valid ≡ true
    → c.reduce_min_time ≡ []
    → Distinct (keys cs)
    → length cs ≡ c.world_size
    → 0 < c.world_size
    → (m : ℕ) × (ns : List Name) × (run reduce_min_time_handler cs c ≡ done c (replies (time m) ns))
      × Perm ns (keys cs)
      × IsLeast m (values cs)
unfolding min_time_gathering
reduce_min_time_round c cs valid empty distinct size some =
    let g = min_time_gathering c valid in
    let start : record c { reduce_min_time = [] } ≡ c =
      λ i. record c { reduce_min_time = sym empty i } in
    let p : Perm (collect g [] cs) cs = rw append-nil at (collect-perm g [] cs (λ n v s. refl)) in
    let (m, ns, e, q, least) =
      answer_min_time_lem (record c { reduce_min_time = collect g [] cs }) (collect g [] cs) cs p
        (omega arith) in
    (
      m,
      ns,
      subst (λ x. run reduce_min_time_handler cs x ≡ done x (replies (time m) ns)) start
          (round g cs distinct size some ∙ e),
      q,
      least,
    )

answer_fail_time_lem :
    (c : Context) (t cs : List (Name × ℕ))
    → Perm t cs
    → 0 < length cs
    → (m : ℕ) × (answer_fail_time c t
        ≡ done (record c { valid = false; reduce_fail_time = [] }) (publish (child_died m) ∷ []))
      × IsLeast m (values cs)
unfolding answer_fail_time
answer_fail_time_lem c [] [] p some = absurd (omega arith)
answer_fail_time_lem c [] (x ∷ cs) p some =
    absurd (not-mem-nil (Perm.subset (Perm.symm p) x mem-cons_self))
answer_fail_time_lem c ((n, v) ∷ t) cs p some =
    (min_element v (values t), refl, IsLeast-perm (Perm.map _ p) (min_element-IsLeast v (values t)))

-- In a valid context in which nobody has reported a failure, as many simulators as its world has,
-- at least one, each send once the time at which they failed, in any order. Then the least of these
-- has been published, and the context has become invalid.
pub reduce_fail_time_round :
    (c : Context) (cs : List (Name × ℕ))
    → c.valid ≡ true
    → c.reduce_fail_time ≡ []
    → Distinct (keys cs)
    → length cs ≡ c.world_size
    → 0 < c.world_size
    → (m : ℕ) × (run reduce_fail_time_handler cs c
        ≡ done (record c { valid = false }) (publish (child_died m) ∷ []))
      × IsLeast m (values cs)
unfolding fail_time_gathering
reduce_fail_time_round c cs valid empty distinct size some =
    let g = fail_time_gathering c valid in
    let start : record c { reduce_fail_time = [] } ≡ c =
      λ i. record c { reduce_fail_time = sym empty i } in
    let p : Perm (collect g [] cs) cs = rw append-nil at (collect-perm g [] cs (λ n v s. refl)) in
    let (m, e, least) =
      answer_fail_time_lem (record c { reduce_fail_time = collect g [] cs }) (collect g [] cs) cs p
        (omega arith) in
    (
      m,
      subst
          (λ x.
            run reduce_fail_time_handler cs x
            ≡ done (record x { valid = false }) (publish (child_died m) ∷ []))
          start (round g cs distinct size some ∙ e),
      least,
    )
