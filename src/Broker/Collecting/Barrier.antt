-- ===== src/Broker/Collecting/Barrier.antt =====
-- A round of `barrier`.
use mathlib.Core.List.{Perm, perm_middle, append-nil}
use mathlib.Core.List.Perm
use fncs.Base.{
  ◌≡◌, ◌<◌, sym, ◌∙◌, subst, arith, true, List, [], ◌∷◌, ◌++◌, length, Name, name_key, keys,
  add_member, add_member-perm, length-add_member, ◌+◌,
}
use fncs.Broker.{Context, done, replies, ack}
use fncs.Broker.Rounds.{barrier_handler, barrier_checker}
use fncs.Broker.Collecting.{Distinct, run, collect, round}
use fncs.Broker.Collecting.Instances.{barrier_gathering}

module _ (c : Context) (valid : c.valid ≡ true) where
  collect_barrier :
      (s : List Name) (cs : List (Name × Unit {0}))
      → Perm (collect (barrier_gathering c valid) s cs) (keys cs ++ s)
  unfolding collect barrier_gathering
  collect_barrier s [] = Perm.refl s
  collect_barrier s ((n, v) ∷ cs) =
      Perm.trans (collect_barrier (add_member n s) cs)
        (Perm.trans (Perm.append_left (keys cs) (add_member-perm n s)) (perm_middle (keys cs) s))

  length-collect_barrier :
      (s : List Name) (cs : List (Name × Unit {0}))
      → length (collect (barrier_gathering c valid) s cs) ≡ length cs + length s
  unfolding collect barrier_gathering
  length-collect_barrier s [] = omega arith
  length-collect_barrier s ((n, v) ∷ cs) =
      omega (arith, length-collect_barrier (add_member n s) cs, length-add_member n s)

barrier_checker_complete :
    (c : Context) (s : List Name)
    → length s ≡ c.world_size
    → 1 < c.world_size
    → barrier_checker (record c { barrier = s }) ≡ done (record c { barrier = [] }) (replies ack s)
unfolding barrier_checker
barrier_checker_complete c s full some = ground arith

-- In a valid context with an empty barrier, as many simulators as its world has, more than one,
-- each ask once for the barrier, in any order. Then each has got one acknowledgement, and the
-- context is as before the round.
pub barrier_round :
    (c : Context) (cs : List (Name × Unit {0}))
    → c.valid ≡ true
    → c.barrier ≡ []
    → Distinct (keys cs)
    → length cs ≡ c.world_size
    → 1 < c.world_size
    → (ns : List Name) × (run (λ n v. barrier_handler n) cs c ≡ done c (replies ack ns))
      × Perm ns (keys cs)
unfolding barrier_gathering
barrier_round c cs valid empty distinct size some =
    let g = barrier_gathering c valid in
    let start : record c { barrier = [] } ≡ c = λ i. record c { barrier = sym empty i } in
    let p : Perm (collect g [] cs) (keys cs) = rw append-nil at (collect_barrier c valid [] cs) in
    let full : length (collect g [] cs) ≡ c.world_size =
      omega (arith, length-collect_barrier c valid [] cs) in
    (
      collect g [] cs,
      subst (λ x. run (λ n v. barrier_handler n) cs x ≡ done x (replies ack (collect g [] cs)))
          start
          (round g cs distinct size (omega arith)
            ∙ barrier_checker_complete c (collect g [] cs) full some),
      p,
    )
