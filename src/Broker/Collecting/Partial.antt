-- ===== src/Broker/Collecting/Partial.antt =====
-- A round of `reduce_min_time` that is not complete, and a simulator that contributes twice.
use mathlib.Core.List.{Perm, append-nil, append_assoc}
use fncs.Base.{
  ℕ, ◌≡◌, ◌<◌, refl, ap, sym, ◌∙◌, subst, arith, true, ◌||◌, List, [], ◌∷◌, ◌++◌, length, Name,
  name_key, Table, keys, has_key, member,
}
use fncs.Broker.{
  Context, Packet, Outcome, done, exits, aborts, faults, after, ◌>>=◌, return, publish, die,
  exit_failure,
}
use fncs.Broker.Rounds.{reduce_min_time_handler}
use fncs.Broker.Collecting.{
  Distinct, Gathering, run, collect, after_nil, collect-perm, partial_round,
}
use fncs.Broker.Collecting.Instances.{min_time_gathering}

after-append {ℓ} :
    {A : Type ℓ} (ps qs : List Packet) (m : Outcome A) → after (ps ++ qs) m ≡ after ps (after qs m)
after-append ps qs (done a rs) = ap (done a) (append_assoc ps qs rs)
after-append ps qs (exits code rs) = ap (exits code) (append_assoc ps qs rs)
after-append ps qs aborts = refl
after-append ps qs faults = refl

after->>= {ℓ κ} :
    {A : Type ℓ} {B : Type κ} (ps : List Packet) (m : Outcome A) (f : A → Outcome B)
    → (after ps m >>= f) ≡ after ps (m >>= f)
after->>= ps (done a qs) f = after-append ps qs (f a)
after->>= ps (exits code qs) f = refl
after->>= ps aborts f = refl
after->>= ps faults f = refl

>>=_assoc {ℓ κ μ} :
    {A : Type ℓ} {B : Type κ} {C : Type μ} (m : Outcome A) (f : A → Outcome B) (g : B → Outcome C)
    → (m >>= f >>= g) ≡ (m >>= λ a. f a >>= g)
>>=_assoc (done a ps) f g = after->>= ps (f a) g
>>=_assoc (exits code ps) f g = refl
>>=_assoc aborts f g = refl
>>=_assoc faults f g = refl

run-append :
    {V : Type 0} (handle : Name → V → Context → Outcome Context) (cs ds : List (Name × V))
    (c : Context)
    → run handle (cs ++ ds) c ≡ (run handle cs c >>= run handle ds)
unfolding run
run-append handle [] ds c = sym (after_nil (run handle ds c))
run-append handle ((n, v) ∷ cs) ds c =
    ap (λ k. handle n v c >>= k) (λ i x. run-append handle cs ds x i)
    ∙ sym (>>=_assoc (handle n v c) (run handle cs) (run handle ds))

has_key-collect :
    {V : Type 0} (g : Gathering V (Table Name V)) (n : Name) (t : Table Name V)
    (cs : List (Name × V))
    → g.has n (collect g t cs) ≡ (member n (keys cs) || g.has n t)
unfolding collect member
has_key-collect g n t [] = refl
has_key-collect g n t ((m, v) ∷ cs) =
    ground (arith, has_key-collect g n (g.add m v t) cs, g.has-add m n v t)

incomplete :
    (c : Context) (cs : List (Name × ℕ))
    → (valid : c.valid ≡ true) → c.reduce_min_time ≡ []
    → Distinct (keys cs)
    → length cs < c.world_size
    → run reduce_min_time_handler cs c
      ≡ return (record c { reduce_min_time = collect (min_time_gathering c valid) [] cs })
unfolding min_time_gathering
incomplete c cs valid empty distinct few =
    subst
      (λ x.
        run reduce_min_time_handler cs x
        ≡ return (record c { reduce_min_time = collect (min_time_gathering c valid) [] cs }))
      (λ i. record c { reduce_min_time = sym empty i })
      (partial_round (min_time_gathering c valid) cs distinct few)

-- In a valid context in which no round is under way, fewer simulators than its world has send their
-- times, each once and in any order. Nobody is answered, and the context has gathered just these.
pub reduce_min_time_waits :
    (c : Context) (cs : List (Name × ℕ))
    → c.valid ≡ true
    → c.reduce_min_time ≡ []
    → Distinct (keys cs)
    → length cs < c.world_size
    → (t : Table Name ℕ) × (run reduce_min_time_handler cs c
        ≡ done (record c { reduce_min_time = t }) [])
      × Perm t cs
unfolding min_time_gathering
reduce_min_time_waits c cs valid empty distinct few =
    let g = min_time_gathering c valid in
    (
      collect g [] cs,
      incomplete c cs valid empty distinct few,
      rw append-nil at (collect-perm g [] cs (λ n v s. refl)),
    )

-- In a valid context in which no round is under way, fewer simulators than its world has send their
-- times, each once, and then one of them sends a time again. The broker takes the federation down,
-- and has answered nobody.
pub reduce_min_time_twice :
    (c : Context) (cs : List (Name × ℕ)) (n : Name) (v : ℕ)
    → c.valid ≡ true
    → c.reduce_min_time ≡ []
    → Distinct (keys cs)
    → length cs < c.world_size
    → member n (keys cs) ≡ true
    → run reduce_min_time_handler (cs ++ (n, v) ∷ []) c ≡ exits exit_failure (publish die ∷ [])
unfolding min_time_gathering run reduce_min_time_handler
reduce_min_time_twice c cs n v valid empty distinct few again =
    let g = min_time_gathering c valid in
    let there : has_key n (collect g [] cs) ≡ true = ground (arith, has_key-collect g n [] cs) in
    rw (
      run-append reduce_min_time_handler cs ((n, v) ∷ []) c,
      incomplete c cs valid empty distinct few,
      there,
    )
