-- ===== src/Broker/Collecting.antt =====
-- What the collective operations of fncsbroker.cpp have in common: a round takes one contribution of
-- each simulator, in the order of their arrival.
pub mod Instances
pub mod MinTime
pub mod SendRecv
pub mod Barrier
pub mod Partial
pub mod MinTimeAction
use mathlib.Core.List.{append-nil, Perm, perm_middle}
use mathlib.Core.List.Perm
use fncs.Base.{
  ℕ, zero, suc, ◌+◌, ◌≡◌, ◌≢◌, ◌<◌, ◌≤◌, refl, ap, sym, ◌∙◌, arith, Bool, true, false, ◌||◌, List,
  [], ◌∷◌, ◌++◌, length, All, Name, name_key, name_beq, name_beq_iff, ◌==◌, Table, keys, has_key,
  add_key, add_key-perm, Bool-cases, inl, inr, map,
}
use fncs.Broker.{Context, Packet, Outcome, done, exits, aborts, faults, after, ◌>>=◌, return}

abbrev pub Distinct : List Name → Type 0
Distinct [] = Unit
Distinct (n ∷ ns) = All (λ m. n ≢ m) ns × Distinct ns

-- The requests of one kind, in the order in which they arrive.
unfoldable pub run :
    {V : Type 0}
    → (Name → V → Context → Outcome Context)
    → List (Name × V)
    → Context
    → Outcome Context
run handle [] c = return c
run handle ((n, v) ∷ cs) c = handle n v c >>= run handle cs

pub >>=-return {ℓ} : {A : Type ℓ} (m : Outcome A) → (m >>= λ a. return a) ≡ m
>>=-return (done a ps) = ap (done a) (append-nil ps)
>>=-return (exits code ps) = refl
>>=-return aborts = refl
>>=-return faults = refl

pub after_nil {ℓ} : {A : Type ℓ} (m : Outcome A) → after [] m ≡ m
after_nil (done a ps) = refl
after_nil (exits code ps) = refl
after_nil aborts = refl
after_nil faults = refl

-- A handler that gathers values of type `V` in a state of type `S`.
pub record Gathering (V S : Type 0) : Type 0 where
  pub handle : Name → V → Context → Outcome Context
  pub context : S → Context
  pub empty : S
  pub add : Name → V → S → S
  pub has : Name → S → Bool
  pub size : S → ℕ
  pub world : ℕ
  pub finish : S → Outcome Context
  pub has-empty : (n : Name) → has n empty ≡ false
  pub size-empty : size empty ≡ 0
  pub has-add : (n j : Name) (v : V) (s : S) → has j (add n v s) ≡ (n == j || has j s)
  pub size-add : (n : Name) (v : V) (s : S) → size (add n v s) ≡ suc (size s)
  pub waits :
      (n : Name) (v : V) (s : S)
      → has n s ≡ false
      → suc (size s) < world
      → handle n v (context s) ≡ return (context (add n v s))
  pub closes :
      (n : Name) (v : V) (s : S)
      → has n s ≡ false
      → suc (size s) ≡ world
      → handle n v (context s) ≡ finish (add n v s)

module _ {V S : Type 0} (g : Gathering V S) where
  open g use {
    handle, context, empty, add, has, size, world, finish, has-empty, size-empty, has-add, size-add,
    waits, closes,
  }

  unfoldable pub collect : S → List (Name × V) → S
  collect s [] = s
  collect s ((n, v) ∷ cs) = collect (add n v s) cs

  abbrev Fresh : S → List Name → Type 0
  Fresh s = All (λ n. has n s ≡ false)

  Fresh-add :
      (n : Name) (v : V) (s : S) (ns : List Name)
      → All (λ m. n ≢ m) ns
      → Fresh s ns
      → Fresh (add n v s) ns
  Fresh-add n v s [] ne fresh = tt
  Fresh-add n v s (m ∷ ns) ne fresh = (
    ground (arith, has-add n m v s, name_beq_iff n m, ne.0, fresh.0),
    Fresh-add n v s ns ne.1 fresh.1,
  )

  -- Nobody is answered before the last contribution.
  run_waits :
      (s : S) (cs : List (Name × V))
      → Fresh s (keys cs)
      → Distinct (keys cs)
      → size s + length cs < world
      → run handle cs (context s) ≡ return (context (collect s cs))
  unfolding run collect
  run_waits s [] fresh distinct h = refl
  run_waits s ((n, v) ∷ cs) fresh distinct h =
      rw (waits n v s fresh.0 (omega arith), after_nil)
        (run_waits (add n v s) cs (Fresh-add n v s (keys cs) distinct.0 fresh.1) distinct.1
          (omega (arith, size-add n v s)))

  run_closes :
      (s : S) (cs : List (Name × V))
      → Fresh s (keys cs)
      → Distinct (keys cs)
      → size s + length cs ≡ world
      → 0 < length cs
      → run handle cs (context s) ≡ finish (collect s cs)
  unfolding run collect
  run_closes s [] fresh distinct h some = absurd (omega arith)
  run_closes s ((n, v) ∷ []) fresh distinct h some =
      rw (closes n v s fresh.0 (omega arith)) (>>=-return (finish (add n v s)))
  run_closes s ((n, v) ∷ (m, w) ∷ cs) fresh distinct h some =
      rw (waits n v s fresh.0 (omega arith), after_nil)
        (run_closes (add n v s) ((m, w) ∷ cs)
          (Fresh-add n v s (keys ((m, w) ∷ cs)) distinct.0 fresh.1) distinct.1
          (omega (arith, size-add n v s)) (omega arith))

  Fresh-empty : (ns : List Name) → Fresh empty ns
  Fresh-empty [] = tt
  Fresh-empty (n ∷ ns) = (has-empty n, Fresh-empty ns)

  pub partial_round :
      (cs : List (Name × V))
      → Distinct (keys cs)
      → length cs < world
      → run handle cs (context empty) ≡ return (context (collect empty cs))
  partial_round cs d h = run_waits empty cs (Fresh-empty (keys cs)) d (omega (arith, size-empty))

  pub round :
      (cs : List (Name × V))
      → Distinct (keys cs)
      → length cs ≡ world
      → 0 < world
      → run handle cs (context empty) ≡ finish (collect empty cs)
  round cs d h some =
      run_closes empty cs (Fresh-empty (keys cs)) d (omega (arith, size-empty)) (omega arith)

-- A table that gathers by insertion ends up with just the contributions.
pub collect-perm :
    {V : Type 0} (g : Gathering V (Table Name V)) (t : Table Name V) (cs : List (Name × V))
    → ((n : Name) (v : V) (s : Table Name V) → g.add n v s ≡ add_key n v s)
    → Perm (collect g t cs) (cs ++ t)
unfolding collect
collect-perm g t [] adds = Perm.refl t
collect-perm g t ((n, v) ∷ cs) adds =
    Perm.trans (collect-perm g (g.add n v t) cs adds)
      (rw (adds n v t) (Perm.trans (Perm.append_left cs (add_key-perm n v t)) (perm_middle cs t)))
