-- ===== src/SyncAlgorithm/Remembering.antt =====
-- syncalgorithms/conservativesleepingtickalgo.cpp: what is written of the times that `getNextTimes` gives.
use fncs.Base.{
  ℕ, ◌≤◌, ◌<◌, ◌≡◌, refl, arith, ◌⊎◌, inl, inr, not, Option, some, ok, undefined, List, [], ◌∷◌,
  ◌++◌, length, map, drop, select, nat_key, ◌==◌, Bool-cases,
}
use fncs.Time.{infinity}
use fncs.SyncAlgorithm.Sleeping.{remember}

-- The times that are not infinity
unfoldable pub finite : List ℕ → List ℕ
finite ts = select (λ t. not (t == infinity)) ts

-- If the answer of `getNextTimes` has no more finite times than the array has entries, these times in
-- their order become its first entries and the other entries stay; if it has more, the loop writes
-- beyond the array's end.
pub remember_lem :
    (ts : List ℕ) (stored : List (Option ℕ))
    → ((length (finite ts) ≤ length stored)
        × (remember ts stored ≡ ok (map some (finite ts) ++ drop (length (finite ts)) stored)))
      ⊎ ((length stored < length (finite ts)) × (remember ts stored ≡ undefined))
unfolding remember finite
remember_lem [] stored = inl (omega arith, refl)
remember_lem (t ∷ ts) [] = elim (Bool-cases (t == infinity)) [
  | inl far ↦ rw far (remember_lem ts [])
  | inr near ↦ rw near (inr (omega arith, refl))
]
remember_lem (t ∷ ts) (old ∷ stored) = elim (Bool-cases (t == infinity)) [
  | inl far ↦ rw far (remember_lem ts (old ∷ stored))
  | inr near ↦ rw near (elim (remember_lem ts stored) [
    | inl (fits, e) ↦ inl (omega (arith, fits), rw e refl)
    | inr (short, e) ↦ inr (omega (arith, short), rw e refl)
  ])
]
