-- ===== src/ObjectComm/Reading.antt =====
-- The loops over the inbox, against the messages that a test selects.
use fncs.Base.{
  ℕ, zero, suc, ◌+◌, ◌-◌, ◌≡◌, refl, arith, Bool, not, Option, none, some, List, [], ◌∷◌, ◌++◌, map,
  length, length-append, select, append_snoc, if◌then◌else◌, Bool-cases, inl, inr, ok,
}
use fncs.Message.{Message}
use fncs.ObjectComm.{locations, selected, erase_at, erase_shifted}

module _ (p : Message → Bool) where
  -- The positions of the selected messages, counted from `i`.
  abbrev pub indices : ℕ → List Message → List ℕ
  indices i [] = []
  indices i (m ∷ xs) = if p m then i ∷ indices (suc i) xs else indices (suc i) xs

  -- The inbox once the selected messages were taken out of it.
  abbrev pub taken_out : List Message → List (Option Message)
  taken_out [] = []
  taken_out (m ∷ xs) = (if p m then none else some m) ∷ taken_out xs

  abbrev pub others : List Message → List Message
  others = select (λ m. not (p m))

  pub locations-map-some :
      (i : ℕ) (xs : List Message) → locations p i (map some xs) ≡ ok (indices i xs)
  unfolding locations
  locations-map-some i [] = refl
  locations-map-some i (m ∷ xs) = rw (locations-map-some (suc i) xs)

  pub selected-map-some : (xs : List Message) → selected p (map some xs) ≡ ok (select p xs)
  unfolding selected
  selected-map-some [] = refl
  selected-map-some (m ∷ xs) = rw (selected-map-some xs)

pub erase_at-append :
    (n : ℕ) (xs : List (Option Message)) (y : Option Message) (ys : List (Option Message))
    → length xs ≡ n
    → erase_at n (xs ++ y ∷ ys) ≡ ok (xs ++ ys)
unfolding erase_at
erase_at-append zero [] y ys h = refl
erase_at-append zero (x ∷ xs) y ys h = absurd (omega arith)
erase_at-append (suc n) [] y ys h = absurd (omega arith)
erase_at-append (suc n) (x ∷ xs) y ys h = rw (erase_at-append n xs y ys (omega arith))

module _ (p : Message → Bool) where
  -- With the shift every taken message is erased, and no other.
  pub erase_shifted-taken_out :
      (xs : List Message) (before : List (Option Message)) (i shift : ℕ)
      → i ≡ length before + shift
      → erase_shifted (indices p i xs) shift (before ++ taken_out p xs)
        ≡ ok (before ++ map some (others p xs))
  unfolding erase_shifted
  erase_shifted-taken_out [] before i shift h = refl
  erase_shifted-taken_out (m ∷ xs) before i shift h = elim (Bool-cases (p m)) [
    | inl due ↦ rw due (
        rw (erase_at-append (i - shift) before none (taken_out p xs) (omega arith))
          (erase_shifted-taken_out xs before (suc i) (suc shift) (omega arith)))
    | inr kept ↦ rw kept (
        rw
          (
            append_snoc before (some m) (taken_out p xs),
            append_snoc before (some m) (map some (others p xs)),
          )
          (erase_shifted-taken_out xs (before ++ some m ∷ []) (suc i) shift
            (omega (arith, length-append before (some m ∷ [])))))
  ]
