-- ===== src/Base/Maps.antt =====
-- `std::map` and `std::set` over ordered keys, as association lists in the order of iteration.
use Prim.Native.Nat.{suc}
use mathlib.Core.Path.{◌≡◌, refl, sym, ap}
use mathlib.Core.Logic.{inl, inr}
use mathlib.Core.Bool.{Bool, true, false, ◌&&◌, ◌||◌}
use mathlib.Core.Option.{Option, none, some}
use mathlib.Core.List.{List, [], ◌∷◌, ◌++◌, map, Perm}
use mathlib.Core.List.Perm
use native.Mathlib.Omega.{arith}
use fncs.Base.Tests.{if◌then◌else◌, Bool-cases}
use fncs.Base.Lists.{length}
use fncs.Base.Ordered.{Key, ◌==◌}

abbrev pub Table : Type 0 → Type 0 → Type 0
Table K V = List (K × V)

module _ {K V : Type 0} where
  abbrev pub keys : Table K V → List K
  keys t = map (λ e. e.0) t

  abbrev pub values : Table K V → List V
  values t = map (λ e. e.1) t

module _ {K V : Type 0} ⦃k : Key K⦄ where
  -- `find` and `count`
  unfoldable pub lookup : K → Table K V → Option V
  lookup j [] = none
  lookup j ((i, v) ∷ t) = if i == j then some v else lookup j t

  unfoldable pub has_key : K → Table K V → Bool
  has_key j [] = false
  has_key j ((i, v) ∷ t) = i == j || has_key j t

  unfoldable pub add_key : K → V → Table K V → Table K V
  add_key j v [] = (j, v) ∷ []
  add_key j v ((i, w) ∷ t) = if k.lt j i then (j, v) ∷ (i, w) ∷ t else (i, w) ∷ add_key j v t

  unfoldable pub replace : K → V → Table K V → Table K V
  replace j v [] = []
  replace j v ((i, w) ∷ t) = (i, if i == j then v else w) ∷ replace j v t

  -- `t.erase(j)`
  unfoldable pub erase : K → Table K V → Table K V
  erase j [] = []
  erase j ((i, v) ∷ t) = if i == j then erase j t else (i, v) ∷ erase j t

  -- `t[j] = v`
  unfoldable pub put : K → V → Table K V → Table K V
  unfolding has_key
  put j v t = if has_key j t then replace j v t else add_key j v t

  -- `t.insert(pair(j, v))` keeps the value of a key that is there.
  unfoldable pub insert : K → V → Table K V → Table K V
  insert j v t = if has_key j t then t else add_key j v t

  pub has_key-lookup : (j : K) (v : V) (t : Table K V) → lookup j t ≡ some v → has_key j t ≡ true
  unfolding lookup has_key
  has_key-lookup j v [] e = cc
  has_key-lookup j v ((i, w) ∷ t) e = ground (arith, has_key-lookup j v t)

  pub lookup-has_key :
      (j : K) (t : Table K V) → has_key j t ≡ true → (v : V) × (lookup j t ≡ some v)
  unfolding lookup has_key
  lookup-has_key j [] e = cc
  lookup-has_key j ((i, v) ∷ t) e = elim (Bool-cases (i == j)) [
    | inl same ↦ (v, rw same refl)
    | inr other ↦
        let (w, found) = lookup-has_key j t (ground (arith, e, other)) in (w, rw other found)
  ]

  pub length-add_key : (j : K) (v : V) (t : Table K V) → length (add_key j v t) ≡ suc (length t)
  unfolding add_key
  length-add_key j v [] = refl
  length-add_key j v ((i, w) ∷ t) = ground (arith, length-add_key j v t)

  pub add_key-perm : (j : K) (v : V) (t : Table K V) → Perm (add_key j v t) ((j, v) ∷ t)
  unfolding add_key
  add_key-perm j v [] = Perm.refl _
  add_key-perm j v ((i, w) ∷ t) = elim (Bool-cases (k.lt j i)) [
    | inl first ↦ rw first (Perm.refl _)
    | inr later ↦
        rw later (Perm.trans (Perm.cons (i, w) (add_key-perm j v t)) (Perm.swap (j, v) (i, w) t))
  ]

  pub length-replace : (j : K) (v : V) (t : Table K V) → length (replace j v t) ≡ length t
  unfolding replace
  length-replace j v [] = refl
  length-replace j v ((i, w) ∷ t) = ap suc (length-replace j v t)

  pub has_key-add_key :
      (j i : K) (v : V) (t : Table K V) → has_key i (add_key j v t) ≡ (j == i || has_key i t)
  unfolding has_key add_key
  has_key-add_key j i v [] = refl
  has_key-add_key j i v ((h, w) ∷ t) = ground (arith, has_key-add_key j i v t)

  pub lookup-add_key :
      (j i : K) (v : V) (t : Table K V)
      → has_key j t ≡ false
      → lookup i (add_key j v t) ≡ (if j == i then some v else lookup i t)
  unfolding has_key add_key lookup
  lookup-add_key j i v [] h = refl
  lookup-add_key j i v ((h', w) ∷ t) h =
      ground (arith, lookup-add_key j i v t, k.beq_iff j i, k.beq_iff h' i, k.beq_iff h' j)

  pub lookup-replace :
      (j i : K) (v : V) (t : Table K V)
      → lookup i (replace j v t) ≡ (if j == i && has_key j t then some v else lookup i t)
  unfolding has_key replace lookup
  lookup-replace j i v [] = ground arith
  lookup-replace j i v ((h, w) ∷ t) =
      ground (arith, lookup-replace j i v t, k.beq_iff j i, k.beq_iff h i, k.beq_iff h j)

  pub lookup-put :
      (j i : K) (v : V) (t : Table K V)
      → lookup i (put j v t) ≡ (if j == i then some v else lookup i t)
  unfolding put
  lookup-put j i v t = ground (arith, lookup-replace j i v t, lookup-add_key j i v t)

  pub length-put :
      (j : K) (v : V) (t : Table K V)
      → length (put j v t) ≡ (if has_key j t then length t else suc (length t))
  unfolding put
  length-put j v t = ground (arith, length-replace j v t, length-add_key j v t)

  pub has_key-replace : (j i : K) (v : V) (t : Table K V) → has_key i (replace j v t) ≡ has_key i t
  unfolding has_key replace
  has_key-replace j i v [] = refl
  has_key-replace j i v ((h, w) ∷ t) = ground (arith, has_key-replace j i v t)

  pub has_key-put :
      (j i : K) (v : V) (t : Table K V) → has_key i (put j v t) ≡ (j == i || has_key i t)
  unfolding put
  has_key-put j i v t = elim (Bool-cases (j == i)) [
    | inl same ↦
        rw (sym ((k.beq_iff j i).0 same))
          (ground (arith, k.beq_iff j j, has_key-replace j j v t, has_key-add_key j j v t))
    | inr other ↦ ground (arith, has_key-replace j i v t, has_key-add_key j i v t)
  ]

  pub put_new : (j : K) (v : V) (t : Table K V) → has_key j t ≡ false → put j v t ≡ add_key j v t
  unfolding put
  put_new j v t h = rw h

  pub lookup-insert :
      (j i : K) (v : V) (t : Table K V)
      → lookup i (insert j v t)
        ≡ (if has_key j t then lookup i t else (if j == i then some v else lookup i t))
  unfolding insert
  lookup-insert j i v t = ground (arith, lookup-add_key j i v t)

  pub has_key-insert :
      (j i : K) (v : V) (t : Table K V) → has_key i (insert j v t) ≡ (j == i || has_key i t)
  unfolding insert
  has_key-insert j i v t = ground (arith, has_key-add_key j i v t, k.beq_iff j i)

  pub lookup-erase :
      (j i : K) (t : Table K V) → lookup i (erase j t) ≡ (if j == i then none else lookup i t)
  unfolding erase lookup
  lookup-erase j i [] = ground arith
  lookup-erase j i ((h, w) ∷ t) =
      ground (arith, lookup-erase j i t, k.beq_iff j i, k.beq_iff h i, k.beq_iff h j)

  pub erase-erase : (j i : K) (t : Table K V) → erase i (erase j t) ≡ erase j (erase i t)
  unfolding erase
  erase-erase j i [] = refl
  erase-erase j i ((h, w) ∷ t) = ground (arith, erase-erase j i t)

  -- No key stands twice in the table.
  abbrev pub Distinct : Table K V → Type 0
  Distinct [] = Unit {0}
  Distinct ((j, v) ∷ t) = (has_key j t ≡ false) × Distinct t

  pub has_key-append :
      (j : K) (t t' : Table K V) → has_key j (t ++ t') ≡ (has_key j t || has_key j t')
  unfolding has_key
  has_key-append j [] t' = refl
  has_key-append j ((i, v) ∷ t) t' = ground (arith, has_key-append j t t')

  pub lookup-append :
      (j : K) (v : V) (t t' : Table K V)
      → has_key j t ≡ false
      → lookup j (t ++ (j, v) ∷ t') ≡ some v
  unfolding has_key lookup
  lookup-append j v [] t' new = ground (arith, k.beq_iff j j)
  lookup-append j v ((i, w) ∷ t) t' new = ground (arith, lookup-append j v t t')

  has_key-head : (j : K) (v : V) (t : Table K V) → has_key j ((j, v) ∷ t) ≡ true
  unfolding has_key
  has_key-head j v t = ground (arith, k.beq_iff j j)

  replace_absent : (j : K) (v : V) (t : Table K V) → has_key j t ≡ false → replace j v t ≡ t
  unfolding has_key replace
  replace_absent j v [] new = refl
  replace_absent j v ((i, w) ∷ t) new = ground (arith, replace_absent j v t)

  replace-append :
      (j : K) (v w : V) (t t' : Table K V)
      → has_key j t ≡ false
      → has_key j t' ≡ false
      → replace j w (t ++ (j, v) ∷ t') ≡ t ++ (j, w) ∷ t'
  unfolding has_key replace
  replace-append j v w [] t' new new' = ground (arith, k.beq_iff j j, replace_absent j w t' new')
  replace-append j v w ((i, u) ∷ t) t' new new' = ground (arith, replace-append j v w t t')

  pub put-append :
      (j : K) (v w : V) (t t' : Table K V)
      → has_key j t ≡ false
      → has_key j t' ≡ false
      → put j w (t ++ (j, v) ∷ t') ≡ t ++ (j, w) ∷ t'
  unfolding put
  put-append j v w t t' new new' =
      let present : has_key j (t ++ (j, v) ∷ t') ≡ true =
        rw (has_key-append j t ((j, v) ∷ t'), new) (has_key-head j v t') in
      rw present (replace-append j v w t t' new new')

-- `std::set`
module _ {K : Type 0} ⦃k : Key K⦄ where
  unfoldable pub member : K → List K → Bool
  member j [] = false
  member j (i ∷ s) = i == j || member j s

  unfoldable pub add_member : K → List K → List K
  add_member j [] = j ∷ []
  add_member j (i ∷ s) = if k.lt j i then j ∷ i ∷ s else i ∷ add_member j s

  -- `s.insert(j)`
  unfoldable pub include : K → List K → List K
  unfolding member add_member
  include j s = if member j s then s else add_member j s

  -- `s.erase(j)`
  unfoldable pub exclude : K → List K → List K
  exclude j [] = []
  exclude j (i ∷ s) = if i == j then s else i ∷ exclude j s

  pub length-add_member : (j : K) (s : List K) → length (add_member j s) ≡ suc (length s)
  unfolding add_member
  length-add_member j [] = refl
  length-add_member j (i ∷ s) = ground (arith, length-add_member j s)

  pub add_member-perm : (j : K) (s : List K) → Perm (add_member j s) (j ∷ s)
  unfolding add_member
  add_member-perm j [] = Perm.refl _
  add_member-perm j (i ∷ s) = elim (Bool-cases (k.lt j i)) [
    | inl first ↦ rw first (Perm.refl _)
    | inr later ↦ rw later (Perm.trans (Perm.cons i (add_member-perm j s)) (Perm.swap j i s))
  ]

  pub include_new : (j : K) (s : List K) → member j s ≡ false → include j s ≡ add_member j s
  unfolding include
  include_new j s h = rw h

  pub length-include :
      (j : K) (s : List K)
      → length (include j s) ≡ (if member j s then length s else suc (length s))
  unfolding include
  length-include j s = ground (arith, length-add_member j s)

  pub member-add_member :
      (j i : K) (s : List K) → member i (add_member j s) ≡ (j == i || member i s)
  unfolding member add_member
  member-add_member j i [] = refl
  member-add_member j i (h ∷ s) = ground (arith, member-add_member j i s)
