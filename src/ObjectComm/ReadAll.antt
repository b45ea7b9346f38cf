-- ===== src/ObjectComm/ReadAll.antt =====
-- `getAllInboxMessages` erases at positions that earlier erasures have moved.
use mathlib.Core.List.{map-append, append_assoc}
use fncs.Base.{
  ℕ, suc, ◌+◌, ◌≡◌, refl, ap, ◌∙◌, arith, Bool, true, false, Option, some, List, [], ◌∷◌, ◌++◌, map,
  length, length-append, length-map, select, All, ok,
}
use fncs.Settings.{Settings, get_cur_sim_time}
use fncs.Message.{Message}
use fncs.ObjectComm.{ObjectComm, locations, selected, erase_at, erase_all, get_all_inbox_messages}
use fncs.ObjectComm.Reading.{indices, locations-map-some, selected-map-some, erase_at-append}
use fncs.ObjectComm.Draining.{due}

module _ (p : Message → Bool) where
  abbrev pub None : List Message → Type 0
  None = All (λ m. p m ≡ false)

  indices_due :
      (i : ℕ) (xs : List Message) (m : Message) (ys : List Message)
      → None xs
      → p m ≡ true
      → indices p i (xs ++ m ∷ ys) ≡ (i + length xs) ∷ indices p (suc (i + length xs)) ys
  indices_due i [] m ys h due = let e : i + 0 ≡ i = omega arith in rw (due, e)
  indices_due i (x ∷ xs) m ys h due =
      let e : i + suc (length xs) ≡ suc i + length xs = omega arith in
      rw (h.0, e) (indices_due (suc i) xs m ys h.1 due)

  select_due :
      (xs : List Message) (m : Message) (ys : List Message)
      → None xs
      → p m ≡ true
      → select p (xs ++ m ∷ ys) ≡ m ∷ select p ys
  select_due [] m ys h due = rw due
  select_due (x ∷ xs) m ys h due = rw h.0 (select_due xs m ys h.1 due)

  select-None : (xs : List Message) → None xs → select p xs ≡ []
  select-None [] h = refl
  select-None (x ∷ xs) h = rw h.0 (select-None xs h.1)

  indices-None : (i : ℕ) (xs : List Message) → None xs → indices p i xs ≡ []
  indices-None i [] h = refl
  indices-None i (x ∷ xs) h = rw h.0 (indices-None (suc i) xs h.1)

erase_at-map-some :
    (n : ℕ) (xs : List Message) (m : Message) (ys : List Message)
    → length xs ≡ n
    → erase_at n (map some (xs ++ m ∷ ys)) ≡ ok (map some (xs ++ ys))
erase_at-map-some n xs m ys h =
    rw (map-append some xs (m ∷ ys), map-append some xs ys)
      (erase_at-append n (map some xs) (some m) (map some ys) (length-map some xs ∙ h))

regroup :
    (xs ys : List Message) (m : Message) (zs : List Message)
    → xs ++ (ys ++ m ∷ zs) ≡ (xs ++ (ys ++ m ∷ [])) ++ zs
regroup xs ys m zs = simp append_assoc

length-regroup :
    (xs ys : List Message) (m : Message)
    → length (xs ++ (ys ++ m ∷ [])) ≡ suc (0 + length xs) + length ys
length-regroup xs ys m = omega (arith, length-append xs (ys ++ m ∷ []), length-append ys (m ∷ []))

module _ (i : Settings) (t now : ℕ) (o : ObjectComm) (clock : get_cur_sim_time i t ≡ ok now) where
  get_all-eq :
      (box : List Message) {locs : List ℕ} {out : List Message} {final : List (Option Message)}
      → o.inbox ≡ map some box
      → indices (due i now) 0 box ≡ locs
      → select (due i now) box ≡ out
      → erase_all locs (map some box) ≡ ok final
      → get_all_inbox_messages i t o ≡ ok (record o { inbox = final }, out)
  unfolding get_all_inbox_messages
  get_all-eq box e l s f =
      let located =
        ap (locations (due i now) 0) e ∙ locations-map-some (due i now) 0 box ∙ ap ok l in
      let chosen = ap (selected (due i now)) e ∙ selected-map-some (due i now) box ∙ ap ok s in
      rw (clock, located, chosen, e, f)

  -- When one message of an inbox without null pointers is due, `getAllInboxMessages` returns it and
  -- erases it, and the others stay.
  pub get_all_inbox_messages_one :
      (xs ys : List Message) (m : Message)
      → o.inbox ≡ map some (xs ++ m ∷ ys)
      → due i now m ≡ true
      → None (due i now) xs
      → None (due i now) ys
      → get_all_inbox_messages i t o ≡ ok (record o { inbox = map some (xs ++ ys) }, m ∷ [])
  unfolding erase_all
  get_all_inbox_messages_one xs ys m e h hx hy =
      get_all-eq (xs ++ m ∷ ys) {locs = (0 + length xs) ∷ []} e
        (rw (indices_due (due i now) 0 xs m ys hx h, indices-None (due i now) _ ys hy))
        (rw (select_due (due i now) xs m ys hx h, select-None (due i now) ys hy))
        (rw (erase_at-map-some (0 + length xs) xs m ys (omega arith)))

  -- When two messages of an inbox without null pointers are due, and another one stands right
  -- behind the second, `getAllInboxMessages` returns the two; the second stays in the inbox all the
  -- same, and the one behind it is lost.
  pub get_all_inbox_messages_two :
      (xs ys zs : List Message) (m n w : Message)
      → o.inbox ≡ map some (xs ++ m ∷ (ys ++ n ∷ (w ∷ zs)))
      → due i now m ≡ true
      → due i now n ≡ true
      → None (due i now) xs
      → None (due i now) ys
      → None (due i now) (w ∷ zs)
      → get_all_inbox_messages i t o
        ≡ ok (record o { inbox = map some (xs ++ (ys ++ n ∷ zs)) }, m ∷ n ∷ [])
  unfolding erase_all
  get_all_inbox_messages_two xs ys zs m n w e hm hn hx hy hz =
      let p = due i now in
      get_all-eq (xs ++ m ∷ (ys ++ n ∷ w ∷ zs))
        {locs = (0 + length xs) ∷ (suc (0 + length xs) + length ys) ∷ []} e
        (rw (
          indices_due p 0 xs m (ys ++ n ∷ w ∷ zs) hx hm,
          indices_due p (suc (0 + length xs)) ys n (w ∷ zs) hy hn,
          indices-None p (suc (suc (0 + length xs) + length ys)) (w ∷ zs) hz,
        ))
        (rw (
          select_due p xs m (ys ++ n ∷ w ∷ zs) hx hm,
          select_due p ys n (w ∷ zs) hy hn,
          select-None p (w ∷ zs) hz,
        ))
        (rw (
          erase_at-map-some (0 + length xs) xs m (ys ++ n ∷ w ∷ zs) (omega arith),
          regroup xs ys n (w ∷ zs),
          erase_at-map-some (suc (0 + length xs) + length ys) (xs ++ (ys ++ n ∷ [])) w zs
              (length-regroup xs ys n),
          regroup xs ys n zs,
        ))
