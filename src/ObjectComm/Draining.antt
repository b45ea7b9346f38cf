-- ===== src/ObjectComm/Draining.antt =====
-- The reading protocol: `while (hasMoreMessages()) f(getNextInboxMessage());`
use mathlib.Core.List.{append-nil}
use fncs.Base.{
  ℕ, zero, suc, ◌+◌, ◌≡◌, ◌<◌, refl, ap, sym, ◌∙◌, arith, Bool, true, false, Option, none, some,
  List, [], ◌∷◌, ◌++◌, map, length, length-append, ==_iff, append_snoc, select, Bool-cases, inl,
  inr, Result, ok, undefined, ◌>>=◌, nat_key, ◌==◌, get_elem?-append, set-append,
}
use fncs.Settings.{Settings, get_cur_sim_time, grace_time}
use fncs.Message.{Message}
use fncs.ObjectComm.{
  ObjectComm, in_window, locations, erase_shifted, found, move_to, has_more_messages,
  get_next_inbox_message,
}
use fncs.ObjectComm.Reading.{
  indices, taken_out, others, locations-map-some, erase_shifted-taken_out,
}

-- One round reads one message, so rounds beyond the size of the inbox are not needed. `none`: the
-- fuel ran out.
abbrev continue :
    (ObjectComm → List Message → Result (Option (ObjectComm × List Message)))
    → List Message
    → ObjectComm × Option Message
    → Result (Option (ObjectComm × List Message))
continue rest out (o, none) = undefined
continue rest out (o, some m) = rest o (out ++ (m ∷ []))

abbrev resume :
    (ObjectComm → List Message → Result (Option (ObjectComm × List Message)))
    → List Message
    → ObjectComm × Bool
    → Result (Option (ObjectComm × List Message))
resume rest out (o, false) = ok (some (o, out))
resume rest out (o, true) = get_next_inbox_message o >>= continue rest out

unfoldable pub drain :
    Settings → ℕ → ℕ → ObjectComm → List Message → Result (Option (ObjectComm × List Message))
drain i t zero o out = ok none
drain i t (suc f) o out = has_more_messages i t o >>= resume (drain i t f) out

module _ (i : Settings) (t : ℕ) (p : Message → Bool) (o : ObjectComm) where
  -- The mailbox with `xs` still to be read.
  abbrev reading : List (Option Message) → List Message → List ℕ → ℕ → ℕ → ObjectComm
  reading before xs seen k j = record o {
    inbox = before ++ map some xs;
    msgs = seen ++ indices p k xs;
    it = j;
  }

  abbrev finished : List (Option Message) → ObjectComm
  finished inbox = record o { inbox = inbox; msgs = []; it = 0 }

  move_to_end :
      (before : List (Option Message)) (seen : List ℕ) (k j : ℕ) {final : List (Option Message)}
      → erase_shifted (seen ++ []) 0 (before ++ []) ≡ ok final
      → move_to (reading before [] seen k j) (length seen) ≡ ok (finished final, false)
  unfolding move_to
  move_to_end before seen k j h =
      let e : (length seen == length (seen ++ [])) ≡ true =
        (==_iff _ _).1 (omega (arith, length-append seen [])) in
      rw (e, h)

  move_to_due :
      (m : Message) (xs : List Message) (before : List (Option Message)) (seen : List ℕ) (k j : ℕ)
      → p m ≡ true
      → move_to (reading before (m ∷ xs) seen k j) (length seen)
        ≡ ok (reading before (m ∷ xs) seen k (length seen), true)
  unfolding move_to
  move_to_due m xs before seen k j due =
      let e : (length seen == length (seen ++ k ∷ indices p (suc k) xs)) ≡ false =
        ground (arith, length-append seen (k ∷ indices p (suc k) xs)) in
      rw (due, e)

  take_due :
      (m : Message) (xs : List Message) (before : List (Option Message)) (seen : List ℕ) (k : ℕ)
      → p m ≡ true
      → k ≡ length before
      → get_next_inbox_message (reading before (m ∷ xs) seen k (length seen))
        ≡ ok (reading (before ++ none ∷ []) xs (seen ++ k ∷ []) (suc k) (length seen), some m)
  unfolding get_next_inbox_message
  take_due m xs before seen k due h = rw (
    due,
    get_elem?-append (length seen) seen k (indices p (suc k) xs) refl,
    get_elem?-append k before (some m) (map some xs) (sym h),
    set-append k before (some m) none (map some xs) (sym h),
    append_snoc before none (map some xs),
    append_snoc seen k (indices p (suc k) xs),
  )

  has_more-reading :
      (before : List (Option Message)) (xs : List Message) (seen : List ℕ) (i' k j : ℕ)
      → has_more_messages i t (reading before xs (seen ++ i' ∷ []) k j)
        ≡ move_to (reading before xs (seen ++ i' ∷ []) k j) (suc j)
  unfolding has_more_messages
  has_more-reading before xs seen i' k j =
      let msgs = (seen ++ i' ∷ []) ++ indices p k xs in
      let e : (length msgs == 0) ≡ false =
        ground
          (arith, length-append (seen ++ i' ∷ []) (indices p k xs), length-append seen (i' ∷ [])) in
      rw e

  drain_from :
      (xs : List Message) (before : List (Option Message)) (seen : List ℕ) (k j f : ℕ)
      (out : List Message) {final : List (Option Message)}
      → k ≡ length before
      → length xs < f
      → erase_shifted (seen ++ indices p k xs) 0 (before ++ taken_out p xs) ≡ ok final
      → (move_to (reading before xs seen k j) (length seen) >>= resume (drain i t f) out)
        ≡ ok (some (finished final, out ++ select p xs))
  unfolding drain
  drain_from [] before seen k j f out h fuel e = rw (move_to_end before seen k j e, append-nil out)
  drain_from (m ∷ xs) before seen k j zero out h fuel e = absurd (omega arith)
  drain_from (m ∷ xs) before seen k j (suc f) out h fuel e = elim (Bool-cases (p m)) [
    | inl due ↦
        let n : suc (length seen) ≡ length (seen ++ k ∷ []) =
          omega (arith, length-append seen (k ∷ [])) in
        rw
          (
            move_to_due m xs before seen k j due,
            take_due m xs before seen k due h,
            has_more-reading (before ++ none ∷ []) xs seen k (suc k) (length seen),
            n,
            due,
            append_snoc out m (select p xs),
          )
          (drain_from xs (before ++ none ∷ []) (seen ++ k ∷ []) (suc k) (length seen) f
            (out ++ m ∷ []) (omega (arith, length-append before (none ∷ []))) (omega arith)
            (rw (due, append_snoc seen k _, append_snoc before none _) at e))
    | inr kept ↦
        rw (kept, append_snoc before (some m) (map some xs))
          (drain_from xs (before ++ some m ∷ []) seen (suc k) j (suc f) out
            (omega (arith, length-append before (some m ∷ []))) (omega arith)
            (rw (kept, append_snoc before (some m) (taken_out p xs)) at e))
  ]

-- A mailbox between two readings: no iteration is under way, and no message was taken.
pub record IsIdle (o : ObjectComm) (xs : List Message) : Type 0 where
  pub inbox : o.inbox ≡ map some xs
  pub msgs : o.msgs ≡ []
  pub it : o.it ≡ 0

abbrev pub due : Settings → ℕ → Message → Bool
due i now = in_window now (grace_time i now)

found-eq-move_to :
    (o : ObjectComm) (box : List (Option Message)) (ms : List ℕ)
    → o.inbox ≡ box
    → o.msgs ≡ []
    → o.it ≡ 0
    → found o ms ≡ move_to (record o { inbox = box; msgs = ms; it = 0 }) 0
unfolding found move_to erase_shifted
found-eq-move_to o box [] e f g = ground arith
found-eq-move_to o box (m ∷ ms) e f g = ground arith

find_messages-eq-move_to :
    (i : Settings) (t now : ℕ) (o : ObjectComm) (xs : List Message)
    → get_cur_sim_time i t ≡ ok now
    → IsIdle o xs
    → has_more_messages i t o ≡ move_to (reading i t (due i now) o [] xs [] 0 0) 0
unfolding has_more_messages
find_messages-eq-move_to i t now o xs clock idle =
    let none_found : (length o.msgs == 0) ≡ true = ground (arith, idle.msgs) in
    let located : locations (due i now) 0 o.inbox ≡ ok (indices (due i now) 0 xs) =
      ap (locations (due i now) 0) idle.inbox ∙ locations-map-some (due i now) 0 xs in
    rw (none_found, clock, located)
      (found-eq-move_to o (map some xs) (indices (due i now) 0 xs) idle.inbox idle.msgs idle.it)

-- While the clock shows `now`, the reading loop over a mailbox between two readings ends within two
-- rounds more than there are messages. It returns the due messages in the order in which they came,
-- each once, and leaves in the inbox just the others, in order, ready for the next reading.
pub drain-eq-select :
    (i : Settings) (t now f : ℕ) (o : ObjectComm) (xs : List Message)
    → get_cur_sim_time i t ≡ ok now
    → IsIdle o xs
    → length xs + 1 < f
    → drain i t f o []
      ≡ ok (
          some (
            (
              record o { inbox = map some (others (due i now) xs); msgs = []; it = 0 },
              select (due i now) xs,
            )))
drain-eq-select i t now zero o xs clock idle fuel = absurd (omega arith)
drain-eq-select i t now (suc f) o xs clock idle fuel =
    unfold drain in
    rw (find_messages-eq-move_to i t now o xs clock idle) (
      drain_from i t (due i now) o xs [] [] 0 0 f [] refl (omega arith)
        (erase_shifted-taken_out (due i now) xs [] 0 0 refl))
