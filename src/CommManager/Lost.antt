-- ===== src/CommManager/Lost.antt =====
-- commmanager/communicationcommanager.cpp: the network simulator's books on the messages under way.
use fncs.Base.{
  ℕ, ◌+◌, ◌<◌, ◌≤◌, ◌≡◌, refl, ap, ◌∙◌, arith, false, not, inl, inr, List, [], ◌∷◌, select, All,
  nat_key, ◌==◌, Table, erase, erase-erase, ltb, add64, Bool-cases,
}
use fncs.Settings.{Settings, grace_time}
use fncs.CommManager.{CommManager}
use fncs.CommManager.Timeouts.{find_lost, erase_each, calculate_lost}

abbrev pub total : Table ℕ ℕ → ℕ
total [] = 0
total ((time, n) ∷ packets) = n + total packets

-- The entries whose time is not before the given one
abbrev pub kept : (least_time : ℕ) → Table ℕ ℕ → Table ℕ ℕ
kept least_time = select (λ e. not (ltb (e.0) least_time))

find_lost-old : (l : ℕ) (packets : Table ℕ ℕ) → All (λ time. time < l) ((find_lost l packets).1)
unfolding find_lost
find_lost-old l [] = tt
find_lost-old l ((time, n) ∷ packets) = elim (Bool-cases (ltb time l)) [
  | inl old ↦ rw old (ground arith, find_lost-old l packets)
  | inr new ↦ rw new (find_lost-old l packets)
]

find_lost-total :
    (l : ℕ) (packets : Table ℕ ℕ) → (find_lost l packets).0 + total (kept l packets) ≡ total packets
unfolding find_lost
find_lost-total l [] = refl
find_lost-total l ((time, n) ∷ packets) = ground (arith, find_lost-total l packets)

erase_each-cons :
    (l : ℕ) (times : List ℕ) (time n : ℕ) (packets : Table ℕ ℕ)
    → All (λ time. time < l) times
    → l ≤ time
    → erase_each times ((time, n) ∷ packets) ≡ (time, n) ∷ erase_each times packets
unfolding erase_each erase
erase_each-cons l [] time n packets old new = refl
erase_each-cons l (j ∷ times) time n packets (first, old) new =
    let other : (time == j) ≡ false = ground arith in
    rw other (erase_each-cons l times time n (erase j packets) old new)

erase_each-erase :
    (times : List ℕ) (j : ℕ) (packets : Table ℕ ℕ)
    → erase_each times (erase j packets) ≡ erase j (erase_each times packets)
unfolding erase_each
erase_each-erase [] j packets = refl
erase_each-erase (i ∷ times) j packets =
    rw (erase-erase j i packets) (erase_each-erase times j (erase i packets))

erase-kept : (l j : ℕ) (packets : Table ℕ ℕ) → j < l → erase j (kept l packets) ≡ kept l packets
unfolding erase
erase-kept l j [] old = refl
erase-kept l j ((time, n) ∷ packets) old = ground (arith, erase-kept l j packets)

erase-head :
    (time n : ℕ) (packets : Table ℕ ℕ) → erase time ((time, n) ∷ packets) ≡ erase time packets
unfolding erase
erase-head time n packets = ground arith

erase_each-find_lost :
    (l : ℕ) (packets : Table ℕ ℕ) → erase_each ((find_lost l packets).1) packets ≡ kept l packets
unfolding find_lost erase_each
erase_each-find_lost l [] = refl
erase_each-find_lost l ((time, n) ∷ packets) = elim (Bool-cases (ltb time l)) [
  | inl old ↦ rw old (
      ap (erase_each ((find_lost l packets).1)) (erase-head time n packets)
      ∙ erase_each-erase ((find_lost l packets).1) time packets
      ∙ ap (erase time) (erase_each-find_lost l packets)
      ∙ erase-kept l time packets (ground arith))
  | inr new ↦ rw new (
      erase_each-cons l ((find_lost l packets).1) time n packets (find_lost-old l packets)
        (ground arith)
      ∙ ap (◌∷◌ (time, n)) (erase_each-find_lost l packets))
]

module _ {S : Type 0} where
  -- The network simulator's manager, when it looks for lost packets, forgets just the packets of times
  -- before the packet lost period and counts them as received: what it has received and what it
  -- still keeps make the same sum as before, modulo 2^64.
  pub calculate_lost_lem :
      (i : Settings) (current_time : ℕ) (m : CommManager S)
      → let m' = calculate_lost i current_time m in
        (m'.packets ≡ kept (grace_time i current_time) m.packets)
        × (add64 m'.receive_count (total m'.packets) ≡ add64 m.receive_count (total m.packets))
  unfolding calculate_lost
  calculate_lost_lem i current_time m =
      let least = grace_time i current_time in
      let left = erase_each-find_lost least m.packets in
      (left, rw left (omega (arith, find_lost-total least m.packets)))
