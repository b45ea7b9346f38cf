-- ===== src/SyncAlgorithm/Keeping.antt =====
-- syncalgorithms/conservativesleepingtickalgo.cpp: the array of the other simulators' times, and that a
-- call of the manager leaves it as it is.
use fncs.Base.{
  ℕ, ◌<◌, ◌≡◌, refl, ◌∙◌, arith, ◌⊎◌, inl, inr, false, Option, none, some, Result, ok, throws,
  assert_fails, undefined, ap, List, [], ◌∷◌, length, nat_key, ◌==◌, Bool-cases,
}
use fncs.Base.Actions.{Action, Returns, Returns-imp}
use fncs.Time.{infinity}
use fncs.SyncAlgorithm.{Manager, Sync, ask}
use fncs.SyncAlgorithm.Answering.{View, Unanswered, Returns-ask}
use fncs.SyncAlgorithm.Sleeping.{SleepingTick, Sleeper, on_sync, remember, wake_first}
use fncs.SyncAlgorithm.Remembering.{finite}

-- Every entry of the array has been written.
unfoldable pub Known : List (Option ℕ) → Type 0
Known [] = Unit {0}
Known (none ∷ ts) = ⊥
Known (some t ∷ ts) = Known ts

-- Sleeping and asking for the times of the others come back and give no answer to a proposal. The times
-- are those of the `others` that are no network simulator.
pub record Rests {M : Type 0} (mg : Manager M) (sl : Sleeper M) (v : View M) (others : ℕ)
    : Type 0 where
  pub sleeps : Unanswered v v.Ready v.Ready sl.sleep
  pub gathers :
      (est : ℕ) (m : M)
      → v.Ready m
      → Returns
          (λ m' ts. (v.last m' ≡ v.last m) × v.Ready m' × (length (finite ts) ≡ others))
          (sl.get_next_times est m)
  pub resets : Unanswered {A = Unit {0}} v v.Due v.Due (λ m. (mg.reset_counters m, ok tt))

pub remember-Known :
    (ts : List ℕ) (stored : List (Option ℕ))
    → length (finite ts) ≡ length stored
    → (kept : List (Option ℕ)) × (remember ts stored ≡ ok kept)
      × (length kept ≡ length stored)
      × Known kept
unfolding remember finite Known
remember-Known [] [] e = ([], refl, refl, tt)
remember-Known [] (old ∷ stored) e = absurd (omega (arith, e))
remember-Known (t ∷ ts) [] e = elim (Bool-cases (t == infinity)) [
  | inl far ↦ rw far (remember-Known ts [] (ground (arith, e, far)))
  | inr near ↦ absurd (ground (arith, e, near))
]
remember-Known (t ∷ ts) (old ∷ stored) e = elim (Bool-cases (t == infinity)) [
  | inl far ↦ rw far (remember-Known ts (old ∷ stored) (ground (arith, e, far)))
  | inr near ↦
      let (kept, same, long, known) = remember-Known ts stored (ground (arith, e, near)) in
      rw (near, same) (some t ∷ kept, refl, omega (arith, long), known)
]

pub wake_first-Known :
    (stored : List (Option ℕ))
    → Known stored
    → 0 < length stored
    → (kept : List (Option ℕ)) × (wake_first stored ≡ ok kept)
      × (length kept ≡ length stored)
      × Known kept
unfolding wake_first Known
wake_first-Known [] known long = absurd (omega (arith, long))
wake_first-Known (none ∷ ts) known long = elim known [ ]
wake_first-Known (some t ∷ ts) known long = (some 0 ∷ ts, refl, refl, known)

-- The last answer is `l`, the array is as it should be, and the manager is in this state.
unfoldable pub Keeps :
    {M : Type 0} → (v : View M) → (P : M → Type 0) → (others l : ℕ) → SleepingTick M → Type 0
Keeps v P others l s =
    (v.last s.sync.interface ≡ l)
    × (length s.power_sim_granted_time ≡ others)
    × ((s.might_sleep ≡ false) ⊎ Known s.power_sim_granted_time)
    × P s.sync.interface

module _ {M A : Type 0} where
  stepped : SleepingTick M → Sync M × Result A → SleepingTick M × Result A
  stepped s r = (record s { sync = r.0 }, r.1)

  Returns-stepped :
      (Q : Sync M → A → Type 0) (s : SleepingTick M) (r : Sync M × Result A)
      → Returns Q r
      → Returns
          (λ s' a.
            Q s'.sync a
            × (s'.power_sim_granted_time ≡ s.power_sim_granted_time)
            × (s'.might_sleep ≡ s.might_sleep))
          (stepped s r)
  unfolding stepped
  Returns-stepped Q s (y, ok a) h = (h, refl, refl)
  Returns-stepped Q s (y, throws e) h = elim h [ ]
  Returns-stepped Q s (y, assert_fails) h = elim h [ ]
  Returns-stepped Q s (y, undefined) h = elim h [ ]

  -- A step of the common state leaves the array as it is.
  pub Returns-on_sync :
      (Q : Sync M → A → Type 0) (f : Action (Sync M) A) (s : SleepingTick M)
      → Returns Q (f s.sync)
      → Returns
          (λ s' a.
            Q s'.sync a
            × (s'.power_sim_granted_time ≡ s.power_sim_granted_time)
            × (s'.might_sleep ≡ s.might_sleep))
          (on_sync f s)
  unfolding stepped
  Returns-on_sync Q f s h = Returns-stepped Q s (f s.sync) h

  -- A call of the manager that gives the last answer
  pub answer-Keeps :
      (v : View M) (P P' : M → Type 0) (others l : ℕ) (as_number : A → ℕ) (Q : A → Type 0)
      (f : Action M A) (s : SleepingTick M)
      → Returns (λ m' r. (v.last m' ≡ as_number r) × P' m' × Q r) (f s.sync.interface)
      → Keeps v P others l s
      → Returns (λ s' r. Keeps v P' others (as_number r) s' × Q r) (on_sync (ask f) s)
  unfolding Keeps
  answer-Keeps v P P' others l as_number Q f s calls (e, long, filled, at) =
      Returns-imp
        (λ s' r.
          ((v.last s'.sync.interface ≡ as_number r) × P' s'.sync.interface × Q r)
          × (s'.power_sim_granted_time ≡ s.power_sim_granted_time)
          × (s'.might_sleep ≡ s.might_sleep))
        (λ s' r. Keeps v P' others (as_number r) s' × Q r) (on_sync (ask f) s)
        (Returns-on_sync (λ y r. (v.last y.interface ≡ as_number r) × P' y.interface × Q r) (ask f)
          s (Returns-ask (λ m' r. (v.last m' ≡ as_number r) × P' m' × Q r) f s.sync calls))
        (λ s' r h. ((h.0.0, ap length (h.1) ∙ long, rw (h.1, h.2) filled, h.0.1), h.0.2))

  -- So does a call of the manager, and what the call gives is known.
  pub ask-Keeps :
      (v : View M) (P P' : M → Type 0) (others l : ℕ) (Q : A → Type 0) (f : Action M A)
      (s : SleepingTick M)
      → ((m : M) → P m → Returns (λ m' a. (v.last m' ≡ v.last m) × P' m' × Q a) (f m))
      → Keeps v P others l s
      → Returns (λ s' a. Keeps v P' others l s' × Q a) (on_sync (ask f) s)
  unfolding Keeps
  ask-Keeps v P P' others l Q f s calls (e, long, filled, at) =
      Returns-imp
        (λ s' a.
          ((v.last s'.sync.interface ≡ v.last s.sync.interface) × P' s'.sync.interface × Q a)
          × (s'.power_sim_granted_time ≡ s.power_sim_granted_time)
          × (s'.might_sleep ≡ s.might_sleep))
        (λ s' a. Keeps v P' others l s' × Q a) (on_sync (ask f) s)
        (Returns-on_sync
          (λ y a. (v.last y.interface ≡ v.last s.sync.interface) × P' y.interface × Q a) (ask f) s
          (Returns-ask (λ m' a. (v.last m' ≡ v.last s.sync.interface) × P' m' × Q a) f s.sync
            (calls s.sync.interface at)))
        (λ s' a h. ((h.0.0 ∙ e, ap length (h.1) ∙ long, rw (h.1, h.2) filled, h.0.1), h.0.2))
