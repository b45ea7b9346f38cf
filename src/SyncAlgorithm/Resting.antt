-- ===== src/SyncAlgorithm/Resting.antt =====
-- syncalgorithms/conservativesleepingtickalgo.cpp: what the steps of a round keep, where the calls of the
-- manager come back.
use fncs.Base.{
  ℕ, ◌<◌, ◌≡◌, refl, ◌∙◌, arith, inl, inr, Bool, true, false, not, ◌&&◌, Option, none, some, Result,
  ok, throws, assert_fails, undefined, ap, sym, subst, List, [], ◌∷◌, length, nat_key, ◌==◌, leb,
  if◌then◌else◌, Bool-cases,
}
use fncs.Base.Actions.{Action, Returns, Returns->>=, Returns-imp, pure, modify, ◌>>◌}
use fncs.Settings.{Settings}
use fncs.SyncAlgorithm.{Manager, ask}
use fncs.SyncAlgorithm.Answering.{View, Unanswered, Answers}
use fncs.SyncAlgorithm.Sleeping.{
  SleepingTick, Sleeper, on_sync, set_might_sleep, store_all, store_all, remember, wake_first,
  sleep_once, wake_others, wait_round, note_message, note_times,
}
use fncs.SyncAlgorithm.Remembering.{finite}
use fncs.SyncAlgorithm.Keeping.{Known, Rests, remember-Known, wake_first-Known, Keeps, ask-Keeps}

module _ {M : Type 0} (i : Settings) (mg : Manager M) (sl : Sleeper M) (v : View M) (others : ℕ)
    (a : Answers mg v) (b : Rests mg sl v others) (company : 0 < others) where
  -- A call whose result does not matter
  pub calls-Keeps :
      {A : Type 0} (P P' : M → Type 0) (l : ℕ) (f : Action M A) (s : SleepingTick M)
      → Unanswered v P P' f
      → Keeps v P others l s
      → Returns (λ s' _. Keeps v P' others l s') (on_sync (ask f) s)
  calls-Keeps {A = A} P P' l f s calls k =
      Returns-imp (λ s' _. Keeps v P' others l s' × Unit {0}) (λ s' _. Keeps v P' others l s')
        (on_sync (ask f) s)
        (ask-Keeps v P P' others l (λ _. Unit {0}) f s
          (λ m at.
            Returns-imp (λ m' _. (v.last m' ≡ v.last m) × P' m')
              (λ m' _. (v.last m' ≡ v.last m) × P' m' × Unit {0}) (f m) (calls m at)
              (λ m' x h. (h.0, h.1, tt)))
          k)
        (λ s' x h. h.0)

  sleep_once-Keeps :
      (l : ℕ) (s : SleepingTick M)
      → Keeps v v.Ready others l s
      → Returns (λ s' _. Keeps v v.Ready others l s') (sleep_once i mg sl s)
  unfolding sleep_once Keeps
  sleep_once-Keeps l s k =
      Returns->>= (λ s' _. Keeps v v.Ready others l s') (λ s' _. Keeps v v.Ready others l s')
        (on_sync (ask sl.sleep) s) _ (calls-Keeps v.Ready v.Ready l sl.sleep s b.sleeps k)
        (λ s' r (e, long, filled, at). (e, long, inl refl, at))

  pub wake_others-Keeps :
      (l next : ℕ) (ts : List (Option ℕ)) (s : SleepingTick M)
      → Known ts
      → Keeps v v.Ready others l s
      → Returns (λ s' _. Keeps v v.Ready others l s') (wake_others i mg sl next ts s)
  unfolding wake_others Known
  wake_others-Keeps l next [] s known k = k
  wake_others-Keeps l next (none ∷ ts) s known k = elim known [ ]
  wake_others-Keeps l next (some t ∷ ts) s known k = elim (Bool-cases (leb t next)) [
    | inl due ↦ rw due (
        Returns->>= (λ s' _. Keeps v v.Ready others l s') (λ s' _. Keeps v v.Ready others l s')
          ((sleep_once i mg sl >> pure tt) s) _
          (Returns->>= (λ s' _. Keeps v v.Ready others l s') (λ s' _. Keeps v v.Ready others l s')
            (sleep_once i mg sl s) _ (sleep_once-Keeps l s k) (λ s' r k'. k'))
          (λ s' r k'. wake_others-Keeps l next ts s' known k'))
    | inr later ↦ rw later (wake_others-Keeps l next ts s known k)
  ]

  pub wait_round-Keeps :
      (l : ℕ) (need busywait : Bool) (s : SleepingTick M)
      → Keeps v v.Ready others l s
      → Returns (λ s' _. Keeps v v.Ready others l s') (wait_round i mg sl need busywait s)
  unfolding wait_round
  wait_round-Keeps l need false s k = k
  wait_round-Keeps l need true s k = elim (Bool-cases (s.sync.diff == 0)) [
    | inl stable ↦ rw stable (
        Returns->>= (λ s' _. Keeps v v.Ready others l s') (λ s' _. Keeps v v.Ready others l s')
          (sleep_once i mg sl s) _ (sleep_once-Keeps l s k) (λ s' r k'. k'))
    | inr moving ↦ rw moving (
        Returns->>= (λ s' _. Keeps v v.Ready others l s') (λ s' _. Keeps v v.Ready others l s')
          (on_sync (ask mg.waitfor_all) s) _
          (calls-Keeps v.Ready v.Ready l mg.waitfor_all s a.waits k) (λ s' r k'. k'))
  ]

  store_all-Keeps :
      (P : M → Type 0) (l : ℕ) (s : SleepingTick M) (r : Result (List (Option ℕ)))
      (kept : List (Option ℕ))
      → r ≡ ok kept
      → length kept ≡ length s.power_sim_granted_time
      → Known kept
      → Keeps v P others l s
      → Returns (λ s' _. Keeps v P others l s' × Known s'.power_sim_granted_time) (store_all r s)
  unfolding Keeps
  store_all-Keeps P l s (ok got) kept e long' known (same, long, filled, at) =
      let copied : kept ≡ got = cc in
      let known' = subst Known copied known in
      ((same, ap length (sym copied) ∙ long' ∙ long, inr known', at), known')
  store_all-Keeps P l s (throws x) kept e long' known k = absurd cc
  store_all-Keeps P l s assert_fails kept e long' known k = absurd cc
  store_all-Keeps P l s undefined kept e long' known k = absurd cc

  branched :
      (P : SleepingTick M → Unit {0} → Type 0) (c : Bool) (x y : SleepingTick M × Result (Unit {0}))
      → (c ≡ true → Returns P x)
      → (c ≡ false → Returns P y)
      → Returns P (if c then x else y)
  branched P true x y h h' = h refl
  branched P false x y h h' = h' refl

  pub Keeps-Known :
      (P : M → Type 0) (l : ℕ) (s : SleepingTick M)
      → Keeps v P others l s
      → s.might_sleep ≡ true
      → Known s.power_sim_granted_time
  unfolding Keeps
  Keeps-Known P l s (e, long, inl awake, at) asleep = absurd cc
  Keeps-Known P l s (e, long, inr known, at) asleep = known

  Keeps-length :
      (P : M → Type 0) (l : ℕ) (s : SleepingTick M)
      → Keeps v P others l s
      → length s.power_sim_granted_time ≡ others
  unfolding Keeps
  Keeps-length P l s k = k.1

  pub note_message-Keeps :
      (P : M → Type 0) (l : ℕ) (stable : Bool) (s : SleepingTick M)
      → Keeps v P others l s
      → Returns (λ s' _. Keeps v P others l s') (note_message i mg sl stable s)
  unfolding note_message
  note_message-Keeps P l true s k = k
  note_message-Keeps P l false s k =
      branched (λ s' _. Keeps v P others l s') s.might_sleep _ _
        (λ asleep.
          let ts = s.power_sim_granted_time in
          let (kept, same, long', known') =
            wake_first-Known ts (Keeps-Known P l s k asleep)
              (omega (arith, Keeps-length P l s k, company)) in
          Returns-imp (λ s' _. Keeps v P others l s' × Known s'.power_sim_granted_time)
            (λ s' _. Keeps v P others l s') (store_all (wake_first ts) s)
            (store_all-Keeps P l s (wake_first ts) kept same long' known' k) (λ s' x h. h.0))
        (λ awake. k)

  might_sleep-Keeps :
      (l : ℕ) (s : SleepingTick M)
      → Keeps v v.Ready others l s
      → Known s.power_sim_granted_time
      → Keeps v v.Ready others l (set_might_sleep true s)
  unfolding Keeps
  might_sleep-Keeps l s (e, long, filled, at) known = (e, long, inr known, at)

  remembered-Keeps :
      (l : ℕ) (s : SleepingTick M) (ts : List ℕ)
      → Keeps v v.Ready others l s
      → length (finite ts) ≡ others
      → Returns
          (λ s' _. Keeps v v.Ready others l s')
          ((store_all (remember ts s.power_sim_granted_time) >> modify (set_might_sleep true)) s)
  remembered-Keeps l s ts k count =
      let (kept, same, long', known) =
        remember-Known ts s.power_sim_granted_time (count ∙ sym (Keeps-length v.Ready l s k)) in
      Returns->>= (λ s' _. Keeps v v.Ready others l s' × Known s'.power_sim_granted_time)
        (λ s' _. Keeps v v.Ready others l s') (store_all (remember ts s.power_sim_granted_time) s) _
        (store_all-Keeps v.Ready l s (remember ts s.power_sim_granted_time) kept same long' known k)
        (λ s' x h. might_sleep-Keeps l s' (h.0) (h.1))

  pub note_times-Keeps :
      (l est diff : ℕ) (s : SleepingTick M)
      → Keeps v v.Ready others l s
      → Returns (λ s' _. Keeps v v.Ready others l s') (note_times i mg sl est diff s)
  unfolding note_times
  note_times-Keeps l est diff s k = elim (Bool-cases (not s.might_sleep && diff == 0)) [
    | inr told ↦ rw told k
    | inl untold ↦ rw untold (
        Returns->>= (λ s' ts. Keeps v v.Ready others l s' × (length (finite ts) ≡ others))
          (λ s' _. Keeps v v.Ready others l s') (on_sync (ask (sl.get_next_times est)) s) _
          (ask-Keeps v v.Ready v.Ready others l (λ ts. length (finite ts) ≡ others)
            (sl.get_next_times est) s (b.gathers est) k)
          (λ s' ts h. remembered-Keeps l s' ts (h.0) (h.1)))
  ]
