-- ===== src/SyncAlgorithm/Sleeping.antt =====
-- syncalgorithms/conservativesleepingtickalgo.cpp: the algorithm of a tick-based simulator that sleeps
-- until the network simulator has caught up. Its array `powersimgrantedTime` is a list with `none`
-- where nothing has been written; what lies beyond its end is undefined. A call that needs more rounds
-- than its fuel gives `none`.
use fncs.Base.{
  ℕ, zero, suc, Bool, true, false, not, ◌&&◌, ◌||◌, Option, none, some, Result, ok, undefined, List,
  [], ◌∷◌, nat_key, ◌==◌, leb, ltb, if◌then◌else◌, add64, map_result,
}
use fncs.Base.Actions.{Action, pure, modify, gets, lift, ◌>>=◌, ◌>>◌}
use fncs.Time.{infinity}
use fncs.Settings.{Settings}
use fncs.SyncAlgorithm.{Manager, Sync, ask, Round, again, returns}
use fncs.SyncAlgorithm.GracePeriod.{judge}

-- The members of `ConservativeSleepingTickAlgo`; its `diff` is that of `sync`.
pub record SleepingTick (M : Type 0) : Type 0 where
  pub sync : Sync M
  pub might_sleep : Bool
  pub power_sim_granted_time : List (Option ℕ)

-- The two calls of the manager that no other algorithm makes
pub record Sleeper (M : Type 0) : Type 0 where
  pub sleep : Action M Bool
  pub get_next_times : ℕ → Action M (List ℕ)

-- The loop over the answers of `getNextTimes`: the times are written in order, but for infinity.
unfoldable pub remember :
    (next_times : List ℕ) (stored : List (Option ℕ)) → Result (List (Option ℕ))
remember [] stored = ok stored
remember (t ∷ ts) [] = let rest = remember ts [] in if t == infinity then rest else undefined
remember (t ∷ ts) (old ∷ stored) =
    let skipped = remember ts (old ∷ stored) in
    let rest = remember ts stored in
    if t == infinity then skipped else map_result (λ ts'. some t ∷ ts') rest

-- The entry that a message writes to wake the other simulators
unfoldable pub wake_first : List (Option ℕ) → Result (List (Option ℕ))
wake_first [] = undefined
wake_first (old ∷ stored) = ok (some 0 ∷ stored)

module _ {M : Type 0} where
  -- A step of an algorithm's common state
  abbrev pub on_sync : {A : Type 0} → Action (Sync M) A → Action (SleepingTick M) A
  on_sync f s = let r = f s.sync in (record s { sync = r.0 }, r.1)

  abbrev pub set_might_sleep : Bool → SleepingTick M → SleepingTick M
  set_might_sleep b s = record s { might_sleep = b }

  abbrev pub store : List (Option ℕ) → SleepingTick M → SleepingTick M
  store stored s = record s { power_sim_granted_time = stored }

  abbrev pub store_all : Result (List (Option ℕ)) → Action (SleepingTick M) (Unit {0})
  store_all r = do stored ← lift r; modify (store stored)

  abbrev pub set_diff : ℕ → SleepingTick M → SleepingTick M
  set_diff d s = record s { sync = record s.sync { diff = d } }

module _ {M : Type 0} (i : Settings) (mg : Manager M) (sl : Sleeper M) where
  -- A call of `sleep` that clears `mightSleep`
  unfoldable pub sleep_once : Action (SleepingTick M) Bool
  sleep_once = do result ← on_sync (ask sl.sleep); modify (set_might_sleep false); pure result

  -- The loop that wakes simulators: it sleeps once for each that was granted no later time.
  unfoldable pub wake_others :
      (next_time : ℕ) → List (Option ℕ) → Action (SleepingTick M) (Unit {0})
  unfolding sleep_once
  wake_others next_time [] = pure tt
  wake_others next_time (none ∷ rest) = lift undefined
  wake_others next_time (some t ∷ rest) = do
    (if leb t next_time then (sleep_once >> pure tt) else pure tt)
    wake_others next_time rest

  -- The wait at the start of a round; it gives the new value of `needToRespond`.
  unfoldable pub wait_round : (need busywait : Bool) → Action (SleepingTick M) Bool
  unfolding sleep_once
  wait_round need busywait s =
      if not busywait
      then (s, ok need)
      else (if s.sync.diff == 0
          then (do result ← sleep_once; pure (need || result)) s
          else (on_sync (ask mg.waitfor_all) >> pure need) s)

  -- A message that is under way wakes the simulators that may sleep.
  unfoldable pub note_message : (stable : Bool) → Action (SleepingTick M) (Unit {0})
  unfolding wake_first
  note_message stable s =
      if not stable && s.might_sleep
      then store_all (wake_first s.power_sim_granted_time) s
      else (s, ok tt)

  -- How long the other simulators need to sleep is asked for when no message is under way.
  unfoldable pub note_times : (est diff : ℕ) → Action (SleepingTick M) (Unit {0})
  unfolding remember
  note_times est diff s =
      if not s.might_sleep && diff == 0
      then (do
        next_times ← on_sync (ask (sl.get_next_times est))
        stored ← gets (λ s'. s'.power_sim_granted_time)
        store_all (remember next_times stored)
        modify (set_might_sleep true))
          s
      else (s, ok tt)

  -- One round of the loop
  unfoldable pub sleeping_round :
      (current_time next_time : ℕ) (need busywait : Bool) → Action (SleepingTick M) Round
  unfolding wait_round judge note_message note_times
  sleeping_round current_time next_time need busywait = do
    need' ← wait_round need busywait
    diff ← on_sync (ask mg.reduce_total_send_receive)
    modify (set_diff diff)
    on_sync (ask mg.reduce_network_delay)
    (if diff == 0 then on_sync (ask (λ m. (mg.reset_counters m, ok tt))) else pure tt)
    let stable = diff == 0 && not need'
    let est = if stable then next_time else add64 current_time i.one_time_step
    note_message stable
    min_next_time ← on_sync (ask (mg.reduce_min_time est))
    note_times est diff
    on_sync (judge i mg current_time est min_next_time (not stable) busywait)

  unfoldable pub sleeping_loop :
      (fuel current_time next_time : ℕ) (need busywait : Bool) → Action (SleepingTick M) (Option ℕ)
  unfolding sleeping_round
  sleeping_loop zero current_time next_time need busywait = pure none
  sleeping_loop (suc fuel) current_time next_time need busywait = do
    r ← sleeping_round current_time next_time need busywait
    elim r [
      | returns t ↦ pure (some t)
      | again current need' busywait' ↦ sleeping_loop fuel current next_time need' busywait'
    ]

  -- `ConservativeSleepingTickAlgo::GetNextTime`
  unfoldable pub get_next_time :
      (fuel current_time next_time : ℕ) → Action (SleepingTick M) (Option ℕ)
  unfolding sleeping_loop wake_others
  get_next_time fuel current_time next_time s =
      let granted = s.sync.granted_time in
      let behind = ltb current_time granted in
      if ltb next_time granted
      then (s, ok (some next_time))
      else ((if s.might_sleep then wake_others next_time s.power_sim_granted_time else pure tt)
            >> sleeping_loop fuel (if behind then granted else current_time) next_time false behind)
          s

  -- `ConservativeSleepingTickAlgo::timeStepStart`
  unfoldable pub time_step_start : (current_time : ℕ) → Action (SleepingTick M) (Unit {0})
  time_step_start current_time s =
      if ltb current_time s.sync.granted_time then (s, ok tt) else on_sync (ask mg.waitfor_all) s
