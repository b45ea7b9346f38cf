-- ===== src/Tests/Syncing.antt =====
-- Instances of the theorems on the synchronisation algorithms, over the program's communication manager.
use fncs.Base.{
  ℕ, ◌≤◌, ◌<◌, ◌≡◌, ◌≢◌, refl, arith, ◌⊎◌, inl, false, Option, none, some, ok, undefined, List, [],
  ◌∷◌, ◌++◌, length, map, drop,
}
use fncs.Base.Actions.{Returns}
use fncs.Time.{unknown, infinity}
use fncs.CommManager.{CommManager, new_comm_manager, grace_period, communication}
use fncs.SyncAlgorithm.GracePeriod
use fncs.SyncAlgorithm.Communicator
use fncs.SyncAlgorithm.Following.{Followed, get_next_time-Followed}
use fncs.SyncAlgorithm.Granting.{get_next_time_lem}
use fncs.SyncAlgorithm.Stepping.{Finished}
use fncs.SyncAlgorithm.Reactive
use fncs.SyncAlgorithm.Sleeping
use fncs.SyncAlgorithm.Sleeping.{SleepingTick, remember}
use fncs.SyncAlgorithm.Keeping.{Keeps}
use fncs.SyncAlgorithm.Dozing.{Rested, sleeping_time_lem}
use fncs.SyncAlgorithm.Remembering.{finite, remember_lem}
use fncs.SyncAlgorithm.Reacting.{Told, reactive_time_lem}
use fncs.Integrator.{get_next_time}
use fncs.Integrator.Advancing.{Advanced, get_next_time-advances}
use fncs.Tests.Federating.{
  Federation, Idle, manager, seen, sleeper, participant, started-Idle, manager-Answers, loses-Idle,
  manager-Advances, sleeper-Rests,
}
use fncs.Tests.Mailbox.{settings}

nanoseconds-known : settings.sim_time_metric ≢ unknown
nanoseconds-known e = cc

get_next_time_lem_example :
    Returns
      (Finished (seen grace_period) 1 10 20)
      (GracePeriod.get_next_time settings manager 10 10 20 (participant grace_period))
unfolding new_comm_manager
get_next_time_lem_example =
    get_next_time_lem settings manager (seen grace_period) (manager-Answers grace_period)
      nanoseconds-known refl 10 20 (omega arith) (omega arith) (omega arith) 10
      (participant grace_period) (started-Idle grace_period) (omega arith) (omega arith)
      (omega arith) (omega arith) (omega arith)

get_next_time-advances_example : Returns (Advanced (seen grace_period) 10 20) (
    get_next_time settings manager
      (GracePeriod.get_next_time settings manager 10)
      10
      20
      (participant grace_period))
unfolding new_comm_manager
get_next_time-advances_example =
    get_next_time-advances settings manager (seen grace_period) (manager-Answers grace_period)
      nanoseconds-known 10 10 20 (participant grace_period) refl refl (omega arith) (omega arith)
      (omega arith) (started-Idle grace_period) (omega arith) (omega arith) (omega arith)
      (omega arith)

get_next_time-Followed_example :
    ((20 < 10)
      × (Communicator.get_next_time manager 10 20 (participant communication)
          ≡ (participant communication, ok 10)))
    ⊎ ((10 ≤ 20)
        × Returns
            (Followed (seen communication))
            (Communicator.get_next_time manager 10 20 (participant communication)))
unfolding new_comm_manager
get_next_time-Followed_example =
    get_next_time-Followed manager (seen communication) (manager-Answers communication) loses-Idle
      10 20 (participant communication) (started-Idle communication) (omega arith)

reactive_time_lem_example :
    Returns
      (Told (seen grace_period) 10 20)
      (Reactive.get_next_time settings manager 1 10 20 (participant grace_period))
unfolding new_comm_manager
reactive_time_lem_example =
    reactive_time_lem settings manager (seen grace_period) manager-Advances nanoseconds-known refl
      10 (omega arith) (omega arith) (omega arith) 1 20 (participant grace_period)
      (started-Idle grace_period) (omega arith) (omega arith) (omega arith) (omega arith)

abbrev told_times : List ℕ
told_times = 20 ∷ infinity ∷ 30 ∷ []

abbrev blank : List (Option ℕ)
blank = none ∷ none ∷ none ∷ []

remember_lem_example :
    ((length (finite told_times) ≤ length blank)
      × (remember told_times blank
          ≡ ok (map some (finite told_times) ++ drop (length (finite told_times)) blank)))
    ⊎ ((length blank < length (finite told_times)) × (remember told_times blank ≡ undefined))
remember_lem_example = remember_lem told_times blank

abbrev dozer : SleepingTick (CommManager Federation)
dozer = record {
  sync = participant grace_period;
  might_sleep = false;
  power_sim_granted_time = none ∷ [];
}

dozer-Keeps : Keeps (seen grace_period) (Idle grace_period false) 1 10 dozer
unfolding Keeps new_comm_manager
dozer-Keeps = (refl, refl, inl refl, started-Idle grace_period)

sleeping_time_lem_example :
    Returns
      (Rested (seen grace_period) 1 1 10 20)
      (Sleeping.get_next_time settings manager sleeper 10 10 20 dozer)
unfolding new_comm_manager
sleeping_time_lem_example =
    sleeping_time_lem settings manager sleeper (seen grace_period) 1 (manager-Answers grace_period)
      sleeper-Rests (omega arith) nanoseconds-known refl 10 20 (omega arith) (omega arith)
      (omega arith) 10 10 dozer refl (omega arith) (omega arith) (omega arith) (omega arith)
      (omega arith) dozer-Keeps
