-- ===== src/SyncAlgorithm/Optimistic.antt =====
-- syncalgorithms/optimisticticksyncalgo.h and .cpp: the processes of an optimistic algorithm. One process
-- is modelled; what it asks of the operating system, and a segment of memory that it shares with another
-- process, are a parameter. The segment may have changed whenever it is read.
pub mod Deciding
pub mod Tick
pub mod Comm
pub mod Roles
pub mod Leading
pub mod Runs
pub mod Agreeing
pub mod Deserting
pub mod Histories
use fncs.Base.{
  ℕ, Bool, true, false, not, ◌&&◌, Option, none, some, Result, ok, throws, assert_fails, undefined,
  sync_state_exception, ltb, if◌then◌else◌,
}
use fncs.Base.Actions.{Action, pure, raise_if, modify, gets, lift, ◌>>=◌, ◌>>◌}
use fncs.Time.{infinity}
use fncs.Message.{Message}
use fncs.Speculation.{Speculation, send_unknown_action, speculation_failed, speculation_succeeded}
use fncs.SyncAlgorithm.{Manager, Sync, ask, new_sync}

-- `ACTION_DOFAILLALL` and the others
abbrev pub action_do_fail_all : ℕ
action_do_fail_all = 0

abbrev pub action_no_info : ℕ
action_no_info = 1

abbrev pub action_failed : ℕ
action_failed = 2

abbrev pub action_success : ℕ
action_success = 3

abbrev pub action_undefined : ℕ
action_undefined = 4

-- What `fork` tells a process that goes on after it
pub data Fork : Type 0 where
  fork_failed : Fork
  in_child : Fork
  in_parent : (child : ℕ) → Fork

-- The calls of the operating system: `kill` is with SIGKILL, `shm_remove` is `shmctl` with IPC_RMID, and
-- the segment is read and written through the pointer that `shmat` gives. A negative answer is `none` or
-- `false`.
pub record System (Y : Type 0) : Type 0 where
  pub fork : Y → Y × Fork
  pub get_pid : Y → ℕ
  pub get_ppid : Y → ℕ
  pub kill : (pid : ℕ) → Y → Y
  pub wait : Y → Y
  pub shm_get : (key : ℕ) → Y → Y × Option ℕ
  pub shm_at : Option ℕ → Y → Y × Bool
  pub shm_dt : Y → Y × Bool
  pub shm_remove : ℕ → Y → Y
  pub read_action : Y → Y × ℕ
  pub read_fail_time : Y → Y × ℕ
  pub write_action : ℕ → Y → Y
  pub write_fail_time : ℕ → Y → Y

-- What these algorithms ask of the communication manager besides the operations of `Manager`.
-- `duplicate` leaves the manager in the state of the copy, which replaces it.
pub record Forking (M : Type 0) : Type 0 where
  pub aggreate_reduce_min : (time_action : ℕ × ℕ) → Action M (ℕ × ℕ)
  pub prepare_fork : Action M (Unit {0})
  pub duplicate : Action M (Unit {0})
  pub block : Action M (Unit {0})
  pub supports_fork : M → Bool
  pub do_kill_on_term : Bool → M → M

-- `comm` says whether the pointer to the segment is set; `shm_id` is `none` where it is negative.
pub record Optimistic (M Y : Type 0) : Type 0 where
  pub sync : Sync M
  pub system : Y
  pub st : Speculation
  pub my_pid : ℕ
  pub parent_pid : ℕ
  pub child_pid : ℕ
  pub is_child : Bool
  pub is_parent : Bool
  pub comm : Bool
  pub shm_id : Option ℕ
  pub spec_fail_time : ℕ
  pub min_next_time : ℕ
  pub global_action : ℕ

-- How a step of the process ends: it goes on with a value, or the process exits with a status.
pub data Turn : Type 0 where
  goes : (t : ℕ) → Turn
  exits : (status : ℕ) → Turn

module _ {M Y : Type 0} where
  -- A step of an algorithm's common state
  abbrev pub on_sync : {A : Type 0} → Action (Sync M) A → Action (Optimistic M Y) A
  on_sync f s = let r = f s.sync in (record s { sync = r.0 }, r.1)

  -- A call of the operating system
  abbrev pub on_system : {A : Type 0} → (Y → Y × A) → Action (Optimistic M Y) A
  on_system f s = let r = f s.system in (record s { system = r.0 }, ok r.1)

  abbrev pub change_system : (Y → Y) → Action (Optimistic M Y) (Unit {0})
  change_system f = modify (λ s. record s { system = f s.system })

  -- Going through the pointer to the segment
  abbrev pub through_comm : {A : Type 0} → Action (Optimistic M Y) A → Action (Optimistic M Y) A
  through_comm f s = if s.comm then f s else (s, undefined)

  abbrev pub set_spec_fail_time : ℕ → Optimistic M Y → Optimistic M Y
  set_spec_fail_time t s = record s { spec_fail_time = t }

  abbrev pub set_min_next_time : ℕ → Optimistic M Y → Optimistic M Y
  set_min_next_time t s = record s { min_next_time = t }

  -- `hasChild`
  unfoldable pub has_child : Optimistic M Y → Bool
  has_child s = ltb 0 s.child_pid

  module _ (sys : System Y) where
    unfoldable pub become_child : Optimistic M Y → Optimistic M Y
    become_child s = record s {
      is_child = true;
      my_pid = sys.get_pid s.system;
      parent_pid = sys.get_ppid s.system;
      child_pid = 0;
      is_parent = false;
    }

    unfoldable pub become_parent : Optimistic M Y → Optimistic M Y
    become_parent s = record s {
      is_child = false;
      is_parent = true;
      child_pid = 0;
      my_pid = sys.get_pid s.system;
      parent_pid = 0;
    }

    unfoldable pub child_terminated : Optimistic M Y → Optimistic M Y
    child_terminated s = record s {
      is_parent = false;
      is_child = false;
      child_pid = 0;
      my_pid = sys.get_pid s.system;
      parent_pid = 0;
    }

    unfoldable pub got_child : ℕ → Optimistic M Y → Optimistic M Y
    got_child child s = record s {
      is_parent = true;
      is_child = false;
      child_pid = child;
      parent_pid = 0;
      my_pid = sys.get_pid s.system;
    }

    -- `createTimeShm`
    unfoldable pub create_time_shm : Action (Optimistic M Y) (Unit {0})
    create_time_shm = do
      s ← gets (λ s. s)
      raise_if s.is_child sync_state_exception
      raise_if s.comm sync_state_exception
      id ← on_system (sys.shm_get (sys.get_pid s.system))
      modify (λ s'. record s' { shm_id = id })
      lift (elim id [ none ↦ throws sync_state_exception | some n ↦ ok tt ])

    -- `attachTimeShm`. A failure of `shmat` is no null pointer and passes the test of the code, so the
    -- write behind it is undefined.
    unfoldable pub attach_time_shm : Action (Optimistic M Y) (Unit {0})
    attach_time_shm s =
        if s.comm
        then (s, ok tt)
        else (do
          attached ← on_system (sys.shm_at s.shm_id)
          lift (if attached then ok tt else undefined)
          change_system (
              sys.write_action
                (if send_unknown_action s.st.strategy then action_no_info else action_undefined))
          change_system (sys.write_fail_time 0)
          modify (λ s'. record s' { comm = true }))
            s

    -- `detachTimeShm`
    unfoldable pub detach_time_shm : Action (Optimistic M Y) (Unit {0})
    detach_time_shm s =
        if s.comm
        then (do
          detached ← on_system sys.shm_dt
          raise_if (not detached) sync_state_exception
          modify (λ s'. record s' { comm = false }))
            s
        else (s, ok tt)

    -- What `doFailAll`, `childDied` and the destructor do with the child
    unfoldable pub kill_child : Action (Optimistic M Y) (Unit {0})
    unfolding detach_time_shm
    kill_child = do
      detach_time_shm
      child ← gets (λ s. s.child_pid)
      change_system (sys.kill child)
      change_system sys.wait
