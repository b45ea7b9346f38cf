-- ===== src/SyncAlgorithm/Optimistic/Histories.antt =====
-- syncalgorithms/optimisticticksyncalgo.cpp and optimisticcommsyncalgo.cpp: the states of a process that
-- makes the calls of such an algorithm in any order, while other code changes its communication manager
-- and the system.
use fncs.Base.{
  ℕ, ◌≡◌, subst, Bool, not, some, ok, nat_key, ◌==◌, ltb, if◌then◌else◌, inl, refl,
  sync_state_exception,
}
use fncs.Base.Actions.{
  Action, Leaves, Leaves-same, raise_if, Leaves-if, Leaves-choose, Leaves->>=, pure, modify, ◌>>=◌,
  ◌>>◌,
}
use fncs.Time.{infinity}
use fncs.Settings.{Settings}
use fncs.Message.{Message}
use fncs.Speculation.{Speculation}
use fncs.SyncAlgorithm.{Manager, ask}
use fncs.SyncAlgorithm.Optimistic.{
  System, Forking, Optimistic, Turn, goes, exits, on_sync, on_system, through_comm,
  set_spec_fail_time, set_min_next_time, has_child, create_time_shm,
}
use fncs.SyncAlgorithm.Optimistic.Deciding.{
  check_child, test_speculation_state, time_step_start, node_received_message, node_sent_message,
  new_optimistic, fresh,
}
use fncs.SyncAlgorithm.Optimistic.Tick
use fncs.SyncAlgorithm.Optimistic.Tick.{Granting, granted, stopped}
use fncs.SyncAlgorithm.Optimistic.Comm
use fncs.SyncAlgorithm.Optimistic.Comm.{follow, settle}
use fncs.SyncAlgorithm.Optimistic.Roles.{
  IsFork, IsAlone, IsProcess, on_sync-Leaves, through-Leaves, check_child-Leaves,
}
use fncs.SyncAlgorithm.Optimistic.Leading.{
  IsTurned, test-Leaves, time_step_start-Leaves, received-Leaves, sent-Leaves, create-Leaves,
}
use fncs.SyncAlgorithm.Optimistic.Runs.{IsGranted, reset_fail, get_next_time-Leaves}

module _ {M Y : Type 0} where
  -- A network simulator that goes on after a call
  abbrev IsFollowed : Optimistic M Y → Granting → Type 0
  IsFollowed s (granted t) = IsProcess s
  IsFollowed s (stopped status) = Unit {0}

  module _ (sys : System Y) (mg : Manager M) (fk : Forking M)
      (forks : (y : Y) → IsFork (sys.fork y).1) where
    asked-Leaves :
        {A : Type 0} (f : Action M A) (s : Optimistic M Y)
        → IsProcess s
        → Leaves (λ s' _. IsProcess s') (on_sync (ask f) s)
    asked-Leaves f s p = on_sync-Leaves sys (λ s'. IsProcess s') (ask f) s (λ y. p)

    follow-Leaves :
        (diff : ℕ) (s : Optimistic M Y)
        → IsProcess s
        → Leaves (λ s' _. IsProcess s') (follow sys mg fk diff s)
    unfolding follow
    follow-Leaves diff s p =
        let P : Optimistic M Y → ℕ → Type 0 = λ s' _. IsProcess s' in
        Leaves-if P (diff == 0) _ _
          (λ _.
            Leaves-if P (not (has_child s)) _ _
              (λ _.
                Leaves->>= (λ s' _. IsProcess s') P
                  (on_sync (ask (fk.aggreate_reduce_min (infinity, infinity))) s) _
                  (asked-Leaves (fk.aggreate_reduce_min (infinity, infinity)) s p)
                  (λ s1 answer p1. p1))
              (λ _.
                Leaves->>= (λ s' (_ : ℕ). IsProcess s') P
                  (through_comm (on_system sys.read_action) s) _
                  (through-Leaves sys (λ s' _. IsProcess s') (on_system sys.read_action) s p)
                  (λ s1 action p1.
                    Leaves->>= (λ s' _. IsProcess s') P
                      (on_sync (ask (fk.aggreate_reduce_min (infinity, action))) s1) _
                      (asked-Leaves (fk.aggreate_reduce_min (infinity, action)) s1 p1)
                      (λ s2 answer p2. p2))))
          (λ _.
            Leaves->>= (λ s' _. IsProcess s') P (check_child sys diff s) _
              (check_child-Leaves sys diff s p)
              (λ s1 _ p1.
                Leaves->>= (λ s' _. IsProcess s') P (on_sync (ask (mg.reduce_min_time infinity)) s1)
                  _ (asked-Leaves (mg.reduce_min_time infinity) s1 p1) (λ s2 answer p2. p2)))

    settle-Leaves :
        (spec_next_time : ℕ) (turn : Turn) (s : Optimistic M Y)
        → IsTurned s turn
        → Leaves IsFollowed (settle sys mg fk spec_next_time turn s)
    unfolding settle
    settle-Leaves spec_next_time (exits status) s h = tt
    settle-Leaves spec_next_time (goes t) s h =
        let P : Optimistic M Y → Unit {0} → Type 0 = λ s' _. IsProcess s' in
        Leaves->>= P IsFollowed
          ((if ltb 0 t then modify (set_min_next_time spec_next_time) else pure tt) s) _
          (Leaves-choose P (ltb 0 t) (modify (set_min_next_time spec_next_time)) (pure tt) s
            (λ _. h) (λ _. h))
          (λ s1 _ p1.
            Leaves-choose IsFollowed (s1.min_next_time == infinity) _ _ s1 (λ _. p1) (λ _. p1))

    -- The packets that are lost are looked for, and a child is killed, when messages are under way.
    unstable-Leaves :
        (current_time diff : ℕ) (s : Optimistic M Y)
        → IsProcess s
        → Leaves
            (λ s' _. IsProcess s')
            ((if ltb 0 diff
                then (on_sync (ask (mg.packet_lost_calculator current_time))
                    >> check_child sys diff)
                else pure tt)
              s)
    unstable-Leaves current_time diff s p =
        let P : Optimistic M Y → Unit {0} → Type 0 = λ s' _. IsProcess s' in
        Leaves-choose P (ltb 0 diff) _ _ s
          (λ _.
            Leaves->>= P P (on_sync (ask (mg.packet_lost_calculator current_time)) s) _
              (asked-Leaves (mg.packet_lost_calculator current_time) s p)
              (λ s1 _ p1. check_child-Leaves sys diff s1 p1))
          (λ _. p)

    answered-Leaves :
        (current_time diff : ℕ) (s : Optimistic M Y)
        → IsProcess s
        → Leaves IsFollowed (
            (do
              spec_next_time ← follow sys mg fk diff
              turn ← test_speculation_state sys fk spec_next_time current_time
              settle sys mg fk spec_next_time turn)
              s)
    answered-Leaves current_time diff s p =
        Leaves->>= (λ s' (_ : ℕ). IsProcess s') IsFollowed (follow sys mg fk diff s) _
          (follow-Leaves diff s p)
          (λ s1 spec_next_time p1.
            Leaves->>= IsTurned IsFollowed
              (test_speculation_state sys fk spec_next_time current_time s1) _
              (test-Leaves sys fk spec_next_time current_time s1 forks p1)
              (λ s2 turn h. settle-Leaves spec_next_time turn s2 h))

    follows-Leaves :
        (current_time next_time : ℕ) (s : Optimistic M Y)
        → IsProcess s
        → Leaves IsFollowed (Comm.get_next_time sys mg fk current_time next_time s)
    unfolding Comm.get_next_time
    follows-Leaves current_time next_time s p =
        Leaves-if IsFollowed (ltb next_time s.sync.granted_time) _ _ (λ _. p)
          (λ _.
            let s0 =
              if ltb s.spec_fail_time current_time then set_spec_fail_time infinity s else s in
            Leaves->>= (λ s' _. IsProcess s') IsFollowed
              (on_sync (ask mg.reduce_total_send_receive) s0) _
              (asked-Leaves mg.reduce_total_send_receive s0 (reset_fail current_time s p))
              (λ s1 diff p1.
                Leaves->>= {A = Unit {0}} (λ s' _. IsProcess s') IsFollowed
                  ((if ltb 0 diff
                      then (on_sync (ask (mg.packet_lost_calculator current_time))
                          >> check_child sys diff)
                      else pure tt)
                    s1)
                  _ (unstable-Leaves current_time diff s1 p1)
                  (λ s2 _ p2.
                    Leaves->>= (λ s' _. IsProcess s') IsFollowed
                      (on_sync (ask mg.reduce_network_delay) s2) _
                      (asked-Leaves mg.reduce_network_delay s2 p2)
                      (λ s3 _ p3.
                        answered-Leaves current_time diff (set_min_next_time infinity s3) p3))))

  module _ (i : Settings) (sys : System Y) (mg : Manager M) (fk : Forking M) where
    -- What becomes of a process that goes on: one of its calls has come back, or other code has run.
    pub data Step (s : Optimistic M Y) : Optimistic M Y → Type 0 where
      begins :
          (current_time : ℕ) {s' : Optimistic M Y}
          → time_step_start sys fk mg current_time s ≡ (s', ok tt)
          → Step s s'
      advances :
          (fuel current_time next_time t : ℕ) {s' : Optimistic M Y}
          → Tick.get_next_time i sys mg fk fuel current_time next_time s
            ≡ (s', ok (some (granted t)))
          → Step s s'
      follows :
          (current_time next_time t : ℕ) {s' : Optimistic M Y}
          → Comm.get_next_time sys mg fk current_time next_time s ≡ (s', ok (granted t))
          → Step s s'
      receives :
          (given : Message) (b : Bool) {s' : Optimistic M Y}
          → node_received_message sys fk given s ≡ (s', ok b)
          → Step s s'
      sends :
          (given : Message) (b : Bool) {s' : Optimistic M Y}
          → node_sent_message sys fk given s ≡ (s', ok b)
          → Step s s'
      elsewhere :
          (m : M) (y : Y) → Step s (record s { sync = record s.sync { interface = m }; system = y })

    -- The states that a process reaches from its construction, also after forks
    pub data Reach : Optimistic M Y → Type 0 where
      start :
          (min_next_time global_action : ℕ) (strategy : Speculation) (m : M) (y : Y)
          {s : Optimistic M Y}
          → new_optimistic sys fk min_next_time global_action strategy m y ≡ (s, ok tt)
          → Reach s
      later : {s s' : Optimistic M Y} → Reach s → Step s s' → Reach s'

    Step-IsProcess :
        {s s' : Optimistic M Y}
        → ((y : Y) → IsFork (sys.fork y).1)
        → Step s s'
        → IsProcess s
        → IsProcess s'
    Step-IsProcess {s} forks (begins current_time e) p =
        subst (Leaves (λ s' _. IsProcess s')) e (time_step_start-Leaves sys fk mg current_time s p)
    Step-IsProcess {s} forks (advances fuel current_time next_time t e) p =
        subst (Leaves IsGranted) e
          (get_next_time-Leaves i sys mg fk forks fuel current_time next_time s p)
    Step-IsProcess {s} forks (follows current_time next_time t e) p =
        subst (Leaves IsFollowed) e (follows-Leaves sys mg fk forks current_time next_time s p)
    Step-IsProcess {s} forks (receives given b e) p =
        subst (Leaves (λ s' _. IsProcess s')) e (received-Leaves sys fk given s p)
    Step-IsProcess {s} forks (sends given b e) p =
        subst (Leaves (λ s' _. IsProcess s')) e (sent-Leaves sys fk given s p)
    Step-IsProcess forks (elsewhere m y) p = p

    new-Leaves :
        (min_next_time global_action : ℕ) (strategy : Speculation) (m : M) (y : Y)
        → Leaves
            (λ s _. IsProcess s)
            (new_optimistic sys fk min_next_time global_action strategy m y)
    unfolding new_optimistic fresh
    new-Leaves min_next_time global_action strategy m y =
        let P : Optimistic M Y → Unit {0} → Type 0 = λ s _. IsProcess s in
        let s0 = fresh sys fk min_next_time global_action strategy m y in
        Leaves->>= (λ s _. IsAlone s) P
          (raise_if (not (fk.supports_fork m)) sync_state_exception s0) _
          (Leaves-same (λ s. IsAlone s) s0 _ (refl, refl, refl))
          (λ s1 _ a1.
            Leaves->>= (λ s _. IsAlone s) P (create_time_shm sys s1) _
              (create-Leaves sys (λ s. IsAlone s) s1 (λ y' id. a1)) (λ s2 _ a2. inl a2))

    -- Let `fork` give a parent a positive number. A process that is constructed and makes the calls of
    -- these algorithms in any order, forking any number of times, while other code changes its manager
    -- and the system, is always in one of three roles: it is no child, has none and holds no segment;
    -- or it is no child but a parent, has a child and holds the segment; or it is a child, no parent,
    -- and has no child.
    pub Reach-IsProcess :
        {s : Optimistic M Y} → ((y : Y) → IsFork (sys.fork y).1) → Reach s → IsProcess s
    Reach-IsProcess forks (start min_next_time global_action strategy m y e) =
        subst (Leaves (λ s' _. IsProcess s')) e
          (new-Leaves min_next_time global_action strategy m y)
    Reach-IsProcess forks (later r step) = Step-IsProcess forks step (Reach-IsProcess forks r)
