-- ===== src/SyncAlgorithm/Optimistic/Leading.antt =====
-- syncalgorithms/optimisticticksyncalgo.cpp: the fork, the decision about a child, the start of a time step
-- and the callbacks keep the roles of a process apart.
use fncs.Base.{
  ℕ, ◌<◌, ◌≡◌, refl, arith, ◌⊎◌, inl, inr, Bool, true, false, not, ◌&&◌, Option, none, some, ok,
  nat_key, ◌==◌, ltb, if◌then◌else◌, sync_state_exception,
}
use fncs.Base.Actions.{
  Leaves, Leaves-same, Leaves-if, Leaves-choose, Leaves->>=, Leaves-after, raise_if,
}
use fncs.Time.{infinity}
use fncs.Message.{Message}
use fncs.Speculation.{start_speculation}
use fncs.SyncAlgorithm.{Manager, ask}
use fncs.SyncAlgorithm.Optimistic.{
  action_do_fail_all, action_no_info, action_failed, action_success, Fork, fork_failed, in_child,
  in_parent, System, Forking, Optimistic, Turn, goes, exits, on_sync, change_system, through_comm,
  set_spec_fail_time, has_child, become_parent, create_time_shm, attach_time_shm, detach_time_shm,
}
use fncs.SyncAlgorithm.Optimistic.Deciding.{
  do_limbo, do_fail_all, parent_die, child_died, after_fork, create_speculative_process, set_st,
  begin_speculation, go_on, act, test_speculation_state, node_received_message, node_sent_message,
  time_step_start,
}
use fncs.SyncAlgorithm.Optimistic.Roles.{
  IsFork, IsAlone, IsParent, IsChild, IsProcess, detach-Leaves, attach-Leaves, on_sync-Leaves,
  through-Leaves, do_limbo-Leaves, do_fail_all-Leaves, child_died-Leaves,
}

module _ {M Y : Type 0} where
  -- Right after the fork
  abbrev IsForked : Optimistic M Y → Option ℕ → Type 0
  IsForked s (some status) = Unit {0}
  IsForked s none = IsChild s ⊎ ((s.is_child ≡ false) × (s.is_parent ≡ true) × (0 < s.child_pid))

  -- After a decision
  abbrev pub IsTurned : Optimistic M Y → Turn → Type 0
  IsTurned s (exits status) = Unit {0}
  IsTurned s (goes t) = IsProcess s

  only-IsChild : (s : Optimistic M Y) → IsProcess s → s.is_child ≡ true → IsChild s
  only-IsChild s (inl alone) e = absurd (cc (alone.0))
  only-IsChild s (inr (inl parent)) e = absurd (cc (parent.0))
  only-IsChild s (inr (inr child)) e = child

  module _ (sys : System Y) where
    after_fork-Leaves :
        (f : Fork) (s : Optimistic M Y) → IsFork f → Leaves IsForked (after_fork sys f s)
    unfolding after_fork
    after_fork-Leaves fork_failed s h = tt
    after_fork-Leaves in_child s h = inl (refl, refl, refl)
    after_fork-Leaves (in_parent child) s h = inr (refl, refl, h)

    pub create-Leaves :
        (P : Optimistic M Y → Type 0) (s : Optimistic M Y)
        → ((y : Y) (id : Option ℕ) → P (record s { system = y; shm_id = id }))
        → Leaves (λ s' _. P s') (create_time_shm sys s)
    unfolding create_time_shm
    create-Leaves P s h =
        let Q : Optimistic M Y → Unit {0} → Type 0 =
          λ s' _. (y : Y) (id : Option ℕ) → P (record s' { system = y; shm_id = id }) in
        Leaves->>= Q (λ s' _. P s') (raise_if s.is_child sync_state_exception s) _
          (Leaves-same (λ s'. Q s' tt) s _ h)
          (λ s1 _ h1.
            Leaves->>= Q (λ s' _. P s') (raise_if s.comm sync_state_exception s1) _
              (Leaves-same (λ s'. Q s' tt) s1 _ h1) (λ s2 _ h2. Leaves-same P _ _ (h2 _ _)))

    module _ (fk : Forking M) where
      begin-Leaves :
          (spec_next_time current_time : ℕ) (s : Optimistic M Y)
          → IsForked s none
          → Leaves IsTurned (begin_speculation sys fk spec_next_time current_time s)
      unfolding begin_speculation
      begin-Leaves spec_next_time current_time s (inl child) =
          let P : Optimistic M Y → Unit {0} → Type 0 = λ s' _. IsChild s' in
          Leaves-if IsTurned s.is_child _ _
            (λ _.
              Leaves->>= P IsTurned (on_sync (ask fk.duplicate) s) _
                (on_sync-Leaves sys (λ s'. IsChild s') (ask fk.duplicate) s (λ y. child))
                (λ s1 _ c1.
                  let s2 =
                    set_spec_fail_time infinity
                      (set_st sys fk (start_speculation current_time) s1) in
                  Leaves->>= P IsTurned (attach_time_shm sys s2) _
                    (attach-Leaves sys (λ s'. IsChild s') s2 (λ y. c1)) (λ s3 _ c3. inr (inr c3))))
            (λ e. absurd (cc (child.0)))
      begin-Leaves spec_next_time current_time s (inr parent) =
          let P : Optimistic M Y → Unit {0} → Type 0 = λ s' _. IsParent s' in
          Leaves-if IsTurned s.is_child _ _ (λ e. absurd (cc (parent.0)))
            (λ _.
              Leaves->>= P IsTurned (attach_time_shm sys s) _
                (attach-Leaves sys (λ s'. IsParent s') s
                  (λ y. (parent.0, parent.1, parent.2, refl)))
                (λ s1 _ p1.
                  Leaves->>= P IsTurned (on_sync (ask fk.duplicate) s1) _
                    (on_sync-Leaves sys (λ s'. IsParent s') (ask fk.duplicate) s1 (λ y. p1))
                    (λ s2 _ p2. inr (inl p2))))

      act-Leaves :
          (action : ℕ) (s : Optimistic M Y) → IsParent s → Leaves IsTurned (act sys fk action s)
      unfolding act
      act-Leaves action s p =
          Leaves-choose IsTurned (action == action_no_info) _ _ s
            (λ _.
              Leaves->>= (λ s' _. IsParent s') IsTurned (do_limbo sys s) _ (do_limbo-Leaves sys s p)
                (λ s1 _ p1. inr (inl p1)))
            (λ _.
              Leaves-choose IsTurned (action == action_do_fail_all) _ _ s
                (λ _.
                  Leaves->>= (λ s' _. IsAlone s') IsTurned (do_fail_all sys s) _
                    (do_fail_all-Leaves sys s) (λ s1 _ p1. inl p1))
                (λ _.
                  Leaves-choose IsTurned (action == action_failed) _ _ s
                    (λ _.
                      Leaves->>= (λ s' _. IsAlone s') IsTurned (child_died sys s) _
                        (child_died-Leaves sys s) (λ s1 _ p1. inl p1))
                    (λ _.
                      Leaves-choose IsTurned (action == action_success) _ _ s
                        (λ _. Leaves-after IsTurned (parent_die sys s) _ (λ s1 status. tt))
                        (λ _. inr (inl p)))))

      gone-Leaves :
          (spec_next_time current_time : ℕ) (exited : Option ℕ) (s : Optimistic M Y)
          → IsForked s exited
          → Leaves IsTurned (go_on sys fk spec_next_time current_time exited s)
      unfolding go_on
      gone-Leaves spec_next_time current_time (some status) s h = tt
      gone-Leaves spec_next_time current_time none s h =
          begin-Leaves spec_next_time current_time s h

      -- A process without a child has nothing to decide.
      decided-Leaves :
          (s : Optimistic M Y)
          → IsProcess s
          → Leaves IsTurned (if has_child s then act sys fk s.global_action s else (s, ok (goes 0)))
      unfolding has_child
      decided-Leaves s (inl alone) =
          Leaves-if IsTurned (has_child s) _ _ (λ e. absurd (ground (arith, e, alone.1)))
            (λ _. inl alone)
      decided-Leaves s (inr (inl parent)) =
          Leaves-if IsTurned (has_child s) _ _ (λ _. act-Leaves s.global_action s parent)
            (λ _. inr (inl parent))
      decided-Leaves s (inr (inr child)) =
          Leaves-if IsTurned (has_child s) _ _ (λ e. absurd (ground (arith, e, child.2)))
            (λ _. inr (inr child))

      pub test-Leaves :
          (spec_next_time current_time : ℕ) (s : Optimistic M Y)
          → ((y : Y) → IsFork (sys.fork y).1)
          → IsProcess s
          → Leaves IsTurned (test_speculation_state sys fk spec_next_time current_time s)
      unfolding test_speculation_state create_speculative_process has_child
      test-Leaves spec_next_time current_time s forks p =
          Leaves-if IsTurned (not (has_child s) && not (spec_next_time == 0)) _ _
            (λ _. Leaves-after IsTurned (on_sync (ask fk.prepare_fork) s) _ (λ s1 _.
              Leaves->>= IsForked IsTurned (create_speculative_process sys s1) _
                (after_fork-Leaves (sys.fork s1.system).1 _ (forks s1.system))
                (λ s2 exited f. gone-Leaves spec_next_time current_time exited s2 f)))
            (λ _. decided-Leaves s p)

      pub received-Leaves :
          (given : Message) (s : Optimistic M Y)
          → IsProcess s
          → Leaves (λ s' _. IsProcess s') (node_received_message sys fk given s)
      unfolding node_received_message
      received-Leaves given s p =
          let P : Optimistic M Y → Bool → Type 0 = λ s' _. IsProcess s' in
          Leaves-if P s.is_child _ _
            (λ e.
              Leaves->>= (λ s' _. IsChild s') P
                (through_comm (change_system (sys.write_action action_failed)) s) _
                (through-Leaves sys (λ s' _. IsChild s')
                  (change_system (sys.write_action action_failed)) s (only-IsChild s p e))
                (λ s1 _ c1.
                  Leaves->>= (λ s' _. IsChild s') P (detach_time_shm sys s1) _
                    (detach-Leaves sys (λ s'. IsChild s') s1 (λ y. c1)) (λ s2 _ c2. inr (inr c2))))
            (λ _. p)

      pub sent-Leaves :
          (given : Message) (s : Optimistic M Y)
          → IsProcess s
          → Leaves (λ s' _. IsProcess s') (node_sent_message sys fk given s)
      unfolding node_sent_message
      sent-Leaves given s p =
          let P : Optimistic M Y → Bool → Type 0 = λ s' _. IsProcess s' in
          Leaves-if P s.is_child _ _
            (λ e.
              Leaves->>= (λ s' _. IsChild s') P
                (through_comm (change_system (sys.write_action action_failed)) s) _
                (through-Leaves sys (λ s' _. IsChild s')
                  (change_system (sys.write_action action_failed)) s (only-IsChild s p e))
                (λ s1 _ c1.
                  Leaves->>= (λ s' _. IsChild s') P (detach_time_shm sys s1) _
                    (detach-Leaves sys (λ s'. IsChild s') s1 (λ y. c1))
                    (λ s2 _ c2.
                      Leaves->>= (λ s' _. IsChild s') P (on_sync (ask fk.block) s2) _
                        (on_sync-Leaves sys (λ s'. IsChild s') (ask fk.block) s2 (λ y. c2))
                        (λ s3 _ c3. inr (inr c3)))))
            (λ _. p)

      pub time_step_start-Leaves :
          (mg : Manager M) (current_time : ℕ) (s : Optimistic M Y)
          → IsProcess s
          → Leaves (λ s' _. IsProcess s') (time_step_start sys fk mg current_time s)
      unfolding time_step_start become_parent
      time_step_start-Leaves mg current_time s p =
          let P : Optimistic M Y → Unit {0} → Type 0 = λ s' _. IsProcess s' in
          Leaves-if P (ltb current_time s.sync.granted_time) _ _
            (λ _. Leaves-if P (s.is_child && s.comm) _ _ (λ _. p) (λ _. p))
            (λ _.
              Leaves-if P s.is_child _ _
                (λ _. Leaves-after P (on_sync (ask mg.waitfor_all) s) _ (λ s1 _.
                  Leaves-after P (through_comm (change_system (sys.write_action action_success)) s1)
                    _
                    (λ s2 _.
                      Leaves->>= (λ s' _. s'.comm ≡ false) P (detach_time_shm sys s2) _
                        (detach-Leaves sys (λ s'. s'.comm ≡ false) s2 (λ y. refl))
                        (λ s3 _ e.
                          let s4 = set_spec_fail_time infinity (become_parent sys s3) in
                          Leaves->>= (λ s' _. IsAlone s') P (create_time_shm sys s4) _
                            (create-Leaves (λ s'. IsAlone s') s4 (λ y id. (refl, refl, e)))
                            (λ s5 _ alone. inl alone)))))
                (λ _. on_sync-Leaves sys (λ s'. IsProcess s') (ask mg.waitfor_all) s (λ y. p)))
