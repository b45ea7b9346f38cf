-- ===== src/SyncAlgorithm/Optimistic/Roles.antt =====
-- syncalgorithms/optimisticticksyncalgo.cpp: a process of an optimistic algorithm is alone, a parent or a
-- child, and how its operations lead from one of these roles to another.
use fncs.Base.{
  ℕ, ◌<◌, ◌≡◌, refl, sym, subst, ◌⊎◌, inl, inr, true, false, ◌&&◌, undefined, nat_key, ◌==◌, ltb,
  Bool-cases,
}
use fncs.Base.Actions.{
  Action, Leaves, Leaves-same, Leaves-if, Leaves-choose, Leaves->>=, Leaves-after, modify, ◌>>◌,
}
use fncs.Time.{infinity}
use fncs.SyncAlgorithm.{Sync}
use fncs.SyncAlgorithm.Optimistic.{
  Fork, fork_failed, in_child, in_parent, System, Optimistic, on_sync, on_system, change_system,
  action_failed, action_do_fail_all, through_comm, has_child, child_terminated, attach_time_shm,
  detach_time_shm, kill_child,
}
use fncs.SyncAlgorithm.Optimistic.Deciding.{
  assert_child, do_limbo, do_fail_all, child_died, check_child,
}

-- What `fork` documents: the parent is told a positive number.
abbrev pub IsFork : Fork → Type 0
IsFork fork_failed = Unit {0}
IsFork in_child = Unit {0}
IsFork (in_parent child) = 0 < child

module _ {M Y : Type 0} where
  -- No child, and no segment
  abbrev pub IsAlone : Optimistic M Y → Type 0
  IsAlone s = (s.is_child ≡ false) × (s.child_pid ≡ 0) × (s.comm ≡ false)

  -- A child, and the segment that is shared with it
  abbrev pub IsParent : Optimistic M Y → Type 0
  IsParent s = (s.is_child ≡ false) × (s.is_parent ≡ true) × (0 < s.child_pid) × (s.comm ≡ true)

  -- A child is no parent. It may have given the segment up.
  abbrev pub IsChild : Optimistic M Y → Type 0
  IsChild s = (s.is_child ≡ true) × (s.is_parent ≡ false) × (s.child_pid ≡ 0)

  abbrev pub IsProcess : Optimistic M Y → Type 0
  IsProcess s = IsAlone s ⊎ (IsParent s ⊎ IsChild s)

  module _ (sys : System Y) where
    pub detach-Leaves :
        (P : Optimistic M Y → Type 0) (s : Optimistic M Y)
        → ((y : Y) → P (record s { system = y; comm = false }))
        → Leaves (λ s' _. P s') (detach_time_shm sys s)
    unfolding detach_time_shm
    detach-Leaves P s h =
        Leaves-if (λ s' _. P s') s.comm _ _
          (λ _. elim (Bool-cases (sys.shm_dt s.system).1) [
            | inl fine ↦ rw fine (h (sys.shm_dt s.system).0)
            | inr bad ↦ rw bad tt
          ])
          (λ unset. subst (λ c. P (record s { comm = c })) (sym unset) (h s.system))

    pub attach-Leaves :
        (P : Optimistic M Y → Type 0) (s : Optimistic M Y)
        → ((y : Y) → P (record s { system = y; comm = true }))
        → Leaves (λ s' _. P s') (attach_time_shm sys s)
    unfolding attach_time_shm
    attach-Leaves P s h =
        Leaves-if (λ s' _. P s') s.comm _ _
          (λ attached. subst (λ c. P (record s { comm = c })) (sym attached) (h s.system))
          (λ _. elim (Bool-cases (sys.shm_at s.shm_id s.system).1) [
            | inl fine ↦ rw fine (h _)
            | inr bad ↦ rw bad tt
          ])

    pub kill_child-Leaves :
        (P : Optimistic M Y → Type 0) (s : Optimistic M Y)
        → ((y : Y) → P (record s { system = y; comm = false }))
        → Leaves (λ s' _. P s') (kill_child sys s)
    unfolding kill_child
    kill_child-Leaves P s h =
        Leaves->>= (λ s' _. (y : Y) → P (record s' { system = y })) (λ s' _. P s')
          (detach_time_shm sys s) _
          (detach-Leaves (λ s'. (y : Y) → P (record s' { system = y })) s (λ y y'. h y'))
          (λ s' _ k. k _)

    child_terminated-Leaves :
        (s : Optimistic M Y)
        → Leaves (λ s' _. IsAlone s') ((kill_child sys >> modify (child_terminated sys)) s)
    unfolding child_terminated
    child_terminated-Leaves s =
        Leaves->>= (λ s' _. s'.comm ≡ false) (λ s' _. IsAlone s') (kill_child sys s) _
          (kill_child-Leaves (λ s'. s'.comm ≡ false) s (λ y. refl)) (λ s' _ e. (refl, refl, e))

    -- The child is gone when its parent has recorded when it failed.
    pub child_died-Leaves : (s : Optimistic M Y) → Leaves (λ s' _. IsAlone s') (child_died sys s)
    unfolding child_died child_terminated
    child_died-Leaves s =
        let P : Optimistic M Y → Unit {0} → Type 0 = λ s' _. IsAlone s' in
        Leaves-after P (assert_child sys s) _ (λ s1 _.
          Leaves-after {A = ℕ} P (through_comm (on_system sys.read_fail_time) s1) _ (λ s2 t.
            Leaves->>= (λ s' _. s'.comm ≡ false) P
              (kill_child sys (record s2 { spec_fail_time = t })) _
              (kill_child-Leaves (λ s'. s'.comm ≡ false) (record s2 { spec_fail_time = t })
                (λ y. refl))
              (λ s' _ e. (refl, refl, e))))

    pub do_fail_all-Leaves : (s : Optimistic M Y) → Leaves (λ s' _. IsAlone s') (do_fail_all sys s)
    unfolding do_fail_all
    do_fail_all-Leaves s =
        let P : Optimistic M Y → Unit {0} → Type 0 = λ s' _. IsAlone s' in
        Leaves-after P (assert_child sys s) _ (λ s1 _.
          Leaves-after P (through_comm (change_system (sys.write_fail_time 0)) s1) _
            (λ s2 _. child_terminated-Leaves (record s2 { spec_fail_time = infinity })))

    pub through-Leaves :
        {A : Type 0} (P : Optimistic M Y → A → Type 0) (f : Action (Optimistic M Y) A)
        (s : Optimistic M Y)
        → Leaves P (f s)
        → Leaves P (through_comm f s)
    through-Leaves P f s h = Leaves-if P s.comm (f s) (s, undefined) (λ _. h) (λ _. tt)

    pub on_sync-Leaves :
        {A : Type 0} (P : Optimistic M Y → Type 0) (f : Action (Sync M) A) (s : Optimistic M Y)
        → ((y : Sync M) → P (record s { sync = y }))
        → Leaves (λ s' _. P s') (on_sync f s)
    on_sync-Leaves P f s h =
        Leaves-same P (record s { sync = (f s.sync).0 }) (f s.sync).1 (h (f s.sync).0)

    pub do_limbo-Leaves :
        (s : Optimistic M Y) → IsParent s → Leaves (λ s' _. IsParent s') (do_limbo sys s)
    unfolding do_limbo
    do_limbo-Leaves s p =
        let P : Optimistic M Y → Unit {0} → Type 0 = λ s' _. IsParent s' in
        Leaves->>= P P (assert_child sys s) _ (Leaves-same (λ s'. IsParent s') s _ p) (λ s1 _ p1.
          Leaves->>= (λ s' (_ : ℕ). IsParent s') P (through_comm (on_system sys.read_fail_time) s1)
            _ (through-Leaves (λ s' _. IsParent s') (on_system sys.read_fail_time) s1 p1)
            (λ s2 t p2.
              Leaves-choose P (ltb s2.min_next_time t) _ _ s2
                (λ _.
                  Leaves->>= (λ s' (_ : ℕ). IsParent s') P
                    (through_comm (on_system sys.read_fail_time) s2) _
                    (through-Leaves (λ s' _. IsParent s') (on_system sys.read_fail_time) s2 p2)
                    (λ s3 t' p3. p3))
                (λ _.
                  Leaves->>= (λ s' (_ : ℕ). IsParent s') P
                    (through_comm (on_system sys.read_action) s2) _
                    (through-Leaves (λ s' _. IsParent s') (on_system sys.read_action) s2 p2)
                    (λ s3 action p3.
                      Leaves-choose P (action == action_failed) _ _ s3
                        (λ _.
                          through-Leaves P (change_system (sys.write_action action_do_fail_all)) s3
                            p3)
                        (λ _. p3)))))

    pub check_child-Leaves :
        (diff : ℕ) (s : Optimistic M Y)
        → IsProcess s
        → Leaves (λ s' _. IsProcess s') (check_child sys diff s)
    unfolding check_child
    check_child-Leaves diff s p =
        let P : Optimistic M Y → Unit {0} → Type 0 = λ s' _. IsProcess s' in
        Leaves-if P (ltb 0 diff && has_child s) _ _
          (λ _.
            Leaves->>= (λ s' _. IsAlone s') P (child_died sys s) _ (child_died-Leaves s)
              (λ s1 _ alone. inl alone))
          (λ _. p)
