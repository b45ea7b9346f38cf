-- ===== src/SyncAlgorithm/Optimistic/Agreeing.antt =====
-- syncalgorithms/optimisticticksyncalgo.cpp: what becomes of a parent and of its child when the simulators
-- have agreed on an action.
use fncs.Base.{
  ℕ, ◌<◌, ◌≡◌, refl, ap, ◌∙◌, arith, ◌⊎◌, inl, inr, Bool, true, false, Option, none, some, Result,
  ok, throws, assert_fails, undefined, nat_key, ◌==◌, ltb, if◌then◌else◌,
}
use fncs.Base.Actions.{Action, Returns, Returns-imp, Returns-if, Returns-choose, Returns->>=, pure}
use fncs.Time.{infinity}
use fncs.SyncAlgorithm.Optimistic.{
  action_do_fail_all, action_no_info, action_failed, action_success, System, Forking, Optimistic,
  Turn, goes, exits, on_system, change_system, through_comm, set_spec_fail_time, has_child,
  child_terminated, detach_time_shm, kill_child,
}
use fncs.SyncAlgorithm.Optimistic.Deciding.{
  in_destructor, remove_shm, destroy, assert_child, do_limbo, do_fail_all, parent_die, child_died,
  act,
}
use fncs.SyncAlgorithm.Optimistic.Roles.{IsAlone, IsParent}

-- What the algorithm relies on of the operating system: the segment can be given up, a process that was
-- killed and waited for is dead, and removing a segment changes no process.
pub record Kills {Y : Type 0} (sys : System Y) (alive : Y → ℕ → Bool) : Type 0 where
  pub detaches : (y : Y) → (sys.shm_dt y).1 ≡ true
  pub dies : (pid : ℕ) (y : Y) → alive (sys.wait (sys.kill pid y)) pid ≡ false
  pub removes : (n pid : ℕ) (y : Y) → alive (sys.shm_remove n y) pid ≡ alive y pid

module _ {M Y : Type 0} (alive : Y → ℕ → Bool) where
  -- The parent keeps its child, or it goes on without, or it exits.
  unfoldable pub Agreed : (action : ℕ) → (s s' : Optimistic M Y) → Turn → Type 0
  Agreed action s s' turn =
      (((action ≡ action_no_info) ⊎ (action_success < action))
        × (turn ≡ goes 0)
        × IsParent s'
        × (s'.child_pid ≡ s.child_pid))
      ⊎ (((action ≡ action_do_fail_all) ⊎ (action ≡ action_failed))
          × (turn ≡ goes 0)
          × IsAlone s'
          × (alive s'.system s.child_pid ≡ false))
      ⊎ ((action ≡ action_success) × (turn ≡ exits 1) × (alive s'.system s.child_pid ≡ false))

module _ {M Y : Type 0} (sys : System Y) (alive : Y → ℕ → Bool) (k : Kills sys alive) where
  through-Returns :
      {A : Type 0} (P : Optimistic M Y → A → Type 0) (f : Action (Optimistic M Y) A)
      (s : Optimistic M Y)
      → s.comm ≡ true
      → Returns P (f s)
      → Returns P (through_comm f s)
  through-Returns P f s e h = Returns-if P s.comm (f s) _ (λ _. h) (λ e'. absurd (cc (e, e')))

  assert-Returns :
      (s : Optimistic M Y) → 0 < s.child_pid → Returns (λ s' _. s' ≡ s) (assert_child sys s)
  unfolding has_child
  assert-Returns s h = let e : ltb 0 s.child_pid ≡ true = ground (arith, h) in rw e refl

  -- The child is dead, the segment is given up, and the rest is as it was.
  Killed : (s s' : Optimistic M Y) → Type 0
  Killed s s' = (s'.comm ≡ false) × (s'.shm_id ≡ s.shm_id) × (alive s'.system s.child_pid ≡ false)

  detach-Returns :
      (s : Optimistic M Y)
      → Returns
          (λ s' _. (s'.comm ≡ false) × (s'.shm_id ≡ s.shm_id) × (s'.child_pid ≡ s.child_pid))
          (detach_time_shm sys s)
  unfolding detach_time_shm
  detach-Returns s =
      Returns-if (λ s' _. (s'.comm ≡ false) × (s'.shm_id ≡ s.shm_id) × (s'.child_pid ≡ s.child_pid))
        s.comm _ _ (λ _. rw (k.detaches s.system) (refl, refl, refl)) (λ e. (e, refl, refl))

  kill_child-Killed : (s : Optimistic M Y) → Returns (λ s' _. Killed s s') (kill_child sys s)
  unfolding kill_child Killed
  kill_child-Killed s =
      Returns->>=
        (λ s' _. (s'.comm ≡ false) × (s'.shm_id ≡ s.shm_id) × (s'.child_pid ≡ s.child_pid))
        (λ s' _. Killed s s') (detach_time_shm sys s) _ (detach-Returns s)
        (λ s1 _ (e, id, same). (e, id, rw (← same) (k.dies s1.child_pid s1.system)))

  -- `childDied`, `doFailAll` and `parentDie` of a parent
  child_died-Returns :
      (s : Optimistic M Y)
      → IsParent s
      → Returns (λ s' _. IsAlone s' × (alive s'.system s.child_pid ≡ false)) (child_died sys s)
  unfolding child_died child_terminated Killed
  child_died-Returns s p =
      let P : Optimistic M Y → Unit {0} → Type 0 =
        λ s' _. IsAlone s' × (alive s'.system s.child_pid ≡ false) in
      Returns->>= (λ s' _. s' ≡ s) P (assert_child sys s) _ (assert-Returns s p.2)
        (λ s1 _ e1.
          let p1 : IsParent s1 = rw e1 p in
          Returns->>= (λ s' (_ : ℕ). (s'.comm ≡ true) × (s'.child_pid ≡ s.child_pid)) P
            (through_comm (on_system sys.read_fail_time) s1) _
            (through-Returns (λ s' _. (s'.comm ≡ true) × (s'.child_pid ≡ s.child_pid))
              (on_system sys.read_fail_time) s1 p1.3
              (p1.3, ap (λ (x : Optimistic M Y). x.child_pid) e1))
            (λ s2 t (c2, same).
              Returns->>= (λ s' _. Killed s2 s') P (kill_child sys (set_spec_fail_time t s2)) _
                (kill_child-Killed (set_spec_fail_time t s2))
                (λ s3 _ dead. ((refl, refl, dead.0), rw (← same) (dead.2)))))

  do_fail_all-Returns :
      (s : Optimistic M Y)
      → IsParent s
      → Returns (λ s' _. IsAlone s' × (alive s'.system s.child_pid ≡ false)) (do_fail_all sys s)
  unfolding do_fail_all child_terminated Killed
  do_fail_all-Returns s p =
      let P : Optimistic M Y → Unit {0} → Type 0 =
        λ s' _. IsAlone s' × (alive s'.system s.child_pid ≡ false) in
      Returns->>= (λ s' _. s' ≡ s) P (assert_child sys s) _ (assert-Returns s p.2)
        (λ s1 _ e1.
          let p1 : IsParent s1 = rw e1 p in
          Returns->>= (λ s' _. s'.child_pid ≡ s.child_pid) P
            (through_comm (change_system (sys.write_fail_time 0)) s1) _
            (through-Returns (λ s' _. s'.child_pid ≡ s.child_pid)
              (change_system (sys.write_fail_time 0)) s1 p1.3
              (ap (λ (x : Optimistic M Y). x.child_pid) e1))
            (λ s2 _ same.
              Returns->>= (λ s' _. Killed s2 s') P (kill_child sys (set_spec_fail_time infinity s2))
                _ (kill_child-Killed (set_spec_fail_time infinity s2))
                (λ s3 _ dead. ((refl, refl, dead.0), rw (← same) (dead.2)))))

  Returns-in_destructor :
      {A : Type 0} (P : Optimistic M Y → A → Type 0) (r : Optimistic M Y × Result A)
      → Returns P r
      → Returns P (in_destructor r)
  Returns-in_destructor P (s, ok a) h = h
  Returns-in_destructor P (s, throws e) h = elim h [ ]
  Returns-in_destructor P (s, assert_fails) h = elim h [ ]
  Returns-in_destructor P (s, undefined) h = elim h [ ]

  remove_shm-Returns :
      (pid : ℕ) (id : Option ℕ) (s : Optimistic M Y)
      → alive s.system pid ≡ false
      → Returns (λ s' _. alive s'.system pid ≡ false) (remove_shm sys id s)
  remove_shm-Returns pid none s h = h
  remove_shm-Returns pid (some n) s h = k.removes n pid s.system ∙ h

  parent_die-Returns :
      (s : Optimistic M Y)
      → IsParent s
      → Returns
          (λ s' status. (status ≡ 1) × (alive s'.system s.child_pid ≡ false))
          (parent_die sys s)
  unfolding parent_die destroy Killed has_child
  parent_die-Returns s p =
      let P : Optimistic M Y → ℕ → Type 0 =
        λ s' status. (status ≡ 1) × (alive s'.system s.child_pid ≡ false) in
      let Q : Optimistic M Y → Unit {0} → Type 0 = λ s' _. alive s'.system s.child_pid ≡ false in
      Returns->>= (λ s' _. s' ≡ s) P (assert_child sys s) _ (assert-Returns s p.2)
        (λ s1 _ e1.
          let p1 : IsParent s1 = rw e1 p in
          Returns->>= Q P (destroy sys s1) _
            (Returns-in_destructor Q _ (
              Returns->>= Q Q ((if ltb 0 s1.child_pid then kill_child sys else pure tt) s1) _
                (Returns-choose Q (ltb 0 s1.child_pid) _ _ s1
                  (λ _.
                    Returns-imp (λ s' _. Killed s1 s') Q (kill_child sys s1) (kill_child-Killed s1)
                      (λ s' _ dead. rw (← ap (λ (x : Optimistic M Y). x.child_pid) e1) (dead.2)))
                  (λ none. absurd (ground (arith, none, p1.2))))
                (λ s2 _ dead. remove_shm-Returns s.child_pid s1.shm_id s2 dead)))
            (λ s2 _ dead. (refl, dead)))

  do_limbo-Returns :
      (s : Optimistic M Y)
      → IsParent s
      → Returns (λ s' _. IsParent s' × (s'.child_pid ≡ s.child_pid)) (do_limbo sys s)
  unfolding do_limbo
  do_limbo-Returns s p =
      let K : Optimistic M Y → Type 0 = λ s'. IsParent s' × (s'.child_pid ≡ s.child_pid) in
      let P : Optimistic M Y → Unit {0} → Type 0 = λ s' _. K s' in
      Returns->>= (λ s' _. s' ≡ s) P (assert_child sys s) _ (assert-Returns s p.2)
        (λ s1 _ e1.
          let h1 : K s1 = rw e1 (p, refl) in
          Returns->>= (λ s' (_ : ℕ). K s') P (through_comm (on_system sys.read_fail_time) s1) _
            (through-Returns (λ s' _. K s') (on_system sys.read_fail_time) s1 h1.0.3 h1)
            (λ s2 t h2.
              Returns-choose P (ltb s2.min_next_time t) _ _ s2
                (λ _.
                  Returns->>= (λ s' (_ : ℕ). K s') P
                    (through_comm (on_system sys.read_fail_time) s2) _
                    (through-Returns (λ s' _. K s') (on_system sys.read_fail_time) s2 h2.0.3 h2)
                    (λ s3 t' h3. h3))
                (λ _.
                  Returns->>= (λ s' (_ : ℕ). K s') P (through_comm (on_system sys.read_action) s2) _
                    (through-Returns (λ s' _. K s') (on_system sys.read_action) s2 h2.0.3 h2)
                    (λ s3 action h3.
                      Returns-choose P (action == action_failed) _ _ s3
                        (λ _.
                          through-Returns P (change_system (sys.write_action action_do_fail_all)) s3
                            h3.0.3 h3)
                        (λ _. h3)))))

  module _ (fk : Forking M) where
    -- Let the segment be given up when that is asked for, and let killing a process and waiting for it
    -- leave it dead, also when a segment is removed. A parent that is told which action was agreed on
    -- comes through without an exception, a failed assertion or undefined behaviour. If the action is
    -- ACTION_NOINFO or ACTION_UNDEFINED or above, it goes on and keeps its child. If it is
    -- ACTION_DOFAILLALL or ACTION_FAILED, it goes on alone, and the child is dead. If it is
    -- ACTION_SUCCESS, it exits with a failure, and the child is dead as well.
    pub act-Agreed :
        (action : ℕ) (s : Optimistic M Y)
        → IsParent s
        → Returns (Agreed alive action s) (act sys fk action s)
    unfolding act Agreed
    act-Agreed action s p =
        let P = Agreed alive action s in
        Returns-choose P (action == action_no_info) _ _ s
          (λ e.
            Returns->>= (λ s' _. IsParent s' × (s'.child_pid ≡ s.child_pid)) P (do_limbo sys s) _
              (do_limbo-Returns s p) (λ s' _ h. inl (inl (ground (arith, e)), refl, h.0, h.1)))
          (λ e1.
            Returns-choose P (action == action_do_fail_all) _ _ s
              (λ e.
                Returns->>= (λ s' _. IsAlone s' × (alive s'.system s.child_pid ≡ false)) P
                  (do_fail_all sys s) _ (do_fail_all-Returns s p)
                  (λ s' _ h. inr (inl (inl (ground (arith, e)), refl, h.0, h.1))))
              (λ e2.
                Returns-choose P (action == action_failed) _ _ s
                  (λ e.
                    Returns->>= (λ s' _. IsAlone s' × (alive s'.system s.child_pid ≡ false)) P
                      (child_died sys s) _ (child_died-Returns s p)
                      (λ s' _ h. inr (inl (inr (ground (arith, e)), refl, h.0, h.1))))
                  (λ e3.
                    Returns-choose P (action == action_success) _ _ s
                      (λ e.
                        Returns->>=
                          (λ s' status. (status ≡ 1) × (alive s'.system s.child_pid ≡ false)) P
                          (parent_die sys s) _ (parent_die-Returns s p)
                          (λ s' status h. inr (inr (ground (arith, e), ap exits (h.0), h.1))))
                      (λ e. inl (inr (ground (arith, e1, e2, e3, e)), refl, p, refl)))))
