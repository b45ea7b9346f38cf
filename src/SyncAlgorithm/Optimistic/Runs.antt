-- ===== src/SyncAlgorithm/Optimistic/Runs.antt =====
-- syncalgorithms/optimisticticksyncalgo.cpp: the role of a process during the rounds of `GetNextTime`.
use fncs.Base.{
  ℕ, zero, suc, sym, subst, inl, inr, Bool, true, false, not, ◌&&◌, Option, none, some, nat_key,
  ◌==◌, leb, ltb, if◌then◌else◌, Bool-cases,
}
use fncs.Base.Actions.{
  Action, Leaves, Leaves-same, Leaves-if, Leaves-choose, Leaves->>=, pure, modify, ◌>>=◌,
}
use fncs.Time.{infinity, round_time}
use fncs.Settings.{Settings}
use fncs.SyncAlgorithm.{Manager, ask}
use fncs.SyncAlgorithm.Optimistic.{
  System, Forking, Optimistic, Turn, goes, exits, on_sync, on_system, through_comm,
  set_spec_fail_time, set_min_next_time, has_child,
}
use fncs.SyncAlgorithm.Optimistic.Deciding.{check_child, test_speculation_state, time_step_start}
use fncs.SyncAlgorithm.Optimistic.Tick.{
  Proposal, Spin, again, returns, stops, Granting, granted, stopped, propose, consult_others,
  consult_child, consult, judge, after_turn, tick_round, tick_loop, get_next_time,
}
use fncs.SyncAlgorithm.Optimistic.Roles.{
  IsFork, IsProcess, on_sync-Leaves, through-Leaves, check_child-Leaves,
}
use fncs.SyncAlgorithm.Optimistic.Leading.{IsTurned, test-Leaves, time_step_start-Leaves}

module _ {M Y : Type 0} where
  -- A process that goes on after a round, and after a call
  abbrev IsSpun : Optimistic M Y → Spin → Type 0
  IsSpun s (again current_time_param current_time need) = IsProcess s
  IsSpun s (returns t) = IsProcess s
  IsSpun s (stops status) = Unit {0}

  abbrev pub IsGranted : Optimistic M Y → Option Granting → Type 0
  IsGranted s none = IsProcess s
  IsGranted s (some (granted t)) = IsProcess s
  IsGranted s (some (stopped status)) = Unit {0}

  -- Forgetting the time of a failure does not touch the roles.
  pub reset_fail :
      (current : ℕ) (s : Optimistic M Y)
      → IsProcess s
      → IsProcess (if ltb s.spec_fail_time current then set_spec_fail_time infinity s else s)
  reset_fail current s p = elim (Bool-cases (ltb s.spec_fail_time current)) [
    | inl late ↦
        subst (λ b. IsProcess (if b then set_spec_fail_time infinity s else s)) (sym late) p
    | inr early ↦
        subst (λ b. IsProcess (if b then set_spec_fail_time infinity s else s)) (sym early) p
  ]

  module _ (i : Settings) (sys : System Y) (mg : Manager M) (fk : Forking M)
      (forks : (y : Y) → IsFork (sys.fork y).1) where
    asked-Leaves :
        {A : Type 0} (f : Action M A) (s : Optimistic M Y)
        → IsProcess s
        → Leaves (λ s' _. IsProcess s') (on_sync (ask f) s)
    asked-Leaves f s p = on_sync-Leaves sys (λ s'. IsProcess s') (ask f) s (λ y. p)

    propose-Leaves :
        (current_time_param next_time diff : ℕ) (need : Bool) (s : Optimistic M Y)
        → IsProcess s
        → Leaves
            (λ s' _. IsProcess s')
            (propose i sys mg fk current_time_param next_time diff need s)
    unfolding propose
    propose-Leaves current_time_param next_time diff need s p =
        let P : Optimistic M Y → Proposal → Type 0 = λ s' _. IsProcess s' in
        Leaves-if P (diff == 0 && not need) _ _
          (λ _.
            Leaves-if P (not (s.spec_fail_time == infinity) && ltb next_time s.spec_fail_time) _ _
              (λ _. p) (λ _. p))
          (λ _.
            Leaves->>= (λ s' _. IsProcess s') P (check_child sys diff s) _
              (check_child-Leaves sys diff s p) (λ s1 _ p1. p1))

    consult-Leaves :
        (current_time diff : ℕ) (can_speculate : Bool) (s : Optimistic M Y)
        → IsProcess s
        → Leaves (λ s' _. IsProcess s') (consult i sys mg fk current_time diff can_speculate s)
    unfolding consult consult_others consult_child
    consult-Leaves current_time diff can_speculate s p =
        let P : Optimistic M Y → ℕ → Type 0 = λ s' _. IsProcess s' in
        Leaves-if P (diff == 0) _ _
          (λ _.
            Leaves-if P (not (has_child s)) _ _
              (λ _.
                Leaves->>= (λ s' _. IsProcess s') P (on_sync (ask (fk.aggreate_reduce_min _)) s) _
                  (asked-Leaves (fk.aggreate_reduce_min _) s p) (λ s1 answer p1. p1))
              (λ _.
                Leaves->>= (λ s' (_ : ℕ). IsProcess s') P
                  (through_comm (on_system sys.read_action) s) _
                  (through-Leaves sys (λ s' _. IsProcess s') (on_system sys.read_action) s p)
                  (λ s1 action p1.
                    Leaves->>= (λ s' _. IsProcess s') P
                      (on_sync (ask (fk.aggreate_reduce_min (s1.min_next_time, action))) s1) _
                      (asked-Leaves (fk.aggreate_reduce_min (s1.min_next_time, action)) s1 p1)
                      (λ s2 answer p2. p2))))
          (λ _.
            Leaves->>= (λ s' _. IsProcess s') P
              (on_sync (ask (mg.reduce_min_time s.min_next_time)) s) _
              (asked-Leaves (mg.reduce_min_time s.min_next_time) s p) (λ s1 answer p1. p1))

    judge-Leaves :
        (current_time_param mine : ℕ) (need : Bool) (s : Optimistic M Y)
        → IsProcess s
        → Leaves IsSpun (judge i sys mg fk current_time_param mine need s)
    unfolding judge
    judge-Leaves current_time_param mine need s p =
        Leaves-if IsSpun (s.min_next_time == 0) _ _ (λ _. p)
          (λ _.
            Leaves-if IsSpun (ltb s.min_next_time mine) _ _
              (λ _.
                Leaves->>= (λ s' (_ : ℕ). IsProcess s') IsSpun
                  (s, round_time i.sim_time_metric s.min_next_time) _
                  (Leaves-same (λ s'. IsProcess s') s _ p) (λ s1 current p1. p1))
              (λ _. p))

    after_turn-Leaves :
        (current_time_param spec_next_time : ℕ) (q : Proposal) (turn : Turn) (s : Optimistic M Y)
        → IsTurned s turn
        → Leaves IsSpun (after_turn i sys mg fk current_time_param spec_next_time q turn s)
    unfolding after_turn
    after_turn-Leaves current_time_param spec_next_time q (exits status) s h = tt
    after_turn-Leaves current_time_param spec_next_time q (goes t) s h =
        let P : Optimistic M Y → Unit {0} → Type 0 = λ s' _. IsProcess s' in
        Leaves->>= P IsSpun
          ((if ltb 0 t then modify (set_min_next_time spec_next_time) else pure tt) s) _
          (Leaves-choose P (ltb 0 t) (modify (set_min_next_time spec_next_time)) (pure tt) s
            (λ _. h) (λ _. h))
          (λ s1 _ p1. judge-Leaves current_time_param q.mine q.need_to_respond s1 p1)

    -- A round from the proposal on
    proposed-Leaves :
        (current_time_param current_time next_time diff : ℕ) (need : Bool) (s : Optimistic M Y)
        → IsProcess s
        → Leaves IsSpun (
            (do
              q ← propose i sys mg fk current_time_param next_time diff need
              spec_next_time ← consult i sys mg fk current_time diff q.can_speculate
              turn ← test_speculation_state sys fk spec_next_time current_time
              after_turn i sys mg fk current_time_param spec_next_time q turn)
              s)
    proposed-Leaves current_time_param current_time next_time diff need s p =
        Leaves->>= (λ s' (_ : Proposal). IsProcess s') IsSpun
          (propose i sys mg fk current_time_param next_time diff need s) _
          (propose-Leaves current_time_param next_time diff need s p)
          (λ s1 q p1.
            Leaves->>= (λ s' (_ : ℕ). IsProcess s') IsSpun
              (consult i sys mg fk current_time diff q.can_speculate s1) _
              (consult-Leaves current_time diff q.can_speculate s1 p1)
              (λ s2 spec_next_time p2.
                Leaves->>= IsTurned IsSpun
                  (test_speculation_state sys fk spec_next_time current_time s2) _
                  (test-Leaves sys fk spec_next_time current_time s2 forks p2)
                  (λ s3 turn h. after_turn-Leaves current_time_param spec_next_time q turn s3 h)))

    -- What the loop does after a round, where `onward` is what is left of it
    abbrev spun :
        (onward : (current_time_param current_time : ℕ) (need : Bool)
          → Action (Optimistic M Y) (Option Granting))
        → Spin
        → Action (Optimistic M Y) (Option Granting)
    spun onward (again current_time_param current_time need) =
        onward current_time_param current_time need
    spun onward (returns t) = pure (some (granted t))
    spun onward (stops status) = pure (some (stopped status))

    spun-Leaves :
        (onward : (current_time_param current_time : ℕ) (need : Bool)
          → Action (Optimistic M Y) (Option Granting))
        → ((current_time_param current_time : ℕ) (need : Bool) (s : Optimistic M Y)
            → IsProcess s
            → Leaves IsGranted (onward current_time_param current_time need s))
        → (s : Optimistic M Y) (r : Spin) → IsSpun s r
        → Leaves IsGranted (spun onward r s)
    spun-Leaves onward rest s (again current_time_param current_time need) h =
        rest current_time_param current_time need s h
    spun-Leaves onward rest s (returns t) h = h
    spun-Leaves onward rest s (stops status) h = tt

    tick_round-Leaves :
        (current_time_param current_time next_time : ℕ) (need busywait : Bool) (s : Optimistic M Y)
        → IsProcess s
        → Leaves IsSpun
            (tick_round i sys mg fk current_time_param current_time next_time need busywait s)
    unfolding tick_round
    tick_round-Leaves current_time_param current_time next_time need busywait s p =
        let P : Optimistic M Y → Unit {0} → Type 0 = λ s' _. IsProcess s' in
        Leaves->>= P IsSpun
          ((if busywait then time_step_start sys fk mg current_time else pure tt) s) _
          (Leaves-choose P busywait (time_step_start sys fk mg current_time) (pure tt) s
            (λ _. time_step_start-Leaves sys fk mg current_time s p) (λ _. p))
          (λ s1 _ p1.
            Leaves->>= (λ s' _. IsProcess s') IsSpun (on_sync (ask mg.reduce_total_send_receive) s1)
              _ (asked-Leaves mg.reduce_total_send_receive s1 p1)
              (λ s2 diff p2.
                Leaves->>= (λ s' _. IsProcess s') IsSpun (on_sync (ask mg.reduce_network_delay) s2)
                  _ (asked-Leaves mg.reduce_network_delay s2 p2)
                  (λ s3 _ p3.
                    proposed-Leaves current_time_param current_time next_time diff need s3 p3)))

    tick_loop-Leaves :
        (fuel current_time_param current_time next_time : ℕ) (need busywait : Bool)
        (s : Optimistic M Y)
        → IsProcess s
        → Leaves IsGranted
            (tick_loop i sys mg fk fuel current_time_param current_time next_time need busywait s)
    unfolding tick_loop
    tick_loop-Leaves zero current_time_param current_time next_time need busywait s p = p
    tick_loop-Leaves (suc fuel) current_time_param current_time next_time need busywait s p =
        Leaves->>= IsSpun IsGranted
          (tick_round i sys mg fk current_time_param current_time next_time need busywait s)
          (spun (λ current_time_param' current_time' need'.
            tick_loop i sys mg fk fuel current_time_param' current_time' next_time need' true))
          (tick_round-Leaves current_time_param current_time next_time need busywait s p)
          (λ s1 r h.
            spun-Leaves
              (λ current_time_param' current_time' need'.
                tick_loop i sys mg fk fuel current_time_param' current_time' next_time need' true)
              (λ current_time_param' current_time' need' s'.
                tick_loop-Leaves fuel current_time_param' current_time' next_time need' true s')
              s1 r h)

    pub get_next_time-Leaves :
        (fuel current_time_param next_time : ℕ) (s : Optimistic M Y)
        → IsProcess s
        → Leaves IsGranted (get_next_time i sys mg fk fuel current_time_param next_time s)
    unfolding get_next_time
    get_next_time-Leaves fuel current_time_param next_time s p =
        let behind = ltb current_time_param s.sync.granted_time in
        let current = if behind then s.sync.granted_time else current_time_param in
        Leaves-if IsGranted (leb next_time s.sync.granted_time) _ _ (λ _. p)
          (λ _.
            tick_loop-Leaves fuel current_time_param current next_time false behind _
              (reset_fail current s p))
