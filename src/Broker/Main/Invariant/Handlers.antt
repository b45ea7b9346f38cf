-- ===== src/Broker/Main/Invariant/Handlers.antt =====
-- No handler makes the world of a context larger than the federation.
use fncs.Base.{
  ℕ, zero, suc, ◌≤◌, arith, Bool-cases, inl, inr, Option, none, some, [], ◌∷◌, Name, name_key,
  nat_key, ◌==◌, Table, include, exclude, ltb, if◌then◌else◌,
}
use fncs.Broker.{AggregateType, TimeBool, Context, graceful_death, exit_failure}
use fncs.Broker.Sleeping.{
  check_rounds, wake_up, fall_asleep, sleep_handler, answer_awake, wake_all, let_sleep,
  answer_sleep, reduce_min_time_sleep_handler,
}
use fncs.Broker.Contexts.{parent_reinit_checker, parent_reinit_handler, relabel, replace_parents}
use fncs.Broker.Main.{finished_handler}
use fncs.Broker.Main.Invariant.Outcomes.{
  Post, on_done, on_exits, on_aborts, on_faults, Post->>=, Post-if, Post-any,
}
use fncs.Broker.Rounds.{
  answer_min_time, reduce_min_time_checker, reduce_min_time_handler, reduce_min_time_action_handler,
  answer_send_recv, reduce_send_recv_checker, reduce_send_recv_handler, all_gather_handler,
  barrier_checker, barrier_handler, finalize_handler, answer_fail_time, reduce_fail_time_handler,
}

-- The world of a context is no larger than the federation.
abbrev pub Fits : ℕ → Context → Type 0
Fits total c = c.world_size ≤ total

module _ (total : ℕ) where
  answer_min_time-Fits :
      (c : Context) (t : Table Name ℕ) → Fits total c → Post (Fits total) (answer_min_time c t)
  unfolding answer_min_time
  answer_min_time-Fits c [] h = on_faults
  answer_min_time-Fits c (x ∷ t) h = on_done _ _ h

  answer_fail_time-Fits :
      (c : Context) (t : Table Name ℕ) → Fits total c → Post (Fits total) (answer_fail_time c t)
  unfolding answer_fail_time
  answer_fail_time-Fits c [] h = on_faults
  answer_fail_time-Fits c (x ∷ t) h = on_done _ _ h

  answer_send_recv-Fits : (c : Context) → Fits total c → Post (Fits total) (answer_send_recv c)
  unfolding answer_send_recv
  answer_send_recv-Fits c h = search (Post-if, on_done, on_exits, on_aborts)

  pub reduce_min_time_checker-Fits :
      (c : Context) → Fits total c → Post (Fits total) (reduce_min_time_checker c)
  unfolding reduce_min_time_checker
  reduce_min_time_checker-Fits c h = search (Post-if, on_done, on_exits, answer_min_time-Fits)

  pub reduce_send_recv_checker-Fits :
      (c : Context) → Fits total c → Post (Fits total) (reduce_send_recv_checker c)
  unfolding reduce_send_recv_checker
  reduce_send_recv_checker-Fits c h = search (Post-if, on_done, on_exits, answer_send_recv-Fits)

  pub barrier_checker-Fits : (c : Context) → Fits total c → Post (Fits total) (barrier_checker c)
  unfolding barrier_checker
  barrier_checker-Fits c h = search (Post-if, on_done, on_exits)

  pub reduce_min_time-Fits :
      (n : Name) (t : ℕ) (c : Context)
      → Fits total c
      → Post (Fits total) (reduce_min_time_handler n t c)
  unfolding reduce_min_time_handler
  reduce_min_time-Fits n t c h = search (Post-if, on_done, on_exits, reduce_min_time_checker-Fits)

  pub reduce_min_time_action-Fits :
      (n : Name) (a : AggregateType) (c : Context)
      → Fits total c
      → Post (Fits total) (reduce_min_time_action_handler n a c)
  unfolding reduce_min_time_action_handler
  reduce_min_time_action-Fits n a c h = search (Post-if, on_done, on_exits) depth 9

  pub reduce_send_recv-Fits :
      (n : Name) (sent recv : ℕ) (c : Context)
      → Fits total c
      → Post (Fits total) (reduce_send_recv_handler n sent recv c)
  unfolding reduce_send_recv_handler
  reduce_send_recv-Fits n sent recv c h =
      search (Post-if, on_done, on_exits, on_aborts, reduce_send_recv_checker-Fits)

  pub all_gather-Fits :
      (n : Name) (t : ℕ) (c : Context) → Fits total c → Post (Fits total) (all_gather_handler n t c)
  unfolding all_gather_handler
  all_gather-Fits n t c h = search (Post-if, on_done, on_exits) depth 9

  pub barrier-Fits :
      (n : Name) (c : Context) → Fits total c → Post (Fits total) (barrier_handler n c)
  unfolding barrier_handler
  barrier-Fits n c h = search (Post-if, on_done, on_exits, barrier_checker-Fits)

  pub finalize-Fits :
      (n : Name) (c : Context) → Fits total c → Post (Fits total) (finalize_handler n c)
  unfolding finalize_handler
  finalize-Fits n c h = search (Post-if, on_done, on_exits)

  pub reduce_fail_time-Fits :
      (n : Name) (t : ℕ) (c : Context)
      → Fits total c
      → Post (Fits total) (reduce_fail_time_handler n t c)
  unfolding reduce_fail_time_handler
  reduce_fail_time-Fits n t c h = search (Post-if, on_done, on_exits, answer_fail_time-Fits) depth 9

  check_rounds-Fits : (c : Context) → Fits total c → Post (Fits total) (check_rounds c)
  unfolding check_rounds
  check_rounds-Fits c h = Post-if (c.world_size == 1) (on_done c [] h) (
      Post->>= (Post->>= (barrier_checker-Fits c h) reduce_min_time_checker-Fits)
        reduce_send_recv_checker-Fits)

  wake_up-Fits : (c : Context) → Fits total c → Post (Fits total) (wake_up total c)
  unfolding wake_up
  wake_up-Fits c h = elim (Bool-cases (c.world_size == 1)) [
    | inl alone ↦
        rw alone (let k : total ≤ total = omega arith in search (Post-if, on_done, on_exits))
    | inr others ↦ rw others (search (Post-if, on_done, on_exits, on_aborts))
  ]

  fall_asleep-Fits :
      (n : Name) (w : ℕ) (c : Context) → w ≤ total → Post (Fits total) (fall_asleep n total w c)
  unfolding fall_asleep
  fall_asleep-Fits n zero c h = on_exits _ _
  fall_asleep-Fits n (suc w) c h =
      let c' = record c {
        asleep = include n c.asleep;
        world_size = w;
        members = exclude n c.members;
      } in
      Post->>= {f = λ x. if x.world_size == 0 then graceful_death exit_failure else wake_up total x}
        (check_rounds-Fits c' (omega arith)) (λ x k. search (Post-if, on_exits, wake_up-Fits))

  pub sleep-Fits :
      (n : Name) (c : Context) → Fits total c → Post (Fits total) (sleep_handler n total c)
  unfolding sleep_handler
  sleep-Fits n c h = search (Post-if, on_exits, fall_asleep-Fits)

  wake_all-Fits :
      (t : Table Name ℕ) (c : Context) → Fits total c → Post (Fits total) (wake_all total t c)
  unfolding wake_all
  wake_all-Fits [] c h = on_faults
  wake_all-Fits (x ∷ t) c h = on_done _ _ (omega arith)

  let_sleep-Fits :
      (least : ℕ) (incoming : Table Name TimeBool) (c : Context)
      → Fits total c
      → Post (Fits total) (let_sleep total least incoming c)
  unfolding let_sleep
  let_sleep-Fits least incoming c h =
      Post->>= (Post-any (answer_awake c.net_sim_id least incoming c.sleep_state 0))
        (λ (state, awake) u. elim (Bool-cases (ltb total awake)) [
          | inl more ↦ rw more (search (Post-if, on_exits))
          | inr fits ↦
              let k : awake ≤ total = ground arith in rw fits (search (Post-if, on_done, on_exits))
        ])

  answer_sleep-Fits :
      (incoming : Table Name TimeBool) (c : Context)
      → Fits total c
      → Post (Fits total) (answer_sleep total incoming c)
  unfolding answer_sleep
  answer_sleep-Fits [] c h = on_faults
  answer_sleep-Fits (x ∷ incoming) c h = search (Post-if, wake_all-Fits, let_sleep-Fits)

  pub reduce_min_time_sleep-Fits :
      (n : Name) (x : TimeBool) (c : Context)
      → Fits total c
      → Post (Fits total) (reduce_min_time_sleep_handler n x total c)
  unfolding reduce_min_time_sleep_handler
  reduce_min_time_sleep-Fits n x c h =
      search (Post-if, on_done, on_exits, answer_sleep-Fits) depth 9

  replace_parents-Fits :
      (net_sim : Option Name) (c : Context)
      → Fits total c
      → Post (Fits total) (replace_parents net_sim c)
  unfolding replace_parents
  replace_parents-Fits none c h = on_exits _ _
  replace_parents-Fits (some net_sim) c h =
      Post->>= (Post-any (relabel c.reinit_map c.logical_to_real)) (λ renamed u. on_done _ _ h)

  pub parent_reinit_checker-Fits :
      (c : Context) → Fits total c → Post (Fits total) (parent_reinit_checker total c)
  unfolding parent_reinit_checker
  parent_reinit_checker-Fits c h = search (Post-if, on_done, replace_parents-Fits)

  pub parent_reinit-Fits :
      (n old_id : Name) (c : Context)
      → Fits total c
      → Post (Fits total) (parent_reinit_handler n total old_id c)
  unfolding parent_reinit_handler
  parent_reinit-Fits n old_id c h = search (Post-if, on_exits, parent_reinit_checker-Fits)

  pub finished-Fits :
      (n : Name) (c : Context)
      → Fits total c
      → Post (λ r. Fits total r.0) (finished_handler n total c)
  unfolding finished_handler
  finished-Fits n c h = search (Post-if, on_done, on_exits)
