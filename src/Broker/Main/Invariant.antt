-- ===== src/Broker/Main/Invariant.antt =====
-- What holds in every state that the broker reaches: its size stays that of the federation, and no
-- context has a larger world.
pub mod Outcomes
pub mod Handlers
pub mod Brokers
use fncs.Base.{
  subst, sym, ℕ, zero, suc, ◌+◌, ◌≡◌, ◌<◌, ◌≤◌, refl, arith, Bool, true, false, not, Bool-cases,
  Option-cases, inl, inr, Option, none, some, List, [], ◌∷◌, ◌++◌, All, length, get_elem?, values,
  set, Name, name_key, nat_key, ◌==◌, has_key, lookup, put, ltb, if◌then◌else◌, ℤ, pos, negsuc, ok,
  throws, assert_fails, undefined, Result, add64, include, int_key, insert,
}
use fncs.Message.{Message}
use fncs.Message.Header.{from_envelope}
use fncs.Broker.{
  Context, Broker, Packet, forward, Outcome, done, faults, ◌>>=◌, return, graceful_death,
  exit_failure, die_parent, publish, replies, context_id, get_context, set_context, at_context,
  assert,
}
use fncs.Broker.Contexts.{
  add_context, new_context, open_context, greet_net_sim, hello_handler, open_child,
  child_init_checker, child_init_handler, relabel, number, parent_reinit_checker,
  parent_reinit_handler, include_all, has_no_parent, is_empty,
}
use fncs.Broker.Sleeping.{sleep_handler, reduce_min_time_sleep_handler}
use fncs.Broker.Routing.{
  logical_id, register_handler, route_handler, delay_handler, receive, uncaught, receive_route_data,
  receive_delay_data,
}
use fncs.Broker.Main.Invariant.Handlers.{
  Fits, reduce_min_time-Fits, reduce_min_time_action-Fits, reduce_send_recv-Fits, all_gather-Fits,
  barrier-Fits, finalize-Fits, reduce_fail_time-Fits, sleep-Fits, reduce_min_time_sleep-Fits,
  parent_reinit_checker-Fits, parent_reinit-Fits, finished-Fits,
}
use fncs.Broker.Main.{
  invalidate, end_parents, succeed_checker, succeed_handler, child_failed_handler, finished_handler,
  handle_finished, handle_request, handle_async, hello, reduce_min_time, reduce_min_time_sleep,
  reduce_min_time_action, reduce_fail_time, reduce_send_recv, all_gather_next_time, register_object,
  finalize_registrations, barrier, sleep, child_failed, die, end, child_success, parent_reinit,
  child_init, unrecognized, ignore, unrecognized_async, route, delay, Request, AsyncRequest, Event,
  on_broker, on_async, goes_on, is_invalid_context, step, main_loop, new_broker,
}
use fncs.Broker.Main.Invariant.Outcomes.{
  Post, on_done, on_exits, on_aborts, on_faults, Post-after, Post->>=, Post-if, Post-any, Post-done,
}
use fncs.Broker.Main.Invariant.Brokers.{
  Bounded, at_context-Bounded, in_size, register-Bounded, hello-Bounded, child_init-Bounded,
  succeed-Bounded, finish-Bounded,
}

module _ (total : ℕ) where
  forward_to-Bounded :
      (b : Broker) (o : Option Name) (f : Name → List Packet)
      → Bounded total b
      → Post
          (Bounded total)
          (elim o [ none ↦ graceful_death exit_failure | some owner ↦ done b (f owner) ])
  forward_to-Bounded b none f h = on_exits _ _
  forward_to-Bounded b (some owner) f h = on_done _ _ h

  find_owner-Bounded :
      (b : Broker) (o : Option ℕ) (i : ℤ) (f : Name → List Packet)
      → Bounded total b
      → Post (Bounded total) (elim o [
        | none ↦ graceful_death exit_failure
        | some n ↦ get_context b i >>= λ c. elim (get_elem? c.logical_to_real n) [
          | none ↦ graceful_death exit_failure
          | some owner ↦ done b (f owner)
        ]
      ])
  find_owner-Bounded b none i f h = on_exits _ _
  find_owner-Bounded b (some n) i f h =
      Post->>= (Post-any (get_context b i))
        (λ c u. forward_to-Bounded b (get_elem? c.logical_to_real n) f h)

  route-Bounded :
      (n : Name) (i : ℤ) (envelope data_frame : List ℕ) (b : Broker)
      → Bounded total b
      → Post (Bounded total) (route_handler n i envelope data_frame b)
  unfolding route_handler
  route-Bounded n i envelope data_frame b h =
      Post->>= (Post-any (receive 256 envelope)) (λ bytes u1.
        Post->>= (Post-any (uncaught (from_envelope bytes none))) (λ m u2.
          Post->>= (Post-any (receive_route_data m data_frame)) (λ payload u3.
            find_owner-Bounded b (lookup m.to b.obj_to_id) i
              (λ owner. forward owner (fncs.Broker.route bytes payload) ∷ []) h)))

  delay-Bounded :
      (n : Name) (i : ℤ) (envelope data_frame : List ℕ) (b : Broker)
      → Bounded total b
      → Post (Bounded total) (delay_handler n i envelope data_frame b)
  unfolding delay_handler
  delay-Bounded n i envelope data_frame b h =
      Post->>= (Post-any (receive 256 envelope)) (λ bytes u1.
        Post->>= (Post-any (uncaught (from_envelope bytes none))) (λ m u2.
          Post->>= (Post-any (receive_delay_data m data_frame))
            (λ payload u3. Post->>= (Post-any (get_context b i)) (λ c u4. on_done _ _ h))))

  -- The state after a step, with the mark that says whether the loop ends
  Next : Broker × Bool → Type 0
  Next r = Bounded total r.0

  goes_on-Next : (m : Outcome Broker) → Post (Bounded total) m → Post Next (goes_on m)
  unfolding Next
  goes_on-Next m (on_done b ps h) = on_done _ ps h
  goes_on-Next m (on_exits code ps) = on_exits code ps
  goes_on-Next m on_aborts = on_aborts
  goes_on-Next m on_faults = on_faults

  request-Next :
      (n : Name) (i : ℤ) (r : Request) (b : Broker)
      → Bounded total b
      → Post Next (handle_request n i r b)
  unfolding handle_request Next child_failed_handler
  request-Next n i (hello net_sim parent) b h =
      goes_on-Next _ (hello-Bounded total n i net_sim parent b h)
  request-Next n i (reduce_min_time t) b h =
      goes_on-Next _ (at_context-Bounded total i _ b (reduce_min_time-Fits total n t) h)
  request-Next n i (reduce_min_time_sleep x) b h = goes_on-Next _ (
      at_context-Bounded total i _ b
        (in_size total (reduce_min_time_sleep_handler n x) b (reduce_min_time_sleep-Fits total n x)
          h)
        h)
  request-Next n i (reduce_min_time_action a) b h =
      goes_on-Next _ (at_context-Bounded total i _ b (reduce_min_time_action-Fits total n a) h)
  request-Next n i (reduce_fail_time t) b h =
      goes_on-Next _ (at_context-Bounded total i _ b (reduce_fail_time-Fits total n t) h)
  request-Next n i (reduce_send_recv sent recv) b h =
      goes_on-Next _ (at_context-Bounded total i _ b (reduce_send_recv-Fits total n sent recv) h)
  request-Next n i (all_gather_next_time t) b h =
      goes_on-Next _ (at_context-Bounded total i _ b (all_gather-Fits total n t) h)
  request-Next n i (register_object name) b h = goes_on-Next _ (register-Bounded total n i name b h)
  request-Next n i finalize_registrations b h =
      goes_on-Next _ (at_context-Bounded total i _ b (finalize-Fits total n) h)
  request-Next n i barrier b h =
      goes_on-Next _ (at_context-Bounded total i _ b (barrier-Fits total n) h)
  request-Next n i sleep b h =
      goes_on-Next _ (
        at_context-Bounded total i _ b (in_size total (sleep_handler n) b (sleep-Fits total n) h) h)
  request-Next n i child_failed b h = on_done _ _ h
  request-Next n i die b h = on_exits _ _
  request-Next n i end b h = finish-Bounded total n i b h
  request-Next n i child_success b h = goes_on-Next _ (succeed-Bounded total n i b h)
  request-Next n i (parent_reinit old_id) b h = goes_on-Next _ (
      at_context-Bounded total i _ b
        (in_size total (λ t. parent_reinit_handler n t old_id) b (parent_reinit-Fits total n old_id)
          h)
        h)
  request-Next n i (child_init net_sim parent old_id) b h =
      goes_on-Next _ (child_init-Bounded total n net_sim parent old_id b h)
  request-Next n i unrecognized b h = on_exits _ _

  async-Bounded :
      (n : Name) (i : ℤ) (r : AsyncRequest) (b : Broker)
      → Bounded total b
      → Post (Bounded total) (handle_async n i r b)
  unfolding handle_async
  async-Bounded n i ignore b h = on_done _ _ h
  async-Bounded n i unrecognized_async b h = on_exits _ _
  async-Bounded n i (route envelope payload) b h = route-Bounded n i envelope payload b h
  async-Bounded n i (delay envelope payload) b h = delay-Bounded n i envelope payload b h

  step-Next : (e : Event) (b : Broker) → Bounded total b → Post Next (step e b)
  unfolding step
  step-Next (on_broker n i r) b h =
      Post-if (is_invalid_context i b) (on_exits _ _) (request-Next n i r b h)
  step-Next (on_async n i r) b h =
      Post-if (is_invalid_context i b) (on_exits _ _) (goes_on-Next _ (async-Bounded n i r b h))

  main_loop-Bounded :
      (es : List Event) (b : Broker) → Bounded total b → Post (Bounded total) (main_loop es b)
  unfolding main_loop Next
  main_loop-Bounded [] b h = on_done _ _ h
  main_loop-Bounded (e ∷ es) b h =
      Post->>= (step-Next e b h)
        (λ (b', ends) h'. Post-if ends (on_exits _ _) (main_loop-Bounded es b' h'))

-- After any events, in any order, that leave the broker running, it serves a federation of the size
-- that it was started with, and the world of no context is larger.
pub world_size-le-total :
    (total : ℕ) (es : List Event) {b : Broker} {ps : List Packet}
    → main_loop es (new_broker total) ≡ done b ps
    → (b.total_size ≡ total) × All (λ c. c.world_size ≤ total) b.contexts
unfolding new_broker
world_size-le-total total es e =
    let h = Post-done (
      subst (Post (Bounded total)) e
        (main_loop-Bounded total es (new_broker total) (record { size = refl; worlds = tt }))) in
    (h.size, h.worlds)
