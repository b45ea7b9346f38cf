-- ===== src/Broker/Main.antt =====
-- fncsbroker.cpp: the handlers that end a context or the program, and the loop of `main`.
pub mod Startup
pub mod Invariant
use fncs.Base.{
  ℕ, zero, suc, ◌≡◌, Bool, true, false, not, ◌&&◌, ◌||◌, List, [], ◌∷◌, length, Name, name_key,
  nat_key, ◌==◌, member, include, ltb, if◌then◌else◌, ℤ, pos, negsuc,
}
use fncs.Broker.{
  AggregateType, TimeBool, Context, Broker, die_child, die_parent, finished, publish, Outcome, done,
  exits, aborts, faults, ◌>>=◌, ◌>>◌, return, emit, map_outcome, graceful_death, exit_failure,
  exit_success, get_context, set_context, at_context,
}
use fncs.Broker.Rounds.{
  reduce_min_time_handler, reduce_min_time_action_handler, reduce_send_recv_handler,
  all_gather_handler, barrier_handler, finalize_handler, reduce_fail_time_handler,
}
use fncs.Broker.Sleeping.{sleep_handler, reduce_min_time_sleep_handler}
use fncs.Broker.Contexts.{hello_handler, parent_reinit_handler, child_init_handler}
use fncs.Broker.Routing.{register_handler, route_handler, delay_handler}

-- `valid_contexts[*it] = false` for each parent; -1 is no context.
unfoldable pub invalidate : List ℤ → Broker → Outcome Broker
unfolding at_context
invalidate [] b = return b
invalidate (p ∷ ps) b = do
  marked ← at_context p (λ c. return (record c { valid = false })) b
  invalidate ps marked

-- The first parent is published; with none, the end of the set is dereferenced.
unfoldable pub end_parents : List ℤ → Broker → Outcome Broker
unfolding invalidate
end_parents [] b = faults
end_parents (p ∷ ps) b = do sent ← emit (publish (die_parent p) ∷ []); invalidate (p ∷ ps) b

unfoldable pub succeed_checker : ℤ → Context → Broker → Outcome Broker
unfolding set_context end_parents
succeed_checker context c b =
    if ltb c.world_size (length c.succed)
    then graceful_death exit_failure
    else (if (length c.succed == c.world_size) && ltb 1 c.world_size
        then end_parents c.parents (set_context b context (record c { succed = [] }))
        else return (set_context b context c))

unfoldable pub succeed_handler : Name → ℤ → Broker → Outcome Broker
unfolding get_context succeed_checker
succeed_handler identity context b = do
  c ← get_context b context
  if member identity c.succed
      then graceful_death exit_failure
      else (if not c.valid
          then return b
          else succeed_checker context (record c { succed = include identity c.succed }) b)

unfoldable pub child_failed_handler : Broker → Outcome Broker
child_failed_handler b = done b (publish die_child ∷ [])

-- `finished_handler`, whose result says that the loop ends
unfoldable pub finished_handler : Name → (total : ℕ) → Context → Outcome (Context × Bool)
finished_handler identity total c =
    let ended = include identity c.finished in
    if ltb total (length ended)
    then graceful_death exit_failure
    else (if length ended == total
        then return (record c { finished = ended }, true)
        else done (record c { finished = ended }, false) (publish finished ∷ []))

-- A request on `broker`: the control word with the frames that its handler reads
pub data Request : Type 0 where
  hello : (net_sim : Bool) (parent : ℤ) → Request
  reduce_min_time : ℕ → Request
  reduce_min_time_sleep : TimeBool → Request
  reduce_min_time_action : AggregateType → Request
  reduce_fail_time : ℕ → Request
  reduce_send_recv : (sent recv : ℕ) → Request
  all_gather_next_time : ℕ → Request
  register_object : Name → Request
  finalize_registrations barrier sleep child_failed die end child_success : Request
  parent_reinit : (old_id : Name) → Request
  child_init : (net_sim : Bool) (parent : ℤ) (old_id : Name) → Request
  unrecognized : Request

-- A request on `async_broker`; the second frame of `route` and `delay` is the payload's.
pub data AsyncRequest : Type 0 where
  ignore unrecognized_async : AsyncRequest
  route delay : List ℕ → List ℕ → AsyncRequest

-- A handler after which the loop goes on
abbrev pub goes_on : Outcome Broker → Outcome (Broker × Bool)
goes_on = map_outcome (λ b. (b, false))

unfoldable pub handle_finished : Name → ℤ → Broker → Outcome (Broker × Bool)
unfolding get_context set_context finished_handler
handle_finished identity context b = do
  c ← get_context b context
  (c', ends) ← finished_handler identity b.total_size c
  return (set_context b context c', ends)

unfoldable pub handle_request : Name → ℤ → Request → Broker → Outcome (Broker × Bool)
unfolding at_context handle_finished
handle_request identity i (hello net_sim parent) b =
    goes_on (hello_handler identity i net_sim parent b)
handle_request identity i (reduce_min_time t) b =
    goes_on (at_context i (reduce_min_time_handler identity t) b)
handle_request identity i (reduce_min_time_sleep x) b =
    goes_on (at_context i (reduce_min_time_sleep_handler identity x b.total_size) b)
handle_request identity i (reduce_min_time_action a) b =
    goes_on (at_context i (reduce_min_time_action_handler identity a) b)
handle_request identity i (reduce_fail_time t) b =
    goes_on (at_context i (reduce_fail_time_handler identity t) b)
handle_request identity i (reduce_send_recv sent recv) b =
    goes_on (at_context i (reduce_send_recv_handler identity sent recv) b)
handle_request identity i (all_gather_next_time t) b =
    goes_on (at_context i (all_gather_handler identity t) b)
handle_request identity i (register_object name) b = goes_on (register_handler identity i name b)
handle_request identity i finalize_registrations b =
    goes_on (at_context i (finalize_handler identity) b)
handle_request identity i barrier b = goes_on (at_context i (barrier_handler identity) b)
handle_request identity i sleep b = goes_on (at_context i (sleep_handler identity b.total_size) b)
handle_request identity i child_failed b = goes_on (child_failed_handler b)
handle_request identity i die b = graceful_death exit_failure
handle_request identity i end b = handle_finished identity i b
handle_request identity i child_success b = goes_on (succeed_handler identity i b)
handle_request identity i (parent_reinit old_id) b =
    goes_on (at_context i (parent_reinit_handler identity b.total_size old_id) b)
handle_request identity i (child_init net_sim parent old_id) b =
    goes_on (child_init_handler identity net_sim parent old_id b)
handle_request identity i unrecognized b = graceful_death exit_failure

unfoldable pub handle_async : Name → ℤ → AsyncRequest → Broker → Outcome Broker
handle_async identity i ignore b = return b
handle_async identity i unrecognized_async b = graceful_death exit_failure
handle_async identity i (route envelope payload) b = route_handler identity i envelope payload b
handle_async identity i (delay envelope payload) b = delay_handler identity i envelope payload b

-- `context < 0 || (context >= contexts.size() && !contexts.empty())`
unfoldable pub is_invalid_context : ℤ → Broker → Bool
is_invalid_context (negsuc n) b = true
is_invalid_context (pos n) b = not (ltb n (length b.contexts)) && ltb 0 (length b.contexts)

-- What one round of the loop finds on one of its sockets
pub data Event : Type 0 where
  on_broker : Name → ℤ → Request → Event
  on_async : Name → ℤ → AsyncRequest → Event

unfoldable pub step : Event → Broker → Outcome (Broker × Bool)
unfolding is_invalid_context handle_request handle_async
step (on_broker identity i request) b =
    if is_invalid_context i b
    then graceful_death exit_failure
    else handle_request identity i request b
step (on_async identity i request) b =
    if is_invalid_context i b
    then graceful_death exit_failure
    else goes_on (handle_async identity i request b)

-- The loop over the events of a run. It ends with the program; before that it waits for more.
unfoldable pub main_loop : List Event → Broker → Outcome Broker
unfolding step
main_loop [] b = return b
main_loop (e ∷ es) b = do
  (b', ends) ← step e b
  if ends then graceful_death exit_success else main_loop es b'

-- The state before the first event
unfoldable pub new_broker : ℕ → Broker
new_broker total = record {
  total_size = total;
  obj_to_id = [];
  new_net_sim_id = [];
  new_connections = [];
  new_parents = [];
  child_ini_map = [];
  contexts = [];
}
