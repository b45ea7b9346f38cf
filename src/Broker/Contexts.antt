-- ===== src/Broker/Contexts.antt =====
-- fncsbroker.cpp: how contexts come into being. A context is a group of simulators that advance
-- together; a child context speculates on the future of its parent.
use fncs.Base.{
  Option, ℕ, Bool, true, false, not, ◌||◌, none, some, List, [], ◌∷◌, ◌++◌, length, drop, Name,
  name_key, nat_key, ◌==◌, Table, lookup, has_key, insert, values, include, ltb, if◌then◌else◌, ℤ,
  pos, negsuc, int_key, map,
}
use fncs.Broker.{
  Context, Broker, context_id, is_valid, not_valid, Outcome, done, ◌>>=◌, return, emit,
  graceful_death, exit_failure, exit_success, assert, replies, get_context, at_context,
}

abbrev pub is_empty : Name → Bool
is_empty [] = true
is_empty (b ∷ rest) = false

-- A set with the elements of a list
unfoldable pub include_all : List Name → List Name → List Name
include_all [] s = s
include_all (n ∷ ns) s = include_all ns (include n s)

-- What `add_context` and the resized vectors hold for a new context
unfoldable pub new_context : Broker → Context
new_context b = record {
  net_sim_id = b.new_net_sim_id;
  net_sim_obj_count = 0;
  members = b.new_connections;
  parents = b.new_parents;
  world_size = b.total_size;
  valid = true;
  child_init_complete = false;
  reduce_min_time = [];
  sleep_state = map (λ n. (n, 0)) b.new_connections;
  sleep_incoming = [];
  reduce_min_time_action = [];
  reduce_sent = [];
  reduce_recv = [];
  reduce_sent_total = 0;
  reduce_recv_total = 0;
  reduce_fail_time = [];
  all_gather = [];
  finalized = [];
  barrier = [];
  succed = [];
  asleep = [];
  finished = [];
  reinit_map = [];
  logical_to_real = [];
  sleeping_sim = false;
}

-- The state part of `add_context`; its result is `length b.contexts`.
unfoldable pub add_context : Broker → Broker
unfolding new_context
add_context b = record b { contexts = b.contexts ++ (new_context b ∷ []) }

-- `logicalID_to_realID[context].insert(...)` for each position, which keeps the names that are there
unfoldable pub number : List Name → List Name → List Name
number old ns = old ++ drop (length old) ns

-- An initial registration has no parent.
abbrev pub has_no_parent : List ℤ → Bool
has_no_parent [] = false
has_no_parent (p ∷ ps) = int_key.beq p (negsuc 0)

-- The branch of `hello_handler` that is taken when all have said hello
unfoldable pub open_context : ℤ → Broker → Outcome Broker
unfolding add_context number at_context
open_context context b = do
  sent ← emit (replies (context_id (length b.contexts)) b.new_connections)
  single ← assert (length b.new_parents == 1)
  numbered ←
      (if has_no_parent b.new_parents
        then at_context context
            (λ c.
              return (record c { logical_to_real = number c.logical_to_real b.new_connections }))
            (add_context b)
        else return (add_context b))
  return (record numbered { new_connections = []; new_parents = []; new_net_sim_id = [] })

-- `HELLO_NETSIM` names the network simulator of the next context.
unfoldable pub greet_net_sim : Name → Bool → Broker → Outcome Broker
greet_net_sim identity net_sim b =
    if net_sim
    then (if is_empty b.new_net_sim_id
        then return (record b { new_net_sim_id = identity })
        else graceful_death exit_failure)
    else return b

unfoldable pub hello_handler : Name → ℤ → (net_sim : Bool) → (parent : ℤ) → Broker → Outcome Broker
unfolding greet_net_sim open_context
hello_handler identity context net_sim parent b = do
  greeted ← greet_net_sim identity net_sim (record b {
    new_connections = include identity b.new_connections;
    new_parents = include parent b.new_parents;
  })
  if ltb greeted.total_size (length greeted.new_connections)
      then graceful_death exit_failure
      else (if length greeted.new_connections == greeted.total_size
          then open_context context greeted
          else return greeted)

-- Names replaced by those that a table gives for them
unfoldable pub relabel : Table Name Name → List Name → Outcome (List Name)
relabel t [] = return []
relabel t (n ∷ ns) = do
  renamed ← elim (lookup n t) [ none ↦ graceful_death exit_failure | some r ↦ return r ]
  rest ← relabel t ns
  return (renamed ∷ rest)

-- The new simulators take the places of the old; the argument is the new network simulator.
unfoldable pub replace_parents : Option Name → Context → Outcome Context
unfolding include_all relabel
replace_parents none c = graceful_death exit_success
replace_parents (some net_sim) c = do
  renamed ← relabel c.reinit_map c.logical_to_real
  done
      (record c {
        members = include_all (values c.reinit_map) [];
        net_sim_id = net_sim;
        logical_to_real = renamed;
        reinit_map = [];
        child_init_complete = false;
      })
      (replies is_valid (values c.reinit_map))

unfoldable pub parent_reinit_checker : (total : ℕ) → Context → Outcome Context
unfolding replace_parents
parent_reinit_checker total c =
    if not c.child_init_complete || not (length c.reinit_map == total)
    then return c
    else (if not c.valid
        then done (record c { reinit_map = []; child_init_complete = false })
            (replies not_valid (values c.reinit_map))
        else replace_parents (lookup c.net_sim_id c.reinit_map) c)

unfoldable pub parent_reinit_handler :
    Name → (total : ℕ) → (old_id : Name) → Context → Outcome Context
unfolding parent_reinit_checker
parent_reinit_handler identity total old_id c =
    if ltb total (length c.reinit_map)
    then graceful_death exit_success
    else (if has_key old_id c.reinit_map
        then graceful_death exit_success
        else parent_reinit_checker total
            (record c { reinit_map = insert old_id identity c.reinit_map }))

-- The new context of `child_init_checker`, and the answers to its members
unfoldable pub open_child : Context → Broker → Outcome Broker
unfolding add_context at_context include_all relabel
open_child parent b = do
  let id = length b.contexts
  let names = include_all (values b.child_ini_map) b.new_connections
  renamed ← relabel b.child_ini_map parent.logical_to_real
  opened ←
      at_context (pos id)
        (λ c.
          done (record c { members = names; logical_to_real = renamed })
            (replies (context_id id) names))
        (add_context b)
  return (record opened {
    child_ini_map = [];
    new_connections = [];
    new_parents = [];
    new_net_sim_id = [];
  })

-- `child_init_checker`
unfoldable pub child_init_checker : ℤ → Broker → Outcome Broker
unfolding get_context open_child at_context parent_reinit_checker
child_init_checker parent b = if not (length b.child_ini_map == b.total_size) then return b else (do
  p ← get_context b parent
  still_valid ← assert p.valid
  nobody_new ← assert (length b.new_connections == 0)
  one_parent ← assert (length b.new_parents == 1)
  net_sim_known ← assert (not (is_empty b.new_net_sim_id))
  opened ← open_child p b
  at_context parent
      (λ c. parent_reinit_checker b.total_size (record c { child_init_complete = true })) opened)

unfoldable pub child_init_handler :
    Name → (net_sim : Bool) → (parent : ℤ) → (old_id : Name) → Broker → Outcome Broker
unfolding child_init_checker
child_init_handler identity net_sim parent old_id b =
    let named = record b {
      new_parents = include parent b.new_parents;
      new_net_sim_id = if net_sim then identity else b.new_net_sim_id;
    } in
    if ltb b.total_size (length b.child_ini_map)
    then graceful_death exit_success
    else (if has_key old_id b.child_ini_map
        then graceful_death exit_success
        else child_init_checker parent
            (record named { child_ini_map = insert old_id identity b.child_ini_map }))
