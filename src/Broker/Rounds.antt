-- ===== src/Broker/Rounds.antt =====
-- fncsbroker.cpp: the collective operations, which gather one contribution of each simulator of a
-- context and then answer all of them. An invalid context ignores the contribution.
use fncs.Base.{
  ℕ, suc, ◌-◌, false, not, ◌&&◌, ◌||◌, List, [], ◌∷◌, ◌++◌, length, Name, name_key, nat_key, ◌==◌,
  Table, has_key, put, keys, values, member, include, ltb, if◌then◌else◌, add64,
}
use fncs.Time.{infinity}
use fncs.Broker.{
  AggregateType, Context, ack, time, time_action, difference, next_times, object_count, child_died,
  Packet, reply, publish, Outcome, done, aborts, faults, return, graceful_death, exit_failure,
  replies, min_element,
}

-- `reduce_min_time_checker`: with nobody to wait for, `min_element` is dereferenced at the end.
unfoldable pub answer_min_time : Context → Table Name ℕ → Outcome Context
answer_min_time c [] = faults
answer_min_time c ((name, t) ∷ rest) =
    done (record c { reduce_min_time = [] })
      (replies (time (min_element t (values rest))) (name ∷ keys rest))

unfoldable pub reduce_min_time_checker : Context → Outcome Context
unfolding answer_min_time
reduce_min_time_checker c =
    if ltb c.world_size (length c.reduce_min_time)
    then graceful_death exit_failure
    else (if length c.reduce_min_time == c.world_size
        then answer_min_time c c.reduce_min_time
        else return c)

unfoldable pub reduce_min_time_handler : Name → ℕ → Context → Outcome Context
unfolding reduce_min_time_checker
reduce_min_time_handler identity t c =
    if has_key identity c.reduce_min_time
    then graceful_death exit_failure
    else (if not c.valid
        then return c
        else reduce_min_time_checker
            (record c { reduce_min_time = put identity t c.reduce_min_time }))

-- The loop of `reduce_min_time_action_checker`
unfoldable pub min_time_action : AggregateType → List AggregateType → AggregateType
min_time_action mins [] = mins
min_time_action mins (a ∷ rest) =
    min_time_action
      (record {
        time = if ltb a.time mins.time then a.time else mins.time;
        action = if ltb a.action mins.action then a.action else mins.action;
      })
      rest

unfoldable pub reduce_min_time_action_checker : Context → Outcome Context
unfolding min_time_action
reduce_min_time_action_checker c =
    if ltb c.world_size (length c.reduce_min_time_action)
    then graceful_death exit_failure
    else (if length c.reduce_min_time_action == c.world_size
        then (let mins =
              min_time_action (record { time = infinity; action = infinity })
                (values c.reduce_min_time_action) in
            done (record c { reduce_min_time_action = [] })
              (replies (time_action mins.time mins.action) c.members))
        else return c)

unfoldable pub reduce_min_time_action_handler : Name → AggregateType → Context → Outcome Context
unfolding reduce_min_time_action_checker
reduce_min_time_action_handler identity a c =
    if has_key identity c.reduce_min_time_action
    then graceful_death exit_failure
    else (if not c.valid
        then return c
        else reduce_min_time_action_checker
            (record c { reduce_min_time_action = put identity a c.reduce_min_time_action }))

-- A sum of `unsigned long`
unfoldable pub sum64 : ℕ → List ℕ → ℕ
sum64 acc [] = acc
sum64 acc (v ∷ vs) = sum64 (add64 acc v) vs

unfoldable pub answer_send_recv : Context → Outcome Context
unfolding sum64
answer_send_recv c =
    let sent_total = add64 c.reduce_sent_total (sum64 0 (values c.reduce_sent)) in
    let recv_total = add64 c.reduce_recv_total (sum64 0 (values c.reduce_recv)) in
    if not (length c.reduce_recv == c.world_size)
    then aborts
    else (if ltb sent_total recv_total
        then graceful_death exit_failure
        else done
            (record c {
              reduce_sent = [];
              reduce_recv = [];
              reduce_sent_total = sent_total;
              reduce_recv_total = recv_total;
            })
            (replies (difference (sent_total - recv_total)) (keys c.reduce_sent)))

unfoldable pub reduce_send_recv_checker : Context → Outcome Context
unfolding answer_send_recv
reduce_send_recv_checker c =
    if ltb c.world_size (length c.reduce_sent)
    then graceful_death exit_failure
    else (if length c.reduce_sent == c.world_size then answer_send_recv c else return c)

unfoldable pub reduce_send_recv_handler : Name → ℕ → ℕ → Context → Outcome Context
unfolding reduce_send_recv_checker
reduce_send_recv_handler identity sent recv c =
    if has_key identity c.reduce_sent
    then (if has_key identity c.reduce_recv then graceful_death exit_failure else aborts)
    else (if not c.valid
        then return c
        else reduce_send_recv_checker (record c {
          reduce_sent = put identity sent c.reduce_sent;
          reduce_recv = put identity recv c.reduce_recv;
        }))

-- The next times of the others: those of the network simulator and of `self` are left out.
unfoldable pub other_times : (net_sim self : Name) → Table Name ℕ → List ℕ
other_times net_sim self [] = []
other_times net_sim self ((name, t) ∷ rest) =
    (if name == net_sim || self == name then [] else t ∷ []) ++ other_times net_sim self rest

unfoldable pub gathered : Name → Table Name ℕ → List Name → List Packet
unfolding other_times
gathered net_sim table [] = []
gathered net_sim table (name ∷ rest) =
    (if name == net_sim then [] else reply name (next_times (other_times net_sim name table)) ∷ [])
    ++ gathered net_sim table rest

unfoldable pub all_gather_checker : Context → Outcome Context
unfolding gathered
all_gather_checker c =
    if ltb c.world_size (length c.all_gather)
    then graceful_death exit_failure
    else (if suc (length c.all_gather) == c.world_size
        then done (record c { all_gather = [] }) (gathered c.net_sim_id c.all_gather c.members)
        else return c)

unfoldable pub all_gather_handler : Name → ℕ → Context → Outcome Context
unfolding all_gather_checker
all_gather_handler identity next_time c =
    if has_key identity c.all_gather
    then graceful_death exit_failure
    else (if identity == c.net_sim_id
        then graceful_death exit_failure
        else (if not c.valid
            then return c
            else all_gather_checker
                (record c { all_gather = put identity next_time c.all_gather })))

unfoldable pub barrier_checker : Context → Outcome Context
barrier_checker c =
    if ltb c.world_size (length c.barrier)
    then graceful_death exit_failure
    else (if (length c.barrier == c.world_size) && ltb 1 c.world_size
        then done (record c { barrier = [] }) (replies ack c.barrier)
        else return c)

unfoldable pub barrier_handler : Name → Context → Outcome Context
unfolding barrier_checker
barrier_handler identity c =
    if member identity c.barrier
    then graceful_death exit_failure
    else (if not c.valid
        then return c
        else barrier_checker (record c { barrier = include identity c.barrier }))

-- `finalized` is never cleared, so a repeated request is answered again.
unfoldable pub finalize_handler : Name → Context → Outcome Context
finalize_handler identity c =
    let c' = record c { finalized = include identity c.finalized } in
    if ltb c.world_size (length c'.finalized)
    then graceful_death exit_failure
    else (if length c'.finalized == c.world_size
        then done c' (replies (object_count c.net_sim_obj_count) c'.finalized)
        else return c')

-- `reduce_fail_time_checker`
unfoldable pub answer_fail_time : Context → Table Name ℕ → Outcome Context
answer_fail_time c [] = faults
answer_fail_time c ((name, t) ∷ rest) =
    done (record c { valid = false; reduce_fail_time = [] })
      (publish (child_died (min_element t (values rest))) ∷ [])

unfoldable pub reduce_fail_time_checker : Context → Outcome Context
unfolding answer_fail_time
reduce_fail_time_checker c =
    if ltb c.world_size (length c.reduce_fail_time)
    then graceful_death exit_failure
    else (if length c.reduce_fail_time == c.world_size
        then answer_fail_time c c.reduce_fail_time
        else return c)

unfoldable pub reduce_fail_time_handler : Name → ℕ → Context → Outcome Context
unfolding reduce_fail_time_checker
reduce_fail_time_handler identity t c =
    if has_key identity c.reduce_fail_time
    then graceful_death exit_failure
    else (if not c.valid
        then return c
        else reduce_fail_time_checker
            (record c { reduce_fail_time = put identity t c.reduce_fail_time }))
