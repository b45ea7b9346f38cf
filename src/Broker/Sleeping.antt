-- ===== src/Broker/Sleeping.antt =====
-- fncsbroker.cpp: simulators that sleep. `sleep_handler` takes a simulator out of its context until
-- all but the network simulator sleep; `reduce_min_time_sleep_handler` lets those wait whose next
-- event is later than the least time.
pub mod Wakeups
use fncs.Base.{
  ℕ, zero, suc, ◌+◌, ◌-◌, ◌≡◌, Bool, true, false, not, ◌&&◌, ◌||◌, List, [], ◌∷◌, ◌++◌, length,
  Name, name_key, nat_key, ◌==◌, Table, has_key, put, insert, keys, values, member, include,
  exclude, ltb, if◌then◌else◌,
}
use fncs.Broker.{
  TimeBool, Context, Frame, ack, time, Outcome, done, exits, aborts, faults, ◌>>=◌, ◌>>◌, return,
  emit, graceful_death, exit_failure, assert, replies, min_element,
}
use fncs.Broker.Rounds.{barrier_checker, reduce_min_time_checker, reduce_send_recv_checker}
use fncs.Broker.Contexts.{include_all}

-- One simulator fewer may complete a round that the others wait in.
unfoldable pub check_rounds : Context → Outcome Context
check_rounds c =
    if c.world_size == 1
    then return c
    else barrier_checker c >>= reduce_min_time_checker >>= reduce_send_recv_checker

-- The end of `sleep_handler`: all but the network simulator sleep, and wake up again.
unfoldable pub wake_up : (total : ℕ) → Context → Outcome Context
unfolding include_all
wake_up total c =
    if ltb total (suc (length c.asleep))
    then graceful_death exit_failure
    else (if suc (length c.asleep) == total
        then (do
          alone ← assert (c.world_size == 1)
          done
              (record c {
                members = include_all c.asleep c.members;
                asleep = [];
                world_size = total;
              })
              (replies ack c.asleep))
        else return c)

-- One simulator leaves a world of this size. A size of 0 becomes -1, with which no set compares.
unfoldable pub fall_asleep : Name → (total world : ℕ) → Context → Outcome Context
unfolding check_rounds wake_up
fall_asleep identity total zero c = graceful_death exit_failure
fall_asleep identity total (suc n) c = do
  checked ← check_rounds (record c {
    asleep = include identity c.asleep;
    world_size = n;
    members = exclude identity c.members;
  })
  if checked.world_size == 0 then graceful_death exit_failure else wake_up total checked

unfoldable pub sleep_handler : Name → (total : ℕ) → Context → Outcome Context
unfolding fall_asleep
sleep_handler identity total c =
    if member identity c.asleep
    then graceful_death exit_failure
    else fall_asleep identity total c.world_size c

-- The sleeping simulators count with their last time and without a message.
unfoldable pub add_sleeping : Table Name ℕ → Table Name TimeBool → Table Name TimeBool
add_sleeping [] incoming = incoming
add_sleeping ((n, t) ∷ state) incoming =
    add_sleeping state (insert n (record { time = t; had_message = false }) incoming)

-- `TimeBoolMapAccumulate`, over the whole table
unfoldable pub accumulate : TimeBool → List TimeBool → TimeBool
accumulate acc [] = acc
accumulate acc (x ∷ xs) =
    accumulate
      (record {
        time = if ltb x.time acc.time then x.time else acc.time;
        had_message = acc.had_message || x.had_message;
      })
      xs

-- The loop over the incoming times: each becomes the simulator's state, and the simulators that have
-- the least time, and the network simulator, are answered and counted.
unfoldable pub answer_awake :
    (net_sim : Name) (least : ℕ)
    → Table Name TimeBool
    → Table Name ℕ
    → ℕ
    → Outcome (Table Name ℕ × ℕ)
answer_awake net_sim least [] state awake = return (state, awake)
answer_awake net_sim least ((n, x) ∷ rest) state awake =
    let answered = x.time == least || n == net_sim in
    if has_key n state
    then (do
      sent ← emit (if answered then replies (time least) (n ∷ []) else [])
      answer_awake net_sim least rest (put n x.time state) (if answered then suc awake else awake))
    else graceful_death exit_failure

-- The previous least time, to all simulators
unfoldable pub wake_all : (total : ℕ) → Table Name ℕ → Context → Outcome Context
wake_all total [] c = faults
wake_all total ((n, t) ∷ state) c =
    done (record c { world_size = total; sleeping_sim = false; sleep_incoming = [] })
      (replies (time (min_element t (values state))) c.members)

unfoldable pub let_sleep : (total least : ℕ) → Table Name TimeBool → Context → Outcome Context
unfolding answer_awake
let_sleep total least incoming c = do
  (state, awake) ← answer_awake c.net_sim_id least incoming c.sleep_state 0
  if awake == 0
      then graceful_death exit_failure
      else (if ltb total awake
          then graceful_death exit_failure
          else return (record c {
            sleep_state = state;
            world_size = awake;
            sleeping_sim = not (awake == total);
            sleep_incoming = [];
          }))

-- What happens once all that are awake have sent their times
unfoldable pub answer_sleep : (total : ℕ) → Table Name TimeBool → Context → Outcome Context
unfolding accumulate wake_all let_sleep
answer_sleep total [] c = faults
answer_sleep total ((n, x) ∷ incoming) c =
    let least = accumulate x (x ∷ values incoming) in
    if least.had_message && c.sleeping_sim
    then wake_all total c.sleep_state c
    else let_sleep total least.time ((n, x) ∷ incoming) c

unfoldable pub reduce_min_time_sleep_handler :
    Name → TimeBool → (total : ℕ) → Context → Outcome Context
unfolding add_sleeping answer_sleep
reduce_min_time_sleep_handler identity x total c =
    let incoming = put identity x c.sleep_incoming in
    if has_key identity c.sleep_incoming
    then graceful_death exit_failure
    else (if not c.valid
        then return c
        else (if ltb c.world_size (length incoming)
            then graceful_death exit_failure
            else (if length incoming == c.world_size
                then answer_sleep total (add_sleeping c.sleep_state incoming) c
                else return (record c { sleep_incoming = incoming }))))
