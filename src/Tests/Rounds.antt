-- ===== src/Tests/Rounds.antt =====
-- Instances of the theorems on the broker, in a federation of a simulator and a network simulator.
use mathlib.Core.List.{Perm}
use fncs.Base.{
  ok, All, ℕ, zero, suc, ◌+◌, ◌-◌, ◌≡◌, ◌≢◌, ◌<◌, ◌≤◌, ◌⊎◌, refl, arith, Bool, true, false, Option,
  none, some, List, [], ◌∷◌, length, map, name_key, name_beq, name_beq_iff, ◌==◌, has_key, member,
  Name, Table, keys, values, ltb, if◌then◌else◌, ℤ, pos,
}
use fncs.Message.Header.{serialize_header}
use fncs.Message.Bounds.{length-serialize_header}
use fncs.Broker.{
  AggregateType, time_action, TimeBool, Context, Broker, done, exits, replies, forward, route, time,
  difference, ack, context_id, publish, die, child_died, exit_failure,
}
use fncs.Broker.Rounds.{
  reduce_min_time_action_handler, reduce_min_time_handler, reduce_send_recv_handler,
  barrier_handler, reduce_fail_time_handler,
}
use fncs.Broker.Collecting.{Distinct, run}
use fncs.Broker.Collecting.MinTime.{IsLeast, reduce_min_time_round, reduce_fail_time_round}
use fncs.Broker.Collecting.MinTimeAction.{reduce_min_time_action_round}
use fncs.Broker.Collecting.Partial.{reduce_min_time_twice}
use fncs.Broker.Collecting.SendRecv.{sents, recvs, total, reduce_send_recv_round}
use fncs.Broker.Collecting.Barrier.{barrier_round}
use fncs.Broker.Sleeping.{add_sleeping, reduce_min_time_sleep_handler}
use fncs.Broker.Sleeping.Wakeups.{Settled, reduce_min_time_sleep_round}
use fncs.Broker.Routing.{register_handler, route_handler}
use fncs.Broker.Routing.Delivery.{payload_of, route-register}
use fncs.Broker.Main.{Event, main_loop, new_broker}
use fncs.Broker.Main.Invariant.{world_size-le-total}
use fncs.Zmq.Connecting.{new_client, init}
use fncs.Zmq.Joined.{all_greetings, joined, init-startup}
use fncs.Broker.{Frame}
use fncs.Broker.Main.Startup.{first_hello, first_context, startup}
use fncs.Tests.Messages.{house, market, bid, bid-IsSendable}

abbrev pub grid : Context
grid = record {
  net_sim_id = house;
  net_sim_obj_count = 0;
  members = house ∷ market ∷ [];
  parents = [];
  world_size = 2;
  valid = true;
  child_init_complete = false;
  reduce_min_time = [];
  sleep_state = (house, 0) ∷ (market, 0) ∷ [];
  sleep_incoming = [];
  reduce_min_time_action = [];
  reduce_sent = [];
  reduce_recv = [];
  reduce_sent_total = 0;
  reduce_recv_total = 0;
  reduce_fail_time = [];
  all_gather = [];
  finalized = [];
  barrier = [];
  succed = [];
  asleep = [];
  finished = [];
  reinit_map = [];
  logical_to_real = house ∷ market ∷ [];
  sleeping_sim = false;
}

house-ne-market : house ≢ market
unfolding name_beq
house-ne-market e = let same : name_beq house market ≡ true = (name_beq_iff house market).1 e in cc

abbrev pub two : List Name
two = house ∷ market ∷ []

pub two-Distinct : Distinct two
two-Distinct = ((house-ne-market, tt), (tt, tt))

abbrev pub both : List (Name × ℕ)
both = (house, 7) ∷ (market, 4) ∷ []

reduce_min_time_round_example :
    (m : ℕ) × (ns : List Name) × (run reduce_min_time_handler both grid
      ≡ done grid (replies (time m) ns))
    × Perm ns two
    × IsLeast m (7 ∷ 4 ∷ [])
reduce_min_time_round_example =
    reduce_min_time_round grid both refl refl two-Distinct refl (omega arith)

reduce_fail_time_round_example :
    (m : ℕ) × (run reduce_fail_time_handler both grid
      ≡ done (record grid { valid = false }) (publish (child_died m) ∷ []))
    × IsLeast m (7 ∷ 4 ∷ [])
reduce_fail_time_round_example =
    reduce_fail_time_round grid both refl refl two-Distinct refl (omega arith)

abbrev counts : List (Name × (ℕ × ℕ))
counts = (house, (3, 1)) ∷ (market, (2, 3)) ∷ []

reduce_send_recv_round_example :
    let sent = 0 + total (sents counts) in
    let recv = 0 + total (recvs counts) in
    let result = run (λ n v. reduce_send_recv_handler n v.0 v.1) counts grid in
    ((recv ≤ sent)
      × ((ns : List Name) × (result
            ≡ done
                (record grid { reduce_sent_total = sent; reduce_recv_total = recv })
                (replies (difference (sent - recv)) ns))
          × Perm ns two))
    ⊎ ((sent < recv) × (result ≡ exits exit_failure (publish die ∷ [])))
reduce_send_recv_round_example =
    reduce_send_recv_round grid counts refl refl refl two-Distinct refl (omega arith) (omega arith)
      (omega arith)

abbrev arrivals : List (Name × Unit {0})
arrivals = (house, tt) ∷ (market, tt) ∷ []

barrier_round_example :
    (ns : List Name) × (run (λ n v. barrier_handler n) arrivals grid ≡ done grid (replies ack ns))
    × Perm ns two
barrier_round_example = barrier_round grid arrivals refl refl two-Distinct refl (omega arith)

abbrev half : Context
half = record grid { sleep_incoming = (house, record { time = 7; had_message = false }) ∷ [] }

abbrev last_time : TimeBool
last_time = record { time = 4; had_message = false }

abbrev all_times : Table Name TimeBool
all_times = (house, record { time = 7; had_message = false }) ∷ (market, last_time) ∷ []

reduce_min_time_sleep_round_example :
    Settled 2 all_times half (reduce_min_time_sleep_handler market last_time 2 half)
unfolding has_key add_sleeping fncs.Base.put fncs.Base.add_key fncs.Base.insert name_beq
    fncs.Base.name_lt
reduce_min_time_sleep_round_example =
    reduce_min_time_sleep_round market last_time 2 half refl refl refl refl (omega arith)
      (refl, (refl, tt))

abbrev pub broker : Broker
broker = record (new_broker 2) { contexts = grid ∷ [] }

route-register_example :
    (b' : Broker) × (register_handler market (pos 0) market broker ≡ done b' [])
    × (b'.contexts ≡ grid ∷ [])
    × (route_handler house (pos 0) (serialize_header bid) (7 ∷ 9 ∷ []) b'
        ≡ done b'
            (forward market (route (serialize_header bid) (payload_of bid (7 ∷ 9 ∷ []))) ∷ []))
unfolding has_key member name_beq new_broker
route-register_example =
    route-register broker 0 grid market house bid (7 ∷ 9 ∷ []) refl refl refl refl bid-IsSendable
      (omega (arith, length-serialize_header bid)) refl

startup_example :
    (names : List Name) × (main_loop
        (map first_hello ((house, true) ∷ (market, false) ∷ []))
        (new_broker 2)
      ≡ done
          (record (new_broker 2) { contexts = first_context 2 names house ∷ [] })
          (replies (context_id 0) names))
    × Perm names two
startup_example =
    startup 2 ((house, true) ∷ (market, false) ∷ []) two-Distinct refl (omega arith) (omega arith)

abbrev hellos : List Event
hellos = first_hello (house, true) ∷ first_hello (market, false) ∷ []

hellos_run :
    main_loop hellos (new_broker 2)
    ≡ done
        (record (new_broker 2) { contexts = first_context 2 two house ∷ [] })
        (replies (context_id 0) two)
unfolding main_loop new_broker first_context fncs.Base.include fncs.Base.add_member fncs.Base.member
    name_beq fncs.Base.name_lt fncs.Broker.Contexts.hello_handler
hellos_run = refl

world_size-le-total_example :
    ((new_broker 2).total_size ≡ 2) × All (λ c. c.world_size ≤ 2) (first_context 2 two house ∷ [])
unfolding new_broker
world_size-le-total_example = world_size-le-total 2 hellos hellos_run

abbrev first_time_only : List (Name × ℕ)
first_time_only = (house, 7) ∷ []

reduce_min_time_twice_example :
    run reduce_min_time_handler ((house, 7) ∷ (house, 9) ∷ []) grid
    ≡ exits exit_failure (publish die ∷ [])
unfolding member name_beq
reduce_min_time_twice_example =
    reduce_min_time_twice grid first_time_only house 9 refl refl (tt, tt) (omega arith) refl

abbrev wishes : List (Name × AggregateType)
wishes = (house, record { time = 7; action = 2 }) ∷ (market, record { time = 9; action = 1 }) ∷ []

reduce_min_time_action_round_example :
    (t a : ℕ) × (run reduce_min_time_action_handler wishes grid
      ≡ done grid (replies (time_action t a) two))
    × IsLeast t (7 ∷ 9 ∷ [])
    × IsLeast a (2 ∷ 1 ∷ [])
reduce_min_time_action_round_example =
    reduce_min_time_action_round grid wishes refl refl two-Distinct refl (omega arith)
      (omega arith, (omega arith, tt)) (omega arith, (omega arith, tt))

init-startup_example :
    (frame : Frame) × (names : List Name) × (main_loop
        (all_greetings false ((house, true) ∷ (market, false) ∷ []))
        (new_broker 2)
      ≡ done
          (record (new_broker 2) { contexts = first_context 2 names house ∷ [] })
          (replies frame names))
    × Perm names two
    × ((net_sim : Bool)
        → init (new_client net_sim false [] (frame ∷ [])) ≡ (joined net_sim false 0, ok tt))
init-startup_example =
    init-startup false 2 ((house, true) ∷ (market, false) ∷ []) two-Distinct refl (omega arith)
      (omega arith)
