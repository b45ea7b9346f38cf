-- ===== src/Tests/Wiring.antt =====
-- Instances of the theorems on what clients and the broker do together.
use fncs.Base.{
  ℕ, ◌≡◌, ◌≤◌, refl, arith, Bool, true, false, List, [], ◌∷◌, ◌++◌, length, has_key, member, Name,
  ok, pos, name_key,
}
use mathlib.Core.List.{Perm, Mem}
use fncs.Base.Actions.{Returns}
use fncs.Message.{Message}
use fncs.Message.RoundTrip.{IsSendable}
use fncs.Message.Bounds.{length-serialize_header}
use fncs.Broker.{Broker, Frame, done, forward, replies, time}
use fncs.Broker.Rounds.{reduce_min_time_handler}
use fncs.Broker.Collecting.{run}
use fncs.Broker.Main
use fncs.Broker.Routing.{register_handler, route_handler}
use fncs.Zmq.{Client, process_async_message}
use fncs.Zmq.Operations.{send, reduce_min_time}
use fncs.Zmq.Answered.{IsAnswered, reduce_min_time-round}
use fncs.Zmq.EndToEnd.{process_async_message-route_handler-send}
use fncs.Tests.Messages.{house, market, bid}
use fncs.Tests.Rounds.{broker, grid, both, two, two-Distinct}

abbrev direct : Message
direct = record bid { delay_through_comm = false }

direct-IsSendable : IsSendable direct
direct-IsSendable = record {
  from_text = (λ e. omega arith, tt);
  to_text = (λ e. omega arith, tt);
  time_word = omega arith;
  delivery_word = omega arith;
  size_word = omega arith;
  tag_byte = omega arith;
}

abbrev client : Client
client = record {
  registry = record {
    my_objects = [];
    registrations_are_finalized = true;
    can_fork = true;
    kill_on_term = true;
  };
  context = pos 0;
  i_am_net_sim = false;
  global_object_count = 2;
  received_messages = [];
  has_call_back = true;
  delivered = [];
  requests = [];
  async_requests = [];
  polls = [];
  answers = [];
}

process_async_message-route_handler-send_example :
    (b' : Broker) × (header : List ℕ) × (frame : Frame) × (register_handler market
        (pos 0)
        market
        broker
      ≡ done b' [])
    × Returns
        (λ from' _. from'.async_requests ≡ [] ++ (Main.route header (7 ∷ 9 ∷ []) ∷ []))
        (send direct client)
    × (route_handler house (pos 0) header (7 ∷ 9 ∷ []) b' ≡ done b' (forward market frame ∷ []))
    × Returns (λ to' _. to'.delivered ≡ [] ++ (direct ∷ [])) (process_async_message frame client)
unfolding has_key member fncs.Base.name_beq fncs.Broker.Main.new_broker
process_async_message-route_handler-send_example =
    process_async_message-route_handler-send broker 0 grid market house direct (7 ∷ 9 ∷ []) client
      client refl refl refl refl direct-IsSendable (omega (arith, length-serialize_header direct))
      refl refl refl refl refl refl refl refl

reduce_min_time-round_example :
    (m : ℕ) × (ns : List Name) × (run reduce_min_time_handler both grid
      ≡ done grid (replies (time m) ns))
    × Perm ns two
    × Mem m (7 ∷ 4 ∷ [])
    × ((t : ℕ) (k : Client)
        → Mem t (7 ∷ 4 ∷ [])
        → IsAnswered (time m) k
        → Returns
            (λ k' r.
              (r ≡ m) × (r ≤ t) × (k'.requests ≡ k.requests ++ (Main.reduce_min_time t ∷ [])))
            (reduce_min_time t k))
reduce_min_time-round_example =
    reduce_min_time-round grid both refl refl two-Distinct refl (omega arith)

client-IsAnswered : IsAnswered (time 4) (record client { answers = time 4 ∷ [] })
client-IsAnswered = record { final = refl; quiet = refl; answered = refl }
