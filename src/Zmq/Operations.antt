-- ===== src/Zmq/Operations.antt =====
-- zmqnetworkinterface.cpp: the operations of the network interface over the broker's sockets.
use fncs.Base.{
  ℕ, Bool, true, Option, none, some, List, [], ◌∷◌, ◌++◌, length, network_exception, Result, ok,
  throws, assert_fails, undefined, Name, ltb, if◌then◌else◌,
}
use fncs.Base.Actions.{Action, lift, modify, gets, ◌>>=◌, ◌>>◌}
use fncs.Message.{Message, broadcast_destination, copy_payload}
use fncs.Message.Header.{serialize_header}
use fncs.Network.{Network, Call}
use fncs.Network.Registry.{Registry}
use fncs.Network.Registry
use fncs.Broker.Main.{Request, AsyncRequest}
use fncs.Broker.Main
use fncs.Broker.{Frame, ack, time, time_action, difference, next_times, object_count}
use fncs.Zmq.{Client, request, make_progress, next_answer, next_poll, i_recv}

-- The answers that the operations read; a frame of another form has no value for them.
abbrev pub as_time : Frame → Result ℕ
as_time (time t) = ok t
as_time other = undefined

abbrev pub as_difference : Frame → Result ℕ
as_difference (difference n) = ok n
as_difference other = undefined

abbrev pub as_time_action : Frame → Result (ℕ × ℕ)
as_time_action (time_action t action) = ok (t, action)
as_time_action other = undefined

abbrev pub as_count : Frame → Result ℕ
as_count (object_count n) = ok n
as_count other = undefined

-- `assert(worldSize < 1000)`
abbrev pub as_next_times : Frame → Result (List ℕ)
as_next_times (next_times ts) = if ltb (length ts) 1000 then ok ts else assert_fails
as_next_times other = undefined

-- `assert(ack == "ACK")`
abbrev pub as_ack : Frame → Result (Unit {0})
as_ack ack = ok tt
as_ack other = assert_fails

-- `sleep` throws when the answer is not `"ACK"`.
abbrev pub as_slept : Frame → Result (Unit {0})
as_slept ack = ok tt
as_slept other = throws network_exception

abbrev pub bytes_or_none : Option (List ℕ) → List ℕ
bytes_or_none none = []
bytes_or_none (some bytes) = bytes

unfoldable pub async_request : AsyncRequest → Action Client (Unit {0})
async_request r c = (record c { async_requests = c.async_requests ++ (r ∷ []) }, ok tt)

-- `send`
unfoldable pub send : Message → Action Client (Unit {0})
unfolding make_progress async_request
send message = do
  make_progress
  data_frame ← lift (copy_payload message.payload message.size)
  net_sim ← gets (λ c. c.i_am_net_sim)
  async_request (
      if net_sim
      then Main.route (serialize_header message) (bytes_or_none data_frame)
      else (if message.delay_through_comm
          then Main.delay (serialize_header message) (bytes_or_none data_frame)
          else Main.route (serialize_header message) (bytes_or_none data_frame)))

-- `broadcast`
unfoldable pub broadcast : Message → Action Client ℕ
unfolding send
broadcast message c =
    if c.i_am_net_sim
    then (c, throws network_exception)
    else (send (record message { to = broadcast_destination }) >> gets (λ c. c.global_object_count))
        c

-- `receive` and `receiveAll`
abbrev pub front : List Message → Option Message × List Message
front [] = (none, [])
front (m ∷ ms) = (some m, ms)

unfoldable pub receive : Action Client (Option Message)
unfolding make_progress
receive = make_progress >> λ c. (
  record c { received_messages = (front c.received_messages).1 },
  ok ((front c.received_messages).0),
)

unfoldable pub receive_all : Action Client (List Message)
unfolding make_progress
receive_all = make_progress >> λ c. (record c { received_messages = [] }, ok c.received_messages)

-- A request of the kind that is answered by one frame
unfoldable pub ask : {A : Type 0} → Request → (Frame → Result A) → Action Client A
unfolding request i_recv
ask r read = do request r; frame ← i_recv; lift (read frame)

-- `reduceMinTime`, `reduceMinTimeAndAction`, `reduceMinTimeAndSleep`, `getNextTimes` and
-- `reduceTotalSendReceive`
unfoldable pub reduce_min_time : ℕ → Action Client ℕ
unfolding make_progress ask
reduce_min_time my_time = make_progress >> ask (Main.reduce_min_time my_time) as_time

unfoldable pub reduce_min_time_and_action : ℕ × ℕ → Action Client (ℕ × ℕ)
unfolding make_progress ask
reduce_min_time_and_action (t, action) =
    make_progress
    >> ask (Main.reduce_min_time_action (record { time = t; action = action })) as_time_action

unfoldable pub reduce_min_time_and_sleep : ℕ → Bool → Action Client ℕ
unfolding make_progress ask
reduce_min_time_and_sleep my_time had_message =
    make_progress
    >> ask (Main.reduce_min_time_sleep (record { time = my_time; had_message = had_message }))
        as_time

unfoldable pub get_next_times : ℕ → Action Client (List ℕ)
unfolding make_progress ask
get_next_times next_time = make_progress >> ask (Main.all_gather_next_time next_time) as_next_times

unfoldable pub reduce_total_send_receive : (sent received : ℕ) → Action Client ℕ
unfolding make_progress ask
reduce_total_send_receive sent received =
    make_progress >> ask (Main.reduce_send_recv sent received) as_difference

-- `registerObject` and `finalizeRegistrations`, after those of the base class
abbrev pub on_registry : Action Registry (Unit {0}) → Action Client (Unit {0})
on_registry f c = let r = f c.registry in (record c { registry = r.0 }, r.1)

unfoldable pub register_object : Name → Action Client (Unit {0})
unfolding request
register_object name =
    on_registry (Registry.register_object name) >> request (Main.register_object name)

unfoldable pub finalize_registrations : Action Client (Unit {0})
unfolding ask
finalize_registrations = do
  on_registry Registry.finalize_registrations
  n ← ask Main.finalize_registrations as_count
  modify (λ c. record c { global_object_count = n })

-- `barier`
unfoldable pub barier : Action Client (Unit {0})
unfolding ask
barier = ask Main.barrier as_ack

-- `zmqx_recv` of an answer
abbrev pub recv : Action Client Frame
recv c = (record c { answers = (next_answer c.answers).1 }, (next_answer c.answers).0)

-- `sleep`, which reads its answer without processing messages, and then looks for one.
unfoldable pub sleep : Action Client Bool
unfolding request
sleep = do
  request Main.sleep
  frame ← recv
  lift (as_slept frame)
  gets (λ c. ltb 0 (length ((next_poll c.polls).0)))

-- `sendSuceed` and `sendFinishedSignal`
unfoldable pub send_suceed : Action Client (Unit {0})
unfolding request
send_suceed = request Main.child_success

unfoldable pub send_finished_signal : Action Client (Unit {0})
unfolding request
send_finished_signal = request Main.end

-- The class as a network interface of a communication manager, whose callback is set
abbrev pub as_call : {A : Type 0} → Action Client A → Call Client A
as_call f c =
    let r = f (record c { has_call_back = true; delivered = [] }) in (r.0, r.0.delivered, r.1)

unfoldable pub zmq_network : Network Client
zmq_network = record {
  send = λ m. as_call (send m);
  broadcast = λ m. as_call (broadcast m);
  barier = as_call barier;
  sleep = as_call sleep;
  reduce_min_time = λ t. as_call (reduce_min_time t);
  reduce_min_time_and_action = λ p. as_call (reduce_min_time_and_action p);
  reduce_min_time_and_sleep = λ t had_message. as_call (reduce_min_time_and_sleep t had_message);
  get_next_times = λ t. as_call (get_next_times t);
  reduce_total_send_receive = λ sent received. as_call (reduce_total_send_receive sent received);
  register_object = λ name. as_call (register_object name);
  finalize_registrations = as_call finalize_registrations;
}
