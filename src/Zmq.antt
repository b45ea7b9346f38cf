-- ===== src/Zmq.antt =====
-- zmqnetworkinterface.h and zmqnetworkinterface.cpp: the network interface over the sockets of the
-- broker. What it sends is a log of requests; what it will find on its sockets is a queue of frames
-- that have arrived and one of the broker's answers. A poll finds every frame that has arrived.
-- `zmq_recv` on an empty socket does not come back: the run has no result then, `undefined`.
-- Signals on the `SUB` socket, after which the process exits, are not in the queues.
pub mod Operations
pub mod Connecting
pub mod Joined
pub mod EndToEnd
pub mod Answered
use fncs.Base.{
  ℕ, ◌≡◌, Bool, true, false, not, Option, none, some, List, [], ◌∷◌, ◌++◌, length,
  network_exception, Result, ok, throws, assert_fails, undefined, Name, ltb, if◌then◌else◌, ℤ, pos,
}
use fncs.Base.Actions.{Action, pure, raise, lift, modify, gets, ◌>>=◌, ◌>>◌}
use fncs.Message.{Message, broadcast_destination, copy_payload, set_data}
use fncs.Message.Header.{serialize_header, from_envelope}
use fncs.Network.{Network, Call}
use fncs.Network.Registry.{Registry}
use fncs.Network.Registry
use fncs.Broker.Main.{Request, AsyncRequest}
use fncs.Broker.Main
use fncs.Broker.{
  AggregateType, TimeBool, Frame, ack, time, time_action, difference, next_times, object_count,
  route, delay,
}

pub record Client : Type 0 where
  pub registry : Registry
  pub context : ℤ
  pub i_am_net_sim : Bool
  pub global_object_count : ℕ
  pub received_messages : List Message
  -- Whether `messageCallBack` is set, and what it was given in the present call
  pub has_call_back : Bool
  pub delivered : List Message
  -- What went out on `zmq_req` and `zmq_async`
  pub requests : List Request
  pub async_requests : List AsyncRequest
  -- What each loop that polls `zmq_async` will find, and what `zmq_req` will bring
  pub polls : List (List Frame)
  pub answers : List Frame

unfoldable pub request : Request → Action Client (Unit {0})
request r c = (record c { requests = c.requests ++ (r ∷ []) }, ok tt)

-- The control word that the simulator does not expect makes it send `DIE`, and go on.
unfoldable pub check_control : (is_delay : Bool) → Action Client (Unit {0})
unfolding request
check_control true c = if c.i_am_net_sim then (c, ok tt) else request Main.die c
check_control false c = if c.i_am_net_sim then request Main.die c else (c, ok tt)

-- `zmqx_recv` into a buffer of so many bytes
unfoldable pub receive_frame : (limit : ℕ) → List ℕ → Result (List ℕ)
receive_frame limit frame = if ltb limit (length frame) then assert_fails else ok frame

-- The payload, read when the header says that there is one
unfoldable pub read_payload : Message → Option (List ℕ) → Action Client Message
unfolding receive_frame
read_payload m none = if ltb 0 m.size then lift undefined else pure m
read_payload m (some frame) =
    if ltb 0 m.size
    then (do bytes ← lift (receive_frame m.size frame); lift (set_data m bytes m.size))
    else pure m

unfoldable pub hand_over : Message → Action Client (Unit {0})
hand_over m c = (
  if c.has_call_back
      then record c { delivered = c.delivered ++ (m ∷ []) }
      else record c { received_messages = c.received_messages ++ (m ∷ []) },
  ok tt,
)

-- The rest of `processAsyncMessage`, behind the control word
unfoldable pub process_envelope : List ℕ → Option (List ℕ) → Action Client (Unit {0})
unfolding read_payload hand_over
process_envelope envelope_frame payload = do
  envelope ← lift (receive_frame 256 envelope_frame)
  message ← lift (from_envelope envelope none)
  message' ← read_payload message payload
  hand_over message'

-- `processAsyncMessage`
unfoldable pub process_async_message : Frame → Action Client (Unit {0})
unfolding check_control process_envelope
process_async_message (route envelope payload) =
    check_control false >> process_envelope envelope payload
process_async_message (delay envelope payload) =
    check_control true >> process_envelope envelope payload
process_async_message other = lift undefined

unfoldable pub process_all : List Frame → Action Client (Unit {0})
unfolding process_async_message
process_all [] = pure tt
process_all (frame ∷ frames) = process_async_message frame >> process_all frames

abbrev pub next_poll : List (List Frame) → List Frame × List (List Frame)
next_poll [] = ([], [])
next_poll (found ∷ polls) = (found, polls)

unfoldable pub poll : Action Client (Unit {0})
unfolding process_all
poll c = process_all ((next_poll c.polls).0) (record c { polls = (next_poll c.polls).1 })

-- `makeProgress`
unfoldable pub make_progress : Action Client (Unit {0})
unfolding poll
make_progress c =
    if not c.registry.registrations_are_finalized then (c, throws network_exception) else poll c

abbrev pub next_answer : List Frame → Result Frame × List Frame
next_answer [] = (undefined, [])
next_answer (frame ∷ frames) = (ok frame, frames)

-- `i_recv`, which processes what arrives while it waits
unfoldable pub i_recv : Action Client Frame
unfolding poll
i_recv c =
    (poll >> lift ((next_answer c.answers).0)) (record c { answers = (next_answer c.answers).1 })
