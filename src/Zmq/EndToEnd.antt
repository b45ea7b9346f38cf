-- ===== src/Zmq/EndToEnd.antt =====
-- zmqnetworkinterface.cpp with fncsbroker.cpp: a message from one simulator through the broker to
-- another.
use fncs.Base.{
  ℕ, ◌≡◌, ◌≤◌, refl, ap, sym, subst, ◌∙◌, arith, true, false, not, nil_of_length, throws,
  network_exception, Bool-cases, inl, inr, Option, none, some, List, [], ◌∷◌, ◌++◌, length,
  get_elem?, Name, name_key, ◌==◌, has_key, member, ltb, if◌then◌else◌, pos, ok,
}
use fncs.Base.Actions.{Returns}
use fncs.Message.{Message, copy_payload, set_data}
use fncs.Message.Header.{serialize_header, from_envelope}
use fncs.Message.RoundTrip.{IsSendable, deserialize_header-serialize_header}
use fncs.Broker.{Context, Broker, Frame, done, route, forward}
use fncs.Broker.Main
use fncs.Broker.Routing.{register_handler, route_handler}
use fncs.Broker.Routing.Delivery.{payload_of, copy_bytes-all, route-register}
use fncs.Zmq.{
  Client, request, make_progress, poll, process_all, process_async_message, check_control,
  process_envelope, read_payload, receive_frame, hand_over, next_poll,
}
use fncs.Zmq.Operations.{send, bytes_or_none, async_request}

pub make_progress-quiet :
    (c : Client)
    → c.registry.registrations_are_finalized ≡ true
    → c.polls ≡ []
    → make_progress c ≡ (c, ok tt)
unfolding make_progress poll process_all
make_progress-quiet c final quiet =
    ap (λ b. if not b then (c, throws network_exception) else poll c) final
    ∙ ap (λ polls. process_all ((next_poll polls).0) (record c { polls = (next_poll polls).1 }))
        quiet
    ∙ ap (λ polls. (record c { polls = polls }, ok tt)) (sym quiet)

copy_payload-data :
    (m : Message) (bytes : List ℕ)
    → length bytes ≡ m.size
    → m.payload ≡ payload_of m bytes
    → (copied : Option (List ℕ)) × (copy_payload m.payload m.size ≡ ok copied)
      × (bytes_or_none copied ≡ bytes)
unfolding copy_payload
copy_payload-data m bytes size held = elim (Bool-cases (ltb 0 m.size)) [
  | inl some_data ↦
      let some_bytes : payload_of m bytes ≡ some bytes = rw some_data refl in
      (
        some bytes,
        ap (λ p. copy_payload p m.size) (held ∙ some_bytes)
            ∙ copy_bytes-all bytes m.size size some_data,
        refl,
      )
  | inr nothing ↦
      let no_bytes : payload_of m bytes ≡ none = rw nothing refl in
      let no_size : m.size ≡ 0 = ground (arith, nothing) in
      (
        none,
        ap (λ p. copy_payload p m.size) (held ∙ no_bytes) ∙ ap (copy_payload none) no_size,
        sym (nil_of_length bytes (size ∙ no_size)),
      )
]

set_data-all :
    (m : Message) (bytes : List ℕ)
    → length bytes ≡ m.size
    → ltb 0 m.size ≡ true
    → set_data (record m { payload = none }) bytes m.size ≡ ok (record m { payload = some bytes })
unfolding set_data
set_data-all m bytes size some_data = rw (copy_bytes-all bytes m.size size some_data) refl

read_payload-data :
    (m : Message) (bytes : List ℕ) (c : Client)
    → length bytes ≡ m.size
    → read_payload (record m { payload = none }) (payload_of m bytes) c
      ≡ (c, ok (record m { payload = payload_of m bytes }))
unfolding read_payload receive_frame
read_payload-data m bytes c size = elim (Bool-cases (ltb 0 m.size)) [
  | inl some_data ↦
      let fits : ltb m.size (length bytes) ≡ false = ground (arith, size) in
      rw some_data (rw (some_data, fits) (rw (set_data-all m bytes size some_data) refl))
  | inr nothing ↦ rw nothing (rw nothing refl)
]

check_control-general : (c : Client) → c.i_am_net_sim ≡ false → check_control false c ≡ (c, ok tt)
unfolding check_control
check_control-general c general = ap (λ b. if b then request Main.die c else (c, ok tt)) general

hand_over-call :
    (m : Message) (c : Client)
    → c.has_call_back ≡ true
    → hand_over m c ≡ (record c { delivered = c.delivered ++ (m ∷ []) }, ok tt)
unfolding hand_over
hand_over-call m c calls =
    ap
      (λ b. (
        if b
            then record c { delivered = c.delivered ++ (m ∷ []) }
            else record c { received_messages = c.received_messages ++ (m ∷ []) },
        ok tt,
      ))
      calls

process_async_message-route :
    (m : Message) (bytes : List ℕ) (c : Client)
    → c.i_am_net_sim ≡ false
    → c.has_call_back ≡ true
    → IsSendable m
    → length (serialize_header m) ≤ 256
    → length bytes ≡ m.size
    → m.payload ≡ payload_of m bytes
    → Returns
        (λ c' _. c'.delivered ≡ c.delivered ++ (m ∷ []))
        (process_async_message (route (serialize_header m) (payload_of m bytes)) c)
unfolding process_async_message process_envelope receive_frame from_envelope
process_async_message-route m bytes c general calls sendable fits size held =
    let whole : record m { payload = payload_of m bytes } ≡ m =
      ap (λ p. record m { payload = p }) (sym held) in
    let short : ltb 256 (length (serialize_header m)) ≡ false = ground (arith, fits) in
    let handed : hand_over (record m { payload = payload_of m bytes }) c ≡ hand_over m c =
      ap (λ m. hand_over m c) whole in
    rw (check_control-general c general, short, deserialize_header-serialize_header m sendable)
      (rw (read_payload-data m bytes c size) (
        subst (Returns (λ c' _. c'.delivered ≡ c.delivered ++ (m ∷ [])))
          (sym (handed ∙ hand_over-call m c calls)) refl))

send-route :
    (m : Message) (bytes : List ℕ) (c : Client)
    → c.registry.registrations_are_finalized ≡ true
    → c.polls ≡ []
    → c.i_am_net_sim ≡ false
    → m.delay_through_comm ≡ false
    → length bytes ≡ m.size
    → m.payload ≡ payload_of m bytes
    → Returns
        (λ c' _.
          c'.async_requests ≡ c.async_requests ++ (Main.route (serialize_header m) bytes ∷ []))
        (send m c)
unfolding send async_request
send-route m bytes c final quiet general direct size held =
    let (copied, copies, same) = copy_payload-data m bytes size held in
    let header = serialize_header m in
    let routed = Main.route header (bytes_or_none copied) in
    let delayed = Main.delay header (bytes_or_none copied) in
    let chosen =
      ap (λ b. if b then routed else (if m.delay_through_comm then delayed else routed)) general
      ∙ ap (λ b. if b then delayed else routed) direct
      ∙ ap (Main.route header) same in
    rw (make_progress-quiet c final quiet, copies) (ap (λ r. c.async_requests ++ (r ∷ [])) chosen)

-- A simulator that a context of a broker numbers registers an object that nobody has registered.
-- Another simulator, which has finalized its registrations and has nothing to take in, sends a
-- message to that object which is not to go through the network simulator, whose names and
-- words fit the format, with a header of at most 256 bytes and as many bytes of payload as its size
-- says. Then it sends the broker just one request, the broker answers that by one packet, to the
-- first simulator, and this simulator hands exactly the message that was sent to its callback.
pub process_async_message-route_handler-send :
    (b : Broker) (i : ℕ) (c : Context) (owner sender : Name) (m : Message) (bytes : List ℕ)
    (from to : Client)
    → get_elem? b.contexts i ≡ some c
    → (owner == c.net_sim_id) ≡ false
    → member owner c.logical_to_real ≡ true
    → has_key m.to b.obj_to_id ≡ false
    → IsSendable m
    → length (serialize_header m) ≤ 256
    → length bytes ≡ m.size
    → m.payload ≡ payload_of m bytes
    → m.delay_through_comm ≡ false
    → from.registry.registrations_are_finalized ≡ true
    → from.polls ≡ []
    → from.i_am_net_sim ≡ false
    → to.i_am_net_sim ≡ false
    → to.has_call_back ≡ true
    → (b' : Broker) × (header : List ℕ) × (frame : Frame) × (register_handler owner (pos i) m.to b
        ≡ done b' [])
      × Returns
          (λ from' _. from'.async_requests ≡ from.async_requests ++ (Main.route header bytes ∷ []))
          (send m from)
      × (route_handler sender (pos i) header bytes b' ≡ done b' (forward owner frame ∷ []))
      × Returns (λ to' _. to'.delivered ≡ to.delivered ++ (m ∷ [])) (process_async_message frame to)
process_async_message-route_handler-send b i c owner sender m bytes from to at other known new
      sendable fits size held direct final quiet general general' calls =
    let (b', registers, same, routes) =
      route-register b i c owner sender m bytes at other known new sendable fits size in
    (
      b',
      serialize_header m,
      route (serialize_header m) (payload_of m bytes),
      registers,
      send-route m bytes from final quiet general direct size held,
      routes,
      process_async_message-route m bytes to general' calls sendable fits size held,
    )
