-- ===== src/Broker/Routing/Delivery.antt =====
-- A message that is routed after its destination was registered.
use fncs.Base.{
  ℕ, zero, suc, ◌+◌, ◌≡◌, ◌≤◌, refl, ap, ◌∙◌, arith, true, false, Bool-cases, inl, inr, Option,
  none, some, List, [], ◌∷◌, length, get_elem?, Name, name_key, name_beq_iff, ◌==◌, lookup, has_key,
  put, lookup-put, member, ltb, if◌then◌else◌, pos, ok, take-all,
}
use fncs.Message.{Message, copy_bytes, set_data}
use fncs.Message.Header.{serialize_header, from_envelope}
use fncs.Message.RoundTrip.{IsSendable, deserialize_header-serialize_header}
use fncs.Broker.{Context, Broker, done, return, route, forward, get_context}
use fncs.Broker.Routing.{logical_id, register_handler, route_handler, receive, receive_route_data}

logical_id_found :
    (owner : Name) (k : ℕ) (ns : List Name)
    → member owner ns ≡ true
    → (n : ℕ) × (logical_id owner k ns ≡ some (k + n)) × (get_elem? ns n ≡ some owner)
unfolding member logical_id
logical_id_found owner k [] h = cc
logical_id_found owner k (n ∷ ns) h = elim (Bool-cases (n == owner)) [
  | inl same ↦ (0, rw same (ap some (omega arith)), ap some ((name_beq_iff n owner).0 same))
  | inr other ↦
      let (i, e, at) = logical_id_found owner (suc k) ns (rw other at h) in
      (suc i, rw other (e ∙ ap some (omega arith)), at)
]

-- The payload frame goes along when the header says that there is one.
abbrev pub payload_of : Message → List ℕ → Option (List ℕ)
payload_of m bytes = if ltb 0 m.size then some bytes else none

pub copy_bytes-all :
    (bytes : List ℕ) (n : ℕ)
    → length bytes ≡ n
    → ltb 0 n ≡ true
    → copy_bytes bytes n ≡ ok (some bytes)
unfolding copy_bytes
copy_bytes-all bytes zero size h = cc
copy_bytes-all bytes (suc n) size h =
    let enough : ltb (length bytes) (suc n) ≡ false = ground arith in
    rw (enough, take-all (suc n) bytes size)

pub receive_all : (bytes : List ℕ) (n : ℕ) → length bytes ≤ n → receive n bytes ≡ return bytes
unfolding receive
receive_all bytes n fits = ground arith

receive_route_data_lem :
    (m : Message) (bytes : List ℕ)
    → length bytes ≡ m.size
    → receive_route_data m bytes ≡ done (payload_of m bytes) []
unfolding receive_route_data set_data
receive_route_data_lem m bytes size = elim (Bool-cases (ltb 0 m.size)) [
  | inl some_data ↦ rw (
    some_data,
    receive_all bytes m.size (omega arith),
    copy_bytes-all bytes m.size size some_data,
  )
  | inr nothing ↦ rw nothing
]

get_context_found :
    (b : Broker) (i : ℕ) {c : Context}
    → get_elem? b.contexts i ≡ some c
    → get_context b (pos i) ≡ return c
unfolding get_context
get_context_found b i at = rw (at, get_context)

-- A simulator that a context of a broker numbers, other than its network simulator, registers an
-- object that nobody has registered: this succeeds and leaves the contexts alone. Then a message to
-- the object whose names and words fit the format, with a header of at most 256 bytes and as many
-- bytes of data as the header says, is forwarded as it is to that simulator, and the broker does
-- not change.
pub route-register :
    (b : Broker) (i : ℕ) (c : Context) (owner sender : Name) (m : Message) (data_frame : List ℕ)
    → get_elem? b.contexts i ≡ some c
    → (owner == c.net_sim_id) ≡ false
    → member owner c.logical_to_real ≡ true
    → has_key m.to b.obj_to_id ≡ false
    → IsSendable m
    → length (serialize_header m) ≤ 256
    → length data_frame ≡ m.size
    → (b' : Broker) × (register_handler owner (pos i) m.to b ≡ done b' [])
      × (b'.contexts ≡ b.contexts)
      × (route_handler sender (pos i) (serialize_header m) data_frame b'
          ≡ done b' (forward owner (route (serialize_header m) (payload_of m data_frame)) ∷ []))
unfolding register_handler route_handler from_envelope
route-register b i c owner sender m data_frame at other known new sendable fits size =
    let (n, found, is_owner) = logical_id_found owner 0 c.logical_to_real known in
    let b' = record b { obj_to_id = put m.to n b.obj_to_id } in
    let owned : lookup m.to b'.obj_to_id ≡ some n =
      ground (arith, lookup-put m.to m.to n b.obj_to_id, name_beq_iff m.to m.to) in
    let found' : logical_id owner 0 c.logical_to_real ≡ some n = found ∙ ap some (omega arith) in
    (
      b',
      rw (get_context_found b i at, other, new, found'),
      refl,
      rw (
        receive_all (serialize_header m) 256 fits,
        deserialize_header-serialize_header m sendable,
        receive_route_data_lem (record m { payload = none }) data_frame size,
        owned,
        get_context_found b' i at,
        is_owner,
      ),
    )
