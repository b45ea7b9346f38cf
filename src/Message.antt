-- ===== src/Message.antt =====
-- message.h and message.cpp: a message and its operations. A string is its bytes; the payload is
-- `none` for a null pointer.
pub mod Header
pub mod RoundTrip
pub mod Bounds
pub mod Equality
use fncs.Base.{
  ℕ, zero, suc, ◌≡◌, Bool, true, false, not, Option, none, some, List, [], ◌∷◌, length, take,
  Result, ok, undefined, assert_fails, ◌>>=◌, Name, nat_key, ◌==◌, name_beq, ltb, if◌then◌else◌,
  add64, sub64,
}
use fncs.Time.{convert_to_my_time, convert_to_framework_time, infinity}
use fncs.Settings.{Settings, get_adjusted_offset}

pub record Message : Type 0 where
  pub from : Name
  pub to : Name
  pub time_stamp : ℕ
  pub tag : ℕ
  pub payload : Option (List ℕ)
  pub size : ℕ
  pub network_delivery_time : ℕ
  pub delay_through_comm : Bool

-- `"*"`
abbrev pub broadcast_destination : Name
broadcast_destination = b'*' ∷ []

-- `new uint8_t[size]` and `memcpy`; reading past the source is undefined.
unfoldable pub copy_bytes : List ℕ → ℕ → Result (Option (List ℕ))
copy_bytes source zero = ok none
copy_bytes source (suc n) =
    if ltb (length source) (suc n) then undefined else ok (some (take (suc n) source))

-- `Message::Message(from, to, timeStamp, data, dataSize, tag)`
unfoldable pub new_message : Settings → Name → Name → ℕ → List ℕ → ℕ → ℕ → Result Message
new_message i from to time_stamp source size tag = do
  t ← convert_to_framework_time i.sim_time_metric time_stamp
  bytes ← copy_bytes source size
  ok (record {
    from = from;
    to = to;
    time_stamp = sub64 t i.offset;
    tag = tag;
    payload = bytes;
    size = size;
    network_delivery_time = infinity;
    delay_through_comm = true;
  })

-- The bytes that a non-null pointer to `size` bytes gives; a null pointer with a size is undefined.
unfoldable pub copy_payload : Option (List ℕ) → ℕ → Result (Option (List ℕ))
unfolding copy_bytes
copy_payload none zero = ok none
copy_payload none (suc n) = undefined
copy_payload (some bytes) n = copy_bytes bytes n

-- `Message::Message(const Message &other)`. It assigns `this->tag = tag`, and leaves the delivery
-- time and the delay flag alone: these keep what the new object's memory `fresh` held.
unfoldable pub copy_message : (fresh other : Message) → Result Message
copy_message fresh other = do
  bytes ← copy_payload other.payload other.size
  ok (record fresh {
    from = other.from;
    to = other.to;
    time_stamp = other.time_stamp;
    payload = bytes;
    size = other.size;
  })

-- `Message::getAdjustedTime`
unfoldable pub get_adjusted_time : Settings → Message → Result ℕ
unfolding get_adjusted_offset
get_adjusted_time i m = do
  t ← convert_to_my_time i.sim_time_metric m.time_stamp
  offset ← get_adjusted_offset i
  ok (add64 t offset)

-- `Message::setData` leaves the size alone.
unfoldable pub set_data : Message → List ℕ → ℕ → Result Message
set_data m source size = do bytes ← copy_bytes source size; ok (record m { payload = bytes })

unfoldable pub is_broadcast : Message → Bool
is_broadcast m = name_beq m.to broadcast_destination

-- `Message::setDeliveryTime`
unfoldable pub set_delivery_time : Settings → Message → ℕ → Result Message
set_delivery_time i m current_time = do
  t ← convert_to_framework_time i.sim_time_metric current_time
  ok (record m { network_delivery_time = sub64 t m.time_stamp })

-- `memcmp(a, b, size) == 0` over two pointers that were asserted to be non-null.
unfoldable pub same_bytes : Option (List ℕ) → Option (List ℕ) → ℕ → Result Bool
same_bytes none b n = assert_fails
same_bytes (some xs) none n = assert_fails
same_bytes (some xs) (some ys) n =
    if ltb (length xs) n
    then undefined
    else (if ltb (length ys) n then undefined else ok (name_beq (take n xs) (take n ys)))

-- `Message::operator==`
unfoldable pub equals : Message → Message → Result Bool
equals m that =
    if not (name_beq m.from that.from)
    then ok false
    else (if not (name_beq m.to that.to)
        then ok false
        else (if not (m.time_stamp == that.time_stamp)
            then ok false
            else (if not (m.size == that.size)
                then ok false
                else (if not (m.tag == that.tag)
                    then ok false
                    else (if ltb 0 m.size
                        then same_bytes m.payload that.payload m.size
                        else ok true)))))

-- `Message::operator!=`
unfoldable pub differs : Message → Message → Result Bool
unfolding equals
differs m that = do same ← equals m that; ok (not same)
