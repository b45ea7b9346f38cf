-- ===== src/Message/Header.antt =====
-- message.cpp: the header of a message as the bytes of an envelope. Words go out as they lie in
-- memory, little-endian; a `bool` is one byte. The bytes given to `deserialize_header` are the
-- `buffSize` bytes at `buff`.
use fncs.Base.{
  ℕ, Bool, true, false, Option, none, List, [], ◌∷◌, ◌++◌, take, drop, Result, ok, throws,
  undefined, deserialize_error, ◌>>=◌, map_result, Name, nat_key, ◌==◌, if◌then◌else◌, to_bytes,
  from_bytes,
}
use fncs.Message.{Message, copy_bytes}

abbrev pub byte_of_bool : Bool → ℕ
byte_of_bool true = 1
byte_of_bool false = 0

-- `Message::serializeHeader`
unfoldable pub serialize_header : Message → List ℕ
serialize_header m =
    m.from
    ++ (0
        ∷ (m.to
            ++ (0
                ∷ (to_bytes 8 m.time_stamp
                    ++ (0
                        ∷ (to_bytes 8 m.network_delivery_time
                            ++ (0
                                ∷ (to_bytes 4 m.size
                                    ++ (0
                                        ∷ m.tag
                                        ∷ 0
                                        ∷ (to_bytes 1 (byte_of_bool m.delay_through_comm)
                                            ++ (0 ∷ [])))))))))))

-- Characters up to a zero, which is skipped; it must come before the end.
unfoldable pub read_name : List ℕ → Result (Name × List ℕ)
read_name [] = throws deserialize_error
read_name (b ∷ rest) =
    if b == 0 then ok ([], rest) else map_result (λ (n, r). (b ∷ n, r)) (read_name rest)

-- At most `n` bytes of a word, and one byte more, which is skipped unread.
unfoldable pub skip_separator : ℕ → List ℕ → Result (ℕ × List ℕ)
skip_separator v [] = throws deserialize_error
skip_separator v (b ∷ rest) = ok (v, rest)

unfoldable pub read_word : ℕ → List ℕ → Result (ℕ × List ℕ)
unfolding skip_separator
read_word n bytes = skip_separator (from_bytes (take n bytes)) (drop n bytes)

-- `this->tag=buff[it++]` reads before `it` is compared with `buffSize`.
unfoldable pub read_tag : List ℕ → Result (ℕ × List ℕ)
unfolding skip_separator
read_tag [] = undefined
read_tag (b ∷ rest) = skip_separator b rest

unfoldable pub at_end : List ℕ → Result (Unit {0})
at_end [] = ok tt
at_end (b ∷ rest) = throws deserialize_error

-- A `bool` whose byte is neither 0 nor 1 has no value.
unfoldable pub bool_of_byte : ℕ → Result Bool
bool_of_byte b = if b == 0 then ok false else (if b == 1 then ok true else undefined)

-- `Message::deserializeHeader`, on an object without data. Reading past the bytes that were given is
-- undefined, also where the caller's buffer is longer than these.
unfoldable pub deserialize_header : List ℕ → Result Message
deserialize_header buff = do
  (from, after_from) ← read_name buff
  (to, after_to) ← read_name after_from
  (time_stamp, after_time) ← read_word 8 after_to
  (delivery_time, after_delivery) ← read_word 8 after_time
  (size, after_size) ← read_word 4 after_delivery
  (tag, after_tag) ← read_tag after_size
  (delay, after_delay) ← read_word 1 after_tag
  end ← at_end after_delay
  delay_through_comm ← bool_of_byte delay
  ok (record {
    from = from;
    to = to;
    time_stamp = time_stamp;
    tag = tag;
    payload = none;
    size = size;
    network_delivery_time = delivery_time;
    delay_through_comm = delay_through_comm;
  })

-- `Message::Message(envelope, size, data)`, for a null `data` and for one that is not
unfoldable pub from_envelope : List ℕ → Option (List ℕ) → Result Message
unfolding deserialize_header
from_envelope envelope none = deserialize_header envelope
from_envelope envelope (Option.some bytes) = do
  m ← deserialize_header envelope
  payload ← copy_bytes bytes m.size
  ok (record m { payload = payload })
