-- ===== src/Message/RoundTrip.antt =====
-- Reading back a header that was written.
use fncs.Base.{
  ℕ, ◌≡◌, ◌≢◌, refl, ◌<◌, ◌^◌, arith, Bool, true, false, none, List, [], ◌∷◌, ◌++◌, All,
  take-append, drop-append, ok, Name, IsByte, IsU32, IsU64, to_bytes, length-to_bytes,
  from_bytes-to_bytes,
}
use fncs.Message.{Message}
use fncs.Message.Header.{
  byte_of_bool, serialize_header, read_name, read_word, skip_separator, read_tag, at_end,
  bool_of_byte, deserialize_header,
}

-- A C string: no byte of it is zero.
abbrev pub IsText : Name → Type 0
IsText = All (λ b. b ≢ 0)

pub read_name-append :
    (n : Name) (rest : List ℕ) → IsText n → read_name (n ++ 0 ∷ rest) ≡ ok (n, rest)
unfolding read_name
read_name-append [] rest h = refl
read_name-append (b ∷ n) rest h = ground (arith, read_name-append n rest h.1, h.0)

pub read_word-to_bytes :
    (n v : ℕ) (s : ℕ) (rest : List ℕ)
    → v < 256 ^ n
    → read_word n (to_bytes n v ++ s ∷ rest) ≡ ok (v, rest)
unfolding read_word skip_separator
read_word-to_bytes n v s rest h = rw (
  take-append n (to_bytes n v) (s ∷ rest) (length-to_bytes n v),
  drop-append n (to_bytes n v) (s ∷ rest) (length-to_bytes n v),
  from_bytes-to_bytes n v h,
)

byte_of_bool-lt : (b : Bool) → byte_of_bool b < 256
byte_of_bool-lt true = omega arith
byte_of_bool-lt false = omega arith

bool_of_byte-byte_of_bool : (b : Bool) → bool_of_byte (byte_of_bool b) ≡ ok b
unfolding bool_of_byte
bool_of_byte-byte_of_bool true = refl
bool_of_byte-byte_of_bool false = refl

-- What a message can hold: names without zero bytes, and words of their C++ widths.
pub record IsSendable (m : Message) : Type 0 where
  pub from_text : IsText m.from
  pub to_text : IsText m.to
  pub time_word : IsU64 m.time_stamp
  pub delivery_word : IsU64 m.network_delivery_time
  pub size_word : IsU32 m.size
  pub tag_byte : IsByte m.tag

-- The header of a message whose names hold no zero byte and whose words fit their C++ types reads
-- back to the same message, without its data.
pub deserialize_header-serialize_header :
    (m : Message)
    → IsSendable m
    → deserialize_header (serialize_header m) ≡ ok (record m { payload = none })
unfolding deserialize_header serialize_header read_tag at_end
deserialize_header-serialize_header m h =
    rw
      (
        read_name-append m.from _ h.from_text,
        read_name-append m.to _ h.to_text,
        read_word-to_bytes 8 m.time_stamp 0 _ h.time_word,
        read_word-to_bytes 8 m.network_delivery_time 0 _ h.delivery_word,
        read_word-to_bytes 4 m.size 0 _ h.size_word,
        read_word-to_bytes 1 (byte_of_bool m.delay_through_comm) 0 []
            (byte_of_bool-lt m.delay_through_comm),
      )
      (rw (bool_of_byte-byte_of_bool m.delay_through_comm))
