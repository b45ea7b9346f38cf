-- ===== src/Tests/Messages.antt =====
-- Instances of the theorems on times and messages.
use fncs.Base.{
  ℕ, ◌+◌, ◌≡◌, ◌≢◌, ◌↔◌, refl, arith, Bool, true, false, none, some, List, [], ◌∷◌, ◌++◌, length,
  ok, undefined, ◌>>=◌, Name, to_bytes, nat_key, ◌==◌,
}
use fncs.Time.{seconds, unknown, convert_to_my_time, convert_to_framework_time}
use fncs.Time.Convert.{to_my_time-to_framework_time}
use fncs.Settings.{Settings}
use fncs.Message.{Message, equals, copy_message}
use fncs.Message.Header.{serialize_header, deserialize_header}
use fncs.Message.RoundTrip.{IsText, IsSendable, deserialize_header-serialize_header}
use fncs.Message.Bounds.{deserialize_header_size, deserialize_header_over_read}
use fncs.Message.Equality.{SameMessage, equals_iff, equals-copy_message}

abbrev pub house : Name
house = b'h' ∷ []

abbrev pub market : Name
market = b'm' ∷ []

abbrev pub bid : Message
bid = record {
  from = house;
  to = market;
  time_stamp = 5;
  tag = 0;
  payload = some (7 ∷ 9 ∷ []);
  size = 2;
  network_delivery_time = 3;
  delay_through_comm = true;
}

abbrev header_of_bid : List ℕ
header_of_bid =
    104 ∷ 0 ∷ 109 ∷ 0 ∷ 5 ∷ 0 ∷ 0 ∷ 0 ∷ 0 ∷ 0 ∷ 0 ∷ 0 ∷ 0 ∷ 3 ∷ 0 ∷ 0 ∷ 0 ∷ 0 ∷ 0 ∷ 0 ∷ 0 ∷ 0 ∷ 2
    ∷ 0 ∷ 0 ∷ 0 ∷ 0 ∷ 0 ∷ 0 ∷ 1 ∷ 0 ∷ []

serialize_header_of_bid : serialize_header bid ≡ header_of_bid
unfolding serialize_header to_bytes
serialize_header_of_bid = refl

pub bid-IsSendable : IsSendable bid
bid-IsSendable = record {
  from_text = (λ e. omega arith, tt);
  to_text = (λ e. omega arith, tt);
  time_word = omega arith;
  delivery_word = omega arith;
  size_word = omega arith;
  tag_byte = omega arith;
}

deserialize_header-serialize_header_example :
    deserialize_header (serialize_header bid) ≡ ok (record bid { payload = none })
deserialize_header-serialize_header_example = deserialize_header-serialize_header bid bid-IsSendable

deserialize_header_size_example :
    (length (serialize_header bid) ≡ 1 + 1 + 29) × IsText house × IsText market
deserialize_header_size_example =
    deserialize_header_size (serialize_header bid) (record bid { payload = none })
      (deserialize_header-serialize_header bid bid-IsSendable)

abbrev short_words : List ℕ
short_words =
    5 ∷ 0 ∷ 0 ∷ 0 ∷ 0 ∷ 0 ∷ 0 ∷ 0 ∷ 0 ∷ 3 ∷ 0 ∷ 0 ∷ 0 ∷ 0 ∷ 0 ∷ 0 ∷ 0 ∷ 0 ∷ 2 ∷ 0 ∷ 0 ∷ 0 ∷ 0 ∷ []

deserialize_header_over_read_example :
    deserialize_header (house ++ 0 ∷ (market ++ 0 ∷ short_words)) ≡ undefined
deserialize_header_over_read_example =
    deserialize_header_over_read house market short_words bid-IsSendable.from_text
      bid-IsSendable.to_text (omega arith)

equals_iff_example : (b : Bool) × (equals bid bid ≡ ok b) × ((b ≡ true) ↔ SameMessage bid bid)
equals_iff_example = equals_iff bid bid (omega arith, omega arith) (omega arith, omega arith)

abbrev settings : Settings
settings = record {
  sim_time_metric = seconds;
  offset = 0;
  packet_lost_period = 8;
  one_time_step = 1;
}

is_seconds : seconds ≢ unknown
is_seconds e = cc

to_my_time-to_framework_time_example :
    (convert_to_framework_time seconds 7 >>= convert_to_my_time seconds) ≡ ok 7
to_my_time-to_framework_time_example =
    to_my_time-to_framework_time seconds 7 is_seconds (omega arith)

equals-copy_message_example :
    (c : Message) × (copy_message bid bid ≡ ok c) × (equals c bid ≡ ok (bid.tag == bid.tag))
equals-copy_message_example = equals-copy_message bid bid (omega arith, omega arith)

-- A copy whose memory held another tag differs from its original.
copy_of_bid :
    (c : Message) × (copy_message (record bid { tag = 4 }) bid ≡ ok c) × (equals c bid ≡ ok false)
copy_of_bid = equals-copy_message (record bid { tag = 4 }) bid (omega arith, omega arith)
