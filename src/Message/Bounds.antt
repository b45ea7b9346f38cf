-- ===== src/Message/Bounds.antt =====
-- The size of an envelope, and what happens to one that is too short.
use fncs.Base.{
  ℕ, zero, suc, ◌+◌, ◌≡◌, ◌≢◌, refl, ap, ◌<◌, arith, List, [], ◌∷◌, ◌++◌, take, drop, length,
  length-drop, length-append, nil_of_length, from_bytes, inl, inr, Bool-cases, ◌==◌, Result, ok,
  throws, assert_fails, undefined, map_result, Name, nat_key, to_bytes, length-to_bytes, Post,
  Post->>=, Post-eq-ok, Post-Unit,
}
use fncs.Message.{Message}
use fncs.Message.Header.{
  byte_of_bool, serialize_header, read_name, read_word, skip_separator, read_tag, at_end,
  bool_of_byte, deserialize_header,
}
use fncs.Message.RoundTrip.{IsText, read_name-append}

-- A header takes 29 bytes besides the two names.
pub length-serialize_header :
    (m : Message) → length (serialize_header m) ≡ length m.from + length m.to + 29
unfolding serialize_header
length-serialize_header m = omega (
  arith,
  length-append m.from _,
  length-append m.to _,
  length-append (to_bytes 8 m.time_stamp) _,
  length-append (to_bytes 8 m.network_delivery_time) _,
  length-append (to_bytes 4 m.size) _,
  length-append (to_bytes 1 (byte_of_bool m.delay_through_comm)) _,
  length-to_bytes 8 m.time_stamp,
  length-to_bytes 8 m.network_delivery_time,
  length-to_bytes 4 m.size,
  length-to_bytes 1 (byte_of_bool m.delay_through_comm),
)

-- What `read_name` leaves, if it finds the end of the name.
abbrev IsNamed : List ℕ → Name × List ℕ → Type 0
IsNamed b p = (length b ≡ length p.0 + 1 + length p.1) × IsText p.0

abbrev IsSkipped : ℕ → List ℕ → ℕ × List ℕ → Type 0
IsSkipped k b p = length b ≡ k + 1 + length p.1

Post-map_result :
    (x : ℕ) (b : List ℕ) (res : Result (Name × List ℕ))
    → x ≢ 0
    → Post (IsNamed b) res
    → Post (IsNamed (x ∷ b)) (map_result (λ (n, r). (x ∷ n, r)) res)
Post-map_result x b (ok (n, r)) h named = (omega arith, (h, named.1))
Post-map_result x b (throws e) h named = tt
Post-map_result x b assert_fails h named = tt
Post-map_result x b undefined h named = tt

read_name-IsNamed : (b : List ℕ) → Post (IsNamed b) (read_name b)
unfolding read_name
read_name-IsNamed [] = tt
read_name-IsNamed (x ∷ b) = elim (Bool-cases (x == 0)) [
  | inl end ↦ rw end (omega arith, tt)
  | inr more ↦ rw more (Post-map_result x b (read_name b) (ground arith) (read_name-IsNamed b))
]

skip_separator-IsSkipped :
    (k v : ℕ) (b rest : List ℕ)
    → length b ≡ k + length rest
    → Post (IsSkipped k b) (skip_separator v rest)
unfolding skip_separator
skip_separator-IsSkipped k v b [] h = tt
skip_separator-IsSkipped k v b (x ∷ rest) h = omega arith

dropped-IsSkipped :
    (k v : ℕ) (b rest : List ℕ) → drop k b ≡ rest → Post (IsSkipped k b) (skip_separator v rest)
dropped-IsSkipped k v b [] e = unfold skip_separator in tt
dropped-IsSkipped k v b (x ∷ rest) e =
    skip_separator-IsSkipped k v b (x ∷ rest) (omega (arith, ap length e, length-drop k b))

read_word-IsSkipped : (k : ℕ) (b : List ℕ) → Post (IsSkipped k b) (read_word k b)
unfolding read_word
read_word-IsSkipped k b = dropped-IsSkipped k (from_bytes (take k b)) b (drop k b) refl

read_tag-IsSkipped : (b : List ℕ) → Post (IsSkipped 1 b) (read_tag b)
unfolding read_tag
read_tag-IsSkipped [] = tt
read_tag-IsSkipped (x ∷ b) = skip_separator-IsSkipped 1 x (x ∷ b) b (omega arith)

at_end-nil : (b : List ℕ) → Post (λ u. length b ≡ 0) (at_end b)
unfolding at_end
at_end-nil [] = refl
at_end-nil (x ∷ b) = tt

drop-suc : (k : ℕ) (b : List ℕ) → k < length b → (x : ℕ) × (drop k b ≡ x ∷ drop (suc k) b)
drop-suc k [] h = absurd (omega arith)
drop-suc zero (x ∷ b) h = (x, refl)
drop-suc (suc k) (x ∷ b) h = drop-suc k b (omega arith)

read_word_enough :
    (k : ℕ) (b : List ℕ) → k < length b → read_word k b ≡ ok (from_bytes (take k b), drop (suc k) b)
unfolding read_word skip_separator
read_word_enough k b h = let (x, e) = drop-suc k b h in rw (e, skip_separator)

abbrev IsHeader : List ℕ → Message → Type 0
IsHeader b m = (length b ≡ length m.from + length m.to + 29) × IsText m.from × IsText m.to

deserialize_header-IsHeader : (b : List ℕ) → Post (IsHeader b) (deserialize_header b)
unfolding deserialize_header
deserialize_header-IsHeader b = Post->>= (IsNamed b) _ (read_name b) _ (read_name-IsNamed b) λ f hf.
    Post->>= (IsNamed f.1) _ (read_name f.1) _ (read_name-IsNamed f.1) λ t ht.
      Post->>= (IsSkipped 8 t.1) _ (read_word 8 t.1) _ (read_word-IsSkipped 8 t.1) λ s hs.
        Post->>= (IsSkipped 8 s.1) _ (read_word 8 s.1) _ (read_word-IsSkipped 8 s.1) λ d hd.
          Post->>= (IsSkipped 4 d.1) _ (read_word 4 d.1) _ (read_word-IsSkipped 4 d.1) λ z hz.
            Post->>= (IsSkipped 1 z.1) _ (read_tag z.1) _ (read_tag-IsSkipped z.1) λ g hg.
              Post->>= (IsSkipped 1 g.1) _ (read_word 1 g.1) _ (read_word-IsSkipped 1 g.1) λ c hc.
                Post->>= (λ u. length c.1 ≡ 0) _ (at_end c.1) _ (at_end-nil c.1)
                  λ u hu.
                    Post->>= (λ v. Unit {0}) _ (bool_of_byte c.0) _ (Post-Unit (bool_of_byte c.0))
                      λ v hv. (omega arith, hf.1, ht.1)

-- Bytes that read as the header of a message are 29 more than its two names have, and the names
-- hold no zero byte.
pub deserialize_header_size :
    (b : List ℕ) (m : Message)
    → deserialize_header b ≡ ok m
    → (length b ≡ length m.from + length m.to + 29) × IsText m.from × IsText m.to
deserialize_header_size b m h =
    Post-eq-ok (IsHeader b) (deserialize_header b) (deserialize_header-IsHeader b) h

-- Two names without zero bytes, each with its separator, and then 23 bytes: an envelope that stops
-- there, before the tag, makes `deserializeHeader` read past its end.
pub deserialize_header_over_read :
    (from to : Name) (words : List ℕ)
    → IsText from
    → IsText to
    → length words ≡ 23
    → deserialize_header (from ++ 0 ∷ (to ++ 0 ∷ words)) ≡ undefined
unfolding deserialize_header read_tag
deserialize_header_over_read from to words hf ht h = rw (
  read_name-append from _ hf,
  read_name-append to _ ht,
  read_word_enough 8 words (omega arith),
  read_word_enough 8 (drop 9 words) (omega (arith, length-drop 9 words)),
  read_word_enough 4 (drop 9 (drop 9 words))
      (omega (arith, length-drop 9 words, length-drop 9 (drop 9 words))),
  nil_of_length (drop 5 (drop 9 (drop 9 words))) (
      omega (
        arith,
        length-drop 9 words,
        length-drop 9 (drop 9 words),
        length-drop 5 (drop 9 (drop 9 words)),
      )),
  read_tag,
)
