-- ===== src/Message/Equality.antt =====
-- Construction, copying and comparison of messages.
use fncs.Base.{
  ℕ, zero, suc, ◌≡◌, ◌↔◌, refl, ap, ◌<◌, arith, subst, sym, ◌∙◌, Bool, true, false, ◌&&◌, Option,
  none, some, List, take, length, take-all, length-take, ok, nat_key, ◌==◌, name_beq, name_beq_iff,
  ==_iff, ltb, Post, Bool-cases, inl, inr, if◌then◌else◌,
}
use fncs.Message.{Message, copy_bytes, copy_payload, copy_message, same_bytes, equals}

-- The data of a message is `size` bytes, and there is none if that is zero.
abbrev pub HasSize : Option (List ℕ) → ℕ → Type 0
HasSize none n = n ≡ 0
HasSize (some bytes) n = (length bytes ≡ n) × (0 < n)

pub copy_bytes-HasSize : (source : List ℕ) (n : ℕ) → Post (λ p. HasSize p n) (copy_bytes source n)
unfolding copy_bytes
copy_bytes-HasSize source zero = refl
copy_bytes-HasSize source (suc n) = elim (Bool-cases (ltb (length source) (suc n))) [
  | inl short ↦ rw short tt
  | inr enough ↦ rw enough (length-take (suc n) source (ground arith), omega arith)
]

-- Two payloads of the same size are compared without a fault, byte by byte.
same_bytes-eq :
    (xs ys : List ℕ) (n : ℕ)
    → length xs ≡ n
    → length ys ≡ n
    → same_bytes (some xs) (some ys) n ≡ ok (name_beq xs ys)
unfolding same_bytes
same_bytes-eq xs ys n h k = rw (take-all n xs h, take-all n ys k) (ground arith)

abbrev payload_beq : Option (List ℕ) → Option (List ℕ) → Bool
payload_beq none none = true
payload_beq none (some ys) = false
payload_beq (some xs) none = false
payload_beq (some xs) (some ys) = name_beq xs ys

payload_beq_iff : (p q : Option (List ℕ)) → (payload_beq p q ≡ true) ↔ (p ≡ q)
payload_beq_iff none none = (λ _. refl, λ _. refl)
payload_beq_iff none (some ys) = (λ h. cc, λ h. cc)
payload_beq_iff (some xs) none = (λ h. cc, λ h. cc)
payload_beq_iff (some xs) (some ys) =
    let e = name_beq_iff xs ys in (λ h. ap some (e.0 h), λ h. e.1 (cc))

compare_payloads :
    (p q : Option (List ℕ)) (n : ℕ)
    → HasSize p n
    → HasSize q n
    → (if ltb 0 n then same_bytes p q n else ok true) ≡ ok (payload_beq p q)
compare_payloads none none n h k = ground arith
compare_payloads none (some ys) n h k = absurd (omega arith)
compare_payloads (some xs) none n h k = absurd (omega arith)
compare_payloads (some xs) (some ys) n h k = ground (arith, same_bytes-eq xs ys n h.0 k.0)

abbrev all_tests : Message → Message → Bool
all_tests m that =
    name_beq m.from that.from
    && (name_beq m.to that.to
        && ((m.time_stamp == that.time_stamp)
            && ((m.size == that.size)
                && ((m.tag == that.tag) && payload_beq m.payload that.payload))))

equals-eq-all_tests :
    (m that : Message)
    → HasSize m.payload m.size
    → HasSize that.payload that.size
    → equals m that ≡ ok (all_tests m that)
unfolding equals
equals-eq-all_tests m that h k = elim (Bool-cases (m.size == that.size)) [
  | inl e ↦
      let q = subst (HasSize that.payload) (sym ((==_iff m.size that.size).0 e)) k in
      ground (arith, compare_payloads m.payload that.payload m.size h q)
  | inr e ↦ ground arith
]

-- What `operator==` compares.
pub record SameMessage (m that : Message) : Type 0 where
  pub same_from : m.from ≡ that.from
  pub same_to : m.to ≡ that.to
  pub same_time : m.time_stamp ≡ that.time_stamp
  pub same_size : m.size ≡ that.size
  pub same_tag : m.tag ≡ that.tag
  pub same_payload : m.payload ≡ that.payload

-- Over messages whose data has the stated size, `operator==` fails no assertion and reads no byte
-- out of bounds: it answers, and says yes exactly if the two agree in names, time, size, tag and data.
pub equals_iff :
    (m that : Message)
    → HasSize m.payload m.size
    → HasSize that.payload that.size
    → (b : Bool) × (equals m that ≡ ok b) × ((b ≡ true) ↔ SameMessage m that)
equals_iff m that h k =
    let from = name_beq_iff m.from that.from in
    let to = name_beq_iff m.to that.to in
    let payload = payload_beq_iff m.payload that.payload in
    (
      all_tests m that,
      equals-eq-all_tests m that h k,
      (
        λ t. record {
          same_from = ground (arith, from);
          same_to = ground (arith, to);
          same_time = ground arith;
          same_size = ground arith;
          same_tag = ground arith;
          same_payload = ground (arith, payload);
        },
        λ s. ground (arith, from, to, payload, s.same_from, s.same_to, s.same_payload),
      ),
    )

copied :
    (q : Option (List ℕ)) (n : ℕ)
    → HasSize q n
    → (p : Option (List ℕ)) × (copy_payload q n ≡ ok p) × (p ≡ q)
unfolding copy_payload
copied none zero h = (none, refl, refl)
copied none (suc n) h = absurd (omega arith)
copied (some bytes) zero h = absurd (omega arith)
copied (some bytes) (suc n) h =
    (some (take (suc n) bytes), ground arith, ap some (take-all (suc n) bytes h.0))

-- A copy of a message whose data has the stated size is made, and it is equal to its original
-- exactly if the tag that the copy's memory happened to hold is the original's.
pub equals-copy_message :
    (fresh other : Message)
    → HasSize other.payload other.size
    → (c : Message) × (copy_message fresh other ≡ ok c)
      × (equals c other ≡ ok (fresh.tag == other.tag))
unfolding copy_message
equals-copy_message fresh other h =
    let (p, e, same) = copied other.payload other.size h in
    let c : Message = record fresh {
      from = other.from;
      to = other.to;
      time_stamp = other.time_stamp;
      payload = p;
      size = other.size;
    } in
    (
      c,
      rw e,
      equals-eq-all_tests c other (rw same h) h
          ∙ ap ok (
              ground (
                arith,
                name_beq_iff other.from other.from,
                name_beq_iff other.to other.to,
                payload_beq_iff p other.payload,
                same,
              )),
    )
