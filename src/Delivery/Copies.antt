-- ===== src/Delivery/Copies.antt =====
-- A message as it is read from the queue, beside the message that was published.
use natsmqtt.Prelude.{
  sym, ◌++◌, length, codes, is_empty, append_assoc, length-append, drop-append, ℕ, ◌+◌, ◌-◌, ◌*◌,
  ◌^◌, ◌≤◌, ◌<◌, ◌≡◌, refl, ap, ◌∙◌, inl, inr, true, false, Option, none, some, some-injective,
  none-ne-some, [], ◌∷◌, Bytes, bytes_eq, ltb, leb, ◌&&◌, arith, Bool-cases,
}
use natsmqtt.Message.Decimal.{itoa, digits_loop, digits_loop-itoa}
use natsmqtt.Message.Nats.{
  hdr_qos, hdr_retain, hdr_origin, hdr_payload_format, hdr_message_expiry, hdr_content_type,
  hdr_response_topic, hdr_correlation_data, hdr_user_property, Headers, Msg, from_nats, get_number,
}
use natsmqtt.Message.Return.{get-set_other, values-set_other, get-set_same}
use natsmqtt.Delivery.Queued.{
  hdr_queue_seq, hdr_arrived, parse_seq, read_copy, queue_seq, keep_copy, hdr_queued,
  queued_subject, live_subject,
}
use natsmqtt.Topic.Subject.{dot, prefix}
use natsmqtt.Topic.Prefix.{has_prefix-append}

length_nonempty : (s : Bytes) → is_empty s ≡ false → 1 ≤ length s
length_nonempty [] h = absurd (ground (arith, h))
length_nonempty (x ∷ s) h = omega arith

digits_loop-grows : (m n : ℕ) (s : Bytes) → digits_loop m s ≡ some n → m ≤ n
unfolding digits_loop
digits_loop-grows m n [] e = let same : m ≡ n = some-injective m n e in omega (arith, same)
digits_loop-grows m n (c ∷ s) e = elim (Bool-cases (leb b'0' c && leb c b'9')) [
  | inl digit ↦
      let later = digits_loop-grows (10 * m + (c - b'0')) n s (rw digit at e) in
      omega (arith, later)
  | inr other ↦
      let bad : ◌≡◌ {A = Option ℕ} none (some n) = rw other at e in absurd (none-ne-some n bad)
]

parse_seq-digits_loop :
    (m n : ℕ) (s : Bytes) → digits_loop m s ≡ some n → n < 2 ^ 64 → parse_seq m s ≡ n
unfolding digits_loop parse_seq
parse_seq-digits_loop m n [] e w = some-injective m n e
parse_seq-digits_loop m n (c ∷ s) e w = elim (Bool-cases (leb b'0' c && leb c b'9')) [
  | inl digit ↦
      let later : digits_loop (10 * m + (c - b'0')) s ≡ some n = rw digit at e in
      let grown = digits_loop-grows (10 * m + (c - b'0')) n s later in
      let fits : ltb (10 * m + (c - b'0')) (2 ^ 64) ≡ true = ground arith in
      rw (digit, fits) (parse_seq-digits_loop (10 * m + (c - b'0')) n s later w)
  | inr other ↦
      let bad : ◌≡◌ {A = Option ℕ} none (some n) = rw other at e in absurd (none-ne-some n bad)
]

queued_append : (pre s : Bytes) → queued_subject pre s ≡ queued_subject pre [] ++ s
unfolding queued_subject prefix
queued_append [] s = refl
queued_append (c ∷ pre) s = sym (append_assoc (c ∷ pre) (dot ∷ codes "$queue.") s)

-- The subject that a copy is stored under is read back as the live one.
pub live_subject-queued_subject :
    (pre s : Bytes) → is_empty s ≡ false → live_subject pre (queued_subject pre s) ≡ prefix pre s
unfolding live_subject
live_subject-queued_subject pre s some_left =
    let q = queued_subject pre [] in
    let longer : ltb (length q) (length (q ++ s)) ≡ true =
      let added = length-append q s in let nonempty = length_nonempty s some_left in ground arith in
    rw (live_subject, queued_append pre s, longer, has_prefix-append q s, drop-append q s) refl

module _ (hs : Headers) where
  -- The sequence is read back from the copy.
  pub queue_seq-read_copy :
      (pre : Bytes) (seq : ℕ) (stamp : Bytes) (msg : Msg hs)
      → seq < 2 ^ 64
      → queue_seq hs (read_copy hs pre seq stamp msg) ≡ seq
  unfolding queue_seq read_copy bytes_eq
  queue_seq-read_copy pre seq stamp msg w =
      ap (parse_seq 0) (get-set_other hs _ _ stamp _ refl ∙ get-set_same hs _ (itoa seq) msg.header)
      ∙ parse_seq-digits_loop 0 seq (itoa seq) (digits_loop-itoa seq (omega (arith, w))) w

  pub get-read_copy :
      (j : Bytes) (pre : Bytes) (seq : ℕ) (stamp : Bytes) (msg : Msg hs)
      → bytes_eq j hdr_arrived ≡ false
      → bytes_eq j hdr_queue_seq ≡ false
      → hs.get j (read_copy hs pre seq stamp msg).header ≡ hs.get j msg.header
  unfolding read_copy
  get-read_copy j pre seq stamp msg a b =
      get-set_other hs j _ stamp _ a ∙ get-set_other hs j _ (itoa seq) msg.header b

  values-read_copy :
      (j : Bytes) (pre : Bytes) (seq : ℕ) (stamp : Bytes) (msg : Msg hs)
      → bytes_eq j hdr_arrived ≡ false
      → bytes_eq j hdr_queue_seq ≡ false
      → hs.values j (read_copy hs pre seq stamp msg).header ≡ hs.values j msg.header
  unfolding read_copy
  values-read_copy j pre seq stamp msg a b =
      values-set_other hs j _ stamp _ a ∙ values-set_other hs j _ (itoa seq) msg.header b

  -- What `fromNATS` returns is the same of the copy.
  pub from_nats-read_copy :
      (pre : Bytes) (seq : ℕ) (stamp : Bytes) (msg : Msg hs)
      → from_nats hs (read_copy hs pre seq stamp msg).header ≡ from_nats hs msg.header
  unfolding from_nats get_number bytes_eq
  from_nats-read_copy pre seq stamp msg =
      let same : (j : Bytes)
          → bytes_eq j hdr_arrived ≡ false
          → bytes_eq j hdr_queue_seq ≡ false
          → hs.get j (read_copy hs pre seq stamp msg).header ≡ hs.get j msg.header =
        λ j a b. get-read_copy j pre seq stamp msg a b in
      rw
        (
          from_nats,
          get_number,
          same hdr_qos refl refl,
          same hdr_retain refl refl,
          same hdr_origin refl refl,
          same hdr_payload_format refl refl,
          same hdr_message_expiry refl refl,
          same hdr_content_type refl refl,
          same hdr_response_topic refl refl,
          same hdr_correlation_data refl refl,
          values-read_copy hdr_user_property pre seq stamp msg refl refl,
        )
        refl

  -- Nor does the mark that the stored copy carries change it.
  pub from_nats-keep_copy :
      (pre subject : Bytes) (msg : Msg hs)
      → from_nats hs (keep_copy hs pre subject msg).header ≡ from_nats hs msg.header
  unfolding from_nats get_number bytes_eq keep_copy
  from_nats-keep_copy pre subject msg =
      let same : (j : Bytes)
          → bytes_eq j hdr_queued ≡ false
          → hs.get j (keep_copy hs pre subject msg).header ≡ hs.get j msg.header =
        λ j a. get-set_other hs j _ (codes "1") msg.header a in
      rw
        (
          from_nats,
          get_number,
          same hdr_qos refl,
          same hdr_retain refl,
          same hdr_origin refl,
          same hdr_payload_format refl,
          same hdr_message_expiry refl,
          same hdr_content_type refl,
          same hdr_response_topic refl,
          same hdr_correlation_data refl,
          values-set_other hs hdr_user_property hdr_queued (codes "1") msg.header refl,
        )
        refl
