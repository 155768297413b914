-- ===== src/Packet/RoundTrip/Publish.antt =====
-- The round trips of packet/publish.go and packet/connack.go.
use natsmqtt.Prelude.{
  ℕ, ◌*◌, ◌/◌, ◌^◌, ◌≤◌, ◌<◌, ◌≡◌, refl, ap, subst, ◌++◌, ◌&&◌, not, Bool, true, false,
}
use natsmqtt.Prelude.{[], inl, inr, Bool-cases, Bytes, arith, length, length-append, some}
use natsmqtt.Prelude.{
  append-nil, if◌then◌else◌, is_empty, ltb, ◌==◌, bit_and, bit_or, leb→le, ltb→lt, ==_iff,
}
use natsmqtt.Prelude.{
  all_below, all_below_sound, all_bools, all_bools_sound, same, same→eq, and→both,
}
use natsmqtt.Packet.Types.{PacketType, qos_valid, is_error}
use natsmqtt.Packet.Result.{malformed, ok, guard-then, >>=-eq-ok}
use natsmqtt.Packet.Reader.{byte}
use natsmqtt.Packet.Utf8.{validate_utf8}
use natsmqtt.Packet.Writer.{put_text, max_var_byte_int}
use natsmqtt.Packet.Properties.Write.{encode_properties}
use natsmqtt.Packet.Model.{Publish, Connack, Packet}
use natsmqtt.Packet.Decode.{has_bit, is_some, read_packet_id, decode_publish, decode_connack}
use natsmqtt.Packet.Encode.{or_if, publish_flags, put_packet_id, encode_publish, encode_connack}
use natsmqtt.Packet.RoundTrip.Primitives.{uint16-put_uint16, text-put_text}
use natsmqtt.Packet.RoundTrip.Loop.{ok-injective, checked, nonzero}
use natsmqtt.Packet.RoundTrip.Properties.{
  read_back, IsValidOption, read_properties-encode_properties,
}

abbrev flags_of : Bool → Bool → ℕ → ℕ
flags_of dup retain qos =
    or_if retain 0x01 (bit_or (or_if (dup && not (qos == 0)) 0x08 0) (qos * 2 ^ 1))

-- What the flags of a PUBLISH say of it.
abbrev flags_say : Bool → Bool → ℕ → Bool
flags_say dup retain qos =
    let flags = flags_of dup retain qos in
    (bit_and (flags / 2 ^ 1) 0x03 == qos)
    && (same (has_bit flags 0x08) (dup && not (qos == 0))
        && (same (has_bit flags 0x01) retain && ltb flags 16))

flags_say_table : all_bools (λ d. all_bools (λ r. all_below 3 (flags_say d r))) ≡ true
unfolding all_bools all_below
flags_say_table = refl

flags_back :
    (dup retain : Bool) (qos : ℕ)
    → qos ≤ 2
    → (bit_and (flags_of dup retain qos / 2 ^ 1) 0x03 ≡ qos)
      × (has_bit (flags_of dup retain qos) 0x08 ≡ (dup && not (qos == 0)))
      × (has_bit (flags_of dup retain qos) 0x01 ≡ retain)
      × (flags_of dup retain qos < 16)
flags_back dup retain qos h =
    let row = all_bools_sound _ (all_bools_sound _ flags_say_table dup) retain in
    let (a, rest) = and→both _ _ (all_below_sound 3 _ row qos (omega arith)) in
    let (b, rest') = and→both _ _ rest in
    let (c, d) = and→both _ _ rest' in
    ((==_iff _ _).0 a, same→eq _ _ b, same→eq _ _ c, ltb→lt _ _ d)

pub publish_flags-lt : (p : Publish) → p.qos ≤ 2 → publish_flags p < 16
unfolding publish_flags
publish_flags-lt p h = (flags_back p.dup p.retain p.qos h).3

-- What a reader makes of a PUBLISH: at QoS 0 there is no DUP and no Packet Identifier.
unfoldable pub read_back_publish : Publish → Publish
read_back_publish p = record {
  dup = p.dup && not (p.qos == 0);
  qos = p.qos;
  retain = p.retain;
  topic = p.topic;
  packet_id = if ltb 0 p.qos then p.packet_id else 0;
  properties = some (read_back PacketType.publish p.properties);
  payload = p.payload;
}

-- What a reader asks of a PUBLISH.
pub record IsValidPublish (p : Publish) : Type 0 where
  pub topic : validate_utf8 p.topic ≡ ok tt
  pub packet_id : 0 < p.qos → (1 ≤ p.packet_id) × (p.packet_id < 2 ^ 16)
  pub properties : IsValidOption PacketType.publish p.properties
  pub named :
      (is_empty p.topic && not (is_some (read_back PacketType.publish p.properties).topic_alias))
      ≡ false

read_packet_id-put_packet_id :
    (qos id : ℕ) (s : Bytes)
    → (0 < qos → (1 ≤ id) × (id < 2 ^ 16))
    → read_packet_id qos (put_packet_id qos id ++ s) ≡ ok (if ltb 0 qos then id else 0, s)
unfolding read_packet_id put_packet_id
read_packet_id-put_packet_id qos id s h = elim (Bool-cases (ltb 0 qos)) [
  | inl e ↦
      let (positive, small) = h (ltb→lt _ _ e) in
      rw (e, uint16-put_uint16 id s small, nonzero id positive)
  | inr e ↦ rw e
]

no_dup_at_qos_0 : (dup : Bool) (qos : ℕ) → not (qos == 0 && (dup && not (qos == 0))) ≡ true
no_dup_at_qos_0 dup qos = ground arith

module _ (p : Publish) (props : Bytes) (valid : IsValidPublish p) (good : qos_valid p.qos ≡ true)
    (fits : length p.topic ≤ 65535)
    (written : encode_properties p.properties PacketType.publish ≡ ok props)
    (short : length props ≤ max_var_byte_int) where
  decode_publish-body :
      decode_publish
        (publish_flags p)
        (put_text p.topic ++ (put_packet_id p.qos p.packet_id ++ (props ++ p.payload)))
      ≡ ok (Packet.publish (read_back_publish p), [])
  unfolding decode_publish publish_flags read_back_publish qos_valid
  decode_publish-body =
      let (q, d, r, _) = flags_back p.dup p.retain p.qos (leb→le _ _ good) in
      rw (
        q,
        d,
        r,
        no_dup_at_qos_0 p.dup p.qos,
        good,
        text-put_text p.topic _ fits valid.topic,
        read_packet_id-put_packet_id p.qos p.packet_id (props ++ p.payload) valid.packet_id,
        read_properties-encode_properties _ p.properties props p.payload valid.properties written
            short,
        valid.named,
      )

pub decode_publish-encode_publish :
    (p : Publish) (flags : ℕ) (body : Bytes)
    → IsValidPublish p
    → encode_publish p ≡ ok (flags, body)
    → length body ≤ max_var_byte_int
    → decode_publish flags body ≡ ok (Packet.publish (read_back_publish p), [])
unfolding encode_publish
decode_publish-encode_publish p flags body valid e short =
    let (good, e') = guard-then (qos_valid p.qos) malformed _ e in
    let (fits, e'') = checked p.topic e' in
    let (props, written, whole) =
      >>=-eq-ok (encode_properties p.properties PacketType.publish) _ e'' in
    let pairs = ok-injective whole in
    let small : length props ≤ max_var_byte_int = omega (
      arith,
      ap (λ (z : ℕ × Bytes). length z.1) pairs,
      length-append (put_text p.topic) (put_packet_id p.qos p.packet_id ++ (props ++ p.payload)),
      length-append (put_packet_id p.qos p.packet_id) (props ++ p.payload),
      length-append props p.payload,
    ) in
    subst
      (λ (z : ℕ × Bytes). decode_publish z.0 z.1 ≡ ok (Packet.publish (read_back_publish p), []))
      pairs (decode_publish-body p props valid good fits written small)

-- What a reader makes of a CONNACK: no session is present where the Reason Code is an error.
unfoldable pub read_back_connack : Connack → Connack
read_back_connack c = record {
  session_present = c.session_present && not (is_error c.reason_code);
  reason_code = c.reason_code;
  properties = some (read_back PacketType.connack c.properties);
}

ack_flags_back :
    (b : Bool)
    → (bit_and (if b then 0x01 else 0) 0xfe == 0 ≡ true)
      × (has_bit (if b then 0x01 else 0) 0x01 ≡ b)
ack_flags_back true = (refl, refl)
ack_flags_back false = (refl, refl)

pub decode_connack-encode_connack :
    (c : Connack) (flags : ℕ) (body : Bytes)
    → IsValidOption PacketType.connack c.properties
    → encode_connack c ≡ ok (flags, body)
    → length body ≤ max_var_byte_int
    → decode_connack body ≡ ok (Packet.connack (read_back_connack c), [])
unfolding encode_connack decode_connack read_back_connack byte
decode_connack-encode_connack c flags body valid e short =
    let (props, written, whole) =
      >>=-eq-ok (encode_properties c.properties PacketType.connack) _ e in
    let pairs = ok-injective whole in
    let (reserved, present) = ack_flags_back (c.session_present && not (is_error c.reason_code)) in
    let small : length props ≤ max_var_byte_int =
      omega (arith, ap (λ (z : ℕ × Bytes). length z.1) pairs) in
    subst (λ (z : ℕ × Bytes). decode_connack z.1 ≡ ok (Packet.connack (read_back_connack c), []))
      pairs
      (rw (
        reserved,
        present,
        ← append-nil props,
        read_properties-encode_properties _ c.properties props [] valid written small,
      ))
