-- ===== src/Packet/Encode/Bodies.antt =====
-- The `encode` methods of packet/publish.go, connack.go, ack.go, control.go, suback.go and
-- subscribe.go: the flags of the fixed header and the body.
use natsmqtt.Prelude.{ℕ, ◌*◌, ◌^◌, ◌&&◌, not, Bool, false, List, [], ◌∷◌}
use natsmqtt.Prelude.{◌++◌, Bytes, bit_or, leb, ltb, ◌==◌, if◌then◌else◌, is_empty}
use natsmqtt.Packet.Types.{PacketType, reserved_flags, qos_valid, is_error}
use natsmqtt.Packet.Result.{malformed, protocol, Result, ok, ◌>>=◌, ◌>>◌, guard}
use natsmqtt.Packet.Writer.{put_uint16, put_text, check_len}
use natsmqtt.Packet.Properties.Write.{encode_properties}
use natsmqtt.Packet.Model.{Publish, Connack, Ack, Reason, CodeList, Subscription, Subscribe}
use natsmqtt.Packet.Model.{Unsubscribe}

-- `if b { flags |= mask }`
abbrev pub or_if : Bool → ℕ → ℕ → ℕ
or_if b mask flags = if b then bit_or flags mask else flags

unfoldable pub publish_flags : Publish → ℕ
publish_flags p =
    or_if p.retain 0x01 (bit_or (or_if (p.dup && not (p.qos == 0)) 0x08 0) (p.qos * 2 ^ 1))

unfoldable pub put_packet_id : ℕ → ℕ → Bytes
put_packet_id qos id = if ltb 0 qos then put_uint16 id else []

unfoldable pub encode_publish : Publish → Result (ℕ × Bytes)
encode_publish p = do
  guard (qos_valid p.qos) malformed
  check_len p.topic
  props ← encode_properties p.properties PacketType.publish
  ok (
    publish_flags p,
    put_text p.topic ++ (put_packet_id p.qos p.packet_id ++ (props ++ p.payload)),
  )

unfoldable pub encode_connack : Connack → Result (ℕ × Bytes)
encode_connack c = do
  let ack_flags = if c.session_present && not (is_error c.reason_code) then 0x01 else 0
  props ← encode_properties c.properties PacketType.connack
  ok (0, ack_flags ∷ c.reason_code ∷ props)

-- `noProps`: the buffer is the one byte 0.
unfoldable pub no_props : Bytes → Bool
no_props [] = false
no_props (b ∷ []) = b == 0
no_props (b ∷ c ∷ s) = false

-- The Reason Code and the properties, each left out where the short form allows.
unfoldable pub put_reason : ℕ → Bytes → Bytes
put_reason code props =
    if code == 0x00 && no_props props
    then []
    else if no_props props
    then code ∷ []
    else code ∷ props

unfoldable pub encode_ack : PacketType → Ack → Result (ℕ × Bytes)
encode_ack t a = do
  props ← encode_properties a.properties t
  ok (reserved_flags t, put_uint16 a.packet_id ++ put_reason a.reason_code props)

unfoldable pub encode_reason : PacketType → Reason → Result (ℕ × Bytes)
encode_reason t d = do
  props ← encode_properties d.properties t
  ok (0, put_reason d.reason_code props)

unfoldable pub encode_reason_code_list : PacketType → CodeList → Result (ℕ × Bytes)
encode_reason_code_list t l = do
  guard (not (is_empty l.reason_codes)) protocol
  props ← encode_properties l.properties t
  ok (0, put_uint16 l.packet_id ++ (props ++ l.reason_codes))

unfoldable pub subscription_options : Subscription → ℕ
subscription_options sub =
    or_if sub.retain_as_published 0x08
      (or_if sub.no_local 0x04 (bit_or sub.qos (sub.retain_handling * 2 ^ 4)))

unfoldable pub put_subscription : Subscription → Result Bytes
put_subscription sub = do
  check_len sub.filter
  guard (qos_valid sub.qos) protocol
  guard (leb sub.retain_handling 2) protocol
  ok (put_text sub.filter ++ subscription_options sub ∷ [])

unfoldable pub put_filter : Bytes → Result Bytes
put_filter f = do check_len f; ok (put_text f)

-- The loop over the payload's items: the first error ends it.
unfoldable pub put_all : {A : Type 0} → (A → Result Bytes) → List A → Result Bytes
put_all item [] = ok []
put_all item (x ∷ xs) = do a ← item x; rest ← put_all item xs; ok (a ++ rest)

unfoldable pub encode_subscribe : Subscribe → Result (ℕ × Bytes)
encode_subscribe s = do
  guard (not (is_empty s.subscriptions)) protocol
  props ← encode_properties s.properties PacketType.subscribe
  payload ← put_all put_subscription s.subscriptions
  ok (reserved_flags PacketType.subscribe, put_uint16 s.packet_id ++ (props ++ payload))

unfoldable pub encode_unsubscribe : Unsubscribe → Result (ℕ × Bytes)
encode_unsubscribe u = do
  guard (not (is_empty u.filters)) protocol
  props ← encode_properties u.properties PacketType.unsubscribe
  payload ← put_all put_filter u.filters
  ok (reserved_flags PacketType.unsubscribe, put_uint16 u.packet_id ++ (props ++ payload))
