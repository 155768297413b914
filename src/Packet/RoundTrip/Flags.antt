-- ===== src/Packet/RoundTrip/Flags.antt =====
-- The flags that the `encode` methods return are the ones that `Read` asks for.
use natsmqtt.Prelude.{ℕ, ◌<◌, ◌≡◌, Bytes, arith, false, not, ◌&&◌, ◌==◌}
use natsmqtt.Packet.Types.{PacketType, type_code, reserved_flags, qos_valid}
use natsmqtt.Packet.Result.{ok}
use natsmqtt.Packet.Model.{
  Packet, packet_type, Ack, Reason, CodeList, Subscribe, Unsubscribe, Connect, Connack, Publish,
}
use natsmqtt.Packet.Encode.{encode_publish, encode_connack, encode_ack, encode_reason}
use natsmqtt.Packet.Encode.{
  encode_reason_code_list, encode_subscribe, encode_unsubscribe, encode_connect,
}
use natsmqtt.Packet.Encode.Wire.{encode_packet}
use natsmqtt.Packet.RoundTrip.Publish.{publish_flags-lt}

pub encode_ack-flags :
    (t : PacketType) (a : Ack) (flags : ℕ) (body : Bytes)
    → encode_ack t a ≡ ok (flags, body)
    → flags ≡ reserved_flags t
unfolding encode_ack
encode_ack-flags t a flags body e = ground arith

encode_reason-flags :
    (t : PacketType) (d : Reason) (flags : ℕ) (body : Bytes)
    → encode_reason t d ≡ ok (flags, body)
    → flags ≡ 0
unfolding encode_reason
encode_reason-flags t d flags body e = ground arith

encode_reason_code_list-flags :
    (t : PacketType) (l : CodeList) (flags : ℕ) (body : Bytes)
    → encode_reason_code_list t l ≡ ok (flags, body)
    → flags ≡ 0
unfolding encode_reason_code_list
encode_reason_code_list-flags t l flags body e = ground arith

encode_connack-flags :
    (c : Connack) (flags : ℕ) (body : Bytes) → encode_connack c ≡ ok (flags, body) → flags ≡ 0
unfolding encode_connack
encode_connack-flags c flags body e = ground arith

encode_connect-flags :
    (c : Connect) (flags : ℕ) (body : Bytes) → encode_connect c ≡ ok (flags, body) → flags ≡ 0
unfolding encode_connect
encode_connect-flags c flags body e = ground arith

encode_subscribe-flags :
    (s : Subscribe) (flags : ℕ) (body : Bytes) → encode_subscribe s ≡ ok (flags, body) → flags ≡ 2
unfolding encode_subscribe reserved_flags
encode_subscribe-flags s flags body e = ground arith

encode_unsubscribe-flags :
    (u : Unsubscribe) (flags : ℕ) (body : Bytes)
    → encode_unsubscribe u ≡ ok (flags, body)
    → flags ≡ 2
unfolding encode_unsubscribe reserved_flags
encode_unsubscribe-flags u flags body e = ground arith

encode_publish-flags :
    (p : Publish) (flags : ℕ) (body : Bytes) → encode_publish p ≡ ok (flags, body) → flags < 16
unfolding encode_publish qos_valid
encode_publish-flags p flags body e = ground (arith, publish_flags-lt p)

-- What `Read` asks of the first byte before it reads on.
pub record Accepted (t : PacketType) (flags : ℕ) : Type 0 where
  pub nibble : flags < 16
  pub not_zero : (type_code t == 0) ≡ false
  pub flags_ok :
      (not (type_code t == type_code PacketType.publish) && not (flags == reserved_flags t)) ≡ false

pub encode_packet-Accepted :
    (p : Packet) (flags : ℕ) (body : Bytes)
    → encode_packet p ≡ ok (flags, body)
    → Accepted (packet_type p) flags
unfolding encode_packet packet_type type_code reserved_flags
encode_packet-Accepted (Packet.connect c) f b e = ground (arith, encode_connect-flags c f b e)
encode_packet-Accepted (Packet.connack c) f b e = ground (arith, encode_connack-flags c f b e)
encode_packet-Accepted (Packet.publish p) f b e = ground (arith, encode_publish-flags p f b e)
encode_packet-Accepted (Packet.puback a) f b e =
    ground (arith, encode_ack-flags PacketType.puback a f b e)
encode_packet-Accepted (Packet.pubrec a) f b e =
    ground (arith, encode_ack-flags PacketType.pubrec a f b e)
encode_packet-Accepted (Packet.pubrel a) f b e =
    ground (arith, encode_ack-flags PacketType.pubrel a f b e)
encode_packet-Accepted (Packet.pubcomp a) f b e =
    ground (arith, encode_ack-flags PacketType.pubcomp a f b e)
encode_packet-Accepted (Packet.subscribe s) f b e = ground (arith, encode_subscribe-flags s f b e)
encode_packet-Accepted (Packet.suback l) f b e =
    ground (arith, encode_reason_code_list-flags PacketType.suback l f b e)
encode_packet-Accepted (Packet.unsubscribe u) f b e =
    ground (arith, encode_unsubscribe-flags u f b e)
encode_packet-Accepted (Packet.unsuback l) f b e =
    ground (arith, encode_reason_code_list-flags PacketType.unsuback l f b e)
encode_packet-Accepted Packet.pingreq f b e = ground arith
encode_packet-Accepted Packet.pingresp f b e = ground arith
encode_packet-Accepted (Packet.disconnect d) f b e =
    ground (arith, encode_reason-flags PacketType.disconnect d f b e)
encode_packet-Accepted (Packet.auth d) f b e =
    ground (arith, encode_reason-flags PacketType.auth d f b e)
