-- ===== src/Packet/Encode/Wire.antt =====
-- `Encode` and `EncodedLen` of packet/packet.go.
use natsmqtt.Prelude.{ℕ, ◌+◌, ◌*◌, ◌^◌, [], ◌∷◌, ◌++◌, Bytes, bit_or, leb, length}
use natsmqtt.Packet.Types.{PacketType, type_code}
use natsmqtt.Packet.Result.{malformed, Result, ok, ◌>>=◌, ◌>>◌, guard}
use natsmqtt.Packet.Writer.{put_var_byte_int, max_var_byte_int, var_byte_int_len}
use natsmqtt.Packet.Model.{Packet, packet_type}
use natsmqtt.Packet.Encode.Bodies.{encode_publish, encode_connack, encode_ack, encode_reason}
use natsmqtt.Packet.Encode.Bodies.{encode_reason_code_list, encode_subscribe, encode_unsubscribe}
use natsmqtt.Packet.Encode.Connect.{encode_connect}

-- The method `encode` of the interface.
unfoldable pub encode_packet : Packet → Result (ℕ × Bytes)
encode_packet (Packet.connect c) = encode_connect c
encode_packet (Packet.connack c) = encode_connack c
encode_packet (Packet.publish p) = encode_publish p
encode_packet (Packet.puback a) = encode_ack PacketType.puback a
encode_packet (Packet.pubrec a) = encode_ack PacketType.pubrec a
encode_packet (Packet.pubrel a) = encode_ack PacketType.pubrel a
encode_packet (Packet.pubcomp a) = encode_ack PacketType.pubcomp a
encode_packet (Packet.subscribe s) = encode_subscribe s
encode_packet (Packet.suback l) = encode_reason_code_list PacketType.suback l
encode_packet (Packet.unsubscribe u) = encode_unsubscribe u
encode_packet (Packet.unsuback l) = encode_reason_code_list PacketType.unsuback l
encode_packet Packet.pingreq = ok (0, [])
encode_packet Packet.pingresp = ok (0, [])
encode_packet (Packet.disconnect d) = encode_reason PacketType.disconnect d
encode_packet (Packet.auth a) = encode_reason PacketType.auth a

-- The fixed header before a body.
unfoldable pub frame : PacketType → ℕ → Bytes → Bytes
frame t flags body = bit_or (type_code t * 2 ^ 4) flags ∷ (put_var_byte_int (length body) ++ body)

unfoldable pub encode : Packet → Result Bytes
encode p = do
  (flags, body) ← encode_packet p
  guard (leb (length body) max_var_byte_int) malformed
  ok (frame (packet_type p) flags body)

unfoldable pub encoded_len : Packet → Result ℕ
encoded_len p = do
  (flags, body) ← encode_packet p
  ok (1 + var_byte_int_len (length body) + length body)
