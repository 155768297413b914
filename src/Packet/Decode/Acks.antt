-- ===== src/Packet/Decode/Acks.antt =====
-- `decodeAck` of packet/ack.go, `decodeDisconnect` and `decodeAuth` of packet/control.go, and
-- `decodeReasonCodeList` of packet/suback.go.
use natsmqtt.Prelude.{ℕ, not, some, List, [], ◌∷◌}
use natsmqtt.Prelude.{is_empty}
use natsmqtt.Packet.Types.{PacketType}
use natsmqtt.Packet.Result.{malformed, protocol, ok}
use natsmqtt.Packet.Reader.{Reader, and_then, ◌>>=◌, ◌>>◌, return, require, byte, uint16, at_end}
use natsmqtt.Packet.Properties.{Properties, no_properties}
use natsmqtt.Packet.Properties.Read.{read_properties}
use natsmqtt.Packet.Model.{Ack, CodeList, Packet}

-- Properties, or none where the body ends before them.
unfoldable pub optional_properties : PacketType → Reader Properties
optional_properties t [] = ok (no_properties, [])
optional_properties t (b ∷ s) = read_properties t (b ∷ s)

-- A Reason Code and Properties, each absent where the body ends before it.
unfoldable pub optional_reason : PacketType → Reader (ℕ × Properties)
optional_reason t [] = ok ((0x00, no_properties), [])
optional_reason t (b ∷ s) =
    (do code ← byte; props ← optional_properties t; return (code, props)) (b ∷ s)

unfoldable pub ack_packet : PacketType → Ack → Packet
ack_packet PacketType.puback a = Packet.puback a
ack_packet PacketType.pubrec a = Packet.pubrec a
ack_packet PacketType.pubrel a = Packet.pubrel a
ack_packet _ a = Packet.pubcomp a

unfoldable pub decode_ack : PacketType → Reader Packet
decode_ack t = do
  id ← uint16
  (code, props) ← optional_reason t
  done ← at_end
  require done malformed
  return (ack_packet t (record { packet_id = id; reason_code = code; properties = some props }))

unfoldable pub decode_disconnect : Reader Packet
decode_disconnect = do
  (code, props) ← optional_reason PacketType.disconnect
  done ← at_end
  require done malformed
  return (Packet.disconnect (record { reason_code = code; properties = some props }))

unfoldable pub decode_auth : Reader Packet
decode_auth = do
  (code, props) ← optional_reason PacketType.auth
  done ← at_end
  require done malformed
  return (Packet.auth (record { reason_code = code; properties = some props }))

-- The loop reads a byte while there is one, so the codes are the bytes that are left.
unfoldable pub read_codes : Reader (List ℕ)
read_codes [] = ok ([], [])
read_codes (b ∷ s) = and_then (read_codes s) (λ codes s'. ok (b ∷ codes, s'))

unfoldable pub decode_reason_code_list : PacketType → Reader CodeList
decode_reason_code_list t = do
  id ← uint16
  props ← read_properties t
  codes ← read_codes
  require (not (is_empty codes)) protocol
  return (record { packet_id = id; properties = some props; reason_codes = codes })

unfoldable pub decode_suback : Reader Packet
decode_suback = do l ← decode_reason_code_list PacketType.suback; return (Packet.suback l)

unfoldable pub decode_unsuback : Reader Packet
decode_unsuback = do l ← decode_reason_code_list PacketType.unsuback; return (Packet.unsuback l)
