-- ===== src/Packet/Decode/Publish.antt =====
-- `decodePublish` of packet/publish.go and `decodeConnack` of packet/connack.go.
use natsmqtt.Prelude.{ℕ, ◌/◌, ◌^◌, ◌&&◌, not, Bool, Option, none, some, [], Bytes, bit_and}
use natsmqtt.Prelude.{ltb, ◌==◌, if◌then◌else◌, is_empty}
use natsmqtt.Packet.Types.{PacketType, qos_valid}
use natsmqtt.Packet.Result.{malformed, protocol, ok}
use natsmqtt.Packet.Reader.{Reader, ◌>>=◌, ◌>>◌, return, require, byte, uint16, text}
use natsmqtt.Packet.Reader.{at_end}
use natsmqtt.Packet.Properties.Read.{read_properties}
use natsmqtt.Packet.Model.{Packet}

-- `flags&mask != 0`
abbrev pub has_bit : ℕ → ℕ → Bool
has_bit flags mask = not (bit_and flags mask == 0)

abbrev pub is_some {ℓ} : {A : Type ℓ} → Option A → Bool
is_some none = Bool.false
is_some (some a) = Bool.true

-- What is left in the buffer.
abbrev pub rest_of_body : Reader Bytes
rest_of_body s = ok (s, [])

-- The Packet Identifier, read at QoS 1 and 2 only.
unfoldable pub read_packet_id : ℕ → Reader ℕ
read_packet_id qos s =
    if ltb 0 qos then (do id ← uint16; require (not (id == 0)) protocol; return id) s else ok (0, s)

unfoldable pub decode_publish : ℕ → Reader Packet
decode_publish flags = do
  let qos = bit_and (flags / 2 ^ 1) 0x03
  require (qos_valid qos) malformed
  require (not (qos == 0 && has_bit flags 0x08)) malformed
  topic ← text
  id ← read_packet_id qos
  props ← read_properties PacketType.publish
  require (not (is_empty topic && not (is_some props.topic_alias))) protocol
  payload ← rest_of_body
  return (
      Packet.publish (record {
        dup = has_bit flags 0x08;
        qos = qos;
        retain = has_bit flags 0x01;
        topic = topic;
        packet_id = id;
        properties = some props;
        payload = payload;
      }))

unfoldable pub decode_connack : Reader Packet
decode_connack = do
  ack_flags ← byte
  require (bit_and ack_flags 0xfe == 0) malformed
  code ← byte
  props ← read_properties PacketType.connack
  done ← at_end
  require done malformed
  return (
      Packet.connack (record {
        session_present = has_bit ack_flags 0x01;
        reason_code = code;
        properties = some props;
      }))
