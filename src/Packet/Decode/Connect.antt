-- ===== src/Packet/Decode/Connect.antt =====
-- `decodeConnect` of packet/connect.go.
use natsmqtt.Prelude.{ℕ, ◌/◌, ◌^◌, ◌&&◌, ◌||◌, not, Bool, Option, none, some, [], ◌∷◌}
use natsmqtt.Prelude.{Bytes, codes, bytes_eq, bit_and, ◌==◌, if◌then◌else◌, is_empty}
use natsmqtt.Packet.Types.{PacketType, qos_valid}
use natsmqtt.Packet.Result.{malformed, protocol, unsupported_version, ok}
use natsmqtt.Packet.Reader.{Reader, ◌>>=◌, ◌>>◌, return, require, byte, uint16, text, binary}
use natsmqtt.Packet.Reader.{at_end}
use natsmqtt.Packet.Properties.Read.{read_properties}
use natsmqtt.Packet.Model.{Will, Packet}
use natsmqtt.Packet.Decode.Publish.{has_bit}

abbrev pub protocol_name : Bytes
protocol_name = codes "MQTT"

abbrev pub protocol_version_5 : ℕ
protocol_version_5 = 5

-- The Will flags say nothing without the Will Flag, and a QoS of 3 never.
unfoldable pub will_flags_ok : ℕ → Bool
will_flags_ok flags =
    let will_qos = bit_and (flags / 2 ^ 3) 0x03 in
    if has_bit flags 0x04 then qos_valid will_qos else will_qos == 0 && not (has_bit flags 0x20)

unfoldable pub read_will : ℕ → Reader (Option Will)
read_will flags s =
    if has_bit flags 0x04
    then (do
      props ← read_properties PacketType.will_context
      topic ← text
      payload ← binary
      return (
          some (record {
            topic = topic;
            payload = payload;
            qos = bit_and (flags / 2 ^ 3) 0x03;
            retain = has_bit flags 0x20;
            properties = some props;
          })))
        s
    else ok (none, s)

unfoldable pub read_username : ℕ → Reader Bytes
read_username flags s = if has_bit flags 0x80 then text s else ok ([], s)

-- `append([]byte(nil), b...)`: a copy of no bytes is nil.
unfoldable pub clone : Bytes → Option Bytes
clone [] = none
clone (b ∷ s) = some (b ∷ s)

unfoldable pub read_password : ℕ → Reader (Option Bytes)
read_password flags s =
    if has_bit flags 0x40 then (do password ← binary; return (clone password)) s else ok (none, s)

-- From the Keep Alive to the end.
unfoldable pub connect_tail : ℕ → ℕ → Reader Packet
connect_tail version flags = do
  keep_alive ← uint16
  props ← read_properties PacketType.connect
  require (is_empty props.authentication_data || not (is_empty props.authentication_method))
      protocol
  client_id ← text
  will ← read_will flags
  username ← read_username flags
  password ← read_password flags
  done ← at_end
  require done malformed
  return (
      Packet.connect (record {
        client_id = client_id;
        clean_start = has_bit flags 0x02;
        keep_alive = keep_alive;
        will = will;
        username = username;
        password = password;
        properties = some props;
        protocol_version = version;
      }))

unfoldable pub decode_connect : Reader Packet
decode_connect = do
  name ← text
  require (bytes_eq name protocol_name) malformed
  version ← byte
  require (version == protocol_version_5) (unsupported_version version)
  flags ← byte
  require (bit_and flags 0x01 == 0) malformed
  require (will_flags_ok flags) malformed
  connect_tail version flags
