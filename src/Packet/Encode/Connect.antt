-- ===== src/Packet/Encode/Connect.antt =====
-- `Connect.encode` of packet/connect.go.
use natsmqtt.Prelude.{ℕ, ◌*◌, ◌^◌, not, Bool, true, false, Option, none, some, [], ◌∷◌, ◌++◌, Bytes}
use natsmqtt.Prelude.{codes, bit_or, is_empty}
use natsmqtt.Packet.Types.{PacketType, qos_valid}
use natsmqtt.Packet.Result.{malformed, Result, ok, ◌>>=◌, ◌>>◌, guard}
use natsmqtt.Packet.Writer.{put_uint16, put_text, put_binary, check_len}
use natsmqtt.Packet.Properties.Write.{encode_properties}
use natsmqtt.Packet.Model.{Will, Connect}
use natsmqtt.Packet.Encode.Bodies.{or_if}

unfoldable pub will_flags : Option Will → ℕ → ℕ
will_flags none flags = flags
will_flags (some w) flags = or_if w.retain 0x20 (bit_or flags (bit_or 0x04 (w.qos * 2 ^ 3)))

abbrev pub has_password : Option Bytes → Bool
has_password none = false
has_password (some b) = true

unfoldable pub connect_flags : Connect → ℕ
connect_flags c =
    or_if (has_password c.password) 0x40
      (or_if (not (is_empty c.username)) 0x80 (will_flags c.will (or_if c.clean_start 0x02 0)))

-- `if c.Will != nil && !c.Will.QoS.Valid()`
unfoldable pub check_will : Option Will → Result (Unit {0})
check_will none = ok tt
check_will (some w) = guard (qos_valid w.qos) malformed

unfoldable pub put_will : Option Will → Result Bytes
put_will none = ok []
put_will (some w) = do
  check_len w.topic
  check_len w.payload
  props ← encode_properties w.properties PacketType.will_context
  ok (props ++ (put_text w.topic ++ put_binary w.payload))

unfoldable pub put_username : Bytes → Result Bytes
put_username [] = ok []
put_username (c ∷ s) = do check_len (c ∷ s); ok (put_text (c ∷ s))

unfoldable pub put_password : Option Bytes → Result Bytes
put_password none = ok []
put_password (some b) = do check_len b; ok (put_binary b)

-- From the Keep Alive to the end.
unfoldable pub put_connect_tail : Connect → Result Bytes
put_connect_tail c = do
  props ← encode_properties c.properties PacketType.connect
  will ← put_will c.will
  username ← put_username c.username
  password ← put_password c.password
  ok (
      put_uint16 c.keep_alive
      ++ (props ++ (put_text c.client_id ++ (will ++ (username ++ password)))))

unfoldable pub encode_connect : Connect → Result (ℕ × Bytes)
encode_connect c = do
  check_len c.client_id
  check_will c.will
  tail ← put_connect_tail c
  ok (0, put_text (codes "MQTT") ++ (5 ∷ connect_flags c ∷ tail))
