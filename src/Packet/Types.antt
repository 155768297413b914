-- ===== src/Packet/Types.antt =====
-- packet/types.go: packet types, their fixed header flags, QoS and Reason Codes.
use natsmqtt.Prelude.{ℕ, Bool, leb}

-- `Type`, with the pseudo type 0 that packet/properties.go uses for the Will Properties.
pub data PacketType : Type 0 where
  will_context connect connack publish puback pubrec pubrel pubcomp : PacketType
  subscribe suback unsubscribe unsuback pingreq pingresp disconnect auth : PacketType

unfoldable pub type_code : PacketType → ℕ
type_code PacketType.will_context = 0
type_code PacketType.connect = 1
type_code PacketType.connack = 2
type_code PacketType.publish = 3
type_code PacketType.puback = 4
type_code PacketType.pubrec = 5
type_code PacketType.pubrel = 6
type_code PacketType.pubcomp = 7
type_code PacketType.subscribe = 8
type_code PacketType.suback = 9
type_code PacketType.unsubscribe = 10
type_code PacketType.unsuback = 11
type_code PacketType.pingreq = 12
type_code PacketType.pingresp = 13
type_code PacketType.disconnect = 14
type_code PacketType.auth = 15

-- The low nibble that every packet but PUBLISH carries.
unfoldable pub reserved_flags : PacketType → ℕ
reserved_flags PacketType.pubrel = 0x02
reserved_flags PacketType.subscribe = 0x02
reserved_flags PacketType.unsubscribe = 0x02
reserved_flags _ = 0

unfoldable pub qos_valid : ℕ → Bool
qos_valid q = leb q 2

-- `ReasonCode.IsError`
unfoldable pub is_error : ℕ → Bool
is_error r = leb 0x80 r
