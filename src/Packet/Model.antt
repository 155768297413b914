-- ===== src/Packet/Model.antt =====
-- The fifteen packet structs of the package packet, and the interface `Packet`.
use natsmqtt.Prelude.{ℕ, Bool, Option, List, Bytes}
use natsmqtt.Packet.Types.{PacketType}
use natsmqtt.Packet.Properties.{Properties}

-- packet/connect.go
pub record Will : Type 0 where
  pub topic : Bytes
  pub payload : Bytes
  pub qos : ℕ
  pub retain : Bool
  pub properties : Option Properties

-- An empty `username` is absent; a nil `password` is `none`.
pub record Connect : Type 0 where
  pub client_id : Bytes
  pub clean_start : Bool
  pub keep_alive : ℕ
  pub will : Option Will
  pub username : Bytes
  pub password : Option Bytes
  pub properties : Option Properties
  pub protocol_version : ℕ

-- packet/connack.go
pub record Connack : Type 0 where
  pub session_present : Bool
  pub reason_code : ℕ
  pub properties : Option Properties

-- packet/publish.go
pub record Publish : Type 0 where
  pub dup : Bool
  pub qos : ℕ
  pub retain : Bool
  pub topic : Bytes
  pub packet_id : ℕ
  pub properties : Option Properties
  pub payload : Bytes

-- packet/ack.go
pub record Ack : Type 0 where
  pub packet_id : ℕ
  pub reason_code : ℕ
  pub properties : Option Properties

-- packet/subscribe.go
pub record Subscription : Type 0 where
  pub filter : Bytes
  pub qos : ℕ
  pub no_local : Bool
  pub retain_as_published : Bool
  pub retain_handling : ℕ

pub record Subscribe : Type 0 where
  pub packet_id : ℕ
  pub properties : Option Properties
  pub subscriptions : List Subscription

pub record Unsubscribe : Type 0 where
  pub packet_id : ℕ
  pub properties : Option Properties
  pub filters : List Bytes

-- packet/suback.go: `Suback` and `Unsuback` have the same fields.
pub record CodeList : Type 0 where
  pub packet_id : ℕ
  pub properties : Option Properties
  pub reason_codes : List ℕ

-- packet/control.go: `Disconnect` and `Auth` have the same fields.
pub record Reason : Type 0 where
  pub reason_code : ℕ
  pub properties : Option Properties

pub data Packet : Type 0 where
  connect : Connect → Packet
  connack : Connack → Packet
  publish : Publish → Packet
  puback pubrec pubrel pubcomp : Ack → Packet
  subscribe : Subscribe → Packet
  suback : CodeList → Packet
  unsubscribe : Unsubscribe → Packet
  unsuback : CodeList → Packet
  pingreq pingresp : Packet
  disconnect auth : Reason → Packet

-- The method `Type`.
unfoldable pub packet_type : Packet → PacketType
packet_type (Packet.connect c) = PacketType.connect
packet_type (Packet.connack c) = PacketType.connack
packet_type (Packet.publish p) = PacketType.publish
packet_type (Packet.puback a) = PacketType.puback
packet_type (Packet.pubrec a) = PacketType.pubrec
packet_type (Packet.pubrel a) = PacketType.pubrel
packet_type (Packet.pubcomp a) = PacketType.pubcomp
packet_type (Packet.subscribe s) = PacketType.subscribe
packet_type (Packet.suback s) = PacketType.suback
packet_type (Packet.unsubscribe u) = PacketType.unsubscribe
packet_type (Packet.unsuback u) = PacketType.unsuback
packet_type Packet.pingreq = PacketType.pingreq
packet_type Packet.pingresp = PacketType.pingresp
packet_type (Packet.disconnect d) = PacketType.disconnect
packet_type (Packet.auth a) = PacketType.auth
