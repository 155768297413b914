-- ===== src/Packet/Properties/Read.antt =====
-- `readProperties` and `readProperty` of packet/properties.go.
use natsmqtt.Prelude.{ℕ, zero, suc, ◌||◌, ◌&&◌, not, Bool, true, false, Option, none, some}
use natsmqtt.Prelude.{List, [], ◌∷◌, ◌++◌, Bytes, ltb, leb, ◌==◌, if◌then◌else◌, length, take, drop}
use natsmqtt.Packet.Types.{PacketType, type_code}
use natsmqtt.Packet.Result.{malformed, protocol, out_of_fuel, Result, ok, err}
use natsmqtt.Packet.Reader.{Reader, ◌>>=◌, ◌>>◌, return, lift, require, byte, uint16, uint32}
use natsmqtt.Packet.Reader.{var_byte_int, binary, text, string_pair}
use natsmqtt.Packet.Properties.{PropId, prop_code, prop_of_code, allowed_in, Properties}
use natsmqtt.Packet.Properties.{no_properties}
use natsmqtt.Packet.Properties.{prop_payload_format, prop_message_expiry}
use natsmqtt.Packet.Properties.{prop_content_type, prop_response_topic}
use natsmqtt.Packet.Properties.{prop_correlation_data, prop_subscription_id}
use natsmqtt.Packet.Properties.{prop_session_expiry, prop_assigned_client_id}
use natsmqtt.Packet.Properties.{prop_server_keep_alive, prop_auth_method, prop_auth_data}
use natsmqtt.Packet.Properties.{prop_request_problem_info, prop_will_delay_interval}
use natsmqtt.Packet.Properties.{prop_request_response, prop_response_info}
use natsmqtt.Packet.Properties.{prop_server_reference, prop_reason_string}
use natsmqtt.Packet.Properties.{prop_receive_maximum, prop_topic_alias_maximum}
use natsmqtt.Packet.Properties.{prop_topic_alias, prop_maximum_qos, prop_retain_available}
use natsmqtt.Packet.Properties.{prop_user, prop_maximum_packet_size}
use natsmqtt.Packet.Properties.{prop_wildcard_sub_avail, prop_sub_id_avail}
use natsmqtt.Packet.Properties.{prop_shared_sub_avail}

-- An unknown identifier has no context, so it is refused as one out of place is.
abbrev pub known : Option PropId → Reader PropId
known none s = err malformed
known (some id) s = ok (id, s)

-- `readProperty`: one case of the switch to a clause.
unfoldable pub read_property : PropId → Properties → Reader Properties
read_property prop_payload_format p = do
  v ← byte
  require (leb v 1) protocol
  return (record p { payload_format = some v })
read_property prop_message_expiry p = do
  v ← uint32
  return (record p { message_expiry_interval = some v })
read_property prop_content_type p = do v ← text; return (record p { content_type = v })
read_property prop_response_topic p = do v ← text; return (record p { response_topic = v })
read_property prop_correlation_data p = do v ← binary; return (record p { correlation_data = v })
read_property prop_subscription_id p = do
  v ← var_byte_int
  require (not (v == 0)) protocol
  return (record p { subscription_identifiers = p.subscription_identifiers ++ (v ∷ []) })
read_property prop_session_expiry p = do
  v ← uint32
  return (record p { session_expiry_interval = some v })
read_property prop_assigned_client_id p = do v ← text; return (record p { assigned_client_id = v })
read_property prop_server_keep_alive p = do
  v ← uint16
  return (record p { server_keep_alive = some v })
read_property prop_auth_method p = do v ← text; return (record p { authentication_method = v })
read_property prop_auth_data p = do v ← binary; return (record p { authentication_data = v })
read_property prop_request_problem_info p = do
  v ← byte
  require (leb v 1) protocol
  return (record p { request_problem_info = some v })
read_property prop_will_delay_interval p = do
  v ← uint32
  return (record p { will_delay_interval = some v })
read_property prop_request_response p = do
  v ← byte
  require (leb v 1) protocol
  return (record p { request_response_info = some v })
read_property prop_response_info p = do v ← text; return (record p { response_information = v })
read_property prop_server_reference p = do v ← text; return (record p { server_reference = v })
read_property prop_reason_string p = do v ← text; return (record p { reason_string = v })
read_property prop_receive_maximum p = do
  v ← uint16
  require (not (v == 0)) protocol
  return (record p { receive_maximum = some v })
read_property prop_topic_alias_maximum p = do
  v ← uint16
  return (record p { topic_alias_maximum = some v })
read_property prop_topic_alias p = do
  v ← uint16
  require (not (v == 0)) protocol
  return (record p { topic_alias = some v })
read_property prop_maximum_qos p = do
  v ← byte
  require (leb v 1) protocol
  return (record p { maximum_qos = some v })
read_property prop_retain_available p = do
  v ← byte
  require (leb v 1) protocol
  return (record p { retain_available = some v })
read_property prop_user p = do
  (k, v) ← string_pair
  return (record p { user = p.user ++ ((record { key = k; value = v }) ∷ []) })
read_property prop_maximum_packet_size p = do
  v ← uint32
  require (not (v == 0)) protocol
  return (record p { maximum_packet_size = some v })
read_property prop_wildcard_sub_avail p = do
  v ← byte
  require (leb v 1) protocol
  return (record p { wildcard_sub_available = some v })
read_property prop_sub_id_avail p = do
  v ← byte
  require (leb v 1) protocol
  return (record p { sub_id_available = some v })
read_property prop_shared_sub_avail p = do
  v ← byte
  require (leb v 1) protocol
  return (record p { shared_sub_available = some v })

-- The keys of the map `seen`.
unfoldable pub seen_has : List PropId → PropId → Bool
seen_has [] id = false
seen_has (j ∷ js) id = prop_code j == prop_code id || seen_has js id

-- User Property and, in a PUBLISH, Subscription Identifier.
unfoldable pub repeatable : PropId → PacketType → Bool
repeatable prop_user ctx = true
repeatable prop_subscription_id ctx = type_code ctx == type_code PacketType.publish
repeatable _ ctx = false

-- One round of the loop: the properties read so far and the keys of `seen`, after one more property.
unfoldable pub property_round :
    PacketType → List PropId → Properties → Reader (List PropId × Properties)
property_round ctx seen p = do
  raw ← var_byte_int
  id ← known (prop_of_code raw)
  require (allowed_in id ctx) malformed
  require (not (seen_has seen id && not (repeatable id ctx))) protocol
  p' ← read_property id p
  return (id ∷ seen, p')

-- The loop over the properties, on fuel: each round takes a byte at least.
unfoldable pub properties_loop :
    ℕ → PacketType → List PropId → Properties → Bytes → Result Properties
properties_loop fuel ctx seen p [] = ok p
properties_loop zero ctx seen p (b ∷ s) = err out_of_fuel
properties_loop (suc fuel) ctx seen p (b ∷ s) = elim (property_round ctx seen p (b ∷ s)) [
  | err e ↦ err e
  | ok ((seen', p'), s') ↦ properties_loop fuel ctx seen' p' s'
]

-- The bytes of the Property Length make a reader of their own, which the loop empties.
unfoldable pub properties_of : PacketType → Bytes → Result Properties
properties_of ctx s = properties_loop (length s) ctx [] no_properties s

abbrev pub sub_reader : ℕ → PacketType → Reader Properties
sub_reader n ctx s =
    if ltb (length s) n
    then err malformed
    else if n == 0
    then ok (no_properties, s)
    else lift (properties_of ctx (take n s)) (drop n s)

unfoldable pub read_properties : PacketType → Reader Properties
read_properties ctx = do n ← var_byte_int; sub_reader n ctx
