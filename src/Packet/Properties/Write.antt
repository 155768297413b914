-- ===== src/Packet/Properties/Write.antt =====
-- `Properties.encode` of packet/properties.go.
use natsmqtt.Prelude.{ℕ, ◌&&◌, Option, none, some}
use natsmqtt.Prelude.{List, [], ◌∷◌, ◌++◌, Bytes, leb, if◌then◌else◌, length}
use natsmqtt.Packet.Types.{PacketType}
use natsmqtt.Packet.Result.{protocol, Result, ok, ◌>>=◌, ◌>>◌, guard}
use natsmqtt.Packet.Writer.{put_uint16, put_uint32, put_var_byte_int, max_var_byte_int, put_binary}
use natsmqtt.Packet.Writer.{put_text, put_string_pair, check_len}
use natsmqtt.Packet.Properties.{PropId, prop_code, allowed_in, UserProperty, Properties}
use natsmqtt.Packet.Properties.{prop_payload_format, prop_message_expiry}
use natsmqtt.Packet.Properties.{prop_content_type, prop_response_topic}
use natsmqtt.Packet.Properties.{prop_correlation_data, prop_subscription_id}
use natsmqtt.Packet.Properties.{prop_session_expiry, prop_assigned_client_id}
use natsmqtt.Packet.Properties.{prop_server_keep_alive, prop_auth_method, prop_auth_data}
use natsmqtt.Packet.Properties.{prop_request_problem_info, prop_will_delay_interval}
use natsmqtt.Packet.Properties.{prop_request_response, prop_response_info}
use natsmqtt.Packet.Properties.{prop_server_reference, prop_reason_string}
use natsmqtt.Packet.Properties.{prop_receive_maximum, prop_topic_alias_maximum}
use natsmqtt.Packet.Properties.{prop_topic_alias, prop_maximum_qos, prop_retain_available}
use natsmqtt.Packet.Properties.{prop_user, prop_maximum_packet_size}
use natsmqtt.Packet.Properties.{prop_wildcard_sub_avail, prop_sub_id_avail}
use natsmqtt.Packet.Properties.{prop_shared_sub_avail}

-- The closure `put`: nothing where the property is not legal in `ctx`.
unfoldable pub put : PropId → PacketType → Bytes → Bytes
put id ctx emitted = if allowed_in id ctx then prop_code id ∷ emitted else []

-- `if p.X != nil { put(…) }` for a scalar that `emit` writes
unfoldable pub put_scalar : (ℕ → Bytes) → PropId → PacketType → Option ℕ → Result Bytes
put_scalar emit id ctx none = ok []
put_scalar emit id ctx (some v) = ok (put id ctx (emit v))

abbrev pub put_byte : ℕ → Bytes
put_byte v = v ∷ []

-- `if p.X != "" { … }`, the length checked before the context
unfoldable pub put_string : (Bytes → Bytes) → PropId → PacketType → Bytes → Result Bytes
put_string emit id ctx [] = ok []
put_string emit id ctx (c ∷ s) = check_len (c ∷ s) >> ok (put id ctx (emit (c ∷ s)))

unfoldable pub put_subscription_ids : PacketType → List ℕ → Result Bytes
put_subscription_ids ctx [] = ok []
put_subscription_ids ctx (v ∷ vs) = do
  guard (leb 1 v && leb v max_var_byte_int) protocol
  rest ← put_subscription_ids ctx vs
  ok (put prop_subscription_id ctx (put_var_byte_int v) ++ rest)

unfoldable pub put_user : PacketType → List UserProperty → Result Bytes
put_user ctx [] = ok []
put_user ctx (u ∷ us) = do
  check_len u.key
  check_len u.value
  rest ← put_user ctx us
  ok (put prop_user ctx (put_string_pair u.key u.value) ++ rest)

-- The statements of the body in turn: the first error ends it.
unfoldable pub in_turn : List (Result Bytes) → Result Bytes
in_turn [] = ok []
in_turn (r ∷ rs) = do a ← r; rest ← in_turn rs; ok (a ++ rest)

unfoldable pub property_pieces : PacketType → Properties → List (Result Bytes)
property_pieces ctx p =
    put_scalar put_byte prop_payload_format ctx p.payload_format
    ∷ put_scalar put_uint32 prop_message_expiry ctx p.message_expiry_interval
    ∷ put_string put_text prop_content_type ctx p.content_type
    ∷ put_string put_text prop_response_topic ctx p.response_topic
    ∷ put_string put_binary prop_correlation_data ctx p.correlation_data
    ∷ put_subscription_ids ctx p.subscription_identifiers
    ∷ put_scalar put_uint32 prop_session_expiry ctx p.session_expiry_interval
    ∷ put_string put_text prop_assigned_client_id ctx p.assigned_client_id
    ∷ put_scalar put_uint16 prop_server_keep_alive ctx p.server_keep_alive
    ∷ put_string put_text prop_auth_method ctx p.authentication_method
    ∷ put_string put_binary prop_auth_data ctx p.authentication_data
    ∷ put_scalar put_byte prop_request_problem_info ctx p.request_problem_info
    ∷ put_scalar put_uint32 prop_will_delay_interval ctx p.will_delay_interval
    ∷ put_scalar put_byte prop_request_response ctx p.request_response_info
    ∷ put_string put_text prop_response_info ctx p.response_information
    ∷ put_string put_text prop_server_reference ctx p.server_reference
    ∷ put_string put_text prop_reason_string ctx p.reason_string
    ∷ put_scalar put_uint16 prop_receive_maximum ctx p.receive_maximum
    ∷ put_scalar put_uint16 prop_topic_alias_maximum ctx p.topic_alias_maximum
    ∷ put_scalar put_uint16 prop_topic_alias ctx p.topic_alias
    ∷ put_scalar put_byte prop_maximum_qos ctx p.maximum_qos
    ∷ put_scalar put_byte prop_retain_available ctx p.retain_available
    ∷ put_user ctx p.user
    ∷ put_scalar put_uint32 prop_maximum_packet_size ctx p.maximum_packet_size
    ∷ put_scalar put_byte prop_wildcard_sub_avail ctx p.wildcard_sub_available
    ∷ put_scalar put_byte prop_sub_id_avail ctx p.sub_id_available
    ∷ put_scalar put_byte prop_shared_sub_avail ctx p.shared_sub_available
    ∷ []

-- `encode`: a nil pointer has no properties.
unfoldable pub encode_properties : Option Properties → PacketType → Result Bytes
encode_properties none ctx = ok (put_var_byte_int 0)
encode_properties (some p) ctx = do
  body ← in_turn (property_pieces ctx p)
  ok (put_var_byte_int (length body) ++ body)
