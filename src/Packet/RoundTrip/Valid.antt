-- ===== src/Packet/RoundTrip/Valid.antt =====
-- What of a `Properties` value a packet of one type carries, and which values can be carried.
use natsmqtt.Prelude.{ℕ, ◌≡◌, ◌≤◌, ◌<◌, ◌^◌, ◌≢◌, ◌⊎◌, true, [], length, All, Bytes}
use natsmqtt.Packet.Types.{PacketType}
use natsmqtt.Packet.Result.{ok}
use natsmqtt.Packet.Utf8.{validate_utf8}
use natsmqtt.Packet.Properties.{Properties, no_properties}
use natsmqtt.Packet.Properties.{prop_payload_format, prop_message_expiry, prop_content_type}
use natsmqtt.Packet.Properties.{prop_response_topic, prop_correlation_data, prop_subscription_id}
use natsmqtt.Packet.Properties.{prop_session_expiry, prop_assigned_client_id}
use natsmqtt.Packet.Properties.{prop_server_keep_alive, prop_auth_method, prop_auth_data}
use natsmqtt.Packet.Properties.{prop_request_problem_info, prop_will_delay_interval}
use natsmqtt.Packet.Properties.{prop_request_response, prop_response_info, prop_server_reference}
use natsmqtt.Packet.Properties.{prop_reason_string, prop_receive_maximum}
use natsmqtt.Packet.Properties.{prop_topic_alias_maximum, prop_topic_alias, prop_maximum_qos}
use natsmqtt.Packet.Properties.{prop_retain_available, prop_user, prop_maximum_packet_size}
use natsmqtt.Packet.Properties.{prop_wildcard_sub_avail, prop_sub_id_avail, prop_shared_sub_avail}
use natsmqtt.Packet.Properties.Read.{repeatable}
use natsmqtt.Packet.RoundTrip.Loop.{Given, keep, keep_list}
use natsmqtt.Packet.RoundTrip.Repeats.{IsUserProperty}

abbrev pub IsFlag : ℕ → Type 0
IsFlag v = v ≤ 1

abbrev pub IsUint16 : ℕ → Type 0
IsUint16 v = v < 2 ^ 16

abbrev pub IsPositiveUint16 : ℕ → Type 0
IsPositiveUint16 v = (1 ≤ v) × (v < 2 ^ 16)

abbrev pub IsUint32 : ℕ → Type 0
IsUint32 v = v < 2 ^ 32

abbrev pub IsPositiveUint32 : ℕ → Type 0
IsPositiveUint32 v = (1 ≤ v) × (v < 2 ^ 32)

-- A string that is absent or passes `validateUTF8`.
abbrev pub IsText : Bytes → Type 0
IsText s = s ≢ [] → validate_utf8 s ≡ ok tt

-- What a reader asks of each property. Lengths are the encoder's to check.
pub record IsValid (ctx : PacketType) (p : Properties) : Type 0 where
  pub payload_format : Given IsFlag p.payload_format
  pub message_expiry_interval : Given IsUint32 p.message_expiry_interval
  pub content_type : IsText p.content_type
  pub response_topic : IsText p.response_topic
  pub subscription_identifiers :
      (repeatable prop_subscription_id ctx ≡ true) ⊎ (length p.subscription_identifiers ≤ 1)
  pub session_expiry_interval : Given IsUint32 p.session_expiry_interval
  pub assigned_client_id : IsText p.assigned_client_id
  pub server_keep_alive : Given IsUint16 p.server_keep_alive
  pub authentication_method : IsText p.authentication_method
  pub request_problem_info : Given IsFlag p.request_problem_info
  pub will_delay_interval : Given IsUint32 p.will_delay_interval
  pub request_response_info : Given IsFlag p.request_response_info
  pub response_information : IsText p.response_information
  pub server_reference : IsText p.server_reference
  pub reason_string : IsText p.reason_string
  pub receive_maximum : Given IsPositiveUint16 p.receive_maximum
  pub topic_alias_maximum : Given IsUint16 p.topic_alias_maximum
  pub topic_alias : Given IsPositiveUint16 p.topic_alias
  pub maximum_qos : Given IsFlag p.maximum_qos
  pub retain_available : Given IsFlag p.retain_available
  pub user : All IsUserProperty p.user
  pub maximum_packet_size : Given IsPositiveUint32 p.maximum_packet_size
  pub wildcard_sub_available : Given IsFlag p.wildcard_sub_available
  pub sub_id_available : Given IsFlag p.sub_id_available
  pub shared_sub_available : Given IsFlag p.shared_sub_available

-- The properties that may stand in a packet of type `ctx`; the others are dropped.
unfoldable pub restrict : PacketType → Properties → Properties
restrict ctx p = record {
  payload_format = keep prop_payload_format ctx p.payload_format;
  message_expiry_interval = keep prop_message_expiry ctx p.message_expiry_interval;
  content_type = keep_list prop_content_type ctx p.content_type;
  response_topic = keep_list prop_response_topic ctx p.response_topic;
  correlation_data = keep_list prop_correlation_data ctx p.correlation_data;
  subscription_identifiers = keep_list prop_subscription_id ctx p.subscription_identifiers;
  session_expiry_interval = keep prop_session_expiry ctx p.session_expiry_interval;
  assigned_client_id = keep_list prop_assigned_client_id ctx p.assigned_client_id;
  server_keep_alive = keep prop_server_keep_alive ctx p.server_keep_alive;
  authentication_method = keep_list prop_auth_method ctx p.authentication_method;
  authentication_data = keep_list prop_auth_data ctx p.authentication_data;
  request_problem_info = keep prop_request_problem_info ctx p.request_problem_info;
  will_delay_interval = keep prop_will_delay_interval ctx p.will_delay_interval;
  request_response_info = keep prop_request_response ctx p.request_response_info;
  response_information = keep_list prop_response_info ctx p.response_information;
  server_reference = keep_list prop_server_reference ctx p.server_reference;
  reason_string = keep_list prop_reason_string ctx p.reason_string;
  receive_maximum = keep prop_receive_maximum ctx p.receive_maximum;
  topic_alias_maximum = keep prop_topic_alias_maximum ctx p.topic_alias_maximum;
  topic_alias = keep prop_topic_alias ctx p.topic_alias;
  maximum_qos = keep prop_maximum_qos ctx p.maximum_qos;
  retain_available = keep prop_retain_available ctx p.retain_available;
  user = keep_list prop_user ctx p.user;
  maximum_packet_size = keep prop_maximum_packet_size ctx p.maximum_packet_size;
  wildcard_sub_available = keep prop_wildcard_sub_avail ctx p.wildcard_sub_available;
  sub_id_available = keep prop_sub_id_avail ctx p.sub_id_available;
  shared_sub_available = keep prop_shared_sub_avail ctx p.shared_sub_available;
}

-- `stage_k` is what has been read after the first k properties.
abbrev pub stage_1 : PacketType → Properties → Properties
stage_1 ctx p = record no_properties {
  payload_format = keep prop_payload_format ctx p.payload_format;
}

abbrev pub stage_2 : PacketType → Properties → Properties
stage_2 ctx p = record (stage_1 ctx p) {
  message_expiry_interval = keep prop_message_expiry ctx p.message_expiry_interval;
}

abbrev pub stage_3 : PacketType → Properties → Properties
stage_3 ctx p = record (stage_2 ctx p) {
  content_type = keep_list prop_content_type ctx p.content_type;
}

abbrev pub stage_4 : PacketType → Properties → Properties
stage_4 ctx p = record (stage_3 ctx p) {
  response_topic = keep_list prop_response_topic ctx p.response_topic;
}

abbrev pub stage_5 : PacketType → Properties → Properties
stage_5 ctx p = record (stage_4 ctx p) {
  correlation_data = keep_list prop_correlation_data ctx p.correlation_data;
}

abbrev pub stage_6 : PacketType → Properties → Properties
stage_6 ctx p = record (stage_5 ctx p) {
  subscription_identifiers = keep_list prop_subscription_id ctx p.subscription_identifiers;
}

abbrev pub stage_7 : PacketType → Properties → Properties
stage_7 ctx p = record (stage_6 ctx p) {
  session_expiry_interval = keep prop_session_expiry ctx p.session_expiry_interval;
}

abbrev pub stage_8 : PacketType → Properties → Properties
stage_8 ctx p = record (stage_7 ctx p) {
  assigned_client_id = keep_list prop_assigned_client_id ctx p.assigned_client_id;
}

abbrev pub stage_9 : PacketType → Properties → Properties
stage_9 ctx p = record (stage_8 ctx p) {
  server_keep_alive = keep prop_server_keep_alive ctx p.server_keep_alive;
}

abbrev pub stage_10 : PacketType → Properties → Properties
stage_10 ctx p = record (stage_9 ctx p) {
  authentication_method = keep_list prop_auth_method ctx p.authentication_method;
}

abbrev pub stage_11 : PacketType → Properties → Properties
stage_11 ctx p = record (stage_10 ctx p) {
  authentication_data = keep_list prop_auth_data ctx p.authentication_data;
}

abbrev pub stage_12 : PacketType → Properties → Properties
stage_12 ctx p = record (stage_11 ctx p) {
  request_problem_info = keep prop_request_problem_info ctx p.request_problem_info;
}

abbrev pub stage_13 : PacketType → Properties → Properties
stage_13 ctx p = record (stage_12 ctx p) {
  will_delay_interval = keep prop_will_delay_interval ctx p.will_delay_interval;
}

abbrev pub stage_14 : PacketType → Properties → Properties
stage_14 ctx p = record (stage_13 ctx p) {
  request_response_info = keep prop_request_response ctx p.request_response_info;
}

abbrev pub stage_15 : PacketType → Properties → Properties
stage_15 ctx p = record (stage_14 ctx p) {
  response_information = keep_list prop_response_info ctx p.response_information;
}

abbrev pub stage_16 : PacketType → Properties → Properties
stage_16 ctx p = record (stage_15 ctx p) {
  server_reference = keep_list prop_server_reference ctx p.server_reference;
}

abbrev pub stage_17 : PacketType → Properties → Properties
stage_17 ctx p = record (stage_16 ctx p) {
  reason_string = keep_list prop_reason_string ctx p.reason_string;
}

abbrev pub stage_18 : PacketType → Properties → Properties
stage_18 ctx p = record (stage_17 ctx p) {
  receive_maximum = keep prop_receive_maximum ctx p.receive_maximum;
}

abbrev pub stage_19 : PacketType → Properties → Properties
stage_19 ctx p = record (stage_18 ctx p) {
  topic_alias_maximum = keep prop_topic_alias_maximum ctx p.topic_alias_maximum;
}

abbrev pub stage_20 : PacketType → Properties → Properties
stage_20 ctx p = record (stage_19 ctx p) { topic_alias = keep prop_topic_alias ctx p.topic_alias }

abbrev pub stage_21 : PacketType → Properties → Properties
stage_21 ctx p = record (stage_20 ctx p) { maximum_qos = keep prop_maximum_qos ctx p.maximum_qos }

abbrev pub stage_22 : PacketType → Properties → Properties
stage_22 ctx p = record (stage_21 ctx p) {
  retain_available = keep prop_retain_available ctx p.retain_available;
}

abbrev pub stage_23 : PacketType → Properties → Properties
stage_23 ctx p = record (stage_22 ctx p) { user = keep_list prop_user ctx p.user }

abbrev pub stage_24 : PacketType → Properties → Properties
stage_24 ctx p = record (stage_23 ctx p) {
  maximum_packet_size = keep prop_maximum_packet_size ctx p.maximum_packet_size;
}

abbrev pub stage_25 : PacketType → Properties → Properties
stage_25 ctx p = record (stage_24 ctx p) {
  wildcard_sub_available = keep prop_wildcard_sub_avail ctx p.wildcard_sub_available;
}

abbrev pub stage_26 : PacketType → Properties → Properties
stage_26 ctx p = record (stage_25 ctx p) {
  sub_id_available = keep prop_sub_id_avail ctx p.sub_id_available;
}

abbrev pub stage_27 : PacketType → Properties → Properties
stage_27 ctx p = record (stage_26 ctx p) {
  shared_sub_available = keep prop_shared_sub_avail ctx p.shared_sub_available;
}
