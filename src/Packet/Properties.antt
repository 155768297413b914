-- ===== src/Packet/Properties.antt =====
-- The property table and the struct `Properties` of packet/properties.go.
pub mod Read
pub mod Write
use natsmqtt.Prelude.{ℕ, ◌||◌, Bool, true, false, Option, none, some, List, [], ◌∷◌, Bytes, ◌==◌}
use natsmqtt.Prelude.{if◌then◌else◌}
use natsmqtt.Packet.Types.{PacketType, type_code, will_context, connect, connack, publish, puback}
use natsmqtt.Packet.Types.{pubrec, pubrel, pubcomp, subscribe, suback, unsubscribe, unsuback}
use natsmqtt.Packet.Types.{disconnect, auth}

-- `propID`
pub data PropId : Type 0 where
  prop_payload_format prop_message_expiry prop_content_type prop_response_topic : PropId
  prop_correlation_data prop_subscription_id prop_session_expiry prop_assigned_client_id : PropId
  prop_server_keep_alive prop_auth_method prop_auth_data prop_request_problem_info : PropId
  prop_will_delay_interval prop_request_response prop_response_info prop_server_reference : PropId
  prop_reason_string prop_receive_maximum prop_topic_alias_maximum prop_topic_alias : PropId
  prop_maximum_qos prop_retain_available prop_user prop_maximum_packet_size : PropId
  prop_wildcard_sub_avail prop_sub_id_avail prop_shared_sub_avail : PropId

unfoldable pub prop_code : PropId → ℕ
prop_code prop_payload_format = 0x01
prop_code prop_message_expiry = 0x02
prop_code prop_content_type = 0x03
prop_code prop_response_topic = 0x08
prop_code prop_correlation_data = 0x09
prop_code prop_subscription_id = 0x0b
prop_code prop_session_expiry = 0x11
prop_code prop_assigned_client_id = 0x12
prop_code prop_server_keep_alive = 0x13
prop_code prop_auth_method = 0x15
prop_code prop_auth_data = 0x16
prop_code prop_request_problem_info = 0x17
prop_code prop_will_delay_interval = 0x18
prop_code prop_request_response = 0x19
prop_code prop_response_info = 0x1a
prop_code prop_server_reference = 0x1c
prop_code prop_reason_string = 0x1f
prop_code prop_receive_maximum = 0x21
prop_code prop_topic_alias_maximum = 0x22
prop_code prop_topic_alias = 0x23
prop_code prop_maximum_qos = 0x24
prop_code prop_retain_available = 0x25
prop_code prop_user = 0x26
prop_code prop_maximum_packet_size = 0x27
prop_code prop_wildcard_sub_avail = 0x28
prop_code prop_sub_id_avail = 0x29
prop_code prop_shared_sub_avail = 0x2a

pub all_props : List PropId
all_props =
    prop_payload_format ∷ prop_message_expiry ∷ prop_content_type ∷ prop_response_topic
    ∷ prop_correlation_data ∷ prop_subscription_id ∷ prop_session_expiry ∷ prop_assigned_client_id
    ∷ prop_server_keep_alive ∷ prop_auth_method ∷ prop_auth_data ∷ prop_request_problem_info
    ∷ prop_will_delay_interval ∷ prop_request_response ∷ prop_response_info ∷ prop_server_reference
    ∷ prop_reason_string ∷ prop_receive_maximum ∷ prop_topic_alias_maximum ∷ prop_topic_alias
    ∷ prop_maximum_qos ∷ prop_retain_available ∷ prop_user ∷ prop_maximum_packet_size
    ∷ prop_wildcard_sub_avail ∷ prop_sub_id_avail ∷ prop_shared_sub_avail ∷ []

find_prop : ℕ → List PropId → Option PropId
find_prop raw [] = none
find_prop raw (id ∷ ids) = if prop_code id == raw then some id else find_prop raw ids

-- The identifier that a number on the wire stands for. Any other number is in no context.
unfoldable pub prop_of_code : ℕ → Option PropId
unfolding find_prop all_props prop_code
prop_of_code raw = find_prop raw all_props

-- `propContexts`
unfoldable pub prop_contexts : PropId → List PacketType
prop_contexts prop_payload_format = publish ∷ will_context ∷ []
prop_contexts prop_message_expiry = publish ∷ will_context ∷ []
prop_contexts prop_content_type = publish ∷ will_context ∷ []
prop_contexts prop_response_topic = publish ∷ will_context ∷ []
prop_contexts prop_correlation_data = publish ∷ will_context ∷ []
prop_contexts prop_subscription_id = publish ∷ subscribe ∷ []
prop_contexts prop_session_expiry = connect ∷ connack ∷ disconnect ∷ []
prop_contexts prop_assigned_client_id = connack ∷ []
prop_contexts prop_server_keep_alive = connack ∷ []
prop_contexts prop_auth_method = connect ∷ connack ∷ auth ∷ []
prop_contexts prop_auth_data = connect ∷ connack ∷ auth ∷ []
prop_contexts prop_request_problem_info = connect ∷ []
prop_contexts prop_will_delay_interval = will_context ∷ []
prop_contexts prop_request_response = connect ∷ []
prop_contexts prop_response_info = connack ∷ []
prop_contexts prop_server_reference = connack ∷ disconnect ∷ []
prop_contexts prop_reason_string =
    connack ∷ puback ∷ pubrec ∷ pubrel ∷ pubcomp ∷ suback ∷ unsuback ∷ disconnect ∷ auth ∷ []
prop_contexts prop_receive_maximum = connect ∷ connack ∷ []
prop_contexts prop_topic_alias_maximum = connect ∷ connack ∷ []
prop_contexts prop_topic_alias = publish ∷ []
prop_contexts prop_maximum_qos = connack ∷ []
prop_contexts prop_retain_available = connack ∷ []
prop_contexts prop_user =
    connect ∷ connack ∷ publish ∷ will_context ∷ puback ∷ pubrec ∷ pubrel ∷ pubcomp ∷ subscribe
    ∷ suback ∷ unsubscribe ∷ unsuback ∷ disconnect ∷ auth ∷ []
prop_contexts prop_maximum_packet_size = connect ∷ connack ∷ []
prop_contexts prop_wildcard_sub_avail = connack ∷ []
prop_contexts prop_sub_id_avail = connack ∷ []
prop_contexts prop_shared_sub_avail = connack ∷ []

unfoldable pub any_is : PacketType → List PacketType → Bool
any_is t [] = false
any_is t (c ∷ cs) = type_code c == type_code t || any_is t cs

-- `propID.allowedIn`
unfoldable pub allowed_in : PropId → PacketType → Bool
unfolding any_is prop_contexts type_code
allowed_in id t = any_is t (prop_contexts id)

-- A value, such as a name and its value, of a User Property.
pub record UserProperty : Type 0 where
  pub key : Bytes
  pub value : Bytes

-- An optional scalar, a pointer in the source, is an `Option`; an optional string or byte slice is
-- empty when absent.
pub record Properties : Type 0 where
  pub payload_format : Option ℕ
  pub message_expiry_interval : Option ℕ
  pub content_type : Bytes
  pub response_topic : Bytes
  pub correlation_data : Bytes
  pub subscription_identifiers : List ℕ
  pub session_expiry_interval : Option ℕ
  pub assigned_client_id : Bytes
  pub server_keep_alive : Option ℕ
  pub authentication_method : Bytes
  pub authentication_data : Bytes
  pub request_problem_info : Option ℕ
  pub will_delay_interval : Option ℕ
  pub request_response_info : Option ℕ
  pub response_information : Bytes
  pub server_reference : Bytes
  pub reason_string : Bytes
  pub receive_maximum : Option ℕ
  pub topic_alias_maximum : Option ℕ
  pub topic_alias : Option ℕ
  pub maximum_qos : Option ℕ
  pub retain_available : Option ℕ
  pub user : List UserProperty
  pub maximum_packet_size : Option ℕ
  pub wildcard_sub_available : Option ℕ
  pub sub_id_available : Option ℕ
  pub shared_sub_available : Option ℕ

-- `&Properties{}`
abbrev pub no_properties : Properties
no_properties = record {
  payload_format = none;
  message_expiry_interval = none;
  content_type = [];
  response_topic = [];
  correlation_data = [];
  subscription_identifiers = [];
  session_expiry_interval = none;
  assigned_client_id = [];
  server_keep_alive = none;
  authentication_method = [];
  authentication_data = [];
  request_problem_info = none;
  will_delay_interval = none;
  request_response_info = none;
  response_information = [];
  server_reference = [];
  reason_string = [];
  receive_maximum = none;
  topic_alias_maximum = none;
  topic_alias = none;
  maximum_qos = none;
  retain_available = none;
  user = [];
  maximum_packet_size = none;
  wildcard_sub_available = none;
  sub_id_available = none;
  shared_sub_available = none;
}
