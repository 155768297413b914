-- ===== src/Packet/Tests.antt =====
-- Packets on the wire, and the theorems of the package at concrete packets.
use natsmqtt.Prelude.{◌≡◌, refl, inr, ◌++◌, true, false, some, [], ◌∷◌, Bytes, arith, codes}
use natsmqtt.Packet.Types.{PacketType, type_code, qos_valid}
use natsmqtt.Packet.Result.{ok, err, packet_too_large}
use natsmqtt.Packet.Utf8.{lead, runes_from, runes, check_runes, validate_utf8}
use natsmqtt.Packet.Writer.{
  put_uint16, put_uint32, put_var_byte_int_loop, put_var_byte_int, put_binary, put_text, check_len,
}
use natsmqtt.Packet.Reader.{var_byte_int}
use natsmqtt.Packet.Properties.{
  prop_code, allowed_in, any_is, prop_contexts, Properties, no_properties,
}
use natsmqtt.Packet.Properties.Read.{read_properties}
use natsmqtt.Packet.Properties.Write.{
  put, put_scalar, put_string, put_subscription_ids, put_user, in_turn, property_pieces,
  encode_properties,
}
use natsmqtt.Packet.Model.{Packet, Publish, packet_type}
use natsmqtt.Packet.Decode.Wire.{read}
use natsmqtt.Packet.Encode.{publish_flags, put_packet_id, encode_publish}
use natsmqtt.Packet.Encode.Wire.{encode_packet, frame, encode, encoded_len}
use natsmqtt.Packet.RoundTrip.Valid.{IsValid}
use natsmqtt.Packet.RoundTrip.Properties.{read_back, read_properties-encode_properties}
use natsmqtt.Packet.RoundTrip.Publish.{IsValidPublish}
use natsmqtt.Packet.RoundTrip.Primitives.{var_byte_int-put_var_byte_int}
use natsmqtt.Packet.RoundTrip.Wire.{read_back_packet, read-encode}
use natsmqtt.Prelude.{take}
use natsmqtt.Packet.Result.{unexpected_eof}
use natsmqtt.Packet.RoundTrip.Truncated.{read-take}
use natsmqtt.Packet.RoundTrip.Size.{encoded_len-encode, read-packet_too_large}
use natsmqtt.Packet.Progress.Wire.{Framed, read-Framed}

abbrev sample_properties : Properties
sample_properties = record no_properties { message_expiry_interval = some 60 }

abbrev sample_publish : Publish
sample_publish = record {
  dup = true;
  qos = 1;
  retain = false;
  topic = codes "a";
  packet_id = 7;
  properties = some sample_properties;
  payload = 1 ∷ 2 ∷ [];
}

abbrev sample : Packet
sample = Packet.publish sample_publish

abbrev sample_property_bytes : Bytes
sample_property_bytes = 0x05 ∷ 0x02 ∷ 0x00 ∷ 0x00 ∷ 0x00 ∷ 0x3c ∷ []

abbrev sample_bytes : Bytes
sample_bytes =
    0x3a ∷ 0x0d ∷ 0x00 ∷ 0x01 ∷ 0x61 ∷ 0x00 ∷ 0x07 ∷ (sample_property_bytes ++ (0x01 ∷ 0x02 ∷ []))

encode_properties_sample :
    encode_properties (some sample_properties) PacketType.publish ≡ ok sample_property_bytes
unfolding encode_properties property_pieces in_turn put_scalar put_string put_subscription_ids
    put_user put prop_code allowed_in any_is prop_contexts type_code put_uint32 put_var_byte_int
    put_var_byte_int_loop
encode_properties_sample = refl

encode_publish_sample :
    encode_packet sample
    ≡ ok (0x0a, 0x00 ∷ 0x01 ∷ 0x61 ∷ 0x00 ∷ 0x07 ∷ (sample_property_bytes ++ (0x01 ∷ 0x02 ∷ [])))
unfolding encode_packet encode_publish qos_valid check_len publish_flags put_text put_binary
    put_uint16 put_packet_id
encode_publish_sample = rw encode_properties_sample refl

encode-sample : encode sample ≡ ok sample_bytes
unfolding encode frame packet_type type_code put_var_byte_int put_var_byte_int_loop
encode-sample = rw encode_publish_sample refl

sample_properties-IsValid : IsValid PacketType.publish sample_properties
sample_properties-IsValid = record {
  payload_format = tt;
  message_expiry_interval = omega arith;
  content_type = λ h. absurd (h refl);
  response_topic = λ h. absurd (h refl);
  subscription_identifiers = inr (omega arith);
  session_expiry_interval = tt;
  assigned_client_id = λ h. absurd (h refl);
  server_keep_alive = tt;
  authentication_method = λ h. absurd (h refl);
  request_problem_info = tt;
  will_delay_interval = tt;
  request_response_info = tt;
  response_information = λ h. absurd (h refl);
  server_reference = λ h. absurd (h refl);
  reason_string = λ h. absurd (h refl);
  receive_maximum = tt;
  topic_alias_maximum = tt;
  topic_alias = tt;
  maximum_qos = tt;
  retain_available = tt;
  user = tt;
  maximum_packet_size = tt;
  wildcard_sub_available = tt;
  sub_id_available = tt;
  shared_sub_available = tt;
}

sample-IsValid : IsValidPublish sample_publish
unfolding validate_utf8 check_runes runes runes_from lead
sample-IsValid = record {
  topic = refl;
  packet_id = λ _. (omega arith, omega arith);
  properties = sample_properties-IsValid;
  named = refl;
}

read-encode_example :
    read 64 (sample_bytes ++ (0xc0 ∷ 0x00 ∷ [])) ≡ ok (read_back_packet sample, 0xc0 ∷ 0x00 ∷ [])
read-encode_example =
    read-encode sample sample_bytes (0xc0 ∷ 0x00 ∷ []) 64 sample-IsValid encode-sample
      (inr (omega arith))

read-Framed_example : Framed 64 (0x30 ∷ 0xff ∷ 0x7f ∷ []) (read 64 (0x30 ∷ 0xff ∷ 0x7f ∷ []))
read-Framed_example = read-Framed 64 (0x30 ∷ 0xff ∷ 0x7f ∷ [])

read_properties-encode_properties_example :
    read_properties PacketType.publish (sample_property_bytes ++ (9 ∷ []))
    ≡ ok (read_back PacketType.publish (some sample_properties), 9 ∷ [])
read_properties-encode_properties_example =
    read_properties-encode_properties PacketType.publish (some sample_properties)
      sample_property_bytes (9 ∷ []) sample_properties-IsValid encode_properties_sample
      (omega arith)

encoded_len-encode_example : encoded_len sample ≡ ok 15
encoded_len-encode_example = encoded_len-encode sample sample_bytes encode-sample

read-packet_too_large_example : read 14 (sample_bytes ++ []) ≡ err packet_too_large
read-packet_too_large_example =
    read-packet_too_large sample sample_bytes [] 14 encode-sample (omega arith) (omega arith)

var_byte_int-put_var_byte_int_example :
    var_byte_int (put_var_byte_int 321 ++ (9 ∷ [])) ≡ ok (321, 9 ∷ [])
var_byte_int-put_var_byte_int_example = var_byte_int-put_var_byte_int 321 (9 ∷ []) (omega arith)

read-take_example : read 64 (take 9 sample_bytes) ≡ err unexpected_eof
read-take_example =
    read-take sample sample_bytes 64 9 encode-sample (inr (omega arith)) (omega arith) (omega arith)
