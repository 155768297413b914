-- ===== src/Message/Tests.antt =====
-- Messages and their headers on small inputs.
use natsmqtt.Message.Plain.{plain_headers}
use natsmqtt.Prelude.{◌≤◌, ◌≡◌, ◌≢◌, refl, true, false, some, [], ◌∷◌, arith, Bytes, codes, All}
use natsmqtt.Topic.Strings.{cut, contains}
use natsmqtt.Packet.Properties.{no_properties}
use natsmqtt.Packet.Model.{Publish}
use natsmqtt.Message.Header.{
  needs_escape, unsafe_header_byte, escape_loop, hex, contains_percent, escape_header,
  unescape_header, user_header, user_property,
}
use natsmqtt.Message.RoundTrip.{
  unescape_header-escape_header, escape_header-printable, user_property-user_header,
}
use natsmqtt.Message.Nats.{to_nats, from_nats}
use natsmqtt.Message.Forwarded.{forwarded, IsForwardable, from_nats-to_nats}

abbrev two_lines : Bytes
two_lines = 97 ∷ 13 ∷ 10 ∷ 37 ∷ 98 ∷ []

escaped_lines : escape_header two_lines ≡ codes "a%0D%0A%25b"
unfolding escape_header needs_escape unsafe_header_byte escape_loop hex
escaped_lines = refl

lines_back : unescape_header (escape_header two_lines) ≡ two_lines
lines_back = unescape_header-escape_header two_lines

escape_header-printable_example : All (λ ch. (0x20 ≤ ch) × (ch ≢ 0x7F)) (escape_header two_lines)
escape_header-printable_example = escape_header-printable two_lines

user_property-user_header_example :
    user_property (user_header (codes "a b") (codes "c")) ≡ cut b' ' (codes "a b c")
user_property-user_header_example = user_property-user_header (codes "a b") (codes "c")

-- A name with a blank is cut there.
name_cut : user_property (user_header (codes "a b") (codes "c")) ≡ some (codes "a", codes "b c")
unfolding user_property cut user_header escape_header needs_escape unsafe_header_byte
    unescape_header contains_percent
name_cut = refl

abbrev reading : Publish
reading = record {
  dup = false;
  qos = 1;
  retain = true;
  topic = codes "a";
  packet_id = 9;
  properties = some (record no_properties {
    payload_format = some 1;
    message_expiry_interval = some 60;
    content_type = two_lines;
    user = record { key = codes "unit"; value = codes "deg C" } ∷ [];
  });
  payload = codes "21";
}

reading-IsForwardable : IsForwardable reading.properties
unfolding contains
reading-IsForwardable = (omega arith, omega arith, (refl, tt))

from_nats-to_nats_example :
    from_nats plain_headers
      (to_nats plain_headers (codes "id") (codes "mqtt.a") (codes "dev") reading).header
    ≡ record {
      qos = 1;
      retain = true;
      origin = codes "dev";
      properties = forwarded reading.properties;
    }
from_nats-to_nats_example =
    from_nats-to_nats plain_headers (codes "id") (codes "mqtt.a") (codes "dev") reading
      (omega arith) reading-IsForwardable
