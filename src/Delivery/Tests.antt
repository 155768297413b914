-- ===== src/Delivery/Tests.antt =====
-- Deliveries of concrete messages.
use natsmqtt.Prelude.{
  ℕ, ◌+◌, ◌*◌, ◌≤◌, ◌<◌, ◌≡◌, ◌↔◌, refl, Bool, true, false, none, some, List, [], ◌∷◌, Bytes,
  bytes_eq, codes, arith, not, is_empty,
}
use natsmqtt.Topic.Subject.{
  prefix, name_to_subject, convert, convert_loop, piece, plain_piece, escaped, last_byte,
  ends_level,
}
use natsmqtt.Topic.Validate.{validate_name, validate_common, reserved, is_shared}
use natsmqtt.Topic.Strings.{contains, contains_any, before, has_prefix, split}
use natsmqtt.Topic.Match.{match, match_plain, is_dollar, starts_wild, match_levels}
use natsmqtt.Packet.Properties.{no_properties}
use natsmqtt.Packet.Model.{Publish}
use natsmqtt.Message.Nats.{Msg, to_nats}
use natsmqtt.Message.Plain.{plain_headers}
use natsmqtt.Message.Forwarded.{IsForwardable}
use natsmqtt.Cursor.State.{Subscription}
use natsmqtt.Delivery.Queued.{
  Delivery, Reader, read_copy, keep_copy, queue_seq, deliver_queued_owed, owed_by,
}
use natsmqtt.Delivery.Owed.{owed_by-deliver_queued, owed_by-deliver_queued_owed}
use natsmqtt.Delivery.Whole.{copies, deliver_queued-read_copy}
use natsmqtt.Delivery.Expiry.{
  Expiring, first_interval, apply_remaining, remaining_expiry, apply_expiry,
  remaining_expiry-expired, remaining_expiry-bounds, resend_interval, IsLeft,
  resend_interval-apply_expiry,
}

abbrev filtered : Bytes → Subscription
filtered filter = record {
  ident = 1;
  filter = filter;
  share = [];
  granted_qos = 2;
  no_local = true;
  retain_as_published = false;
  id = 3;
  since = 0;
}

abbrev reader : Reader
reader = record {
  client_id = codes "display";
  subject_prefix = codes "mqtt";
  subs = filtered (codes "a/+") ∷ filtered (codes "b") ∷ [];
}

abbrev published : Publish
published = record {
  dup = false;
  qos = 1;
  retain = true;
  topic = codes "a/b";
  packet_id = 9;
  properties = some (record no_properties { message_expiry_interval = some 60 });
  payload = codes "21";
}

abbrev is_one : List Delivery → Bool
is_one [] = false
is_one (d ∷ []) = true
is_one (d ∷ e ∷ ds) = false

published-IsForwardable : IsForwardable published.properties
published-IsForwardable = (tt, omega arith, tt)

published_name : name_to_subject false published.topic ≡ some (codes "a.b")
unfolding name_to_subject validate_name validate_common contains contains_any reserved bytes_eq
    before convert convert_loop piece plain_piece escaped last_byte ends_level
published_name = refl

abbrev stored : Msg plain_headers
stored = read_copy plain_headers (codes "mqtt") 7 (codes "12") (
    keep_copy plain_headers (codes "mqtt") (codes "a.b") (
      to_nats plain_headers (codes "id") (prefix (codes "mqtt") (codes "a.b")) (codes "dev")
        published))

deliver_queued-read_copy_example :
    deliver_queued_owed plain_headers (λ d. false) reader 5 false stored ≡ record {
      deliveries = copies (codes "display") (codes "dev") (codes "id") 7 5 published reader.subs;
      failed = false;
    }
deliver_queued-read_copy_example =
    deliver_queued-read_copy plain_headers reader false 5 7 (codes "12") (codes "id") (codes "a.b")
      (codes "dev") published (omega arith) (omega arith) published-IsForwardable (omega arith)
      published_name

-- One of the two subscriptions wants it.
wanted_once :
    is_one (copies (codes "display") (codes "dev") (codes "id") 7 5 published reader.subs) ≡ true
unfolding copies match is_shared has_prefix bytes_eq match_plain is_dollar starts_wild match_levels
    split
wanted_once = refl

owed_by-deliver_queued_example :
    (owed_by plain_headers reader stored 7).0
    ≡ not
        (is_empty (deliver_queued_owed plain_headers (λ d. false) reader 5 false stored).deliveries)
owed_by-deliver_queued_example = owed_by-deliver_queued plain_headers (λ d. false) reader 5 stored 7

owed_by-deliver_queued_owed_example :
    (owed_by plain_headers reader stored (queue_seq plain_headers stored)).1
    ≡ not
        (is_empty (deliver_queued_owed plain_headers (λ d. false) reader 5 true stored).deliveries)
owed_by-deliver_queued_owed_example =
    owed_by-deliver_queued_owed plain_headers (λ d. false) reader 5 stored (refl, (refl, tt))

remaining_expiry-expired_example :
    ((remaining_expiry 2 0 1300000000).1 ≡ true)
    ↔ ((0 + 2 * 1000000000 ≤ 1300000000) × (0 + 1000000000 ≤ 1300000000))
remaining_expiry-expired_example = remaining_expiry-expired 2 0 1300000000

two_alive : (remaining_expiry 2 0 1300000000).1 ≡ false
unfolding remaining_expiry
two_alive = refl

remaining_expiry-bounds_example :
    (0 + 2 * 1000000000 ≤ 1300000000 + (remaining_expiry 2 0 1300000000).0 * 1000000000)
    × (1300000000 + (remaining_expiry 2 0 1300000000).0 * 1000000000
        < 0 + 2 * 1000000000 + 1000000000)
remaining_expiry-bounds_example = remaining_expiry-bounds 2 0 1300000000 (omega arith) two_alive

abbrev lasting : Expiring
lasting = record { message_expiry_interval = some 60; expiry = none }

abbrev lasting_sent : Expiring
lasting_sent = (apply_expiry 0 5000000000 lasting).0

resend_interval-apply_expiry_example :
    ((resend_interval 1 0 70000000000 lasting_sent ≡ none)
      ↔ ((0 + 60 * 1000000000 ≤ 70000000000) × (0 + 1000000000 ≤ 70000000000)))
    × ((remaining : ℕ) × (resend_interval 2 0 70000000000 lasting_sent ≡ some (some remaining))
        × IsLeft 60 0 70000000000 remaining)
resend_interval-apply_expiry_example =
    resend_interval-apply_expiry 60 0 5000000000 70000000000 lasting refl refl (omega arith)

-- After 70 seconds it goes out again at QoS 2, with 0.
with_zero : resend_interval 2 0 70000000000 lasting_sent ≡ some (some 0)
unfolding resend_interval apply_expiry first_interval apply_remaining remaining_expiry
with_zero = refl
