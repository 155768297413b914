-- ===== src/Packet/Progress/Properties.antt =====
-- `readProperties` ends: each round takes a byte at least.
use natsmqtt.Prelude.{
  ℕ, zero, suc, ◌+◌, ◌≤◌, refl, Bool, not, ◌&&◌, [], ◌∷◌, List, Option, none, some,
}
use natsmqtt.Prelude.{Bytes, arith, length, take, drop, length-drop, ltb, ◌==◌}
use natsmqtt.Packet.Types.{PacketType}
use natsmqtt.Packet.Result.{Result, ok, err, malformed, protocol}
use natsmqtt.Packet.Reader.{Reader, ◌>>=◌, ◌>>◌, return, require, lift}
use natsmqtt.Packet.Reader.{byte, uint16, uint32, var_byte_int, binary, text, string_pair}
use natsmqtt.Packet.Properties.{PropId, Properties, no_properties, prop_of_code, allowed_in}
use natsmqtt.Packet.Properties.{
  prop_payload_format, prop_message_expiry, prop_content_type, prop_response_topic,
}
use natsmqtt.Packet.Properties.{
  prop_correlation_data, prop_subscription_id, prop_session_expiry, prop_assigned_client_id,
}
use natsmqtt.Packet.Properties.{
  prop_server_keep_alive, prop_auth_method, prop_auth_data, prop_request_problem_info,
}
use natsmqtt.Packet.Properties.{
  prop_will_delay_interval, prop_request_response, prop_response_info, prop_server_reference,
}
use natsmqtt.Packet.Properties.{
  prop_reason_string, prop_receive_maximum, prop_topic_alias_maximum, prop_topic_alias,
}
use natsmqtt.Packet.Properties.{
  prop_maximum_qos, prop_retain_available, prop_user, prop_maximum_packet_size,
}
use natsmqtt.Packet.Properties.{prop_wildcard_sub_avail, prop_sub_id_avail, prop_shared_sub_avail}
use natsmqtt.Packet.Properties.Read.{
  known, read_property, seen_has, repeatable, property_round, properties_loop, properties_of,
  sub_reader, read_properties,
}
use natsmqtt.Packet.Progress.Rules.{
  Calm, Settles, Takes, free, if-Settles, return-Takes, lift-Takes, require-Takes, bind-Takes,
}
use natsmqtt.Packet.Progress.Rules.{
  byte-Takes, uint16-Takes, uint32-Takes, var_byte_int-Takes, binary-Takes, text-Takes,
  string_pair-Takes,
}

-- A value, and one that is checked.
module _ (n : ℕ) {A : Type 0} (m : Reader A) (h : Takes n m) where
  plain : (f : A → Properties) → Takes 0 (m >>= λ v. return (f v))
  plain f = free n _ (bind-Takes n m _ h (λ v. return-Takes (f v)))

  checked :
      (b : A → Bool) (f : A → Properties)
      → Takes 0 (m >>= λ v. require (b v) protocol >> return (f v))
  checked b f = free n _ (
      bind-Takes n m _ h (λ v.
        bind-Takes 0 (require (b v) protocol) _ (require-Takes (b v) protocol refl)
          (λ _. return-Takes (f v))))

read_property-Takes : (id : PropId) (p : Properties) → Takes 0 (read_property id p)
unfolding read_property
read_property-Takes prop_payload_format p = checked _ byte byte-Takes _ _
read_property-Takes prop_message_expiry p = plain _ uint32 uint32-Takes _
read_property-Takes prop_content_type p = plain _ text text-Takes _
read_property-Takes prop_response_topic p = plain _ text text-Takes _
read_property-Takes prop_correlation_data p = plain _ binary binary-Takes _
read_property-Takes prop_subscription_id p = checked _ var_byte_int var_byte_int-Takes _ _
read_property-Takes prop_session_expiry p = plain _ uint32 uint32-Takes _
read_property-Takes prop_assigned_client_id p = plain _ text text-Takes _
read_property-Takes prop_server_keep_alive p = plain _ uint16 uint16-Takes _
read_property-Takes prop_auth_method p = plain _ text text-Takes _
read_property-Takes prop_auth_data p = plain _ binary binary-Takes _
read_property-Takes prop_request_problem_info p = checked _ byte byte-Takes _ _
read_property-Takes prop_will_delay_interval p = plain _ uint32 uint32-Takes _
read_property-Takes prop_request_response p = checked _ byte byte-Takes _ _
read_property-Takes prop_response_info p = plain _ text text-Takes _
read_property-Takes prop_server_reference p = plain _ text text-Takes _
read_property-Takes prop_reason_string p = plain _ text text-Takes _
read_property-Takes prop_receive_maximum p = checked _ uint16 uint16-Takes _ _
read_property-Takes prop_topic_alias_maximum p = plain _ uint16 uint16-Takes _
read_property-Takes prop_topic_alias p = checked _ uint16 uint16-Takes _ _
read_property-Takes prop_maximum_qos p = checked _ byte byte-Takes _ _
read_property-Takes prop_retain_available p = checked _ byte byte-Takes _ _
read_property-Takes prop_user p = plain _ string_pair string_pair-Takes _
read_property-Takes prop_maximum_packet_size p = checked _ uint32 uint32-Takes _ _
read_property-Takes prop_wildcard_sub_avail p = checked _ byte byte-Takes _ _
read_property-Takes prop_sub_id_avail p = checked _ byte byte-Takes _ _
read_property-Takes prop_shared_sub_avail p = checked _ byte byte-Takes _ _

known-Takes : (o : Option PropId) → Takes 0 (known o)
unfolding Takes
known-Takes none s = refl
known-Takes (some id) s = omega arith

pub property_round-Takes :
    (ctx : PacketType) (seen : List PropId) (p : Properties) → Takes 1 (property_round ctx seen p)
unfolding property_round
property_round-Takes ctx seen p = bind-Takes 1 var_byte_int _ var_byte_int-Takes (λ raw.
    bind-Takes 0 (known (prop_of_code raw)) _ (known-Takes (prop_of_code raw)) (λ id.
      bind-Takes 0 (require (allowed_in id ctx) malformed) _ (require-Takes _ malformed refl) (λ _.
        bind-Takes 0 (require (not (seen_has seen id && not (repeatable id ctx))) protocol) _
          (require-Takes _ protocol refl)
          (λ _.
            bind-Takes 0 (read_property id p) _ (read_property-Takes id p)
              (λ p'. return-Takes {A = List PropId × Properties} (id ∷ seen, p'))))))

-- As many rounds as there are bytes are enough.
properties_loop-Calm :
    (fuel : ℕ) (ctx : PacketType) (seen : List PropId) (p : Properties) (s : Bytes)
    → length s ≤ fuel
    → Calm (properties_loop fuel ctx seen p s)
unfolding properties_loop Takes
properties_loop-Calm fuel ctx seen p [] h = tt
properties_loop-Calm zero ctx seen p (b ∷ s) h = absurd (omega arith)
properties_loop-Calm (suc fuel) ctx seen p (b ∷ s) h =
    after (property_round ctx seen p (b ∷ s)) (property_round-Takes ctx seen p (b ∷ s))
      (λ seen' p' s' short. properties_loop-Calm fuel ctx seen' p' s' (omega arith))
  where
    after :
        (r : Result ((List PropId × Properties) × Bytes))
        → Settles 1 (b ∷ s) r
        → ((seen' : List PropId) (p' : Properties) (s' : Bytes)
            → 1 + length s' ≤ length (b ∷ s)
            → Calm (properties_loop fuel ctx seen' p' s'))
        → Calm (elim r as (λ _. Result Properties) [
          | err e ↦ err e
          | ok ((seen', p'), s') ↦ properties_loop fuel ctx seen' p' s'
        ])
    after (err e) t k = t
    after (ok ((seen', p'), s')) t k = k seen' p' s' t

properties_of-Calm : (ctx : PacketType) (s : Bytes) → Calm (properties_of ctx s)
unfolding properties_of
properties_of-Calm ctx s = properties_loop-Calm (length s) ctx [] no_properties s (omega arith)

sub_reader-Takes : (n : ℕ) (ctx : PacketType) → Takes 0 (sub_reader n ctx)
unfolding Takes
sub_reader-Takes n ctx s = if-Settles 0 s (ltb (length s) n) _ _ refl (
    if-Settles 0 s (n == 0) _ _ (omega arith) (
      shorter (lift (properties_of ctx (take n s)) (drop n s))
        (lift-Takes _ (properties_of-Calm ctx (take n s)) (drop n s))))
  where
    shorter : (r : Result (Properties × Bytes)) → Settles 0 (drop n s) r → Settles 0 s r
    shorter (ok (a, s')) t = omega (arith, length-drop n s)
    shorter (err e) t = t

pub read_properties-Takes : (ctx : PacketType) → Takes 1 (read_properties ctx)
unfolding read_properties
read_properties-Takes ctx =
    bind-Takes 1 var_byte_int _ var_byte_int-Takes (λ n. sub_reader-Takes n ctx)
