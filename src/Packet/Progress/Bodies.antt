-- ===== src/Packet/Progress/Bodies.antt =====
-- The decoders of the packets' bodies end.
use natsmqtt.Prelude.{ℕ, zero, suc, ◌+◌, ◌/◌, ◌^◌, ◌≤◌, refl, Bool, not, [], ◌∷◌, List, none, some}
use natsmqtt.Prelude.{Bytes, arith, length, ltb, ◌==◌, bit_and, is_empty}
use natsmqtt.Packet.Types.{PacketType}
use natsmqtt.Packet.Result.{Result, ok, err, malformed, protocol, unsupported_version}
use natsmqtt.Packet.Reader.{Reader, and_then, ◌>>=◌, ◌>>◌, return, require, at_end}
use natsmqtt.Packet.Reader.{byte, uint16, binary, text}
use natsmqtt.Packet.Properties.{Properties}
use natsmqtt.Packet.Properties.Read.{read_properties}
use natsmqtt.Packet.Model.{Packet, CodeList}
use natsmqtt.Packet.Decode.{has_bit, rest_of_body, read_packet_id, decode_publish, decode_connack}
use natsmqtt.Packet.Decode.{
  optional_properties, optional_reason, decode_ack, decode_disconnect, decode_auth, read_codes,
  decode_reason_code_list, decode_suback, decode_unsuback,
}
use natsmqtt.Packet.Decode.{
  read_subscription, read_all, read_items, decode_subscribe, decode_unsubscribe,
}
use natsmqtt.Packet.Decode.{
  protocol_version_5, read_will, read_username, read_password, connect_tail, decode_connect,
}
use natsmqtt.Packet.Decode.Wire.{empty_body, decode}
use natsmqtt.Packet.Progress.Rules.{
  Settles, Takes, free, if-Takes, return-Takes, require-Takes, bind-Takes, and_then-Settles, longer,
}
use natsmqtt.Packet.Progress.Rules.{byte-Takes, uint16-Takes, binary-Takes, text-Takes}
use natsmqtt.Packet.Progress.Properties.{read_properties-Takes}

at_end-Takes : Takes 0 at_end
unfolding Takes
at_end-Takes s = omega arith

read_all-Takes :
    {A : Type 0} (item : Reader A) (fuel : ℕ) (s : Bytes)
    → Takes 2 item
    → length s ≤ fuel
    → Settles 0 s (read_all item fuel s)
unfolding read_all Takes
read_all-Takes item fuel [] t h = omega arith
read_all-Takes item zero (b ∷ s) t h = absurd (omega arith)
read_all-Takes {A = A} item (suc fuel) (b ∷ s) t h =
    after (item (b ∷ s)) (t (b ∷ s)) (λ s' short. read_all-Takes item fuel s' t (omega arith))
  where
    after :
        (r : Result (A × Bytes))
        → Settles 2 (b ∷ s) r
        → ((s' : Bytes) → 2 + length s' ≤ length (b ∷ s) → Settles 0 s' (read_all item fuel s'))
        → Settles 0 (b ∷ s) (elim r as (λ _. Result (List A × Bytes)) [
          | err e ↦ err e
          | ok (a, s') ↦ and_then (read_all item fuel s') (λ others s''. ok (a ∷ others, s''))
        ])
    after (err e) u k = u
    after (ok (a, s')) u k = grown s' u (read_all item fuel s') (k s' u)
      where
        grown :
            (s' : Bytes)
            → 2 + length s' ≤ length (b ∷ s)
            → (r : Result (List A × Bytes)) → Settles 0 s' r
            → Settles 0 (b ∷ s) (and_then r (λ others s''. ok (a ∷ others, s'')))
        grown s' u (ok (others, s'')) v = omega arith
        grown s' u (err e) v = v

-- The steps of a body, each of which may take nothing.
module _ {A : Type 0} where
  after_byte : (f : ℕ → Reader A) → ((v : ℕ) → Takes 0 (f v)) → Takes 0 (byte >>= f)
  after_byte f h = free 1 (byte >>= f) (bind-Takes 1 byte f byte-Takes h)

  after_uint16 : (f : ℕ → Reader A) → ((v : ℕ) → Takes 0 (f v)) → Takes 0 (uint16 >>= f)
  after_uint16 f h = free 2 (uint16 >>= f) (bind-Takes 2 uint16 f uint16-Takes h)

  after_text : (f : Bytes → Reader A) → ((v : Bytes) → Takes 0 (f v)) → Takes 0 (text >>= f)
  after_text f h = free 2 (text >>= f) (bind-Takes 2 text f text-Takes h)

  after_binary : (f : Bytes → Reader A) → ((v : Bytes) → Takes 0 (f v)) → Takes 0 (binary >>= f)
  after_binary f h = free 2 (binary >>= f) (bind-Takes 2 binary f binary-Takes h)

  after_properties :
      (t : PacketType) (f : Properties → Reader A)
      → ((v : Properties) → Takes 0 (f v))
      → Takes 0 (read_properties t >>= f)
  after_properties t f h =
      free 1 (read_properties t >>= f)
        (bind-Takes 1 (read_properties t) f (read_properties-Takes t) h)

  after_malformed : (b : Bool) (k : Reader A) → Takes 0 k → Takes 0 (require b malformed >> k)
  after_malformed b k h =
      bind-Takes 0 (require b malformed) (λ _. k) (require-Takes b malformed refl) (λ _. h)

  after_protocol : (b : Bool) (k : Reader A) → Takes 0 k → Takes 0 (require b protocol >> k)
  after_protocol b k h =
      bind-Takes 0 (require b protocol) (λ _. k) (require-Takes b protocol refl) (λ _. h)

  items-Takes : (item : Reader A) → Takes 2 item → Takes 0 (read_items item)
  unfolding Takes read_items
  items-Takes item t s = read_all-Takes item (length s) s t (omega arith)

  -- The end of a body that must be used up.
  to_the_end : (a : A) → Takes 0 (at_end >>= λ done. require done malformed >> return a)
  to_the_end a =
      bind-Takes 0 at_end _ at_end-Takes (λ done. after_malformed done (return a) (return-Takes a))

read_packet_id-Takes : (qos : ℕ) → Takes 0 (read_packet_id qos)
unfolding read_packet_id
read_packet_id-Takes qos =
    if-Takes (ltb 0 qos) _ _ (after_uint16 _ (λ id. after_protocol _ _ (return-Takes id)))
      (return-Takes 0)

rest_of_body-Takes : Takes 0 rest_of_body
unfolding Takes
rest_of_body-Takes s = omega arith

decode_publish-Takes : (flags : ℕ) → Takes 0 (decode_publish flags)
unfolding decode_publish
decode_publish-Takes flags = after_malformed _ _ (
    after_malformed _ _ (
      after_text _ (λ topic.
        bind-Takes 0 (read_packet_id (bit_and (flags / 2 ^ 1) 0x03)) _
          (read_packet_id-Takes (bit_and (flags / 2 ^ 1) 0x03))
          (λ id. after_properties _ _ (λ props.
            after_protocol _ _
              (bind-Takes 0 rest_of_body _ rest_of_body-Takes (λ payload. return-Takes _)))))))

decode_connack-Takes : Takes 0 decode_connack
unfolding decode_connack
decode_connack-Takes =
    after_byte _ (λ f.
      after_malformed _ _ (after_byte _ (λ code. after_properties _ _ (λ props. to_the_end _))))

optional_properties-Takes : (t : PacketType) → Takes 0 (optional_properties t)
unfolding optional_properties Takes
optional_properties-Takes t [] = omega arith
optional_properties-Takes t (b ∷ s) = free 1 (read_properties t) (read_properties-Takes t) (b ∷ s)

optional_reason-Takes : (t : PacketType) → Takes 0 (optional_reason t)
unfolding optional_reason Takes
optional_reason-Takes t [] = omega arith
optional_reason-Takes t (b ∷ s) =
    after_byte _
      (λ code.
        bind-Takes 0 (optional_properties t) _ (optional_properties-Takes t)
          (λ props. return-Takes {A = ℕ × Properties} (code, props)))
      (b ∷ s)

decode_ack-Takes : (t : PacketType) → Takes 0 (decode_ack t)
unfolding decode_ack
decode_ack-Takes t =
    after_uint16 _
      (λ id. bind-Takes 0 (optional_reason t) _ (optional_reason-Takes t) (λ r. to_the_end _))

decode_disconnect-Takes : Takes 0 decode_disconnect
unfolding decode_disconnect
decode_disconnect-Takes =
    bind-Takes 0 (optional_reason PacketType.disconnect) _ (optional_reason-Takes _)
      (λ r. to_the_end _)

decode_auth-Takes : Takes 0 decode_auth
unfolding decode_auth
decode_auth-Takes =
    bind-Takes 0 (optional_reason PacketType.auth) _ (optional_reason-Takes _) (λ r. to_the_end _)

read_codes-Takes : Takes 0 read_codes
unfolding read_codes Takes
read_codes-Takes [] = omega arith
read_codes-Takes (b ∷ s) = longer 0 b s _ (
    and_then-Settles 0 s (read_codes s) (λ codes s'. ok (b ∷ codes, s')) (read_codes-Takes s)
      (λ codes s'. omega arith))

abbrev list_of : ℕ → Properties → List ℕ → CodeList
list_of id props codes = record { packet_id = id; properties = some props; reason_codes = codes }

decode_reason_code_list-Takes : (t : PacketType) → Takes 0 (decode_reason_code_list t)
unfolding decode_reason_code_list
decode_reason_code_list-Takes t = after_uint16 _ (λ id. after_properties _ _ (λ props.
    bind-Takes 0 read_codes _ read_codes-Takes (λ codes.
      after_protocol (not (is_empty codes)) (return (list_of id props codes))
        (return-Takes (list_of id props codes)))))

decode_suback-Takes : Takes 0 decode_suback
unfolding decode_suback
decode_suback-Takes =
    bind-Takes 0 (decode_reason_code_list PacketType.suback) _ (decode_reason_code_list-Takes _)
      (λ l. return-Takes _)

decode_unsuback-Takes : Takes 0 decode_unsuback
unfolding decode_unsuback
decode_unsuback-Takes =
    bind-Takes 0 (decode_reason_code_list PacketType.unsuback) _ (decode_reason_code_list-Takes _)
      (λ l. return-Takes _)

read_subscription-Takes : Takes 2 read_subscription
unfolding read_subscription
read_subscription-Takes = bind-Takes 2 text _ text-Takes (λ filter.
    after_byte _
      (λ opts. after_malformed _ _ (after_protocol _ _ (after_protocol _ _ (return-Takes _)))))

decode_subscribe-Takes : Takes 0 decode_subscribe
unfolding decode_subscribe
decode_subscribe-Takes = after_uint16 _ (λ id. after_protocol _ _ (
    after_properties _ _ (λ props.
      bind-Takes 0 (read_items read_subscription) _
        (items-Takes read_subscription read_subscription-Takes)
        (λ subs. after_protocol _ _ (return-Takes _)))))

decode_unsubscribe-Takes : Takes 0 decode_unsubscribe
unfolding decode_unsubscribe
decode_unsubscribe-Takes = after_uint16 _ (λ id. after_protocol _ _ (
    after_properties _ _ (λ props.
      bind-Takes 0 (read_items text) _ (items-Takes text text-Takes)
        (λ filters. after_protocol _ _ (return-Takes _)))))

read_will-Takes : (flags : ℕ) → Takes 0 (read_will flags)
unfolding read_will
read_will-Takes flags =
    if-Takes (has_bit flags 0x04) _ _
      (after_properties _ _
        (λ props. after_text _ (λ topic. after_binary _ (λ payload. return-Takes _))))
      (return-Takes none)

read_username-Takes : (flags : ℕ) → Takes 0 (read_username flags)
unfolding read_username
read_username-Takes flags =
    if-Takes (has_bit flags 0x80) _ _ (free 2 text text-Takes) (return-Takes [])

read_password-Takes : (flags : ℕ) → Takes 0 (read_password flags)
unfolding read_password
read_password-Takes flags =
    if-Takes (has_bit flags 0x40) _ _ (after_binary _ (λ password. return-Takes _))
      (return-Takes none)

connect_tail-Takes : (version flags : ℕ) → Takes 0 (connect_tail version flags)
unfolding connect_tail
connect_tail-Takes version flags = after_uint16 _ (λ keep_alive. after_properties _ _ (λ props.
    after_protocol _ _ (
      after_text _ (λ client_id. bind-Takes 0 (read_will flags) _ (read_will-Takes flags) (λ will.
        bind-Takes 0 (read_username flags) _ (read_username-Takes flags) (λ username.
          bind-Takes 0 (read_password flags) _ (read_password-Takes flags)
            (λ password. to_the_end _)))))))

decode_connect-Takes : Takes 0 decode_connect
unfolding decode_connect
decode_connect-Takes = after_text _ (λ name. after_malformed _ _ (
    after_byte _ (λ version.
      bind-Takes 0 (require (version == protocol_version_5) (unsupported_version version)) _
        (require-Takes _ (unsupported_version version) refl)
        (λ _. after_byte _ (λ flags.
          after_malformed _ _ (after_malformed _ _ (connect_tail-Takes version flags)))))))

empty_body-Takes : (p : Packet) → Takes 0 (empty_body p)
unfolding empty_body Takes
empty_body-Takes p [] = omega arith
empty_body-Takes p (b ∷ s) = refl

malformed-Takes : Takes {A = Packet} 0 (λ s. err malformed)
unfolding Takes
malformed-Takes s = refl

pub decode-Takes : (t : PacketType) (flags : ℕ) → Takes 0 (decode t flags)
unfolding decode
decode-Takes PacketType.connect flags = decode_connect-Takes
decode-Takes PacketType.connack flags = decode_connack-Takes
decode-Takes PacketType.publish flags = decode_publish-Takes flags
decode-Takes PacketType.puback flags = decode_ack-Takes PacketType.puback
decode-Takes PacketType.pubrec flags = decode_ack-Takes PacketType.pubrec
decode-Takes PacketType.pubrel flags = decode_ack-Takes PacketType.pubrel
decode-Takes PacketType.pubcomp flags = decode_ack-Takes PacketType.pubcomp
decode-Takes PacketType.subscribe flags = decode_subscribe-Takes
decode-Takes PacketType.suback flags = decode_suback-Takes
decode-Takes PacketType.unsubscribe flags = decode_unsubscribe-Takes
decode-Takes PacketType.unsuback flags = decode_unsuback-Takes
decode-Takes PacketType.pingreq flags = empty_body-Takes Packet.pingreq
decode-Takes PacketType.pingresp flags = empty_body-Takes Packet.pingresp
decode-Takes PacketType.disconnect flags = decode_disconnect-Takes
decode-Takes PacketType.auth flags = decode_auth-Takes
decode-Takes PacketType.will_context flags = malformed-Takes
