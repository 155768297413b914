-- ===== src/Packet/RoundTrip/Wire.antt =====
-- `Read` gives back the packet that `Encode` wrote, and leaves what follows it in the stream.
use natsmqtt.Prelude.{ℕ, ◌+◌, ◌≤◌, ◌<◌, ◌^◌, ◌≡◌, ap, subst, ◌++◌, ◌&&◌, false}
use natsmqtt.Prelude.{
  [], Bytes, arith, length, length-append, take-append, drop-append, append_assoc,
}
use natsmqtt.Prelude.{ltb, leb, ◌⊎◌, leb→le}
use natsmqtt.Packet.Types.{PacketType}
use natsmqtt.Packet.Result.{malformed, ok, guard-then, >>=-eq-ok}
use natsmqtt.Packet.Writer.{put_var_byte_int, max_var_byte_int}
use natsmqtt.Packet.Model.{Packet, packet_type}
use natsmqtt.Packet.Decode.{ack_packet, decode_suback, decode_unsuback}
use natsmqtt.Packet.Decode.Wire.{empty_body, decode, read_body, read_after_first, read}
use natsmqtt.Packet.Encode.Wire.{encode_packet, frame, encode}
use natsmqtt.Packet.RoundTrip.Loop.{ok-injective}
use natsmqtt.Packet.RoundTrip.Properties.{IsValidOption}
use natsmqtt.Packet.RoundTrip.Publish.{
  IsValidPublish, read_back_publish, decode_publish-encode_publish,
}
use natsmqtt.Packet.RoundTrip.Publish.{read_back_connack, decode_connack-encode_connack}
use natsmqtt.Packet.RoundTrip.Acks.{read_back_ack, decode_ack-encode_ack, read_back_reason}
use natsmqtt.Packet.RoundTrip.Acks.{decode_disconnect-encode_reason, decode_auth-encode_reason}
use natsmqtt.Packet.RoundTrip.Acks.{read_back_code_list}
use natsmqtt.Packet.RoundTrip.Acks.{decode_reason_code_list-encode_reason_code_list}
use natsmqtt.Packet.RoundTrip.Subscribe.{IsValidSubscribe, IsValidUnsubscribe, read_back_subscribe}
use natsmqtt.Packet.RoundTrip.Subscribe.{read_back_unsubscribe, decode_subscribe-encode_subscribe}
use natsmqtt.Packet.RoundTrip.Subscribe.{decode_unsubscribe-encode_unsubscribe}
use natsmqtt.Packet.RoundTrip.Connect.{
  IsValidConnect, read_back_connect, decode_connect-encode_connect,
}
use natsmqtt.Packet.RoundTrip.Header.{
  type_of_code-type_code, first_byte, read_remaining_length-put_var_byte_int,
}
use natsmqtt.Packet.RoundTrip.Flags.{encode_packet-Accepted}

-- What a reader asks of a packet, beyond what the encoder checks.
abbrev pub IsValidPacket : Packet → Type 0
IsValidPacket (Packet.connect c) = IsValidConnect c
IsValidPacket (Packet.connack c) = IsValidOption PacketType.connack c.properties
IsValidPacket (Packet.publish p) = IsValidPublish p
IsValidPacket (Packet.puback a) =
    (a.packet_id < 2 ^ 16) × IsValidOption PacketType.puback a.properties
IsValidPacket (Packet.pubrec a) =
    (a.packet_id < 2 ^ 16) × IsValidOption PacketType.pubrec a.properties
IsValidPacket (Packet.pubrel a) =
    (a.packet_id < 2 ^ 16) × IsValidOption PacketType.pubrel a.properties
IsValidPacket (Packet.pubcomp a) =
    (a.packet_id < 2 ^ 16) × IsValidOption PacketType.pubcomp a.properties
IsValidPacket (Packet.subscribe s) = IsValidSubscribe s
IsValidPacket (Packet.suback l) =
    (l.packet_id < 2 ^ 16) × IsValidOption PacketType.suback l.properties
IsValidPacket (Packet.unsubscribe u) = IsValidUnsubscribe u
IsValidPacket (Packet.unsuback l) =
    (l.packet_id < 2 ^ 16) × IsValidOption PacketType.unsuback l.properties
IsValidPacket Packet.pingreq = Unit
IsValidPacket Packet.pingresp = Unit
IsValidPacket (Packet.disconnect d) = IsValidOption PacketType.disconnect d.properties
IsValidPacket (Packet.auth d) = IsValidOption PacketType.auth d.properties

-- The packet that a reader makes of one that was written.
unfoldable pub read_back_packet : Packet → Packet
read_back_packet (Packet.connect c) = Packet.connect (read_back_connect c)
read_back_packet (Packet.connack c) = Packet.connack (read_back_connack c)
read_back_packet (Packet.publish p) = Packet.publish (read_back_publish p)
read_back_packet (Packet.puback a) = Packet.puback (read_back_ack PacketType.puback a)
read_back_packet (Packet.pubrec a) = Packet.pubrec (read_back_ack PacketType.pubrec a)
read_back_packet (Packet.pubrel a) = Packet.pubrel (read_back_ack PacketType.pubrel a)
read_back_packet (Packet.pubcomp a) = Packet.pubcomp (read_back_ack PacketType.pubcomp a)
read_back_packet (Packet.subscribe s) = Packet.subscribe (read_back_subscribe s)
read_back_packet (Packet.suback l) = Packet.suback (read_back_code_list PacketType.suback l)
read_back_packet (Packet.unsubscribe u) = Packet.unsubscribe (read_back_unsubscribe u)
read_back_packet (Packet.unsuback l) = Packet.unsuback (read_back_code_list PacketType.unsuback l)
read_back_packet Packet.pingreq = Packet.pingreq
read_back_packet Packet.pingresp = Packet.pingresp
read_back_packet (Packet.disconnect d) =
    Packet.disconnect (read_back_reason PacketType.disconnect d)
read_back_packet (Packet.auth d) = Packet.auth (read_back_reason PacketType.auth d)

decode-encode_packet :
    (p : Packet) (flags : ℕ) (body : Bytes)
    → IsValidPacket p
    → encode_packet p ≡ ok (flags, body)
    → length body ≤ max_var_byte_int
    → decode (packet_type p) flags body ≡ ok (read_back_packet p, [])
unfolding decode encode_packet packet_type read_back_packet ack_packet decode_suback decode_unsuback
    empty_body
decode-encode_packet (Packet.connect c) f b v e h = decode_connect-encode_connect c f b v e h
decode-encode_packet (Packet.connack c) f b v e h = decode_connack-encode_connack c f b v e h
decode-encode_packet (Packet.publish p) f b v e h = decode_publish-encode_publish p f b v e h
decode-encode_packet (Packet.puback a) f b v e h = decode_ack-encode_ack _ a f b v.0 v.1 e h
decode-encode_packet (Packet.pubrec a) f b v e h = decode_ack-encode_ack _ a f b v.0 v.1 e h
decode-encode_packet (Packet.pubrel a) f b v e h = decode_ack-encode_ack _ a f b v.0 v.1 e h
decode-encode_packet (Packet.pubcomp a) f b v e h = decode_ack-encode_ack _ a f b v.0 v.1 e h
decode-encode_packet (Packet.subscribe s) f b v e h = decode_subscribe-encode_subscribe s f b v e h
decode-encode_packet (Packet.suback l) f b v e h =
    rw (decode_reason_code_list-encode_reason_code_list _ l f b v.0 v.1 e h)
decode-encode_packet (Packet.unsubscribe u) f b v e h =
    decode_unsubscribe-encode_unsubscribe u f b v e h
decode-encode_packet (Packet.unsuback l) f b v e h =
    rw (decode_reason_code_list-encode_reason_code_list _ l f b v.0 v.1 e h)
decode-encode_packet Packet.pingreq f b v e h = rw (← ap (λ (z : ℕ × Bytes). z.1) (ok-injective e))
decode-encode_packet Packet.pingresp f b v e h = rw (← ap (λ (z : ℕ × Bytes). z.1) (ok-injective e))
decode-encode_packet (Packet.disconnect d) f b v e h = decode_disconnect-encode_reason d f b v e h
decode-encode_packet (Packet.auth d) f b v e h = decode_auth-encode_reason d f b v e h

module _ (p : Packet) (flags : ℕ) (body rest : Bytes) (max : ℕ) (valid : IsValidPacket p)
    (e : encode_packet p ≡ ok (flags, body)) (short : length body ≤ max_var_byte_int)
    (within : (max ≡ 0) ⊎ (length (frame (packet_type p) flags body) ≤ max)) where
  read_body-frame :
      read_body max
        (packet_type p)
        flags
        (length body, length (put_var_byte_int (length body)))
        (body ++ rest)
      ≡ ok (read_back_packet p, rest)
  unfolding read_body frame
  read_body-frame =
      let whole = length-append (put_var_byte_int (length body)) body in
      let fits : (ltb 0 max && ltb max (1 + length (put_var_byte_int (length body)) + length body))
          ≡ false =
        ground arith in
      let there : ltb (length (body ++ rest)) (length body) ≡ false =
        ground (arith, length-append body rest) in
      rw (
        fits,
        there,
        take-append body rest,
        drop-append body rest,
        decode-encode_packet p flags body valid e short,
      )

  read-frame : read max (frame (packet_type p) flags body ++ rest) ≡ ok (read_back_packet p, rest)
  unfolding read read_after_first frame
  read-frame =
      let a = encode_packet-Accepted p flags body e in
      let (high, low) = first_byte (packet_type p) flags a.nibble in
      rw (
        high,
        low,
        type_of_code-type_code (packet_type p),
        a.not_zero,
        a.flags_ok,
        append_assoc (put_var_byte_int (length body)) body rest,
        read_remaining_length-put_var_byte_int (length body) (body ++ rest) short,
        read_body-frame,
      )

-- For a packet that `Encode` accepts and that a reader can be asked to take, `Read` of the bytes
-- that `Encode` returns, under no limit or one that they keep to, gives the packet back.
pub read-encode :
    (p : Packet) (bytes rest : Bytes) (max : ℕ)
    → IsValidPacket p
    → encode p ≡ ok bytes
    → (max ≡ 0) ⊎ (length bytes ≤ max)
    → read max (bytes ++ rest) ≡ ok (read_back_packet p, rest)
unfolding encode
read-encode p bytes rest max valid e within =
    let ((flags, body), written, e') = >>=-eq-ok (encode_packet p) _ e in
    let (short, whole) = guard-then (leb (length body) max_var_byte_int) malformed _ e' in
    subst (λ z. (max ≡ 0) ⊎ (length z ≤ max) → read max (z ++ rest) ≡ ok (read_back_packet p, rest))
      (ok-injective whole) (read-frame p flags body rest max valid written (leb→le _ _ short))
      within
