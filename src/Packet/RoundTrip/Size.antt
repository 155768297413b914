-- ===== src/Packet/RoundTrip/Size.antt =====
-- `EncodedLen` against `Encode`, and the limit of `Read`.
use natsmqtt.Prelude.{ℕ, suc, ◌+◌, ◌/◌, ◌≤◌, ◌<◌, ◌≡◌, ap, ◌++◌, ◌&&◌, true}
use natsmqtt.Prelude.{Bytes, arith, length, length-append, ltb, leb, leb→le, append_assoc, subst}
use natsmqtt.Packet.Types.{PacketType}
use natsmqtt.Packet.Result.{malformed, packet_too_large, ok, err, guard-then, >>=-eq-ok}
use natsmqtt.Packet.Writer.{
  put_var_byte_int_loop, put_var_byte_int, max_var_byte_int, var_byte_int_len,
}
use natsmqtt.Packet.Model.{Packet, packet_type}
use natsmqtt.Packet.Decode.Wire.{read_body, read_after_first, read}
use natsmqtt.Packet.Encode.Wire.{encode_packet, frame, encode, encoded_len}
use natsmqtt.Packet.RoundTrip.Loop.{ok-injective}
use natsmqtt.Packet.RoundTrip.Header.{
  type_of_code-type_code, first_byte, read_remaining_length-put_var_byte_int,
}
use natsmqtt.Packet.RoundTrip.Flags.{encode_packet-Accepted}

one_group : (fuel v : ℕ) → v < 128 → length (put_var_byte_int_loop (suc fuel) v) ≡ 1
unfolding put_var_byte_int_loop
one_group fuel v h = ground arith

more_groups :
    (fuel v : ℕ)
    → 128 ≤ v
    → length (put_var_byte_int_loop (suc fuel) v)
      ≡ 1 + length (put_var_byte_int_loop fuel (v / 128))
unfolding put_var_byte_int_loop
more_groups fuel v h = ground arith

-- The width that `varByteIntLen` gives is that of what `appendVarByteInt` writes.
pub var_byte_int_len-put_var_byte_int :
    (v : ℕ) → v ≤ max_var_byte_int → var_byte_int_len v ≡ length (put_var_byte_int v)
unfolding var_byte_int_len put_var_byte_int
var_byte_int_len-put_var_byte_int v h = ground (
  arith,
  more_groups 9 v,
  more_groups 8 (v / 128),
  more_groups 7 (v / 128 / 128),
  one_group 9 v,
  one_group 8 (v / 128),
  one_group 7 (v / 128 / 128),
  one_group 6 (v / 128 / 128 / 128),
)

pub frame-length :
    (t : PacketType) (flags : ℕ) (body : Bytes)
    → length (frame t flags body) ≡ 1 + length (put_var_byte_int (length body)) + length body
unfolding frame
frame-length t flags body = omega (arith, length-append (put_var_byte_int (length body)) body)

-- `EncodedLen` is the length of what `Encode` returns.
pub encoded_len-encode :
    (p : Packet) (bytes : Bytes) → encode p ≡ ok bytes → encoded_len p ≡ ok (length bytes)
unfolding encode encoded_len
encoded_len-encode p bytes e =
    let ((flags, body), written, e') = >>=-eq-ok (encode_packet p) _ e in
    let (short, whole) = guard-then (leb (length body) max_var_byte_int) malformed _ e' in
    let width = var_byte_int_len-put_var_byte_int (length body) (leb→le _ _ short) in
    let size : 1 + var_byte_int_len (length body) + length body ≡ length bytes =
      omega
        (arith, width, frame-length (packet_type p) flags body, ap length (ok-injective whole)) in
    rw written (ap ok size)

module _ (p : Packet) (flags : ℕ) (body rest : Bytes) (max : ℕ)
    (e : encode_packet p ≡ ok (flags, body)) (short : length body ≤ max_var_byte_int)
    (limited : 0 < max) (above : max < length (frame (packet_type p) flags body)) where
  read-above : read max (frame (packet_type p) flags body ++ rest) ≡ err packet_too_large
  unfolding read read_after_first read_body frame
  read-above =
      let a = encode_packet-Accepted p flags body e in
      let (high, low) = first_byte (packet_type p) flags a.nibble in
      let size = frame-length (packet_type p) flags body in
      let over : (ltb 0 max && ltb max (1 + length (put_var_byte_int (length body)) + length body))
          ≡ true =
        ground arith in
      rw (
        high,
        low,
        type_of_code-type_code (packet_type p),
        a.not_zero,
        a.flags_ok,
        append_assoc (put_var_byte_int (length body)) body rest,
        read_remaining_length-put_var_byte_int (length body) (body ++ rest) short,
        over,
      )

-- A packet above the limit of the reader is refused as too large, before its body is decoded and
-- whether or not it would be.
pub read-packet_too_large :
    (p : Packet) (bytes rest : Bytes) (max : ℕ)
    → encode p ≡ ok bytes
    → 0 < max
    → max < length bytes
    → read max (bytes ++ rest) ≡ err packet_too_large
unfolding encode
read-packet_too_large p bytes rest max e h k =
    let ((flags, body), written, e') = >>=-eq-ok (encode_packet p) _ e in
    let (short, whole) = guard-then (leb (length body) max_var_byte_int) malformed _ e' in
    subst (λ z. max < length z → read max (z ++ rest) ≡ err packet_too_large) (ok-injective whole)
      (read-above p flags body rest max written (leb→le _ _ short) h) k
