-- ===== src/Packet/RoundTrip/Acks.antt =====
-- The round trips of packet/ack.go, packet/control.go and packet/suback.go.
use natsmqtt.Prelude.{ℕ, ◌≤◌, ◌<◌, ◌^◌, ◌≡◌, refl, sym, ap, subst, ◌++◌, not, true, false}
use natsmqtt.Prelude.{
  [], ◌∷◌, ◌⊎◌, inl, inr, Bool-cases, Bytes, arith, length, length-append, Option, some,
}
use natsmqtt.Prelude.{append-nil, is_empty, ◌==◌, ==_iff}
use natsmqtt.Packet.Types.{PacketType}
use natsmqtt.Packet.Result.{protocol, ok, guard-then, >>=-eq-ok}
use natsmqtt.Packet.Reader.{byte, var_byte_int, var_byte_int_loop}
use natsmqtt.Packet.Writer.{put_uint16, max_var_byte_int}
use natsmqtt.Packet.Properties.{Properties, no_properties}
use natsmqtt.Packet.Properties.Read.{read_properties}
use natsmqtt.Packet.Properties.Write.{encode_properties}
use natsmqtt.Packet.Model.{Ack, CodeList, Reason, Packet}
use natsmqtt.Packet.Decode.{optional_properties, optional_reason, ack_packet, decode_ack}
use natsmqtt.Packet.Decode.{decode_disconnect, decode_auth, read_codes, decode_reason_code_list}
use natsmqtt.Packet.Encode.{
  no_props, put_reason, encode_ack, encode_reason, encode_reason_code_list,
}
use natsmqtt.Packet.RoundTrip.Primitives.{uint16-put_uint16}
use natsmqtt.Packet.RoundTrip.Loop.{ok-injective}
use natsmqtt.Packet.RoundTrip.Properties.{
  read_back, IsValidOption, read_properties-encode_properties,
}

-- The one byte 0 is read as no properties.
no_props→no_properties :
    (t : PacketType) (q : Properties) (props : Bytes)
    → read_properties t props ≡ ok (q, [])
    → no_props props ≡ true
    → q ≡ no_properties
unfolding no_props read_properties var_byte_int var_byte_int_loop
no_props→no_properties t q [] e h = cc
no_props→no_properties t q (b ∷ []) e h =
    let zero : b ≡ 0 = (==_iff b 0).0 h in
    ap (λ (z : Properties × Bytes). z.0) (sym (ok-injective (rw zero at e)))
no_props→no_properties t q (b ∷ c ∷ s) e h = cc

put_reason-shorter :
    (code : ℕ) (props : Bytes) → no_props props ≡ false → put_reason code props ≡ code ∷ props
unfolding put_reason
put_reason-shorter code props h = ground arith

put_reason-bare : (props : Bytes) → no_props props ≡ true → put_reason 0x00 props ≡ []
unfolding put_reason
put_reason-bare props h = ground arith

put_reason-short :
    (code : ℕ) (props : Bytes)
    → no_props props ≡ true
    → (code == 0x00) ≡ false
    → put_reason code props ≡ code ∷ []
unfolding put_reason
put_reason-short code props h other = ground arith

optional_properties-of :
    (t : PacketType) (q : Properties) (props : Bytes)
    → read_properties t props ≡ ok (q, [])
    → optional_properties t props ≡ ok (q, [])
unfolding optional_properties
optional_properties-of t q [] e = unfold read_properties var_byte_int var_byte_int_loop in cc
optional_properties-of t q (b ∷ s) e = e

-- A Reason Code and properties, whichever short form they were written in.
optional_reason-put_reason :
    (t : PacketType) (code : ℕ) (q : Properties) (props : Bytes)
    → read_properties t props ≡ ok (q, [])
    → optional_reason t (put_reason code props) ≡ ok ((code, q), [])
unfolding optional_reason byte
optional_reason-put_reason t code q props e = elim (Bool-cases (no_props props)) [
  | inl bare ↦
      let gone : q ≡ no_properties = no_props→no_properties t q props e bare in
      elim (Bool-cases (code == 0x00)) [
        | inl success ↦
            let zero : code ≡ 0x00 = (==_iff code 0x00).0 success in
            rw (zero, put_reason-bare props bare, gone)
        | inr other ↦
            rw (put_reason-short code props bare other, gone) (unfold optional_properties in refl)
      ]
  | inr more ↦ rw (put_reason-shorter code props more, optional_properties-of t q props e)
]

-- What was written, read alone.
reads_alone :
    (t : PacketType) (p : Option Properties) (props : Bytes)
    → IsValidOption t p
    → encode_properties p t ≡ ok props
    → length props ≤ max_var_byte_int
    → read_properties t props ≡ ok (read_back t p, [])
reads_alone t p props valid e short =
    rw append-nil at (read_properties-encode_properties t p props [] valid e short)

length-put_reason :
    (code : ℕ) (props : Bytes)
    → (length props ≤ 1) ⊎ (length props ≤ length (put_reason code props))
unfolding put_reason no_props
length-put_reason code [] = inl (omega arith)
length-put_reason code (b ∷ []) = inl (omega arith)
length-put_reason code (b ∷ c ∷ s) = inr (ground arith)

-- What a reader makes of an acknowledgement or of a Reason Code with properties.
unfoldable pub read_back_ack : PacketType → Ack → Ack
read_back_ack t a = record a { properties = some (read_back t a.properties) }

unfoldable pub read_back_reason : PacketType → Reason → Reason
read_back_reason t d = record d { properties = some (read_back t d.properties) }

pub decode_ack-encode_ack :
    (t : PacketType) (a : Ack) (flags : ℕ) (body : Bytes)
    → a.packet_id < 2 ^ 16
    → IsValidOption t a.properties
    → encode_ack t a ≡ ok (flags, body)
    → length body ≤ max_var_byte_int
    → decode_ack t body ≡ ok (ack_packet t (read_back_ack t a), [])
unfolding encode_ack decode_ack read_back_ack
decode_ack-encode_ack t a flags body small valid e short =
    let (props, written, whole) = >>=-eq-ok (encode_properties a.properties t) _ e in
    let pairs = ok-injective whole in
    let fits : length props ≤ max_var_byte_int = omega (
      arith,
      ap (λ (z : ℕ × Bytes). length z.1) pairs,
      length-append (put_uint16 a.packet_id) (put_reason a.reason_code props),
      length-put_reason a.reason_code props,
    ) in
    subst (λ (z : ℕ × Bytes). decode_ack t z.1 ≡ ok (ack_packet t (read_back_ack t a), [])) pairs
      (rw (
        uint16-put_uint16 a.packet_id (put_reason a.reason_code props) small,
        optional_reason-put_reason t a.reason_code (read_back t a.properties) props
            (reads_alone t a.properties props valid written fits),
      ))

optional_reason-encode_reason :
    (t : PacketType) (d : Reason) (flags : ℕ) (body : Bytes)
    → IsValidOption t d.properties
    → encode_reason t d ≡ ok (flags, body)
    → length body ≤ max_var_byte_int
    → optional_reason t body ≡ ok ((d.reason_code, read_back t d.properties), [])
unfolding encode_reason
optional_reason-encode_reason t d flags body valid e short =
    let (props, written, whole) = >>=-eq-ok (encode_properties d.properties t) _ e in
    let pairs = ok-injective whole in
    let fits : length props ≤ max_var_byte_int =
      omega
        (arith, ap (λ (z : ℕ × Bytes). length z.1) pairs, length-put_reason d.reason_code props) in
    subst
      (λ (z : ℕ × Bytes).
        optional_reason t z.1 ≡ ok ((d.reason_code, read_back t d.properties), []))
      pairs
      (optional_reason-put_reason t d.reason_code (read_back t d.properties) props
        (reads_alone t d.properties props valid written fits))

pub decode_disconnect-encode_reason :
    (d : Reason) (flags : ℕ) (body : Bytes)
    → IsValidOption PacketType.disconnect d.properties
    → encode_reason PacketType.disconnect d ≡ ok (flags, body)
    → length body ≤ max_var_byte_int
    → decode_disconnect body ≡ ok (Packet.disconnect (read_back_reason PacketType.disconnect d), [])
unfolding decode_disconnect read_back_reason
decode_disconnect-encode_reason d flags body valid e short =
    rw (optional_reason-encode_reason PacketType.disconnect d flags body valid e short)

pub decode_auth-encode_reason :
    (d : Reason) (flags : ℕ) (body : Bytes)
    → IsValidOption PacketType.auth d.properties
    → encode_reason PacketType.auth d ≡ ok (flags, body)
    → length body ≤ max_var_byte_int
    → decode_auth body ≡ ok (Packet.auth (read_back_reason PacketType.auth d), [])
unfolding decode_auth read_back_reason
decode_auth-encode_reason d flags body valid e short =
    rw (optional_reason-encode_reason PacketType.auth d flags body valid e short)

read_codes-all : (s : Bytes) → read_codes s ≡ ok (s, [])
unfolding read_codes
read_codes-all [] = refl
read_codes-all (b ∷ s) = rw (read_codes-all s)

unfoldable pub read_back_code_list : PacketType → CodeList → CodeList
read_back_code_list t l = record l { properties = some (read_back t l.properties) }

pub decode_reason_code_list-encode_reason_code_list :
    (t : PacketType) (l : CodeList) (flags : ℕ) (body : Bytes)
    → l.packet_id < 2 ^ 16
    → IsValidOption t l.properties
    → encode_reason_code_list t l ≡ ok (flags, body)
    → length body ≤ max_var_byte_int
    → decode_reason_code_list t body ≡ ok (read_back_code_list t l, [])
unfolding encode_reason_code_list decode_reason_code_list read_back_code_list
decode_reason_code_list-encode_reason_code_list t l flags body small valid e short =
    let (some_codes, e') = guard-then (not (is_empty l.reason_codes)) protocol _ e in
    let (props, written, whole) = >>=-eq-ok (encode_properties l.properties t) _ e' in
    let pairs = ok-injective whole in
    let fits : length props ≤ max_var_byte_int = omega (
      arith,
      ap (λ (z : ℕ × Bytes). length z.1) pairs,
      length-append (put_uint16 l.packet_id) (props ++ l.reason_codes),
      length-append props l.reason_codes,
    ) in
    subst (λ (z : ℕ × Bytes). decode_reason_code_list t z.1 ≡ ok (read_back_code_list t l, []))
      pairs
      (rw (
        uint16-put_uint16 l.packet_id (props ++ l.reason_codes) small,
        read_properties-encode_properties t l.properties props l.reason_codes valid written fits,
        read_codes-all l.reason_codes,
        some_codes,
      ))
