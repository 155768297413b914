-- ===== src/Packet/RoundTrip/Truncated.antt =====
-- What `Read` says of a stream that ends inside a packet.
use natsmqtt.Prelude.{
  ℕ, zero, suc, ◌+◌, ◌*◌, ◌/◌, ◌%◌, ◌-◌, ◌≤◌, ◌<◌, ◌^◌, ◌≡◌, refl, ap, ◌∙◌, ◌++◌, ◌&&◌, false, true,
  bit_or, bit_and, ◌==◌,
}
use natsmqtt.Prelude.{
  [], ◌∷◌, Bytes, arith, length, length-append, take, ltb, leb, leb→le, Bool-cases, ◌⊎◌, inl, inr,
  subst, set_top_bit, top_bit,
}
use natsmqtt.Packet.Types.{type_code}
use natsmqtt.Packet.Result.{malformed, unexpected_eof, ok, err, guard-then, >>=-eq-ok}
use natsmqtt.Packet.Writer.{
  put_var_byte_int_loop, put_var_byte_int, max_var_byte_int, var_byte_int_len,
}
use natsmqtt.Packet.Model.{Packet, packet_type}
use natsmqtt.Packet.Decode.Wire.{
  remaining_length_loop, read_remaining_length, read_body, read_after_first, read,
}
use natsmqtt.Packet.Encode.Wire.{encode_packet, frame, encode}
use natsmqtt.Packet.RoundTrip.Loop.{ok-injective}
use natsmqtt.Packet.RoundTrip.Header.{
  type_of_code-type_code, first_byte, read_remaining_length-put_var_byte_int,
}
use natsmqtt.Packet.Reader.{and_then}
use natsmqtt.Packet.RoundTrip.Size.{var_byte_int_len-put_var_byte_int, frame-length}
use natsmqtt.Packet.RoundTrip.Flags.{encode_packet-Accepted}

-- A byte with its top bit set is not the last of a Variable Byte Integer.
more_byte : (g : ℕ) → g < 128 → (bit_and (bit_or g 0x80) 0x80 == 0) ≡ false
more_byte g h = rw (set_top_bit g h) (ground (arith, top_bit (g + 128)))

remaining_length_loop-cut :
    (r f i value m n v : ℕ)
    → n < length (put_var_byte_int_loop f v)
    → length (put_var_byte_int_loop f v) ≤ r
    → remaining_length_loop r i value m (take n (put_var_byte_int_loop f v)) ≡ err unexpected_eof
unfolding remaining_length_loop put_var_byte_int_loop
remaining_length_loop-cut zero f i value m n v h k = absurd (omega arith)
remaining_length_loop-cut (suc r) zero i value m n v h k = absurd (omega arith)
remaining_length_loop-cut (suc r) (suc f) i value m zero v h k = refl
remaining_length_loop-cut (suc r) (suc f) i value m (suc n) v h k =
    elim (Bool-cases (ltb 0 (v / 128))) [
      | inl more ↦
          let g = v % 128 in
          let later =
            remaining_length_loop-cut r f (suc i) (value + bit_and (bit_or g 0x80) 0x7f * 2 ^ m)
              (m + 7) n (v / 128) (ground arith) (ground arith) in
          rw (more, more_byte g (omega arith)) later
      | inr last ↦ absurd (ground arith)
    ]

four_bytes : (n : ℕ) → n ≤ max_var_byte_int → length (put_var_byte_int n) ≤ 4
four_bytes n h = subst (λ k. k ≤ 4) (var_byte_int_len-put_var_byte_int n h) (short n)
  where
    short : (n : ℕ) → var_byte_int_len n ≤ 4
    short n = unfold var_byte_int_len in ground arith

take-before : (n : ℕ) (xs ys : Bytes) → n ≤ length xs → take n (xs ++ ys) ≡ take n xs
take-before zero xs ys h = refl
take-before (suc n) [] ys h = absurd (omega arith)
take-before (suc n) (x ∷ xs) ys h = ap (λ z. x ∷ z) (take-before n xs ys (omega arith))

take-beyond : (n : ℕ) (xs ys : Bytes) → take (length xs + n) (xs ++ ys) ≡ xs ++ take n ys
take-beyond n [] ys = ap (λ k. take k ys) (omega arith)
take-beyond n (x ∷ xs) ys =
    ap (λ k. take k (x ∷ (xs ++ ys))) (shifted n xs) ∙ ap (λ z. x ∷ z) (take-beyond n xs ys)
  where
    shifted : (n : ℕ) (xs : Bytes) → suc (length xs) + n ≡ suc (length xs + n)
    shifted n xs = omega arith

length-take : (n : ℕ) (xs : Bytes) → n ≤ length xs → length (take n xs) ≡ n
length-take zero xs h = refl
length-take (suc n) [] h = absurd (omega arith)
length-take (suc n) (x ∷ xs) h = ap suc (length-take n xs (omega arith))

module _ (p : Packet) (flags : ℕ) (body : Bytes) (max : ℕ) (e : encode_packet p ≡ ok (flags, body))
    (short : length body ≤ max_var_byte_int)
    (within : (max ≡ 0) ⊎ (length (frame (packet_type p) flags body) ≤ max)) where
  read-first :
      (s : Bytes)
      → read max (bit_or (type_code (packet_type p) * 2 ^ 4) flags ∷ s)
        ≡ and_then (read_remaining_length s) (read_body max (packet_type p) flags)
  unfolding read read_after_first
  read-first s =
      let a = encode_packet-Accepted p flags body e in
      let (high, low) = first_byte (packet_type p) flags a.nibble in
      rw (high, low, type_of_code-type_code (packet_type p), a.not_zero, a.flags_ok) refl

  header-cut :
      (n : ℕ)
      → n < length (put_var_byte_int (length body))
      → read_remaining_length (take n (put_var_byte_int (length body) ++ body)) ≡ err unexpected_eof
  unfolding read_remaining_length put_var_byte_int
  header-cut n h =
      ap read_remaining_length (take-before n (put_var_byte_int (length body)) body (omega arith))
      ∙ remaining_length_loop-cut 4 10 0 0 0 n (length body) h (four_bytes (length body) short)

  body-cut :
      (n : ℕ)
      → n < length body
      → and_then
          (read_remaining_length (put_var_byte_int (length body) ++ take n body))
          (read_body max (packet_type p) flags)
        ≡ err unexpected_eof
  unfolding read_body
  body-cut n h =
      let whole = frame-length (packet_type p) flags body in
      let fits : (ltb 0 max && ltb max (1 + length (put_var_byte_int (length body)) + length body))
          ≡ false =
        ground arith in
      let missing : ltb (length (take n body)) (length body) ≡ true =
        ground (arith, length-take n body) in
      rw (read_remaining_length-put_var_byte_int (length body) (take n body) short, fits, missing)
        refl

  frame-cut :
      (n : ℕ)
      → 0 < n
      → n < length (frame (packet_type p) flags body)
      → read max (take n (frame (packet_type p) flags body)) ≡ err unexpected_eof
  unfolding frame
  frame-cut zero h k = absurd (omega arith)
  frame-cut (suc n) h k =
      let lb = put_var_byte_int (length body) in
      let size = length-append lb body in
      elim (Bool-cases (ltb n (length lb))) [
        | inl inside ↦
            read-first (take n (lb ++ body))
            ∙ ap (λ r. and_then r (read_body max (packet_type p) flags))
                (header-cut n (ground arith))
        | inr beyond ↦
            let m = n - length lb in
            let split : n ≡ length lb + m = ground arith in
            read-first (take n (lb ++ body))
            ∙ ap (λ z. and_then (read_remaining_length z) (read_body max (packet_type p) flags))
                (ap (λ k. take k (lb ++ body)) split ∙ take-beyond m lb body)
            ∙ body-cut m (ground arith)
      ]

-- Where the stream ends inside the bytes of an encoded packet, which are not above the limit, `Read`
-- says so: not that the stream is over, nor that the packet is malformed.
pub read-take :
    (p : Packet) (bytes : Bytes) (max n : ℕ)
    → encode p ≡ ok bytes
    → (max ≡ 0) ⊎ (length bytes ≤ max)
    → 0 < n
    → n < length bytes
    → read max (take n bytes) ≡ err unexpected_eof
unfolding encode
read-take p bytes max n e within h k =
    let ((flags, body), written, e') = >>=-eq-ok (encode_packet p) _ e in
    let (short, whole) = guard-then (leb (length body) max_var_byte_int) malformed _ e' in
    subst
      (λ z. (max ≡ 0) ⊎ (length z ≤ max) → n < length z → read max (take n z) ≡ err unexpected_eof)
      (ok-injective whole) (λ w l. frame-cut p flags body max written (leb→le _ _ short) w n h l)
      within k
