-- ===== src/Packet/RoundTrip/Header.antt =====
-- The fixed header of packet/packet.go: type, flags and Remaining Length.
use natsmqtt.Prelude.{ℕ, zero, suc, ◌+◌, ◌*◌, ◌/◌, ◌≤◌, ◌<◌, ◌^◌, ◌≡◌, refl, ap, ◌∙◌, ◌++◌}
use natsmqtt.Prelude.{
  [], ◌∷◌, Bytes, arith, length, length-append, bit_and, bit_or, or_nibbles, low_nibble,
}
use natsmqtt.Prelude.{◌==◌, inl, inr, Bool-cases}
use natsmqtt.Packet.Types.{PacketType, type_code}
use natsmqtt.Packet.Result.{ok}
use natsmqtt.Packet.Reader.{var_byte_int_loop, var_byte_int}
use natsmqtt.Packet.Writer.{put_var_byte_int, max_var_byte_int}
use natsmqtt.Packet.Decode.Wire.{type_of_code, remaining_length_loop, read_remaining_length}
use natsmqtt.Packet.RoundTrip.Primitives.{var_byte_int-put_var_byte_int}

pub type_code-lt : (t : PacketType) → type_code t < 16
unfolding type_code
type_code-lt PacketType.will_context = omega arith
type_code-lt _ = omega arith

pub type_of_code-type_code : (t : PacketType) → type_of_code (type_code t) ≡ t
unfolding type_code type_of_code
type_of_code-type_code PacketType.will_context = refl
type_of_code-type_code _ = refl

-- The two nibbles of the first byte.
pub first_byte :
    (t : PacketType) (flags : ℕ)
    → flags < 16
    → (bit_or (type_code t * 2 ^ 4) flags / 2 ^ 4 ≡ type_code t)
      × (bit_and (bit_or (type_code t * 2 ^ 4) flags) 0x0f ≡ flags)
first_byte t flags h =
    let small = type_code-lt t in
    let joined = or_nibbles (type_code t) flags small h in
    (
      rw joined (omega arith),
      rw (joined, low_nibble (type_code t * 16 + flags) (omega arith)) (omega arith),
    )

-- The two decoders of a Variable Byte Integer agree; the fixed header's also counts the bytes.
pub remaining_length_loop-of :
    (rounds i value m : ℕ) (s : Bytes) (x : ℕ) (rest : Bytes)
    → var_byte_int_loop rounds i value m s ≡ ok (x, rest)
    → (w : ℕ) × (remaining_length_loop rounds i value m s ≡ ok ((x, w), rest))
      × (w + length rest ≡ i + length s)
unfolding var_byte_int_loop remaining_length_loop
remaining_length_loop-of zero i value m s x rest e = cc
remaining_length_loop-of (suc r) i value m [] x rest e = cc
remaining_length_loop-of (suc r) i value m (b ∷ s) x rest e =
    elim (Bool-cases (bit_and b 0x80 == 0)) [
      | inl last ↦ (i + 1, ground arith, ground arith)
      | inr more ↦
          let (w, e', count) =
            remaining_length_loop-of r (suc i) (value + bit_and b 0x7f * 2 ^ m) (m + 7) s x rest
              (rw more at e) in
          (w, rw more e', omega arith)
    ]

-- The Remaining Length that was written for a body, and its width.
pub read_remaining_length-put_var_byte_int :
    (n : ℕ) (s : Bytes)
    → n ≤ max_var_byte_int
    → read_remaining_length (put_var_byte_int n ++ s) ≡ ok ((n, length (put_var_byte_int n)), s)
unfolding var_byte_int read_remaining_length
read_remaining_length-put_var_byte_int n s h =
    let (w, e, count) =
      remaining_length_loop-of 4 0 0 0 (put_var_byte_int n ++ s) n s
        (var_byte_int-put_var_byte_int n s h) in
    e ∙ ap (λ (k : ℕ). ok ((n, k), s)) (omega (arith, length-append (put_var_byte_int n) s))
