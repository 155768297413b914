-- ===== src/Packet/RoundTrip/Primitives.antt =====
-- The round trips of the primitive values of packet/codec.go, each with the bytes that follow it.
use natsmqtt.Prelude.{ℕ, zero, suc, ◌+◌, ◌*◌, ◌/◌, ◌%◌, ◌^◌, ◌≤◌, ◌<◌, ◌≡◌, ap, ◌∙◌, ◌++◌, ◌∷◌}
use natsmqtt.Prelude.{
  [], inl, inr, Bool-cases, Bytes, arith, length, length-append, low_seven, top_bit, set_top_bit,
  ltb→lt,
}
use natsmqtt.Prelude.{take-append, drop-append, append_assoc, ltb}
use natsmqtt.Packet.Result.{ok}
use natsmqtt.Packet.Utf8.{validate_utf8}
use natsmqtt.Packet.Reader.{uint16, uint32, slice}
use natsmqtt.Packet.Reader.{var_byte_int_loop, var_byte_int, binary, text, string_pair}
use natsmqtt.Packet.Writer.{put_uint16, put_uint32, put_var_byte_int_loop, put_var_byte_int}
use natsmqtt.Packet.Writer.{max_var_byte_int, put_binary, put_text, put_string_pair}
use native.Mathlib.Nat.{div-add-mod}
use native.Mathlib.Numerals.{towards_suc}

pub uint16-put_uint16 : (v : ℕ) (s : Bytes) → v < 2 ^ 16 → uint16 (put_uint16 v ++ s) ≡ ok (v, s)
unfolding uint16 put_uint16
uint16-put_uint16 v s h = ground arith

pub uint32-put_uint32 : (v : ℕ) (s : Bytes) → v < 2 ^ 32 → uint32 (put_uint32 v ++ s) ≡ ok (v, s)
unfolding uint32 put_uint32
uint32-put_uint32 v s h = ground arith

-- One round of the decoder on a last byte, and on a byte with the top bit set over the group `g`.
last_byte :
    (k i value m w : ℕ) (s : Bytes)
    → w < 128
    → (0 < i → 0 < w)
    → var_byte_int_loop (suc k) i value m (w ∷ s) ≡ ok (value + w * 2 ^ m, s)
unfolding var_byte_int_loop
last_byte k i value m w s hw minimal = ground (arith, low_seven w, top_bit w)

inner_byte :
    (k i value m g : ℕ) (s : Bytes)
    → g < 128
    → var_byte_int_loop (suc k) i value m ((g + 128) ∷ s)
      ≡ var_byte_int_loop k (suc i) (value + g * 2 ^ m) (m + 7) s
unfolding var_byte_int_loop
inner_byte k i value m g s hg = ground (arith, low_seven (g + 128), top_bit (g + 128))

-- One group of seven bits, and those above it.
next_group : (v m : ℕ) → v * 2 ^ m ≡ v % 128 * 2 ^ m + v / 128 * 2 ^ (m + 7)
next_group v m =
    let weight : 2 ^ (m + 7) ≡ 2 ^ m * 128 = simp towards_suc (omega arith) in
    let parts = ap (λ (x : ℕ). x * 2 ^ m) (div-add-mod v 128) in rw weight (omega (arith, parts))

put_last : (f v : ℕ) → v < 128 → put_var_byte_int_loop (suc f) v ≡ v ∷ []
unfolding put_var_byte_int_loop
put_last f v h = ground arith

put_inner :
    (f v : ℕ)
    → 0 < v / 128
    → put_var_byte_int_loop (suc f) v ≡ (v % 128 + 128) ∷ put_var_byte_int_loop f (v / 128)
unfolding put_var_byte_int_loop
put_inner f v h = ground (arith, set_top_bit (v % 128))

var_byte_int_loop-put :
    (k f i value m v : ℕ) (s : Bytes)
    → v < 128 ^ suc k
    → k < f
    → (0 < i → 0 < v)
    → var_byte_int_loop (suc k) i value m (put_var_byte_int_loop f v ++ s)
      ≡ ok (value + v * 2 ^ m, s)
var_byte_int_loop-put k zero i value m v s hv hf minimal = absurd (omega arith)
var_byte_int_loop-put zero (suc f) i value m v s hv hf minimal =
    rw (put_last f v (omega arith)) (last_byte zero i value m v s (omega arith) minimal)
var_byte_int_loop-put (suc k) (suc f) i value m v s hv hf minimal =
    elim (Bool-cases (ltb 0 (v / 128))) [
      | inl more ↦
          rw
            (
              put_inner f v (ltb→lt _ _ more),
              inner_byte (suc k) i value m (v % 128) _ (omega arith),
            )
            (var_byte_int_loop-put k f (suc i) (value + v % 128 * 2 ^ m) (m + 7) (v / 128) s
                (omega arith) (omega arith) (λ z. ltb→lt _ _ more)
              ∙ ap (λ t. ok (t, s)) (omega (arith, next_group v m)))
      | inr done ↦
          rw (put_last f v (ground arith)) (last_byte (suc k) i value m v s (ground arith) minimal)
    ]

-- A Variable Byte Integer of at most 268435455 comes back, and what follows it is left.
pub var_byte_int-put_var_byte_int :
    (v : ℕ) (s : Bytes) → v ≤ max_var_byte_int → var_byte_int (put_var_byte_int v ++ s) ≡ ok (v, s)
unfolding var_byte_int put_var_byte_int
var_byte_int-put_var_byte_int v s h =
    var_byte_int_loop-put 3 10 0 0 0 v s (omega arith) (omega arith) (λ z. absurd (omega arith))
    ∙ ap (λ t. ok (t, s)) (omega arith)

pub slice-append : (b s : Bytes) → slice (length b) (b ++ s) ≡ ok (b, s)
slice-append b s = ground (arith, take-append b s, drop-append b s, length-append b s)

pub binary-put_binary : (b s : Bytes) → length b ≤ 65535 → binary (put_binary b ++ s) ≡ ok (b, s)
unfolding binary put_binary
binary-put_binary b s h =
    rw (append_assoc, uint16-put_uint16 (length b % 2 ^ 16) (b ++ s) (omega arith))
      (let small : length b % 65536 ≡ length b = omega arith in rw small (slice-append b s))

pub text-put_text :
    (b s : Bytes) → length b ≤ 65535 → validate_utf8 b ≡ ok tt → text (put_text b ++ s) ≡ ok (b, s)
unfolding text put_text
text-put_text b s h valid = rw (binary-put_binary b s h, valid)

pub string_pair-put_string_pair :
    (k v s : Bytes)
    → length k ≤ 65535
    → length v ≤ 65535
    → validate_utf8 k ≡ ok tt
    → validate_utf8 v ≡ ok tt
    → string_pair (put_string_pair k v ++ s) ≡ ok ((k, v), s)
unfolding string_pair put_string_pair
string_pair-put_string_pair k v s hk hv vk vv =
    rw (append_assoc, text-put_text k _ hk vk, text-put_text v s hv vv)
