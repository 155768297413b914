-- ===== src/Packet/Reader.antt =====
-- The `reader` of packet/codec.go. Its state, a buffer and a position, is the list of the bytes from
-- that position on: no read looks at an earlier byte.
use natsmqtt.Prelude.{ℕ, zero, suc, ◌+◌, ◌*◌, ◌^◌, Bool, ◌&&◌, [], ◌∷◌, bit_and}
use natsmqtt.Prelude.{Bytes, ltb, ◌==◌, if◌then◌else◌, length, take, drop, is_empty}
use natsmqtt.Packet.Result.{Error, malformed, Result, ok, err}
use natsmqtt.Packet.Utf8.{validate_utf8}

-- A method of the reader: its result and the bytes it left, or its error.
abbrev pub Reader {ℓ} : Type ℓ → Type ℓ
Reader A = Bytes → Result (A × Bytes)

abbrev pub and_then {ℓ κ} :
    {A : Type ℓ} {B : Type κ} → Result (A × Bytes) → (A → Reader B) → Result (B × Bytes)
and_then (ok (a, s)) f = f a s
and_then (err e) f = err e

infixl 5 ◌>>=◌ ◌>>◌
abbrev pub ◌>>=◌ {ℓ κ} : {A : Type ℓ} {B : Type κ} → Reader A → (A → Reader B) → Reader B
◌>>=◌ m f s = and_then (m s) f

abbrev pub ◌>>◌ {ℓ} : {B : Type ℓ} → Reader (Unit {0}) → Reader B → Reader B
◌>>◌ m k s = and_then (m s) (λ _. k)

abbrev pub return {ℓ} : {A : Type ℓ} → A → Reader A
return a s = ok (a, s)

-- A computation that reads nothing, such as a check of what was read.
abbrev pub lift {ℓ} : {A : Type ℓ} → Result A → Reader A
lift (ok a) s = ok (a, s)
lift (err e) s = err e

-- `if !b { return err }`
abbrev pub require : Bool → Error → Reader (Unit {0})
require b e s = if b then ok (tt, s) else err e

-- `empty`
abbrev pub at_end : Reader Bool
at_end s = ok (is_empty s, s)

unfoldable pub byte : Reader ℕ
byte [] = err malformed
byte (b ∷ s) = ok (b, s)

-- The shifted bytes share no bit, so `|` adds them.
unfoldable pub uint16 : Reader ℕ
uint16 (a ∷ b ∷ s) = ok (a * 2 ^ 8 + b, s)
uint16 _ = err malformed

unfoldable pub uint32 : Reader ℕ
uint32 (a ∷ b ∷ c ∷ d ∷ s) = ok (a * 2 ^ 24 + b * 2 ^ 16 + c * 2 ^ 8 + d, s)
uint32 _ = err malformed

-- The loop of `varByteInt`: the rounds left, the index of this round, `value` and `multiplier`.
unfoldable pub var_byte_int_loop : ℕ → ℕ → ℕ → ℕ → Reader ℕ
var_byte_int_loop zero i value multiplier s = err malformed
var_byte_int_loop (suc rounds) i value multiplier [] = err malformed
var_byte_int_loop (suc rounds) i value multiplier (b ∷ s) =
    let value' = value + bit_and b 0x7f * 2 ^ multiplier in
    let rest = var_byte_int_loop rounds (suc i) value' (multiplier + 7) s in
    if bit_and b 0x80 == 0
    then (if ltb 0 i && b == 0 then err malformed else ok (value', s))
    else rest

unfoldable pub var_byte_int : Reader ℕ
var_byte_int s = var_byte_int_loop 4 0 0 0 s

-- `r.buf[r.pos : r.pos+n]`, past a check that n bytes remain
abbrev pub slice : ℕ → Reader Bytes
slice n s = if ltb (length s) n then err malformed else ok (take n s, drop n s)

unfoldable pub binary : Reader Bytes
binary = do n ← uint16; slice n

-- `string`
unfoldable pub text : Reader Bytes
text = do b ← binary; lift (validate_utf8 b); return b

unfoldable pub string_pair : Reader (Bytes × Bytes)
string_pair = do k ← text; v ← text; return (k, v)
