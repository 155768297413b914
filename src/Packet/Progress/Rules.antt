-- ===== src/Packet/Progress/Rules.antt =====
-- Readers that end: no loop of theirs runs out of fuel, and they leave no more than they were given.
use natsmqtt.Prelude.{
  ℕ, zero, suc, ◌+◌, ◌*◌, ◌^◌, ◌≤◌, ◌≡◌, refl, Bool, true, false, [], ◌∷◌, List, Option, none, some,
}
use natsmqtt.Prelude.{Bytes, arith, length, length-drop, ltb, ◌==◌, if◌then◌else◌, bit_and, ◌&&◌}
use natsmqtt.Packet.Result.{Error, malformed, out_of_fuel, Result, ok, err}
use natsmqtt.Packet.Utf8.{between, runes, check_runes, validate_utf8}
use natsmqtt.Packet.Reader.{Reader, and_then, ◌>>=◌, return, require, lift, slice}
use natsmqtt.Packet.Reader.{
  byte, uint16, uint32, var_byte_int_loop, var_byte_int, binary, text, string_pair,
}

abbrev pub is_fuel : Error → Bool
is_fuel out_of_fuel = true
is_fuel _ = false

-- A result that is no running out of fuel.
abbrev pub Calm {ℓ} : {A : Type ℓ} → Result A → Type 0
Calm (ok a) = Unit
Calm (err e) = is_fuel e ≡ false

-- What a reader makes of `s`: no running out, and at least `n` bytes taken.
abbrev pub Settles {ℓ} : {A : Type ℓ} → ℕ → Bytes → Result (A × Bytes) → Type 0
Settles n s (ok (a, s')) = n + length s' ≤ length s
Settles n s (err e) = is_fuel e ≡ false

unfoldable pub Takes {ℓ} : {A : Type ℓ} → ℕ → Reader A → Type 0
Takes n m = (s : Bytes) → Settles n s (m s)

module _ {ℓ} {A : Type ℓ} where
  pub weaken :
      (n k : ℕ) (s : Bytes) (r : Result (A × Bytes)) → k ≤ n → Settles n s r → Settles k s r
  weaken n k s (ok (a, s')) h t = omega arith
  weaken n k s (err e) h t = t

  pub longer :
      (n : ℕ) (b : ℕ) (s : Bytes) (r : Result (A × Bytes)) → Settles n s r → Settles n (b ∷ s) r
  longer n b s (ok (a, s')) t = omega arith
  longer n b s (err e) t = t

  pub if-Settles :
      (n : ℕ) (s : Bytes) (b : Bool) (x y : Result (A × Bytes))
      → Settles n s x
      → Settles n s y
      → Settles n s (if b then x else y)
  if-Settles n s true x y h k = h
  if-Settles n s false x y h k = k

  pub if-Calm : (b : Bool) (x y : Result A) → Calm x → Calm y → Calm (if b then x else y)
  if-Calm true x y h k = h
  if-Calm false x y h k = k

  pub return-Takes : (a : A) → Takes 0 (return a)
  unfolding Takes
  return-Takes a s = omega arith

  pub lift-Takes : (r : Result A) → Calm r → Takes 0 (lift r)
  unfolding Takes
  lift-Takes (ok a) c s = omega arith
  lift-Takes (err e) c s = c

module _ {ℓ} {A : Type ℓ} where
  pub if-Takes :
      (b : Bool) (m k : Reader A) → Takes 0 m → Takes 0 k → Takes 0 (λ s. if b then m s else k s)
  unfolding Takes
  if-Takes b m k h j s = if-Settles 0 s b (m s) (k s) (h s) (j s)

pub require-Takes : (b : Bool) (e : Error) → is_fuel e ≡ false → Takes 0 (require b e)
unfolding Takes
require-Takes true e h s = omega arith
require-Takes false e h s = h

module _ {ℓ κ} {A : Type ℓ} {B : Type κ} (n : ℕ) where
  -- What is read first counts.
  pub and_then-Settles :
      (s : Bytes) (r : Result (A × Bytes)) (f : A → Reader B)
      → Settles n s r
      → ((a : A) → Takes 0 (f a))
      → Settles n s (and_then r f)
  unfolding Takes
  and_then-Settles s (ok (a, s')) f h k = onwards (f a s') (k a s')
    where
      onwards : (r : Result (B × Bytes)) → Settles 0 s' r → Settles n s r
      onwards (ok (b, s'')) t = omega arith
      onwards (err e) t = t
  and_then-Settles s (err e) f h k = h

  pub bind-Takes :
      (m : Reader A) (f : A → Reader B) → Takes n m → ((a : A) → Takes 0 (f a)) → Takes n (m >>= f)
  unfolding Takes
  bind-Takes m f h k s = and_then-Settles s (m s) f (h s) k

pub free {ℓ} : {A : Type ℓ} (n : ℕ) (m : Reader A) → Takes n m → Takes 0 m
unfolding Takes
free n m h s = weaken n 0 s (m s) (omega arith) (h s)

pub byte-Takes : Takes 1 byte
unfolding byte Takes
byte-Takes [] = refl
byte-Takes (b ∷ s) = omega arith

pub uint16-Takes : Takes 2 uint16
unfolding uint16 Takes
uint16-Takes [] = refl
uint16-Takes (a ∷ []) = refl
uint16-Takes (a ∷ b ∷ s) = omega arith

pub uint32-Takes : Takes 4 uint32
unfolding uint32 Takes
uint32-Takes [] = refl
uint32-Takes (a ∷ []) = refl
uint32-Takes (a ∷ b ∷ []) = refl
uint32-Takes (a ∷ b ∷ c ∷ []) = refl
uint32-Takes (a ∷ b ∷ c ∷ d ∷ s) = omega arith

var_byte_int_loop-Takes : (rounds i value m : ℕ) → Takes 1 (var_byte_int_loop rounds i value m)
unfolding var_byte_int_loop Takes
var_byte_int_loop-Takes zero i value m s = refl
var_byte_int_loop-Takes (suc r) i value m [] = refl
var_byte_int_loop-Takes (suc r) i value m (b ∷ s) =
    let later = var_byte_int_loop-Takes r (suc i) (value + bit_and b 0x7f * 2 ^ m) (m + 7) s in
    if-Settles 1 (b ∷ s) (bit_and b 0x80 == 0) _ _
      (if-Settles 1 (b ∷ s) (ltb 0 i && b == 0) _ _ refl (omega arith)) (longer 1 b s _ later)

pub var_byte_int-Takes : Takes 1 var_byte_int
unfolding var_byte_int Takes
var_byte_int-Takes s = var_byte_int_loop-Takes 4 0 0 0 s

slice-Takes : (n : ℕ) → Takes 0 (slice n)
unfolding Takes
slice-Takes n s = if-Settles 0 s (ltb (length s) n) _ _ refl (omega (arith, length-drop n s))

pub binary-Takes : Takes 2 binary
unfolding binary
binary-Takes = bind-Takes 2 uint16 slice uint16-Takes slice-Takes

check_runes-Calm : (rs : List ℕ) → Calm (check_runes rs)
unfolding check_runes
check_runes-Calm [] = tt
check_runes-Calm (r ∷ rs) =
    if-Calm (r == 0) _ _ refl (if-Calm (between 0xd800 0xdfff r) _ _ refl (check_runes-Calm rs))

validate_utf8-Calm : (s : Bytes) → Calm (validate_utf8 s)
unfolding validate_utf8
validate_utf8-Calm s = of_runes (runes s)
  where
    of_runes :
        (o : Option (List ℕ))
        → Calm
            (elim o as (λ _. Result (Unit {0})) [ none ↦ err malformed | some rs ↦ check_runes rs ])
    of_runes none = refl
    of_runes (some rs) = check_runes-Calm rs

pub text-Takes : Takes 2 text
unfolding text
text-Takes = bind-Takes 2 binary _ binary-Takes (λ b.
    bind-Takes 0 (lift (validate_utf8 b)) _ (lift-Takes _ (validate_utf8-Calm b))
      (λ _. return-Takes b))

pub string_pair-Takes : Takes 2 string_pair
unfolding string_pair
string_pair-Takes = bind-Takes 2 text _ text-Takes (λ k.
    bind-Takes 0 text _ (free 2 text text-Takes) (λ v. return-Takes {A = Bytes × Bytes} (k, v)))
