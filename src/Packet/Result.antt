-- ===== src/Packet/Result.antt =====
-- Go's (value, error) pairs in the package packet, by the kind of the error.
use natsmqtt.Prelude.{ℕ, Bool, true, false, ◌≡◌, refl, if◌then◌else◌}

-- `malformed`, `protocol` and `packet_too_large` are the three exported errors, `too_long` is what
-- `checkStringLen` and `checkBinaryLen` return, `eof` and `unexpected_eof` come from the stream.
-- `out_of_fuel` is no Go value: a loop of the model ran out of rounds.
pub data Error : Type 0 where
  malformed protocol packet_too_large too_long eof unexpected_eof out_of_fuel : Error
  unsupported_version : ℕ → Error

pub data Result {ℓ} (A : Type ℓ) : Type ℓ where
  ok : A → Result A
  err : Error → Result A

-- `if !b { return err }`
abbrev pub guard : Bool → Error → Result (Unit {0})
guard b e = if b then ok tt else err e

-- The next statements, unless an error has ended the function.
infixl 5 ◌>>=◌ ◌>>◌
abbrev pub ◌>>=◌ {ℓ κ} : {X : Type ℓ} {Y : Type κ} → Result X → (X → Result Y) → Result Y
err e >>= next = err e
ok x >>= next = next x

abbrev pub ◌>>◌ {κ} : {Y : Type κ} → Result (Unit {0}) → Result Y → Result Y
err e >> next = err e
ok u >> next = next

-- What holds where a chain of them gave a result.
pub >>=-eq-ok {ℓ κ} :
    {X : Type ℓ} {Y : Type κ} (first : Result X) (next : X → Result Y) {y : Y}
    → (first >>= next) ≡ ok y
    → (x : X) × (first ≡ ok x) × (next x ≡ ok y)
>>=-eq-ok (err e) next h = cc
>>=-eq-ok (ok x) next h = (x, refl, h)

pub guard-then {ℓ} :
    {A : Type ℓ} (b : Bool) (e : Error) (r : Result A) {a : A}
    → (guard b e >> r) ≡ ok a
    → (b ≡ true) × (r ≡ ok a)
guard-then true e r h = (refl, h)
guard-then false e r h = cc

pub unit-then {ℓ} :
    {A : Type ℓ} (m : Result (Unit {0})) (r : Result A) {a : A}
    → (m >> r) ≡ ok a
    → (m ≡ ok tt) × (r ≡ ok a)
unit-then (ok u) r h = (refl, h)
unit-then (err e) r h = cc
