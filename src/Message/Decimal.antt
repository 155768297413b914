-- ===== src/Message/Decimal.antt =====
-- What message.go uses of Go's package strconv: decimal numbers as texts.
use natsmqtt.Prelude.{
  ap, ℕ, zero, suc, ◌+◌, ◌*◌, ◌-◌, ◌/◌, ◌%◌, ◌^◌, ◌≤◌, ◌<◌, ◌≡◌, refl, ◌∙◌, inl, inr, true, false,
  Option, none, some, [], ◌∷◌, arith, Bytes, ltb, leb, ◌==◌, ◌&&◌, if◌then◌else◌, Bool-cases,
  is_empty,
}

-- The digits of a number, before a text; one round for each digit.
unfoldable pub itoa_loop : ℕ → ℕ → Bytes → Bytes
itoa_loop zero n acc = acc
itoa_loop (suc rounds) n acc =
    let rest = itoa_loop rounds (n / 10) ((b'0' + n % 10) ∷ acc) in
    if ltb n 10 then (b'0' + n) ∷ acc else rest

-- `strconv.Itoa` and `strconv.FormatUint`, of a number below 10 ^ 20
unfoldable pub itoa : ℕ → Bytes
itoa n = itoa_loop 20 n []

-- The value of the digits behind those that make `n`.
unfoldable pub digits_loop : ℕ → Bytes → Option ℕ
digits_loop n [] = some n
digits_loop n (c ∷ s) =
    let rest = digits_loop (10 * n + (c - b'0')) s in
    if leb b'0' c && leb c b'9' then rest else none

-- `strconv.ParseUint`, where the value must be below a bound
unfoldable pub parse_uint : ℕ → Bytes → Option ℕ
parse_uint bound s =
    if is_empty s
    then none
    else elim (digits_loop 0 s) [ none ↦ none | some n ↦ if ltb n bound then some n else none ]

-- `strconv.Atoi`, where the value must be from 0 to a limit
unfoldable pub atoi_upto : ℕ → Bytes → Option ℕ
atoi_upto limit [] = none
atoi_upto limit (c ∷ s) =
    if c == b'+'
    then parse_uint (limit + 1) s
    else if c == b'-'
    then parse_uint 1 s
    else parse_uint (limit + 1) (c ∷ s)

abbrev tens : ℕ → ℕ
tens zero = 1
tens (suc n) = 10 * tens n

digits_loop-digit :
    (m d : ℕ) (s : Bytes) → d < 10 → digits_loop m ((b'0' + d) ∷ s) ≡ digits_loop (10 * m + d) s
unfolding digits_loop
digits_loop-digit m d s h =
    let test : (leb b'0' (b'0' + d) && leb (b'0' + d) b'9') ≡ true = ground arith in
    let value : 10 * m + (b'0' + d - b'0') ≡ 10 * m + d = omega arith in rw (test, value) refl

digits_loop-itoa_loop :
    (rounds n : ℕ) (acc : Bytes)
    → n < tens rounds
    → digits_loop 0 (itoa_loop rounds n acc) ≡ digits_loop n acc
unfolding itoa_loop
digits_loop-itoa_loop zero n acc h = let none_left : n ≡ 0 = omega arith in rw none_left refl
digits_loop-itoa_loop (suc rounds) n acc h = elim (Bool-cases (ltb n 10)) [
  | inl last ↦
      let value : 10 * 0 + n ≡ n = omega arith in
      rw last (digits_loop-digit 0 n acc (ground arith) ∙ ap (λ m. digits_loop m acc) value)
  | inr more ↦
      let value : 10 * (n / 10) + n % 10 ≡ n = omega arith in
      rw more (
        digits_loop-itoa_loop rounds (n / 10) ((b'0' + n % 10) ∷ acc) (omega arith)
        ∙ digits_loop-digit (n / 10) (n % 10) acc (omega arith)
        ∙ ap (λ m. digits_loop m acc) value)
]

itoa_loop-longer : (rounds n x : ℕ) (acc : Bytes) → is_empty (itoa_loop rounds n (x ∷ acc)) ≡ false
unfolding itoa_loop
itoa_loop-longer zero n x acc = refl
itoa_loop-longer (suc rounds) n x acc = elim (Bool-cases (ltb n 10)) [
  | inl last ↦ rw last refl
  | inr more ↦ rw more (itoa_loop-longer rounds (n / 10) (b'0' + n % 10) (x ∷ acc))
]

pub is_empty-itoa : (n : ℕ) → is_empty (itoa n) ≡ false
unfolding itoa itoa_loop
is_empty-itoa n = elim (Bool-cases (ltb n 10)) [
  | inl last ↦ rw last refl
  | inr more ↦ rw more (itoa_loop-longer 19 (n / 10) (b'0' + n % 10) [])
]

pub digits_loop-itoa : (n : ℕ) → n < 10 ^ 20 → digits_loop 0 (itoa n) ≡ some n
unfolding itoa digits_loop
digits_loop-itoa n w = digits_loop-itoa_loop 20 n [] (omega arith)

itoa_digit : (n : ℕ) → n < 10 → itoa n ≡ (b'0' + n) ∷ []
unfolding itoa itoa_loop
itoa_digit n h = let test : ltb n 10 ≡ true = ground arith in rw test refl

-- A number is read back from its digits.
pub parse_uint-itoa : (bound n : ℕ) → n < bound → n < 10 ^ 20 → parse_uint bound (itoa n) ≡ some n
unfolding parse_uint
parse_uint-itoa bound n h w =
    let whole : digits_loop 0 (itoa n) ≡ some n = digits_loop-itoa n w in
    let test : ltb n bound ≡ true = ground arith in
    rw (parse_uint, is_empty-itoa n, whole, test) refl

-- Of one digit, with the test of a sign.
pub atoi_upto-itoa : (limit n : ℕ) → n ≤ limit → limit < 10 → atoi_upto limit (itoa n) ≡ some n
unfolding atoi_upto
atoi_upto-itoa limit n h w =
    let read = parse_uint-itoa (limit + 1) n (omega arith) (omega arith) in
    let digit = itoa_digit n (omega arith) in
    let no_plus : ((b'0' + n) == b'+') ≡ false = ground arith in
    let no_minus : ((b'0' + n) == b'-') ≡ false = ground arith in
    rw (digit, no_plus, no_minus) (rw (← digit) read)
