-- ===== src/Packet/RoundTrip/Loop.antt =====
-- How the loop of `readProperties` reads back the pieces that `Properties.encode` writes, in the
-- order of the identifiers.
use natsmqtt.Prelude.{
  ℕ, zero, suc, ◌≤◌, ◌<◌, ◌≡◌, ◌≢◌, refl, ◌∙◌, ◌++◌, ◌&&◌, not, Bool, true, false,
}
use natsmqtt.Prelude.{
  [], ◌∷◌, List, inl, inr, Bool-cases, Bytes, arith, length, All, Option, none, some,
}
use natsmqtt.Prelude.{append_assoc, if◌then◌else◌, length-append, ◌==◌, low_seven, top_bit}
use natsmqtt.Packet.Types.{PacketType}
use natsmqtt.Packet.Result.{Result, ok, ◌>>◌}
use natsmqtt.Packet.Reader.{var_byte_int_loop, var_byte_int}
use natsmqtt.Packet.Writer.{check_len}
use natsmqtt.Packet.Properties.{PropId, prop_code, prop_of_code, allowed_in, Properties}
use natsmqtt.Packet.Properties.{prop_payload_format}
use natsmqtt.Packet.Properties.Read.{read_property, seen_has, repeatable, property_round}
use natsmqtt.Packet.Properties.Read.{properties_loop}
use natsmqtt.Packet.Properties.Write.{put, put_scalar, put_string}

pub prop_of_code-prop_code : (id : PropId) → prop_of_code (prop_code id) ≡ some id
unfolding prop_of_code
prop_of_code-prop_code prop_payload_format = refl
prop_of_code-prop_code _ = refl

pub prop_code-lt : (id : PropId) → prop_code id < 128
unfolding prop_code
prop_code-lt prop_payload_format = omega arith
prop_code-lt _ = omega arith

var_byte_int-short : (b : ℕ) (s : Bytes) → b < 128 → var_byte_int (b ∷ s) ≡ ok (b, s)
unfolding var_byte_int var_byte_int_loop
var_byte_int-short b s h = ground (arith, low_seven b, top_bit b)

abbrev pub Below : ℕ → List PropId → Type 0
Below b seen = All (λ j. prop_code j < b) seen

Below-mono : {b c : ℕ} (seen : List PropId) → b ≤ c → Below b seen → Below c seen
Below-mono [] h all = tt
Below-mono (j ∷ js) h all = (omega arith, Below-mono js h all.1)

seen_has-Below :
    (seen : List PropId) (id : PropId) → Below (prop_code id) seen → seen_has seen id ≡ false
unfolding seen_has
seen_has-Below [] id all = refl
seen_has-Below (j ∷ js) id all = ground (arith, seen_has-Below js id)

module _ (ctx : PacketType) (seen : List PropId) (id : PropId) (q q' : Properties)
    (emitted s : Bytes) (allowed : allowed_in id ctx ≡ true)
    (fresh : (seen_has seen id && not (repeatable id ctx)) ≡ false)
    (reads : read_property id q (emitted ++ s) ≡ ok (q', s)) where
  property_round-item :
      property_round ctx seen q (prop_code id ∷ (emitted ++ s)) ≡ ok ((id ∷ seen, q'), s)
  unfolding property_round
  property_round-item = rw (
    var_byte_int-short (prop_code id) (emitted ++ s) (prop_code-lt id),
    prop_of_code-prop_code id,
    allowed,
    fresh,
    reads,
  )

  -- One property that may stand here is read by one round.
  loop-item :
      (f : ℕ)
      → properties_loop (suc f) ctx seen q (prop_code id ∷ (emitted ++ s))
        ≡ properties_loop f ctx (id ∷ seen) q' s
  unfolding properties_loop
  loop-item f = rw (property_round-item, properties_loop)

-- From the properties `q`, with identifiers below `b` seen, `bytes` is read to the properties `q'`,
-- and then the identifiers seen lie below `b'`.
abbrev pub Reads : PacketType → ℕ → Properties → Bytes → ℕ → Properties → Type 0
Reads ctx b q bytes b' q' =
    (seen : List PropId) (s : Bytes) (f : ℕ)
    → Below b seen
    → length (bytes ++ s) ≤ f
    → (seen' : List PropId) × (f' : ℕ) × Below b' seen'
      × (length s ≤ f')
      × (properties_loop f ctx seen q (bytes ++ s) ≡ properties_loop f' ctx seen' q' s)

pub Reads-nothing : (ctx : PacketType) (b b' : ℕ) (q : Properties) → b ≤ b' → Reads ctx b q [] b' q
Reads-nothing ctx b b' q h seen s f below fuel = (seen, f, Below-mono seen h below, fuel, refl)

pub Reads-append :
    (ctx : PacketType) (b c d : ℕ) (q r t : Properties) (xs ys : Bytes)
    → Reads ctx b q xs c r
    → Reads ctx c r ys d t
    → Reads ctx b q (xs ++ ys) d t
Reads-append ctx b c d q r t xs ys first second seen s f below fuel =
    let (seen', f', below', fuel', e) =
      first seen (ys ++ s) f below (rw (← append_assoc xs ys s) fuel) in
    let (seen'', f'', below'', fuel'', e') = second seen' s f' below' fuel' in
    (seen'', f'', below'', fuel'', rw (append_assoc xs ys s) (e ∙ e'))

-- What one statement of `encode` writes is read from `q` to `r`.
pub record Step (ctx : PacketType) (b : ℕ) (q : Properties) (x : Result Bytes) (c : ℕ)
    (r : Properties) : Type 0 where
  pub run : (bytes : Bytes) → x ≡ ok bytes → Reads ctx b q bytes c r

-- A property that may stand behind any identifiers below `b`.
pub Reads-item :
    (ctx : PacketType) (b b' : ℕ) (id : PropId) (q q' : Properties) (emitted : Bytes)
    → b ≤ b'
    → prop_code id < b'
    → allowed_in id ctx ≡ true
    → ((seen : List PropId) → Below b seen → (seen_has seen id && not (repeatable id ctx)) ≡ false)
    → ((s : Bytes) → read_property id q (emitted ++ s) ≡ ok (q', s))
    → Reads ctx b q (prop_code id ∷ emitted) b' q'
Reads-item ctx b b' id q q' emitted le lt allowed fresh reads seen s zero below fuel =
    absurd (omega arith)
Reads-item ctx b b' id q q' emitted le lt allowed fresh reads seen s (suc f) below fuel = (
  id ∷ seen,
  f,
  (lt, Below-mono seen le below),
  omega (arith, length-append emitted s),
  loop-item ctx seen id q q' emitted s allowed (fresh seen below) (reads s) f,
)

pub not-seen :
    (ctx : PacketType) (b : ℕ) (id : PropId) (seen : List PropId)
    → b ≤ prop_code id
    → Below b seen
    → (seen_has seen id && not (repeatable id ctx)) ≡ false
not-seen ctx b id seen h below = rw (seen_has-Below seen id (Below-mono seen h below))

-- A property that `put` writes behind lower identifiers, where it may stand in `ctx` and where not.
pub Reads-put :
    (ctx : PacketType) (b : ℕ) (id : PropId) (q q' : Properties) (emitted : Bytes)
    → b ≤ prop_code id
    → ((s : Bytes) → read_property id q (emitted ++ s) ≡ ok (q', s))
    → Reads ctx b q (put id ctx emitted) (suc (prop_code id)) (if allowed_in id ctx then q' else q)
unfolding put
Reads-put ctx b id q q' emitted h reads = elim (Bool-cases (allowed_in id ctx)) [
  | inl e ↦ rw e (
      Reads-item ctx b (suc (prop_code id)) id q q' emitted (omega arith) (omega arith) e
        (λ seen below. not-seen ctx b id seen h below) reads)
  | inr e ↦ rw e (Reads-nothing ctx b (suc (prop_code id)) q (omega arith))
]

-- A scalar that is kept where it may stand in `ctx`.
abbrev pub keep : PropId → PacketType → Option ℕ → Option ℕ
keep id ctx v = if allowed_in id ctx then v else none

abbrev pub keep_list {ℓ} : {A : Type ℓ} → PropId → PacketType → List A → List A
keep_list id ctx v = if allowed_in id ctx then v else []

abbrev pub Given : (ℕ → Type 0) → Option ℕ → Type 0
Given P none = Unit
Given P (some v) = P v

keep-none : (id : PropId) (ctx : PacketType) → keep id ctx none ≡ none
keep-none id ctx = ground arith

abbrev nothing : Bytes
nothing = []

keep_nil : (id : PropId) (ctx : PacketType) → keep_list id ctx [] ≡ nothing
keep_nil id ctx = ground arith

pub ok-injective {ℓ} : {A : Type ℓ} {a a' : A} → ok a ≡ ok a' → a ≡ a'
ok-injective e = cc

if_of {ℓ κ} :
    {A : Type ℓ} {B : Type κ} (set : A → B) (t : Bool) (x y : A)
    → set (if t then x else y) ≡ (if t then set x else set y)
if_of set true x y = refl
if_of set false x y = refl

-- A text that passed its length check, and what follows the check.
pub checked :
    {A : Type 0} (s : Bytes) {r : Result A} {a : A}
    → (check_len s >> r) ≡ ok a
    → (length s ≤ 65535) × (r ≡ ok a)
unfolding check_len
checked s e = ground arith

pub Reads-scalar :
    (ctx : PacketType) (b : ℕ) (id : PropId) (emit : ℕ → Bytes) (P : ℕ → Type 0)
    (set : Option ℕ → Properties) (v : Option ℕ) (bytes : Bytes)
    → b ≤ prop_code id
    → ((x : ℕ) (s : Bytes) → P x → read_property id (set none) (emit x ++ s) ≡ ok (set (some x), s))
    → Given P v
    → put_scalar emit id ctx v ≡ ok bytes
    → Reads ctx b (set none) bytes (suc (prop_code id)) (set (keep id ctx v))
unfolding put_scalar
Reads-scalar ctx b id emit P set none bytes h reads valid e =
    rw (keep-none id ctx, ← ok-injective e)
      (Reads-nothing ctx b (suc (prop_code id)) (set none) (omega arith))
Reads-scalar ctx b id emit P set (some x) bytes h reads valid e =
    rw (if_of set (allowed_in id ctx) (some x) none, ← ok-injective e)
      (Reads-put ctx b id (set none) (set (some x)) (emit x) h (λ s. reads x s valid))

pub Reads-string :
    (ctx : PacketType) (b : ℕ) (id : PropId) (emit : Bytes → Bytes) (P : Bytes → Type 0)
    (set : Bytes → Properties) (v : Bytes) (bytes : Bytes)
    → b ≤ prop_code id
    → ((x : Bytes) (s : Bytes)
        → length x ≤ 65535
        → P x
        → read_property id (set []) (emit x ++ s) ≡ ok (set x, s))
    → (v ≢ [] → P v)
    → put_string emit id ctx v ≡ ok bytes
    → Reads ctx b (set []) bytes (suc (prop_code id)) (set (keep_list id ctx v))
unfolding put_string
Reads-string ctx b id emit P set [] bytes h reads valid e =
    rw (keep_nil id ctx, ← ok-injective e)
      (Reads-nothing ctx b (suc (prop_code id)) (set []) (omega arith))
Reads-string ctx b id emit P set (c ∷ v) bytes h reads valid e =
    let (fits, e') = checked (c ∷ v) e in
    rw (if_of set (allowed_in id ctx) (c ∷ v) [], ← ok-injective e')
      (Reads-put ctx b id (set []) (set (c ∷ v)) (emit (c ∷ v)) h
        (λ s. reads (c ∷ v) s fits (valid (λ z. cc))))

pub nonzero : (x : ℕ) → 1 ≤ x → (x == 0) ≡ false
nonzero x h = ground arith
