-- ===== src/Message/RoundTrip.antt =====
-- Values of headers through `escapeHeader` and back, and User Properties through their headers.
use natsmqtt.Topic.Grammar.{cut→Cut, cut-append}
use natsmqtt.Prelude.{
  Option-cases, ◌≢◌, ℕ, ◌/◌, ◌%◌, ◌≤◌, ◌<◌, ◌≡◌, ◌↔◌, refl, ap, sym, ◌∙◌, inl, inr, Bool, true,
  false, Option, none, some, [], ◌∷◌, ◌++◌, arith, Bytes, ◌==◌, All, Bool-cases, all_below,
  all_below_sound,
}
use natsmqtt.Topic.Strings.{put_before, contains, cut}
use natsmqtt.Message.Header.{
  unsafe_header_byte, needs_escape, hex, escape_loop, escape_header, hex_val, unhex, unescape_loop,
  contains_percent, unescape_header, user_header, user_property,
}

digits_back : ℕ → Bool
digits_back ch = elim (unhex (hex (ch / 16)) (hex (ch % 16))) [ none ↦ false | some x ↦ x == ch ]

digits_table : all_below 128 digits_back ≡ true
unfolding all_below digits_back unhex hex hex_val
digits_table = refl

unhex-hex :
    (ch : ℕ) → unsafe_header_byte ch ≡ true → unhex (hex (ch / 16)) (hex (ch % 16)) ≡ some ch
unfolding unsafe_header_byte digits_back
unhex-hex ch h = ground (arith, all_below_sound 128 digits_back digits_table ch)

unescape_loop-cons :
    (ch : ℕ) (s : Bytes) → (ch == b'%') ≡ false → unescape_loop (ch ∷ s) ≡ ch ∷ unescape_loop s
unfolding unescape_loop
unescape_loop-cons ch [] h = refl
unescape_loop-cons ch (x ∷ []) h = refl
unescape_loop-cons ch (x ∷ y ∷ s) h = rw h refl

not_percent : (ch : ℕ) → unsafe_header_byte ch ≡ false → (ch == b'%') ≡ false
unfolding unsafe_header_byte
not_percent ch h = ground arith

unescape_loop_nothing : unescape_loop [] ≡ []
unfolding unescape_loop
unescape_loop_nothing = refl

unescape_loop_digits :
    (h l x : ℕ) (s : Bytes)
    → unhex h l ≡ some x
    → unescape_loop (b'%' ∷ h ∷ l ∷ s) ≡ x ∷ unescape_loop s
unfolding unescape_loop
unescape_loop_digits h l x s e = rw (unescape_loop, e) refl

unescape_loop-escape_loop : (s : Bytes) → unescape_loop (escape_loop s) ≡ s
unfolding escape_loop
unescape_loop-escape_loop [] = unescape_loop_nothing
unescape_loop-escape_loop (ch ∷ s) = elim (Bool-cases (unsafe_header_byte ch)) [
  | inl unsafe ↦ rw unsafe (
      unescape_loop_digits (hex (ch / 16)) (hex (ch % 16)) ch (escape_loop s) (unhex-hex ch unsafe)
      ∙ ap (λ t. ch ∷ t) (unescape_loop-escape_loop s))
  | inr safe ↦
      rw (safe, unescape_loop-cons ch (escape_loop s) (not_percent ch safe))
        (ap (λ t. ch ∷ t) (unescape_loop-escape_loop s))
]

escape_loop_safe : (s : Bytes) → needs_escape s ≡ false → escape_loop s ≡ s
unfolding escape_loop needs_escape
escape_loop_safe [] h = refl
escape_loop_safe (ch ∷ s) h = ground (arith, escape_loop_safe s)

unescape_loop_plain : (s : Bytes) → contains_percent s ≡ false → unescape_loop s ≡ s
unfolding contains_percent
unescape_loop_plain [] h = unescape_loop_nothing
unescape_loop_plain (ch ∷ s) h =
    unescape_loop-cons ch s (ground arith) ∙ ap (λ t. ch ∷ t) (unescape_loop_plain s (ground arith))

escape_header-loop : (s : Bytes) → escape_header s ≡ escape_loop s
unfolding escape_header
escape_header-loop s = elim (Bool-cases (needs_escape s)) [
  | inl some_unsafe ↦ rw some_unsafe refl
  | inr all_safe ↦ rw all_safe (sym (escape_loop_safe s all_safe))
]

unescape_header-loop : (s : Bytes) → unescape_header s ≡ unescape_loop s
unfolding unescape_header
unescape_header-loop s = elim (Bool-cases (contains_percent s)) [
  | inl percent ↦ rw percent refl
  | inr none_there ↦ rw none_there (sym (unescape_loop_plain s none_there))
]

safe-printable : (ch : ℕ) → unsafe_header_byte ch ≡ false → (0x20 ≤ ch) × (ch ≢ 0x7F)
unfolding unsafe_header_byte
safe-printable ch h = (ground arith, λ e. ground arith)

unsafe-lt : (ch : ℕ) → unsafe_header_byte ch ≡ true → ch < 128
unfolding unsafe_header_byte
unsafe-lt ch h = ground arith

hex-printable : (d : ℕ) → d < 16 → (0x20 ≤ hex d) × (hex d ≢ 0x7F)
unfolding hex
hex-printable d h = ground arith

escape_loop-printable : (s : Bytes) → All (λ ch. (0x20 ≤ ch) × (ch ≢ 0x7F)) (escape_loop s)
unfolding escape_loop
escape_loop-printable [] = tt
escape_loop-printable (ch ∷ s) = elim (Bool-cases (unsafe_header_byte ch)) [
  | inl unsafe ↦ rw unsafe (
    (omega arith, λ e. absurd (omega arith)),
    (
      hex-printable (ch / 16) (omega (arith, unsafe-lt ch unsafe)),
      (hex-printable (ch % 16) (omega arith), escape_loop-printable s),
    ),
  )
  | inr safe ↦ rw safe (safe-printable ch safe, escape_loop-printable s)
]

-- Any text comes back from a value of a header.
pub unescape_header-escape_header : (s : Bytes) → unescape_header (escape_header s) ≡ s
unescape_header-escape_header s =
    rw (escape_header-loop s, unescape_header-loop (escape_loop s)) (unescape_loop-escape_loop s)

-- No byte of the value of a header is a control character.
pub escape_header-printable : (s : Bytes) → All (λ ch. (0x20 ≤ ch) × (ch ≢ 0x7F)) (escape_header s)
escape_header-printable s = rw (escape_header-loop s) (escape_loop-printable s)

escape_loop-append : (a b : Bytes) → escape_loop (a ++ b) ≡ escape_loop a ++ escape_loop b
unfolding escape_loop
escape_loop-append [] b = refl
escape_loop-append (ch ∷ a) b = elim (Bool-cases (unsafe_header_byte ch)) [
  | inl unsafe ↦ rw (unsafe, escape_loop-append a b) refl
  | inr safe ↦ rw (safe, escape_loop-append a b) refl
]

escape_both : Option (Bytes × Bytes) → Option (Bytes × Bytes)
escape_both none = none
escape_both (some (a, b)) = some (escape_loop a, escape_loop b)

hex-eq-blank : (d : ℕ) → d < 16 → (hex d == b' ') ≡ false
unfolding hex
hex-eq-blank d h = ground arith

unsafe-eq-blank : (ch : ℕ) → unsafe_header_byte ch ≡ true → (ch == b' ') ≡ false
unfolding unsafe_header_byte
unsafe-eq-blank ch h = ground arith

escape_both-none : none ≡ escape_both none
unfolding escape_both
escape_both-none = refl

escape_both_first : (s : Bytes) → some ([], escape_loop s) ≡ escape_both (some ([], s))
unfolding escape_both escape_loop
escape_both_first s = refl

put_before-unsafe :
    (ch : ℕ) (o : Option (Bytes × Bytes))
    → unsafe_header_byte ch ≡ true
    → put_before b'%' (put_before (hex (ch / 16)) (put_before (hex (ch % 16)) (escape_both o)))
      ≡ escape_both (put_before ch o)
unfolding escape_both escape_loop
put_before-unsafe ch none unsafe = refl
put_before-unsafe ch (some (a, b)) unsafe = rw unsafe refl

put_before-safe :
    (ch : ℕ) (o : Option (Bytes × Bytes))
    → unsafe_header_byte ch ≡ false
    → put_before ch (escape_both o) ≡ escape_both (put_before ch o)
unfolding escape_both escape_loop
put_before-safe ch none safe = refl
put_before-safe ch (some (a, b)) safe = rw safe refl

-- The first blank stays the first blank.
cut-escape_loop : (s : Bytes) → cut b' ' (escape_loop s) ≡ escape_both (cut b' ' s)
unfolding cut escape_loop
cut-escape_loop [] = escape_both-none
cut-escape_loop (ch ∷ s) = elim (Bool-cases (unsafe_header_byte ch)) [
  | inl unsafe ↦
      let high = hex-eq-blank (ch / 16) (omega (arith, unsafe-lt ch unsafe)) in
      let low = hex-eq-blank (ch % 16) (omega arith) in
      let blank = unsafe-eq-blank ch unsafe in
      rw (unsafe, high, low, blank, cut-escape_loop s) (put_before-unsafe ch (cut b' ' s) unsafe)
  | inr safe ↦ elim (Bool-cases (ch == b' ')) [
    | inl blank ↦ rw (safe, blank) (escape_both_first s)
    | inr other ↦ rw (safe, other, cut-escape_loop s) (put_before-safe ch (cut b' ' s) safe)
  ]
]

unescape_both : Option (Bytes × Bytes) → Option (Bytes × Bytes)
unescape_both none = none
unescape_both (some (a, b)) = some (unescape_header a, unescape_header b)

user_property-cut : (raw : Bytes) → user_property raw ≡ unescape_both (cut b' ' raw)
unfolding user_property unescape_both
user_property-cut raw = elim (Option-cases (cut b' ' raw)) [
  | inl none_there ↦ rw (user_property, none_there) refl
  | inr ((a, b), there) ↦ rw (user_property, there) refl
]

unescape_both-escape_both : (o : Option (Bytes × Bytes)) → unescape_both (escape_both o) ≡ o
unfolding unescape_both escape_both
unescape_both-escape_both none = refl
unescape_both-escape_both (some (a, b)) =
    rw
      (
        unescape_header-loop (escape_loop a),
        unescape_header-loop (escape_loop b),
        unescape_loop-escape_loop a,
        unescape_loop-escape_loop b,
      )
      refl

user_header-escape_loop :
    (key value : Bytes) → user_header key value ≡ escape_loop (key ++ b' ' ∷ value)
unfolding user_header escape_loop unsafe_header_byte
user_header-escape_loop key value =
    rw (escape_header-loop key, escape_header-loop value, escape_loop-append key (b' ' ∷ value))
      refl

-- A User Property is read from its header as its name, a blank and its value, cut at the first blank.
pub user_property-user_header :
    (key value : Bytes) → user_property (user_header key value) ≡ cut b' ' (key ++ b' ' ∷ value)
user_property-user_header key value =
    rw
      (
        user_header-escape_loop key value,
        user_property-cut (escape_loop (key ++ b' ' ∷ value)),
        cut-escape_loop (key ++ b' ' ∷ value),
      )
      (unescape_both-escape_both (cut b' ' (key ++ b' ' ∷ value)))

-- A User Property comes back from its header exactly where its name holds no blank.
pub user_property_iff :
    (key value : Bytes)
    → (user_property (user_header key value) ≡ some (key, value)) ↔ (contains b' ' key ≡ false)
user_property_iff key value = rw (user_property-user_header key value) (
  λ e. (cut→Cut b' ' (key ++ b' ' ∷ value) (key, value) e).1,
  λ free. cut-append b' ' key value free,
)
