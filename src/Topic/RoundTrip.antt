-- ===== src/Topic/RoundTrip.antt =====
-- `subjectToName` undoes `convert`, for every text and with or without the escapes.
use natsmqtt.Prelude.{ℕ, ◌≡◌, ◌≢◌, refl, sym, ◌∙◌, ◌++◌, Bool, true, false, ◌||◌, some}
use natsmqtt.Prelude.{
  [], ◌∷◌, Bytes, arith, append_assoc, ◌==◌, ◌⊎◌, inl, inr, Bool-cases, Option-cases, ==_iff,
}
use natsmqtt.Topic.Validate.{slash}
use natsmqtt.Topic.Subject.{dot, escaped, escapes, ends_level, plain_piece, piece, last_byte}
use natsmqtt.Topic.Subject.{convert_loop, close_off, convert, name_to_subject, subject_to_name}

-- How `subjectToName` reads the sequences that `convert` writes.
read_plain :
    (c : ℕ) (s : Bytes)
    → (c == slash) ≡ false
    → (c == dot) ≡ false
    → subject_to_name (c ∷ s) ≡ c ∷ subject_to_name s
unfolding subject_to_name
read_plain c [] h k = rw (h, k)
read_plain c (d ∷ s) h k = rw (h, k)

read_dot : (s : Bytes) → subject_to_name (dot ∷ s) ≡ slash ∷ subject_to_name s
unfolding subject_to_name
read_dot [] = refl
read_dot (d ∷ s) = refl

read_slash-dot : (s : Bytes) → subject_to_name (slash ∷ dot ∷ s) ≡ slash ∷ subject_to_name s
unfolding subject_to_name
read_slash-dot s = refl

read_slash-slash : (s : Bytes) → subject_to_name (slash ∷ slash ∷ s) ≡ dot ∷ subject_to_name s
unfolding subject_to_name
read_slash-slash s = refl

read_padding : subject_to_name (slash ∷ []) ≡ []
unfolding subject_to_name
read_padding = refl

-- A letter of an escape is neither of the two separators, and stands for its character again.
escapes-escaped :
    (c l : ℕ)
    → escaped c ≡ some l
    → (escapes l ≡ some c) × ((l == dot) ≡ false) × ((l == slash) ≡ false)
unfolding escapes escaped
escapes-escaped c l e = ground arith

escaped-no_wildcard : (c l : ℕ) → escaped c ≡ some l → ((c == b'+') ≡ false) × ((c == b'#') ≡ false)
unfolding escaped
escaped-no_wildcard c l e = ground arith

read_escape :
    (c l : ℕ) (s : Bytes)
    → escaped c ≡ some l
    → subject_to_name (slash ∷ l ∷ s) ≡ c ∷ subject_to_name s
unfolding subject_to_name
read_escape c l s e =
    let (known, no_dot, no_slash) = escapes-escaped c l e in rw (no_dot, no_slash, known)

pub last_byte-append :
    (last : ℕ) (xs ys : Bytes) → last_byte last (xs ++ ys) ≡ last_byte (last_byte last xs) ys
unfolding last_byte
last_byte-append last [] ys = refl
last_byte-append last (x ∷ xs) ys = last_byte-append x xs ys

-- What the rest of `convert` writes, the closing '/' included.
closed : Bool → Bool → ℕ → Bytes → Bytes
closed escape start last s =
    let out = convert_loop false escape start last s in out ++ close_off (last_byte last out)

closed-cons :
    (escape start : Bool) (last c : ℕ) (s p : Bytes)
    → piece false escape start last c s ≡ p
    → closed escape start last (c ∷ s) ≡ p ++ closed escape false (last_byte last p) s
unfolding closed convert_loop
closed-cons escape start last c s p e = rw (
  e,
  append_assoc,
  last_byte-append last p (convert_loop false escape false (last_byte last p) s),
)

module _ (escape start : Bool) (last : ℕ) (s : Bytes) where
  piece_edge :
      (start || last == dot) ≡ true → piece false escape start last slash s ≡ slash ∷ dot ∷ []
  unfolding piece
  piece_edge h = rw h

  piece_before_slash :
      (start || last == dot) ≡ false
      → ends_level s ≡ true
      → piece false escape start last slash s ≡ dot ∷ slash ∷ []
  unfolding piece
  piece_before_slash h k = rw (h, k)

  piece_inside :
      (start || last == dot) ≡ false
      → ends_level s ≡ false
      → piece false escape start last slash s ≡ dot ∷ []
  unfolding piece
  piece_inside h k = rw (h, k)

  piece-dot : piece false escape start last dot s ≡ slash ∷ slash ∷ []
  unfolding piece
  piece-dot = refl

  -- Any other character is written as itself or as an escape.
  piece_other :
      (c : ℕ)
      → (c == slash) ≡ false
      → (c == dot) ≡ false
      → (piece false escape start last c s ≡ c ∷ [])
        ⊎ ((l : ℕ) × (escaped c ≡ some l) × (piece false escape start last c s ≡ slash ∷ l ∷ []))
  unfolding piece plain_piece
  piece_other c h k = elim (Option-cases (escaped c)) [
    | inl none_there ↦ inl (ground arith)
    | inr (l, e) ↦ elim (Bool-cases escape) [
      | inl on ↦
          let (no_plus, no_hash) = escaped-no_wildcard c l e in
          inr (l, e, rw (h, k, no_plus, no_hash, e, on, plain_piece))
      | inr off ↦ inl (ground arith)
    ]
  ]

-- Behind "./", and before a '/' or the end, the padding '/' is read with what comes next.
abbrev Undone : Bool → Bytes → Type 0
Undone escape s =
    ((start : Bool) (last : ℕ) → subject_to_name (closed escape start last s) ≡ s)
    × (ends_level s ≡ true → subject_to_name (slash ∷ closed escape false slash s) ≡ s)

module _ (escape : Bool) where
  read_close : (start : Bool) (last : ℕ) → subject_to_name (closed escape start last []) ≡ []
  unfolding closed convert_loop last_byte subject_to_name
  read_close start last = ground arith

  slash-Undone :
      (s : Bytes) (start : Bool) (last : ℕ)
      → Undone escape s
      → subject_to_name (closed escape start last (slash ∷ s)) ≡ slash ∷ s
  unfolding last_byte
  slash-Undone s start last (apart, padded) = elim (Bool-cases (start || last == dot)) [
    | inl edge ↦ rw (
      closed-cons escape start last slash s _ (piece_edge escape start last s edge),
      read_slash-dot,
      apart false dot,
    )
    | inr inside ↦ elim (Bool-cases (ends_level s)) [
      | inl level ↦ rw (
        closed-cons escape start last slash s _
            (piece_before_slash escape start last s inside level),
        read_dot,
        padded level,
      )
      | inr more ↦ rw (
        closed-cons escape start last slash s _ (piece_inside escape start last s inside more),
        read_dot,
        apart false dot,
      )
    ]
  ]

  padding-Undone :
      (s : Bytes)
      → Undone escape s
      → subject_to_name (slash ∷ closed escape false slash (slash ∷ s)) ≡ slash ∷ s
  unfolding last_byte
  padding-Undone s (apart, padded) = elim (Bool-cases (ends_level s)) [
    | inl level ↦ rw (
      closed-cons escape false slash slash s _ (piece_before_slash escape false slash s refl level),
      read_slash-dot,
      padded level,
    )
    | inr more ↦ rw (
      closed-cons escape false slash slash s _ (piece_inside escape false slash s refl more),
      read_slash-dot,
      apart false dot,
    )
  ]

  other-Undone :
      (c : ℕ) (s : Bytes) (start : Bool) (last : ℕ)
      → (c == slash) ≡ false
      → (c == dot) ≡ false
      → Undone escape s
      → subject_to_name (closed escape start last (c ∷ s)) ≡ c ∷ s
  unfolding last_byte
  other-Undone c s start last h k (apart, padded) = elim (piece_other escape start last s c h k) [
    | inl e ↦ rw (closed-cons escape start last c s _ e, read_plain c _ h k, apart false c)
    | inr (l, known, e) ↦
        rw (closed-cons escape start last c s _ e, read_escape c l _ known, apart false l)
  ]

  dot-Undone :
      (s : Bytes) (start : Bool) (last : ℕ)
      → Undone escape s
      → subject_to_name (closed escape start last (dot ∷ s)) ≡ dot ∷ s
  unfolding last_byte
  dot-Undone s start last (apart, padded) = rw (
    closed-cons escape start last dot s _ (piece-dot escape start last s),
    read_slash-slash,
    apart false slash,
  )

  true≢false : true ≢ false
  true≢false e = cc

  undone : (s : Bytes) → Undone escape s
  undone [] = (read_close, λ level. unfold closed convert_loop last_byte in read_padding)
  undone (c ∷ s) =
      let rest = undone s in
      elim (Bool-cases (c == slash)) [
        | inl e ↦
            rw ((==_iff c slash).0 e)
              (λ start last. slash-Undone s start last rest, λ level. padding-Undone s rest)
        | inr h ↦ (
          λ start last. elim (Bool-cases (c == dot)) [
            | inl e ↦ rw ((==_iff c dot).0 e) (dot-Undone s start last rest)
            | inr k ↦ other-Undone c s start last h k rest
          ],
          λ level. unfold ends_level in absurd (true≢false (sym level ∙ h)),
        )
      ]

-- `subjectToName` gives back any text that `convert` was applied to without the wildcards, with or
-- without the escapes.
pub subject_to_name-convert :
    (escape : Bool) (name : Bytes) → subject_to_name (convert name false escape) ≡ name
unfolding convert closed
subject_to_name-convert escape name = (undone escape name).0 true 0

-- A Topic Name that has a subject comes back from it.
pub subject_to_name-name_to_subject :
    (escape : Bool) (name subject : Bytes)
    → name_to_subject escape name ≡ some subject
    → subject_to_name subject ≡ name
unfolding name_to_subject
subject_to_name-name_to_subject escape name subject e =
    ground (arith, subject_to_name-convert escape name)

-- Two Topic Names never share a subject, whichever way each was converted.
pub name_to_subject-injective :
    (escape escape' : Bool) (name name' subject : Bytes)
    → name_to_subject escape name ≡ some subject
    → name_to_subject escape' name' ≡ some subject
    → name ≡ name'
name_to_subject-injective escape escape' name name' subject e e' =
    sym (subject_to_name-name_to_subject escape name subject e)
    ∙ subject_to_name-name_to_subject escape' name' subject e'
