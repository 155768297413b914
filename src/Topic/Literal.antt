-- ===== src/Topic/Literal.antt =====
-- The subject of a Topic Name is a literal NATS subject: no wildcard, no blank, no empty token.
use natsmqtt.Prelude.{List, All, ℕ, ◌≡◌, refl, ◌++◌, Bool, true, false, none, some}
use natsmqtt.Prelude.{[], ◌∷◌, Bytes, arith, ◌==◌, ◌⊎◌, inl, inr, Bool-cases, ==_iff, Option-cases}
use natsmqtt.Topic.Strings.{contains, contains_any}
use natsmqtt.Topic.Validate.{slash, validate_common, validate_name}
use natsmqtt.Topic.Subject.{dot, escaped, plain_piece, piece, last_byte, convert_loop}
use natsmqtt.Topic.Subject.{close_off, convert, name_to_subject}

contains-append :
    (x : ℕ) (s t : Bytes)
    → contains x s ≡ false
    → contains x t ≡ false
    → contains x (s ++ t) ≡ false
unfolding contains
contains-append x [] t h k = k
contains-append x (c ∷ s) t h k = ground (arith, contains-append x s t)

-- A character that the escapes cover is none of those that `convert` writes for others.
escaped-ne :
    (x l : ℕ)
    → escaped x ≡ some l
    → ((slash == x) ≡ false) × ((dot == x) ≡ false) × ((b'+' == x) ≡ false) × ((b'#' == x) ≡ false)
unfolding escaped
escaped-ne x l e = ground arith

letter-plain : (c k : ℕ) → escaped c ≡ some k → escaped k ≡ none
unfolding escaped
letter-plain c k e = ground arith

plain-ne : (c x l : ℕ) → escaped c ≡ none → escaped x ≡ some l → (c == x) ≡ false
plain-ne c x l e h = elim (Bool-cases (c == x)) [
  | inl same ↦ cc ((==_iff c x).0 same)
  | inr other ↦ other
]

plain_piece-without :
    (escape : Bool) (c x l : ℕ)
    → escaped x ≡ some l
    → (escape ≡ true) ⊎ ((c == x) ≡ false)
    → contains x (plain_piece escape c) ≡ false
unfolding plain_piece contains
plain_piece-without escape c x l e h = elim (Option-cases (escaped c)) [
  | inl plain ↦ ground (arith, plain-ne c x l plain e)
  | inr (k, known) ↦ ground (arith, escaped-ne x l e, plain-ne k x l (letter-plain c k known) e)
]

-- Where `x` is a character that NATS cannot carry, no round writes it: it is escaped, or not there.
piece-without :
    (escape start : Bool) (last c x l : ℕ) (s : Bytes)
    → escaped x ≡ some l
    → (escape ≡ true) ⊎ ((c == x) ≡ false)
    → contains x (piece false escape start last c s) ≡ false
unfolding piece contains
piece-without escape start last c x l s e h =
    ground (arith, escaped-ne x l e, plain_piece-without escape c x l e h)

head_free :
    (escape : Bool) (x c : ℕ) (s : Bytes)
    → (escape ≡ true) ⊎ (contains x (c ∷ s) ≡ false)
    → ((escape ≡ true) ⊎ ((c == x) ≡ false)) × ((escape ≡ true) ⊎ (contains x s ≡ false))
unfolding contains
head_free escape x c s (inl on) = (inl on, inl on)
head_free escape x c s (inr free) = (inr (ground arith), inr (ground arith))

convert_loop-without :
    (escape start : Bool) (last x l : ℕ) (s : Bytes)
    → escaped x ≡ some l
    → (escape ≡ true) ⊎ (contains x s ≡ false)
    → contains x (convert_loop false escape start last s) ≡ false
unfolding convert_loop
convert_loop-without escape start last x l [] e h = unfold contains in refl
convert_loop-without escape start last x l (c ∷ s) e h =
    let p = piece false escape start last c s in
    let (here, later) = head_free escape x c s h in
    contains-append x p _ (piece-without escape start last c x l s e here)
      (convert_loop-without escape false (last_byte last p) x l s e later)

convert-without :
    (escape : Bool) (x l : ℕ) (s : Bytes)
    → escaped x ≡ some l
    → (escape ≡ true) ⊎ (contains x s ≡ false)
    → contains x (convert s false escape) ≡ false
unfolding convert
convert-without escape x l s e h =
    contains-append x (convert_loop false escape true 0 s) _
      (convert_loop-without escape true 0 x l s e h) (close_off-without _)
  where
    close_off-without : (last : ℕ) → contains x (close_off last) ≡ false
    close_off-without last = unfold contains in ground (arith, escaped-ne x l e)

-- A validated name holds none of the characters, unless they are escaped.
validate_name-without :
    (escape : Bool) (x l : ℕ) (name : Bytes)
    → escaped x ≡ some l
    → validate_name escape name ≡ true
    → (escape ≡ true) ⊎ (contains x name ≡ false)
unfolding validate_name validate_common contains_any escaped
validate_name-without true x l name e valid = inl refl
validate_name-without false x l name e valid = inr (ground arith)

name_to_subject-without_one :
    (escape : Bool) (name subject : Bytes) (x l : ℕ)
    → name_to_subject escape name ≡ some subject
    → escaped x ≡ some l
    → contains x subject ≡ false
unfolding name_to_subject
name_to_subject-without_one escape name subject x l e h =
    elim (Bool-cases (validate_name escape name)) [
      | inl valid ↦
          let free =
            convert-without escape x l name h (validate_name-without escape x l name h valid) in
          ground (arith, free)
      | inr invalid ↦ cc (rw invalid at e)
    ]

-- The characters that NATS's documentation reserves in a subject, the wildcards '*' and '>' and white
-- space, and DEL.
abbrev pub nats_special : List ℕ
nats_special = 0x2A ∷ 0x3E ∷ 0x20 ∷ 0x09 ∷ 0x0A ∷ 0x0D ∷ 0x0C ∷ 0x7F ∷ []

-- The subject of a Topic Name, with the escapes and without, holds none of '*', '>', the blank, tab,
-- line feed, carriage return, form feed and DEL, by their codes: it is the literal subject of one topic.
pub name_to_subject-without :
    (escape : Bool) (name subject : Bytes)
    → name_to_subject escape name ≡ some subject
    → All (λ x. contains x subject ≡ false) nats_special
unfolding escaped
name_to_subject-without escape name subject e =
    let free : (x l : ℕ) → escaped x ≡ some l → contains x subject ≡ false =
      λ x l h. name_to_subject-without_one escape name subject x l e h in
    (
      free 0x2A b's' refl,
      (
        free 0x3E b'g' refl,
        (
          free 0x20 b'p' refl,
          (
            free 0x09 b't' refl,
            (
              free 0x0A b'n' refl,
              (free 0x0D b'r' refl, (free 0x0C b'f' refl, (free 0x7F b'd' refl, tt))),
            ),
          ),
        ),
      ),
    )
