-- ===== src/Topic/Levelwise.antt =====
-- `convert` works level by level: the tokens of the subject are those of the levels of the topic.
use natsmqtt.Prelude.{ℕ, ◌≡◌, refl, sym, ap, ◌∙◌, ◌++◌, Bool, true, false, ◌||◌}
use natsmqtt.Prelude.{
  List, [], ◌∷◌, Bytes, arith, ◌==◌, ==_iff, ◌⊎◌, inl, inr, Bool-cases, is_empty, subst,
}
use natsmqtt.Topic.Strings.{split, add_to_first, contains}
use natsmqtt.Topic.Validate.{slash}
use natsmqtt.Topic.Parts.{
  add_all, split-append, split-dot, add_all-cons, split-slash, split-inside, split-ends_level,
  split-cons,
}
use natsmqtt.Topic.Subject.{
  dot, escaped, ends_level, plain_piece, piece, last_byte, convert_loop, convert,
}
use natsmqtt.Topic.Tokens.{closing, closing-cons}

-- What is written for a character other than '/'.
unfoldable pub char_of : Bool → Bool → ℕ → Bytes
char_of wild escape c = piece wild escape false 0 c []

-- What is written for the characters of a level, and for a level.
unfoldable pub raw : Bool → Bool → Bytes → Bytes
raw wild escape [] = []
raw wild escape (c ∷ l) = char_of wild escape c ++ raw wild escape l

unfoldable pub token : Bool → Bool → Bytes → Bytes
token wild escape [] = slash ∷ []
token wild escape (c ∷ l) = raw wild escape (c ∷ l)

unfoldable pub tokens : Bool → Bool → List Bytes → List Bytes
tokens wild escape [] = []
tokens wild escape (l ∷ ls) = token wild escape l ∷ tokens wild escape ls

-- The first level goes on with a token that has begun.
unfoldable pub begun : Bool → Bool → List Bytes → List Bytes
begun wild escape [] = []
begun wild escape (l ∷ ls) = raw wild escape l ∷ tokens wild escape ls

module _ (wild escape : Bool) where
  piece-char_of :
      (start : Bool) (last c : ℕ) (s : Bytes)
      → (c == slash) ≡ false
      → piece wild escape start last c s ≡ char_of wild escape c
  unfolding piece char_of
  piece-char_of start last c s h = rw h

  char_of-no_dot : (c : ℕ) → (c == slash) ≡ false → contains dot (char_of wild escape c) ≡ false
  unfolding char_of piece plain_piece contains escaped
  char_of-no_dot c h = ground arith

  char_of-last :
      (last c : ℕ) → (c == slash) ≡ false → (last_byte last (char_of wild escape c) == dot) ≡ false
  unfolding char_of piece plain_piece last_byte escaped
  char_of-last last c h = ground arith

module _ (wild escape : Bool) where
  goes_on :
      (c : ℕ) (l : Bytes) (ls : List Bytes)
      → (add_all (char_of wild escape c) (begun wild escape (l ∷ ls))
          ≡ tokens wild escape (add_to_first c (l ∷ ls)))
        × (add_all (char_of wild escape c) (begun wild escape (l ∷ ls))
            ≡ begun wild escape (add_to_first c (l ∷ ls)))
  unfolding begun tokens token raw
  goes_on c l ls =
      let joined =
        add_all-cons (char_of wild escape c) (raw wild escape l) (tokens wild escape ls) in
      (joined, joined)

  slash_edge :
      (start : Bool) (last : ℕ) (s : Bytes)
      → (start || last == dot) ≡ true
      → piece wild escape start last slash s ≡ slash ∷ dot ∷ []
  unfolding piece
  slash_edge start last s h = rw h

  slash_padded :
      (start : Bool) (last : ℕ) (s : Bytes)
      → (start || last == dot) ≡ false
      → ends_level s ≡ true
      → piece wild escape start last slash s ≡ dot ∷ slash ∷ []
  unfolding piece
  slash_padded start last s h k = rw (h, k)

  slash_plain :
      (start : Bool) (last : ℕ) (s : Bytes)
      → (start || last == dot) ≡ false
      → ends_level s ≡ false
      → piece wild escape start last slash s ≡ dot ∷ []
  unfolding piece
  slash_plain start last s h k = rw (h, k)

module _ (wild escape : Bool) where
  -- At the start of a token, and inside one.
  abbrev Levelwise : Bytes → Type 0
  Levelwise s =
      ((start : Bool) (last : ℕ)
        → (start || last == dot) ≡ true
        → (start ≡ false) ⊎ (is_empty s ≡ false)
        → split dot (closing wild escape start last s) ≡ tokens wild escape (split slash s))
      × ((start : Bool) (last : ℕ)
          → (start || last == dot) ≡ false
          → split dot (closing wild escape start last s) ≡ begun wild escape (split slash s))

  end-Levelwise : Levelwise []
  unfolding closing convert_loop last_byte split tokens token begun raw
  end-Levelwise = (λ start last b h. ground arith, λ start last b. ground arith)

  -- A character other than '/' goes on with the token.
  inside-Levelwise : (c : ℕ) (s : Bytes) → (c == slash) ≡ false → Levelwise s → Levelwise (c ∷ s)
  inside-Levelwise c s h (apart, on) =
      (λ start last b k. first start last, λ start last b. later start last)
    where
      p : Bytes
      p = char_of wild escape c

      written :
          (start : Bool) (last : ℕ)
          → split dot (closing wild escape start last (c ∷ s))
            ≡ add_all p (begun wild escape (split slash s))
      written start last =
          ap (split dot)
            (closing-cons wild escape start last c s p (piece-char_of wild escape start last c s h))
          ∙ split-append p (closing wild escape false (last_byte last p) s)
              (char_of-no_dot wild escape c h)
          ∙ ap (add_all p) (on false (last_byte last p) (char_of-last wild escape last c h))

      first :
          (start : Bool) (last : ℕ)
          → split dot (closing wild escape start last (c ∷ s))
            ≡ tokens wild escape (split slash (c ∷ s))
      first start last =
          let (l, ls, e) = split-cons slash s in
          written start last ∙ rw (split-inside c s h, e) (goes_on wild escape c l ls).0

      later :
          (start : Bool) (last : ℕ)
          → split dot (closing wild escape start last (c ∷ s))
            ≡ begun wild escape (split slash (c ∷ s))
      later start last =
          let (l, ls, e) = split-cons slash s in
          written start last ∙ rw (split-inside c s h, e) (goes_on wild escape c l ls).1

  -- At the start of a token a '/' stands for an empty level; inside one it ends the level, and the
  -- padding '/' stands for the next one where that is empty.
  edge-Levelwise :
      (s : Bytes) (start : Bool) (last : ℕ)
      → Levelwise s
      → (start || last == dot) ≡ true
      → split dot (closing wild escape start last (slash ∷ s))
        ≡ tokens wild escape (split slash (slash ∷ s))
  unfolding last_byte add_all tokens token
  edge-Levelwise s start last (apart, on) b =
      let rest = closing wild escape false dot s in
      ap (split dot)
        (closing-cons wild escape start last slash s _ (slash_edge wild escape start last s b))
      ∙ split-append (slash ∷ []) (dot ∷ rest) (unfold contains in refl)
      ∙ ap (add_all (slash ∷ []))
          (split-dot rest ∙ ap (λ z. [] ∷ z) (apart false dot refl (inl refl)))
      ∙ rw (split-slash s) refl

  middle-Levelwise :
      (s : Bytes) (start : Bool) (last : ℕ)
      → Levelwise s
      → (start || last == dot) ≡ false
      → split dot (closing wild escape start last (slash ∷ s))
        ≡ begun wild escape (split slash (slash ∷ s))
  unfolding last_byte add_all begun tokens token raw
  middle-Levelwise s start last (apart, on) b = elim (Bool-cases (ends_level s)) [
    | inl level ↦
        let rest = closing wild escape false slash s in
        let (ls, e) = split-ends_level s level in
        ap (split dot) (
          closing-cons wild escape start last slash s _
            (slash_padded wild escape start last s b level))
        ∙ split-dot (slash ∷ rest)
        ∙ ap (λ z. [] ∷ z)
            (split-append (slash ∷ []) rest (unfold contains in refl)
              ∙ ap (add_all (slash ∷ [])) (on false slash refl))
        ∙ rw (split-slash s, e) refl
    | inr more ↦
        ap (split dot) (
          closing-cons wild escape start last slash s _
            (slash_plain wild escape start last s b more))
        ∙ split-dot (closing wild escape false dot s)
        ∙ ap (λ z. [] ∷ z) (apart false dot refl (inl refl))
        ∙ rw (split-slash s) refl
  ]

  slash-Levelwise : (s : Bytes) → Levelwise s → Levelwise (slash ∷ s)
  slash-Levelwise s h = (
    λ start last b k. edge-Levelwise s start last h b,
    λ start last b. middle-Levelwise s start last h b,
  )

  levelwise : (s : Bytes) → Levelwise s
  levelwise [] = end-Levelwise
  levelwise (c ∷ s) = elim (Bool-cases (c == slash)) [
    | inl at ↦
        subst (λ x. Levelwise (x ∷ s)) (sym ((==_iff c slash).0 at))
          (slash-Levelwise s (levelwise s))
    | inr other ↦ inside-Levelwise c s other (levelwise s)
  ]

-- The tokens of what `convert` writes for a topic that is not empty are those of its levels, each by itself.
pub convert-levelwise :
    (wild escape : Bool) (s : Bytes)
    → is_empty s ≡ false
    → split dot (convert s wild escape) ≡ tokens wild escape (split slash s)
unfolding convert closing
convert-levelwise wild escape s h = (levelwise wild escape s).0 true 0 refl (inr h)
