-- ===== src/Topic/Delivery.antt =====
-- Which subjects NATS delivers for the subject of a filter, against what `Match` decides.
pub mod Whole
use natsmqtt.Prelude.{
  ℕ, ◌≡◌, refl, sym, ap, ◌∙◌, ◌++◌, Bool, true, false, ◌||◌, ◌&&◌, not, Option, none, some, subst,
}
use natsmqtt.Prelude.{
  List, [], ◌∷◌, Bytes, codes, bytes_eq, arith, ◌==◌, ==_iff, if◌then◌else◌, ◌⊎◌, inl, inr,
  Bool-cases, is_empty, All, and→both, append-nil,
}
use natsmqtt.Topic.Strings.{split, add_to_first, contains}
use natsmqtt.Topic.Validate.{slash, level_ok, levels_ok}
use natsmqtt.Topic.Match.{match_levels}
use natsmqtt.Topic.Match.Levels.{bytes_eq_refl, bytes_eq→eq}
use natsmqtt.Topic.Parts.{
  add_all, split-append, split-dot, add_all-cons, split-slash, split-inside, split-ends_level,
  split-cons, bytes_eq-nil, bytes_eq_iff, split-none, split-one,
}
use natsmqtt.Topic.Subject.{dot, escaped, plain_piece, piece, convert, subject_to_name}
use natsmqtt.Topic.RoundTrip.{subject_to_name-convert}
use natsmqtt.Topic.Levelwise.{char_of, raw, token, tokens, convert-levelwise}

-- The tokens that NATS takes a subject with wildcards for: '*' for any one token, a last '>' for one
-- or more.
unfoldable pub covers : List Bytes → List Bytes → Bool
covers [] [] = true
covers [] (n ∷ ns) = false
covers (t ∷ ts) [] = false
covers (t ∷ ts) (n ∷ ns) =
    (bytes_eq t (codes ">") && is_empty ts)
    || ((bytes_eq t (codes "*") || bytes_eq t n) && covers ts ns)

-- The same for what stands before a last '>', none where there is no such token.
unfoldable pub parent_covers : List Bytes → List Bytes → Bool
parent_covers [] ns = false
parent_covers (t ∷ ts) [] = bytes_eq t (codes ">") && is_empty ts
parent_covers (t ∷ ts) (n ∷ ns) = (bytes_eq t (codes "*") || bytes_eq t n) && parent_covers ts ns

-- A character that NATS would take for a wildcard is escaped, or not there.
abbrev pub NoStars : Bool → Bytes → Type 0
NoStars escape l = (escape ≡ true) ⊎ ((contains b'*' l ≡ false) × (contains b'>' l ≡ false))

module _ (escape : Bool) where
  char_of-gt :
      (c : ℕ) (r : Bytes)
      → NoStars escape (c ∷ r)
      → (t : Bytes)
      → bytes_eq (char_of true escape c ++ t) (codes ">") ≡ ((c == b'#') && is_empty t)
  unfolding char_of piece plain_piece escaped contains bytes_eq
  char_of-gt c r (inl on) [] = ground arith
  char_of-gt c r (inl on) (x ∷ t) = ground arith
  char_of-gt c r (inr (s, g)) [] = ground arith
  char_of-gt c r (inr (s, g)) (x ∷ t) = ground arith

  char_of-star :
      (c : ℕ) (r : Bytes)
      → NoStars escape (c ∷ r)
      → (t : Bytes)
      → bytes_eq (char_of true escape c ++ t) (codes "*") ≡ ((c == b'+') && is_empty t)
  unfolding char_of piece plain_piece escaped contains bytes_eq
  char_of-star c r (inl on) [] = ground arith
  char_of-star c r (inl on) (x ∷ t) = ground arith
  char_of-star c r (inr (s, g)) [] = ground arith
  char_of-star c r (inr (s, g)) (x ∷ t) = ground arith

  raw-empty : (l : Bytes) → is_empty (raw true escape l) ≡ is_empty l
  unfolding raw char_of piece plain_piece escaped
  raw-empty [] = refl
  raw-empty (c ∷ l) = ground arith

  token-gt :
      (l : Bytes)
      → NoStars escape l
      → bytes_eq (token true escape l) (codes ">") ≡ bytes_eq l (codes "#")
  unfolding token raw bytes_eq
  token-gt [] h = refl
  token-gt (c ∷ l) h = char_of-gt c l h (raw true escape l) ∙ rw (raw-empty l, bytes_eq-nil l) refl

  token-star :
      (l : Bytes)
      → NoStars escape l
      → bytes_eq (token true escape l) (codes "*") ≡ bytes_eq l (codes "+")
  unfolding token raw bytes_eq
  token-star [] h = refl
  token-star (c ∷ l) h =
      char_of-star c l h (raw true escape l) ∙ rw (raw-empty l, bytes_eq-nil l) refl

  char_of-plain :
      (c : ℕ)
      → (c == b'+') ≡ false
      → (c == b'#') ≡ false
      → char_of true escape c ≡ char_of false escape c
  unfolding char_of piece
  char_of-plain c h k = rw (h, k) refl

  -- Without wildcards the two mappings agree.
  raw-plain :
      (l : Bytes)
      → contains b'+' l ≡ false
      → contains b'#' l ≡ false
      → raw true escape l ≡ raw false escape l
  unfolding raw contains
  raw-plain [] h k = refl
  raw-plain (c ∷ l) h k =
      rw (char_of-plain c (ground arith) (ground arith), raw-plain l (ground arith) (ground arith))
        refl

  token-plain :
      (l : Bytes)
      → contains b'+' l ≡ false
      → contains b'#' l ≡ false
      → token true escape l ≡ token false escape l
  unfolding token
  token-plain [] h k = refl
  token-plain (c ∷ l) h k = raw-plain (c ∷ l) h k

  -- A level comes back from its token.
  subject_to_name-token :
      (l : Bytes) → contains slash l ≡ false → subject_to_name (token false escape l) ≡ l
  unfolding token
  subject_to_name-token [] h = unfold subject_to_name in refl
  subject_to_name-token (c ∷ l) h =
      let whole : split dot (convert (c ∷ l) false escape) ≡ raw false escape (c ∷ l) ∷ [] =
        convert-levelwise false escape (c ∷ l) refl
        ∙ ap (tokens false escape) (split-none slash (c ∷ l) h)
        ∙ one_token c l in
      ap subject_to_name (sym (split-one dot _ _ whole)) ∙ subject_to_name-convert escape (c ∷ l)
    where
      one_token :
          (c : ℕ) (l : Bytes) → tokens false escape ((c ∷ l) ∷ []) ≡ raw false escape (c ∷ l) ∷ []
      one_token c l = unfold tokens token in refl

  -- Two levels with one token are the same level, also to a test.
  token-injective :
      (l n : Bytes)
      → contains slash l ≡ false
      → contains slash n ≡ false
      → bytes_eq (token false escape l) (token false escape n) ≡ bytes_eq l n
  token-injective l n h k =
      bytes_eq_iff _ _ l n
        (λ e. sym (subject_to_name-token l h) ∙ ap subject_to_name e ∙ subject_to_name-token n k)
        (λ e. ap (token false escape) e)

  tokens-empty : (wild : Bool) (ls : List Bytes) → is_empty (tokens wild escape ls) ≡ is_empty ls
  unfolding tokens
  tokens-empty wild [] = refl
  tokens-empty wild (l ∷ ls) = refl

  -- What the levels of a filter, and those of a name, have of their texts.
  abbrev pub FilterLevel : Bytes → Type 0
  FilterLevel l = (contains slash l ≡ false) × NoStars escape l

  -- Apart from "#", a token stands for the token of a name's level as its level does for the level.
  same-level :
      (l n : Bytes) (last : Bool)
      → level_ok l last ≡ true
      → FilterLevel l
      → contains slash n ≡ false
      → bytes_eq l (codes "#") ≡ false
      → (bytes_eq (token true escape l) (codes "*")
          || bytes_eq (token true escape l) (token false escape n))
        ≡ (bytes_eq l (codes "+") || bytes_eq l n)
  unfolding level_ok
  same-level l n last v (whole, stars) plain_n no_hash =
      elim (Bool-cases (bytes_eq l (codes "+"))) [
        | inl plus ↦ rw (token-star l stars, plus) refl
        | inr no_plus ↦
            let no_plus_in : contains b'+' l ≡ false = ground arith in
            let no_hash_in : contains b'#' l ≡ false = ground arith in
            rw
              (
                token-star l stars,
                no_plus,
                token-plain l no_plus_in no_hash_in,
                token-injective l n whole plain_n,
              )
              refl
      ]

  hash-last :
      (l : Bytes) (last : Bool)
      → level_ok l last ≡ true
      → bytes_eq l (codes "#") ≡ true
      → last ≡ true
  unfolding level_ok contains bytes_eq
  hash-last l last v h = subst (λ z. level_ok z last ≡ true) (bytes_eq→eq l (codes "#") h) v

  pub covers-levels :
      (ls ns : List Bytes)
      → levels_ok ls ≡ true
      → All FilterLevel ls
      → All (λ n. contains slash n ≡ false) ns
      → (covers (tokens true escape ls) (tokens false escape ns)
          || parent_covers (tokens true escape ls) (tokens false escape ns))
        ≡ match_levels ls ns
  unfolding covers parent_covers match_levels tokens levels_ok
  covers-levels [] [] v f h = refl
  covers-levels [] (n ∷ ns) v f h = refl
  covers-levels (l ∷ ls) [] v f h =
      ground (arith, token-gt l f.0.1, tokens-empty true ls, hash-last l (is_empty ls))
  covers-levels (l ∷ ls) (n ∷ ns) v f h = ground (
    arith,
    token-gt l f.0.1,
    tokens-empty true ls,
    hash-last l (is_empty ls),
    same-level l n (is_empty ls),
    covers-levels ls ns (ground arith) f.1 h.1,
  )
