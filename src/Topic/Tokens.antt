-- ===== src/Topic/Tokens.antt =====
-- No subject that `convert` writes has an empty token between its dots.
use natsmqtt.Prelude.{ℕ, ◌≡◌, refl, ◌++◌, Bool, true, false, ◌||◌, ◌&&◌, not, some}
use natsmqtt.Prelude.{
  List, [], ◌∷◌, Bytes, arith, ◌==◌, if◌then◌else◌, ◌⊎◌, inl, inr, Bool-cases, All, is_empty,
  Option-cases,
}
use natsmqtt.Prelude.{append_assoc, and→both, subst}
use natsmqtt.Topic.Strings.{split, add_to_first}
use natsmqtt.Topic.Validate.{
  slash, validate_common, validate_name, validate_filter, shared_filter_ok, split_shared,
  validate_filter_levels,
}
use natsmqtt.Topic.Subject.{dot, escaped, plain_piece, piece, last_byte, convert_loop}
use natsmqtt.Topic.Subject.{close_off, convert, name_to_subject, filter_to_subject}
use natsmqtt.Topic.RoundTrip.{last_byte-append}

letter-no_dot : (c l : ℕ) → escaped c ≡ some l → (l == dot) ≡ false
unfolding escaped
letter-no_dot c l e = ground arith

-- No token is empty: NATS reads a subject as tokens between dots. `behind` says that the last byte
-- was a dot, or that there was none.
tokens_ok : Bool → Bytes → Bool
tokens_ok behind [] = not behind
tokens_ok behind (c ∷ s) =
    let later = tokens_ok true s in
    let next = tokens_ok false s in if c == dot then not behind && later else next

one-token :
    (behind : Bool) (x : ℕ) (t : Bytes)
    → (x == dot) ≡ false
    → tokens_ok false t ≡ true
    → tokens_ok behind (x ∷ t) ≡ true
unfolding tokens_ok
one-token behind x t h k = rw (h, k)

dot-token : (t : Bytes) → tokens_ok true t ≡ true → tokens_ok false (dot ∷ t) ≡ true
unfolding tokens_ok
dot-token t h = rw h

plain_piece-tokens :
    (escape behind : Bool) (last c : ℕ) (t : Bytes)
    → (c == dot) ≡ false
    → tokens_ok (last_byte last (plain_piece escape c) == dot) t ≡ true
    → tokens_ok behind (plain_piece escape c ++ t) ≡ true
unfolding plain_piece last_byte
plain_piece-tokens escape behind last c t no_dot h = elim (Option-cases (escaped c)) [
  | inl plain ↦ ground (arith, one-token behind c t)
  | inr (l, known) ↦
      let letter = letter-no_dot c l known in
      ground (arith, one-token behind c t, one-token behind slash (l ∷ t), one-token false l t)
]

module _ (wild escape start : Bool) (last c : ℕ) (s t : Bytes) where
  -- What a round leaves behind it.
  piece-tokens :
      tokens_ok (last_byte last (piece wild escape start last c s) == dot) t ≡ true
      → tokens_ok (start || last == dot) (piece wild escape start last c s ++ t) ≡ true
  unfolding piece last_byte
  piece-tokens h =
      let behind = start || last == dot in
      ground (
        arith,
        one-token behind slash (dot ∷ t),
        dot-token t,
        dot-token (slash ∷ t),
        one-token true slash t,
        one-token behind slash (slash ∷ t),
        one-token false slash t,
        one-token behind c t,
        one-token behind b'*' t,
        one-token behind b'>' t,
        plain_piece-tokens escape behind last c t,
      )

-- What the rest of `convert` writes, the closing '/' included.
unfoldable pub closing : Bool → Bool → Bool → ℕ → Bytes → Bytes
closing wild escape start last s =
    let out = convert_loop wild escape start last s in out ++ close_off (last_byte last out)

pub closing-cons :
    (wild escape start : Bool) (last c : ℕ) (s p : Bytes)
    → piece wild escape start last c s ≡ p
    → closing wild escape start last (c ∷ s) ≡ p ++ closing wild escape false (last_byte last p) s
unfolding closing convert_loop
closing-cons wild escape start last c s p e =
    rw (
      e,
      append_assoc,
      last_byte-append last p (convert_loop wild escape false (last_byte last p) s),
    )

closing-tokens :
    (wild escape start : Bool) (last : ℕ) (s : Bytes)
    → (start ≡ false) ⊎ (is_empty s ≡ false)
    → tokens_ok (start || last == dot) (closing wild escape start last s) ≡ true
closing-tokens wild escape start last [] h =
    unfold tokens_ok closing convert_loop last_byte in ground arith
closing-tokens wild escape start last (c ∷ s) h =
    let p = piece wild escape start last c s in
    rw (
      closing-cons wild escape start last c s p refl,
      piece-tokens wild escape start last c s (closing wild escape false (last_byte last p) s)
          (closing-tokens wild escape false (last_byte last p) s (inl refl)),
    )

-- The same, read off the tokens themselves.
no_empty : List Bytes → Bool
no_empty [] = true
no_empty (l ∷ ls) = not (is_empty l) && no_empty ls

nonempty_from : Bool → List Bytes → Bool
nonempty_from behind [] = false
nonempty_from behind (l ∷ ls) = (not behind || not (is_empty l)) && no_empty ls

nonempty_from-add :
    (behind : Bool) (c : ℕ) (ls : List Bytes)
    → nonempty_from false ls ≡ true
    → nonempty_from behind (add_to_first c ls) ≡ true
unfolding nonempty_from
nonempty_from-add behind c [] h = cc
nonempty_from-add behind c (l ∷ ls) h = ground arith

nonempty_from→no_empty : (ls : List Bytes) → nonempty_from true ls ≡ true → no_empty ls ≡ true
unfolding nonempty_from no_empty
nonempty_from→no_empty [] h = refl
nonempty_from→no_empty (l ∷ ls) h = h

tokens_ok→split :
    (behind : Bool) (s : Bytes)
    → tokens_ok behind s ≡ true
    → nonempty_from behind (split dot s) ≡ true
unfolding tokens_ok split nonempty_from
tokens_ok→split behind [] h = unfold nonempty_from no_empty in ground arith
tokens_ok→split behind (c ∷ s) h = elim (Bool-cases (c == dot)) [
  | inl at_dot ↦
      let (ahead, later) = and→both (not behind) (tokens_ok true s) (rw at_dot at h) in
      let rest = nonempty_from→no_empty (split dot s) (tokens_ok→split true s later) in
      rw (at_dot, ahead, rest)
  | inr inside ↦
      rw (
        inside,
        nonempty_from-add behind c (split dot s) (tokens_ok→split false s (rw inside at h)),
      )
]

no_empty→All : (ls : List Bytes) → no_empty ls ≡ true → All (λ t. is_empty t ≡ false) ls
unfolding no_empty
no_empty→All [] h = tt
no_empty→All (l ∷ ls) h = (ground arith, no_empty→All ls (ground arith))

convert-tokens :
    (wild escape : Bool) (s : Bytes)
    → is_empty s ≡ false
    → All (λ t. is_empty t ≡ false) (split dot (convert s wild escape))
unfolding convert closing
convert-tokens wild escape s h =
    let ok_there = closing-tokens wild escape true 0 s (inr h) in
    let whole = tokens_ok→split true (convert s wild escape) ok_there in
    no_empty→All _ (nonempty_from→no_empty _ whole)

pub validate_name-nonempty :
    (escape : Bool) (name : Bytes) → validate_name escape name ≡ true → is_empty name ≡ false
unfolding validate_name validate_common
validate_name-nonempty escape name h = ground arith

-- The subject of a Topic Name has no empty token: NATS takes it as a subject.
pub name_to_subject-tokens :
    (escape : Bool) (name subject : Bytes)
    → name_to_subject escape name ≡ some subject
    → All (λ t. is_empty t ≡ false) (split dot subject)
unfolding name_to_subject
name_to_subject-tokens escape name subject e = elim (Bool-cases (validate_name escape name)) [
  | inl valid ↦
      let good = convert-tokens false escape name (validate_name-nonempty escape name valid) in
      let same : convert name false escape ≡ subject = ground arith in
      subst (λ z. All (λ t. is_empty t ≡ false) (split dot z)) same good
  | inr invalid ↦ cc (rw invalid at e)
]

pub validate_filter-nonempty :
    (escape : Bool) (filter share inner : Bytes)
    → validate_filter escape filter ≡ true
    → split_shared filter ≡ some (share, inner)
    → is_empty inner ≡ false
unfolding validate_filter shared_filter_ok validate_filter_levels split_shared
validate_filter-nonempty escape filter share inner h e = ground arith

-- The subject of a Topic Filter has no empty token either, also where the filter is shared.
pub filter_to_subject-tokens :
    (escape : Bool) (filter subject : Bytes)
    → filter_to_subject escape filter ≡ some subject
    → All (λ t. is_empty t ≡ false) (split dot subject)
unfolding filter_to_subject
filter_to_subject-tokens escape filter subject e =
    elim (Bool-cases (validate_filter escape filter)) [
      | inl valid ↦ elim (Option-cases (split_shared filter)) [
        | inl bad ↦ ground arith
        | inr ((share, inner), split_ok) ↦
            let good =
              convert-tokens true escape inner
                (validate_filter-nonempty escape filter share inner valid split_ok) in
            let same : convert inner true escape ≡ subject = ground arith in
            subst (λ z. All (λ t. is_empty t ≡ false) (split dot z)) same good
      ]
      | inr invalid ↦ cc (rw invalid at e)
    ]
