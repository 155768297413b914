-- ===== src/Topic/Delivery/Whole.antt =====
-- The subject of a filter against the subjects of the names that the filter matches.
use natsmqtt.Prelude.{
  ℕ, ◌≡◌, refl, sym, ap, ◌∙◌, ◌++◌, Bool, true, false, ◌||◌, ◌&&◌, Option, some, subst,
}
use natsmqtt.Prelude.{List, [], ◌∷◌, Bytes, arith, ◌==◌, ◌⊎◌, inl, inr, Bool-cases, is_empty, All}
use natsmqtt.Topic.Strings.{split, add_to_first, contains, contains_any}
use natsmqtt.Topic.Validate.{
  slash, shared_prefix, validate_common, validate_name, validate_filter, validate_filter_levels,
  levels_ok, is_shared, split_shared,
}
use natsmqtt.Topic.Match.{match_levels, is_dollar, starts_wild, match_plain, match}
use natsmqtt.Topic.Match.Levels.{
  match-inner, validate_filter-levels, levels-nonempty, split_shared-plain,
}
use natsmqtt.Topic.Subject.{dot, convert, name_to_subject, filter_to_subject}
use natsmqtt.Topic.Grammar.{split_shared_iff}
use natsmqtt.Topic.Tokens.{validate_name-nonempty}
use natsmqtt.Topic.Levelwise.{convert-levelwise}
use natsmqtt.Topic.Delivery.{covers, parent_covers, NoStars, FilterLevel, covers-levels}

-- What a text does not hold, no part of it holds.
contains-behind : (x : ℕ) (a b : Bytes) → contains x (a ++ b) ≡ false → contains x b ≡ false
unfolding contains
contains-behind x [] b h = h
contains-behind x (c ∷ a) b h = contains-behind x a b (ground arith)

add_to_first-All :
    (x c : ℕ) (ls : List Bytes)
    → (c == x) ≡ false
    → All (λ l. contains x l ≡ false) ls
    → All (λ l. contains x l ≡ false) (add_to_first c ls)
unfolding contains
add_to_first-All x c [] h a = (rw h refl, tt)
add_to_first-All x c (l ∷ ls) h a = (rw (h, a.0) refl, a.1)

split-Without :
    (c x : ℕ) (s : Bytes) → contains x s ≡ false → All (λ l. contains x l ≡ false) (split c s)
unfolding split contains
split-Without c x [] h = (refl, tt)
split-Without c x (y ∷ s) h =
    let later = split-Without c x s (ground arith) in
    elim (Bool-cases (y == c)) [
      | inl at ↦ rw at (refl, later)
      | inr inside ↦ rw inside (add_to_first-All x y (split c s) (ground arith) later)
    ]

-- The parts do not hold the character that separates them.
split-apart : (c : ℕ) (s : Bytes) → All (λ l. contains c l ≡ false) (split c s)
unfolding split contains
split-apart c [] = (refl, tt)
split-apart c (y ∷ s) = elim (Bool-cases (y == c)) [
  | inl at ↦ rw at (refl, split-apart c s)
  | inr inside ↦ rw inside (add_to_first-All c y (split c s) inside (split-apart c s))
]

some-second :
    {a b c d : Bytes} → ◌≡◌ {A = Option (Bytes × Bytes)} (some (a, b)) (some (c, d)) → b ≡ d
some-second e = cc

module _ (escape : Bool) where
  FilterLevels :
      (ls : List Bytes)
      → All (λ l. contains slash l ≡ false) ls
      → (escape ≡ true)
        ⊎ (All (λ l. contains b'*' l ≡ false) ls × All (λ l. contains b'>' l ≡ false) ls)
      → All (FilterLevel escape) ls
  FilterLevels [] a h = tt
  FilterLevels (l ∷ ls) a (inl on) = ((a.0, inl on), FilterLevels ls a.1 (inl on))
  FilterLevels (l ∷ ls) a (inr (s, g)) =
      ((a.0, inr (s.0, g.0)), FilterLevels ls a.1 (inr (s.1, g.1)))

  split-FilterLevel : (s : Bytes) → NoStars escape s → All (FilterLevel escape) (split slash s)
  split-FilterLevel s (inl on) = FilterLevels (split slash s) (split-apart slash s) (inl on)
  split-FilterLevel s (inr (a, g)) =
      FilterLevels (split slash s) (split-apart slash s)
        (inr (split-Without slash b'*' s a, split-Without slash b'>' s g))

  validate_common-NoStars : (s : Bytes) → validate_common escape s ≡ true → NoStars escape s
  unfolding validate_common contains_any
  validate_common-NoStars s h = elim (Bool-cases escape) [
    | inl on ↦ inl on
    | inr off ↦ inr (ground arith, ground arith)
  ]

  -- A filter keeps its characters behind the ShareName.
  inner-NoStars :
      (filter share inner : Bytes)
      → NoStars escape filter
      → split_shared filter ≡ some (share, inner)
      → NoStars escape inner
  inner-NoStars filter share inner h e = elim (Bool-cases (is_shared filter)) [
    | inl shared ↦
        let parts = (split_shared_iff filter share inner shared).0 e in behind parts.text h
    | inr plain ↦ subst (NoStars escape) (some-second (sym (split_shared-plain filter plain) ∙ e)) h
  ]
    where
      tail :
          (x : ℕ)
          → filter ≡ shared_prefix ++ (share ++ (slash ∷ inner))
          → contains x filter ≡ false
          → contains x inner ≡ false
      tail x w f = contains-behind x (slash ∷ []) inner (
          contains-behind x share (slash ∷ inner) (
            contains-behind x shared_prefix (share ++ (slash ∷ inner))
              (sym (ap (contains x) w) ∙ f)))

      behind :
          filter ≡ shared_prefix ++ (share ++ (slash ∷ inner))
          → NoStars escape filter
          → NoStars escape inner
      behind w (inl on) = inl on
      behind w (inr (s, g)) = inr (tail b'*' w s, tail b'>' w g)

  filter_to_subject-parts :
      (filter share inner subject : Bytes)
      → filter_to_subject escape filter ≡ some subject
      → split_shared filter ≡ some (share, inner)
      → (validate_filter escape filter ≡ true) × (convert inner true escape ≡ subject)
  unfolding filter_to_subject
  filter_to_subject-parts filter share inner subject e k = (ground arith, ground arith)

  name_to_subject-parts :
      (name subject : Bytes)
      → name_to_subject escape name ≡ some subject
      → (validate_name escape name ≡ true) × (convert name false escape ≡ subject)
  unfolding name_to_subject
  name_to_subject-parts name subject e = (ground arith, ground arith)

  validate_filter-common :
      (filter : Bytes) → validate_filter escape filter ≡ true → validate_common escape filter ≡ true
  unfolding validate_filter
  validate_filter-common filter h = ground arith

  -- Apart from the rule on '$', `Match` compares the levels.
  match_plain-levels :
      (filter name : Bytes)
      → is_empty filter ≡ false
      → is_empty name ≡ false
      → (is_dollar name && starts_wild filter) ≡ false
      → match_plain filter name ≡ match_levels (split slash filter) (split slash name)
  unfolding match_plain
  match_plain-levels [] name h k d = cc
  match_plain-levels (c ∷ f) [] h k d = cc
  match_plain-levels (c ∷ f) (e ∷ n) h k d = rw d refl

-- NATS delivers the subject of a name for the subject of a filter, or for that of the filter's parent
-- level, exactly if `Match` says that the filter matches the name. The rule that a wildcard at the
-- start does not stand for a first level with '$' is not NATS's, so it is a condition.
pub covers-match :
    (escape : Bool) (filter share inner name filter_subject name_subject : Bytes)
    → split_shared filter ≡ some (share, inner)
    → filter_to_subject escape filter ≡ some filter_subject
    → name_to_subject escape name ≡ some name_subject
    → (is_dollar name && starts_wild inner) ≡ false
    → (covers (split dot filter_subject) (split dot name_subject)
        || parent_covers (split dot filter_subject) (split dot name_subject))
      ≡ match filter name
covers-match escape filter share inner name fs ns parts e k d =
    let (valid, fs_is) = filter_to_subject-parts escape filter share inner fs e parts in
    let (valid_name, ns_is) = name_to_subject-parts escape name ns k in
    let ok_levels = validate_filter-levels escape filter share inner valid parts in
    let some_inner = levels-nonempty inner ok_levels in
    let some_name = validate_name-nonempty escape name valid_name in
    let stars =
      inner-NoStars escape filter share inner
        (validate_common-NoStars escape filter (validate_filter-common escape filter valid))
        parts in
    let fs_tokens = ap (split dot) (sym fs_is) ∙ convert-levelwise true escape inner some_inner in
    let ns_tokens = ap (split dot) (sym ns_is) ∙ convert-levelwise false escape name some_name in
    rw
      (
        fs_tokens,
        ns_tokens,
        match-inner filter share inner name parts,
        match_plain-levels escape inner name some_inner some_name d,
      )
      (covers-levels escape (split slash inner) (split slash name) (levels-ok inner ok_levels)
        (split-FilterLevel escape inner stars) (split-apart slash name))
  where
    levels-ok :
        (inner : Bytes) → validate_filter_levels inner ≡ true → levels_ok (split slash inner) ≡ true
    levels-ok inner h = unfold validate_filter_levels in ground arith
