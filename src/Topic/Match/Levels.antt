-- ===== src/Topic/Match/Levels.antt =====
-- What `Match` decides: the levels of a filter against the levels of a name, and the rule on '$'.
use natsmqtt.Prelude.{
  ◌≡◌, refl, sym, ap, ◌∙◌, subst, Bool, true, false, ◌&&◌, ◌||◌, some, inl, inr, ◌↔◌,
}
use natsmqtt.Prelude.{
  List, [], ◌∷◌, Bytes, codes, bytes_eq, arith, ◌==◌, ==_iff, is_empty, Bool-cases, and→both,
}
use natsmqtt.Topic.Strings.{split, contains}
use natsmqtt.Topic.Validate.{
  slash, level_ok, levels_ok, validate_filter_levels, is_shared, split_shared, shared_filter_ok,
  validate_filter,
}
use natsmqtt.Topic.Match.{match_levels, is_dollar, starts_wild, match_plain, match}

pub bytes_eq_refl : (s : Bytes) → bytes_eq s s ≡ true
unfolding bytes_eq
bytes_eq_refl [] = refl
bytes_eq_refl (x ∷ s) = rw ((==_iff x x).1 refl, bytes_eq_refl s)

pub bytes_eq→eq : (s t : Bytes) → bytes_eq s t ≡ true → s ≡ t
unfolding bytes_eq
bytes_eq→eq [] [] h = refl
bytes_eq→eq [] (y ∷ t) h = cc
bytes_eq→eq (x ∷ s) [] h = cc
bytes_eq→eq (x ∷ s) (y ∷ t) h =
    let (a, b) = and→both (x == y) (bytes_eq s t) h in
    let same = (==_iff x y).0 a in let rest = bytes_eq→eq s t b in cc

-- The levels of a filter and those of a name that it stands for: level by level, where "+" stands
-- for any one level, and a last "#" for whatever is left, the parent level included.
pub data Matches : List Bytes → List Bytes → Type 0 where
  done : Matches [] []
  below : (ns : List Bytes) → Matches (codes "#" ∷ []) ns
  any : (n : Bytes) (ls ns : List Bytes) → Matches ls ns → Matches (codes "+" ∷ ls) (n ∷ ns)
  level : (l : Bytes) (ls ns : List Bytes) → Matches ls ns → Matches (l ∷ ls) (l ∷ ns)

Matches→match_levels : (ls ns : List Bytes) → Matches ls ns → match_levels ls ns ≡ true
unfolding match_levels bytes_eq
Matches→match_levels _ _ Matches.done = refl
Matches→match_levels _ _ (Matches.below []) = refl
Matches→match_levels _ _ (Matches.below (n ∷ ns)) = refl
Matches→match_levels _ _ (Matches.any n ls ns m) = Matches→match_levels ls ns m
Matches→match_levels _ _ (Matches.level l ls ns m) =
    ground (arith, bytes_eq_refl l, Matches→match_levels ls ns m)

-- In a filter that is valid, "#" is the last level.
hash-last :
    (l : Bytes) (ls : List Bytes)
    → levels_ok (l ∷ ls) ≡ true
    → l ≡ codes "#"
    → codes "#" ∷ [] ≡ l ∷ ls
unfolding levels_ok level_ok contains bytes_eq
hash-last l [] h e = ap (λ z. z ∷ []) (sym e)
hash-last l (k ∷ ls) h e = cc (subst (λ z. levels_ok (z ∷ k ∷ ls) ≡ true) e h)

level-Matches :
    (l n : Bytes) (ls ns : List Bytes)
    → Matches ls ns
    → (bytes_eq l (codes "+") || bytes_eq l n) ≡ true
    → Matches (l ∷ ls) (n ∷ ns)
level-Matches l n ls ns m h = elim (Bool-cases (bytes_eq l (codes "+"))) [
  | inl plus ↦
      subst (λ z. Matches (z ∷ ls) (n ∷ ns)) (sym (bytes_eq→eq l (codes "+") plus))
        (Matches.any n ls ns m)
  | inr other ↦
      subst (λ z. Matches (l ∷ ls) (z ∷ ns)) (bytes_eq→eq l n (ground arith))
        (Matches.level l ls ns m)
]

later-ok : (l : Bytes) (ls : List Bytes) → levels_ok (l ∷ ls) ≡ true → levels_ok ls ≡ true
unfolding levels_ok
later-ok l ls h = ground arith

match_levels→Matches :
    (ls ns : List Bytes) → levels_ok ls ≡ true → match_levels ls ns ≡ true → Matches ls ns
unfolding match_levels
match_levels→Matches [] [] v h = Matches.done
match_levels→Matches [] (n ∷ ns) v h = cc
match_levels→Matches (l ∷ ls) [] v h =
    subst (λ z. Matches z []) (hash-last l ls v (bytes_eq→eq l (codes "#") h)) (Matches.below [])
match_levels→Matches (l ∷ ls) (n ∷ ns) v h = elim (Bool-cases (bytes_eq l (codes "#"))) [
  | inl hash ↦
      subst (λ z. Matches z (n ∷ ns)) (hash-last l ls v (bytes_eq→eq l (codes "#") hash))
        (Matches.below (n ∷ ns))
  | inr other ↦
      let (here, later) =
        and→both (bytes_eq l (codes "+") || bytes_eq l n) (match_levels ls ns) (rw other at h) in
      level-Matches l n ls ns (match_levels→Matches ls ns (later-ok l ls v) later) here
]

-- That a name is one of the topics of a filter, apart from a share: the levels agree, and a wildcard
-- at the start does not stand for a first level with '$'.
pub record IsTopicOf (filter name : Bytes) : Type 0 where
  pub there : is_empty name ≡ false
  pub no_dollar : (is_dollar name && starts_wild filter) ≡ false
  pub levels : Matches (split slash filter) (split slash name)

match_plain→IsTopicOf :
    (filter name : Bytes)
    → validate_filter_levels filter ≡ true
    → match_plain filter name ≡ true
    → IsTopicOf filter name
unfolding match_plain validate_filter_levels
match_plain→IsTopicOf [] name v h = cc
match_plain→IsTopicOf (c ∷ f) [] v h = cc
match_plain→IsTopicOf (c ∷ f) (d ∷ n) v h =
    elim (Bool-cases (is_dollar (d ∷ n) && starts_wild (c ∷ f))) [
      | inl shut ↦ cc (rw shut at h)
      | inr clear ↦ record {
        there = refl;
        no_dollar = clear;
        levels = match_levels→Matches _ _ v (rw clear at h);
      }
    ]

IsTopicOf→match_plain :
    (filter name : Bytes)
    → is_empty filter ≡ false
    → IsTopicOf filter name
    → match_plain filter name ≡ true
unfolding match_plain
IsTopicOf→match_plain [] name v t = cc
IsTopicOf→match_plain (c ∷ f) [] v t = cc (t.there)
IsTopicOf→match_plain (c ∷ f) (d ∷ n) v t = rw (t.no_dollar, Matches→match_levels _ _ t.levels)

pub split_shared-plain :
    (filter : Bytes) → is_shared filter ≡ false → split_shared filter ≡ some ([], filter)
unfolding split_shared
split_shared-plain filter h = rw h

pub match-inner :
    (filter share inner name : Bytes)
    → split_shared filter ≡ some (share, inner)
    → match filter name ≡ match_plain inner name
unfolding match
match-inner filter share inner name e = elim (Bool-cases (is_shared filter)) [
  | inl shared ↦ rw (shared, e)
  | inr plain ↦
      let same : filter ≡ inner = ground (arith, split_shared-plain filter plain) in
      rw (plain, same)
]

pub validate_filter-levels :
    (escape : Bool) (filter share inner : Bytes)
    → validate_filter escape filter ≡ true
    → split_shared filter ≡ some (share, inner)
    → validate_filter_levels inner ≡ true
unfolding validate_filter shared_filter_ok
validate_filter-levels escape filter share inner v e = elim (Bool-cases (is_shared filter)) [
  | inl shared ↦ ground arith
  | inr plain ↦
      let same : filter ≡ inner = ground (arith, split_shared-plain filter plain) in
      subst (λ z. validate_filter_levels z ≡ true) same (ground arith)
]

pub levels-nonempty :
    (filter : Bytes) → validate_filter_levels filter ≡ true → is_empty filter ≡ false
unfolding validate_filter_levels
levels-nonempty filter h = ground arith

-- A valid filter matches a name exactly if the name is one of its topics, or, where the filter is
-- shared, one of the topics of the filter behind the ShareName.
pub match_iff :
    (escape : Bool) (filter share inner name : Bytes)
    → validate_filter escape filter ≡ true
    → split_shared filter ≡ some (share, inner)
    → (match filter name ≡ true) ↔ IsTopicOf inner name
match_iff escape filter share inner name v e =
    let same = match-inner filter share inner name e in
    let ok_levels = validate_filter-levels escape filter share inner v e in
    (
      λ h. match_plain→IsTopicOf inner name ok_levels (sym same ∙ h),
      λ t. same ∙ IsTopicOf→match_plain inner name (levels-nonempty inner ok_levels) t,
    )
