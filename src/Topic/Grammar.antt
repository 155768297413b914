-- ===== src/Topic/Grammar.antt =====
-- The shape of a Topic Filter: where wildcards may stand, and the parts of a shared filter.
use natsmqtt.Prelude.{
  some-injective, ℕ, ◌≡◌, refl, sym, ap, ◌∙◌, subst, ◌++◌, true, false, ◌&&◌, some, inl, inr, ◌↔◌,
}
use natsmqtt.Prelude.{
  List, [], ◌∷◌, Bytes, codes, bytes_eq, arith, ◌==◌, ==_iff, is_empty, Bool-cases, Option-cases,
  and→both,
}
use natsmqtt.Prelude.{drop}
use natsmqtt.Topic.Strings.{contains, contains_any, cut, has_prefix}
use natsmqtt.Topic.Validate.{
  slash, wildcards, shared_prefix, level_ok, levels_ok, is_shared, split_share, split_shared,
}
use natsmqtt.Topic.Match.Levels.{bytes_eq→eq}
use natsmqtt.Topic.Prefix.{has_prefix→append}

-- The levels of a filter: "+" and "#" stand alone in theirs, and "#" in the last one only.
pub data IsFilter : List Bytes → Type 0 where
  end : IsFilter []
  multi : IsFilter (codes "#" ∷ [])
  single : (ls : List Bytes) → IsFilter ls → IsFilter (codes "+" ∷ ls)
  literal :
      (l : Bytes) (ls : List Bytes)
      → contains b'+' l ≡ false
      → contains b'#' l ≡ false
      → IsFilter ls
      → IsFilter (l ∷ ls)

IsFilter→levels_ok : (ls : List Bytes) → IsFilter ls → levels_ok ls ≡ true
unfolding levels_ok level_ok contains bytes_eq
IsFilter→levels_ok _ IsFilter.end = refl
IsFilter→levels_ok _ IsFilter.multi = refl
IsFilter→levels_ok _ (IsFilter.single ls f) = IsFilter→levels_ok ls f
IsFilter→levels_ok _ (IsFilter.literal l ls p h f) = ground (arith, IsFilter→levels_ok ls f)

hash-IsFilter :
    (l : Bytes) (ls : List Bytes)
    → (bytes_eq l (codes "#") && is_empty ls) ≡ true
    → IsFilter (l ∷ ls)
hash-IsFilter l [] h =
    subst (λ z. IsFilter (z ∷ [])) (sym (bytes_eq→eq l (codes "#") (ground arith))) IsFilter.multi
hash-IsFilter l (k ∷ ls) h = ground arith

level-IsFilter :
    (l : Bytes) (ls : List Bytes)
    → level_ok l (is_empty ls) ≡ true
    → IsFilter ls
    → IsFilter (l ∷ ls)
unfolding level_ok
level-IsFilter l ls h f = elim (Bool-cases (contains b'#' l)) [
  | inl hash ↦ hash-IsFilter l ls (ground arith)
  | inr no_hash ↦ elim (Bool-cases (contains b'+' l)) [
    | inl plus ↦
        subst (λ z. IsFilter (z ∷ ls)) (sym (bytes_eq→eq l (codes "+") (ground arith)))
          (IsFilter.single ls f)
    | inr no_plus ↦ IsFilter.literal l ls no_plus no_hash f
  ]
]

levels_ok→IsFilter : (ls : List Bytes) → levels_ok ls ≡ true → IsFilter ls
unfolding levels_ok
levels_ok→IsFilter [] h = IsFilter.end
levels_ok→IsFilter (l ∷ ls) h =
    let (here, later) = and→both (level_ok l (is_empty ls)) (levels_ok ls) h in
    level-IsFilter l ls here (levels_ok→IsFilter ls later)

-- The levels of a filter pass the check of `validateFilterLevels` exactly if they place the wildcards
-- as `IsFilter` says: each level free of them, or "+" alone, or "#" alone and last.
pub levels_ok_iff : (ls : List Bytes) → (levels_ok ls ≡ true) ↔ IsFilter ls
levels_ok_iff ls = (levels_ok→IsFilter ls, IsFilter→levels_ok ls)

-- A cut is at the first place: the part before it does not hold the character.
abbrev Cut : ℕ → Bytes → Bytes × Bytes → Type 0
Cut c s (a, b) = (s ≡ a ++ (c ∷ b)) × (contains c a ≡ false)

pub cut→Cut : (c : ℕ) (s : Bytes) (p : Bytes × Bytes) → cut c s ≡ some p → Cut c s p
unfolding cut contains
cut→Cut c [] p e = cc
cut→Cut c (x ∷ s) p e = elim (Bool-cases (x == c)) [
  | inl here ↦
      let first : Cut c (x ∷ s) ([], s) = (ap (λ z. z ∷ s) ((==_iff x c).0 here), refl) in
      subst (Cut c (x ∷ s)) (some-injective _ _ (rw here at e)) first
  | inr other ↦ elim (Option-cases (cut c s)) [
    | inl absent ↦ cc (rw (other, absent) at e)
    | inr (q, there) ↦
        let (whole, free) = cut→Cut c s q there in
        let later : Cut c (x ∷ s) (x ∷ q.0, q.1) = (ap (λ z. x ∷ z) whole, rw (other, free)) in
        subst (Cut c (x ∷ s)) (some-injective _ _ (rw (other, there) at e)) later
  ]
]

pub cut-append : (c : ℕ) (a b : Bytes) → contains c a ≡ false → cut c (a ++ (c ∷ b)) ≡ some (a, b)
unfolding cut contains
cut-append c [] b h = rw ((==_iff c c).1 refl)
cut-append c (x ∷ a) b h =
    let other : (x == c) ≡ false = ground arith in rw (other, cut-append c a b (ground arith))

pub record IsShare (f share inner : Bytes) : Type 0 where
  pub text : f ≡ shared_prefix ++ (share ++ (slash ∷ inner))
  pub named : is_empty share ≡ false
  pub no_slash : contains slash share ≡ false
  pub no_wildcard : contains_any wildcards share ≡ false
  pub filtered : is_empty inner ≡ false

share-checked :
    (a b share inner r : Bytes)
    → split_share r ≡ some (share, inner)
    → cut slash r ≡ some (a, b)
    → (is_empty a ≡ false)
      × (contains_any wildcards a ≡ false)
      × (is_empty b ≡ false)
      × (◌≡◌ {A = Bytes × Bytes} (a, b) (share, inner))
unfolding split_share
share-checked a b share inner r e c = ground arith

split_share→IsShare :
    (f share inner : Bytes)
    → has_prefix shared_prefix f ≡ true
    → split_share (drop 7 f) ≡ some (share, inner)
    → IsShare f share inner
unfolding split_share
split_share→IsShare f share inner h e = elim (Option-cases (cut slash (drop 7 f))) [
  | inl absent ↦ cc (rw (split_share, absent) at e)
  | inr ((a, b), there) ↦
      let (whole, free) = cut→Cut slash (drop 7 f) (a, b) there in
      let test = share-checked a b share inner (drop 7 f) e there in
      subst (λ p. IsShare f p.0 p.1) test.3
        (record {
          text = has_prefix→append shared_prefix f h ∙ ap (λ z. shared_prefix ++ z) whole;
          named = test.0;
          no_slash = free;
          no_wildcard = test.1;
          filtered = test.2;
        })
]

split_share-of :
    (f share inner : Bytes) → IsShare f share inner → split_share (drop 7 f) ≡ some (share, inner)
unfolding split_share
split_share-of f share inner w =
    let behind : drop 7 f ≡ share ++ (slash ∷ inner) = ap (λ z. drop 7 z) w.text in
    rw (
      behind,
      split_share,
      cut-append slash share inner w.no_slash,
      w.named,
      w.no_wildcard,
      w.filtered,
    )

-- `SplitShared` takes a text that begins with "$share/" apart exactly as "$share/{ShareName}/{filter}".
pub split_shared_iff :
    (f share inner : Bytes)
    → is_shared f ≡ true
    → (split_shared f ≡ some (share, inner)) ↔ IsShare f share inner
unfolding split_shared is_shared
split_shared_iff f share inner h = (
  λ e. split_share→IsShare f share inner h (rw h at e),
  λ w. rw (h, split_share-of f share inner w),
)
