-- ===== src/Topic/Parts.antt =====
-- Texts taken apart at a character and put together again.
use natsmqtt.Prelude.{ℕ, ◌≡◌, refl, sym, ap, ◌∙◌, ◌++◌, true, false, subst}
use natsmqtt.Prelude.{
  List, [], ◌∷◌, Bytes, bytes_eq, arith, ◌==◌, ==_iff, inl, inr, Bool-cases, is_empty,
}
use natsmqtt.Topic.Strings.{split, add_to_first, contains}
use natsmqtt.Topic.Validate.{slash}
use natsmqtt.Topic.Match.Levels.{bytes_eq_refl, bytes_eq→eq}
use natsmqtt.Topic.Subject.{dot, ends_level}

unfoldable pub add_all : Bytes → List Bytes → List Bytes
add_all [] ls = ls
add_all (c ∷ p) ls = add_to_first c (add_all p ls)

-- A text without dots, in front of a subject, goes to its first token.
pub split-append :
    (p t : Bytes) → contains dot p ≡ false → split dot (p ++ t) ≡ add_all p (split dot t)
unfolding contains split add_all
split-append [] t h = refl
split-append (c ∷ p) t h =
    let other : (c == dot) ≡ false = ground arith in rw (other, split-append p t (ground arith))

pub split-dot : (t : Bytes) → split dot (dot ∷ t) ≡ [] ∷ split dot t
unfolding split
split-dot t = refl

pub add_all-cons : (p l : Bytes) (ls : List Bytes) → add_all p (l ∷ ls) ≡ (p ++ l) ∷ ls
unfolding add_all
add_all-cons [] l ls = refl
add_all-cons (c ∷ p) l ls = rw (add_all-cons p l ls)

pub split-slash : (s : Bytes) → split slash (slash ∷ s) ≡ [] ∷ split slash s
unfolding split
split-slash s = refl

pub split-inside :
    (c : ℕ) (s : Bytes)
    → (c == slash) ≡ false
    → split slash (c ∷ s) ≡ add_to_first c (split slash s)
unfolding split
split-inside c s h = rw h

-- A topic that goes on with '/', or ends, has an empty level next.
pub split-ends_level :
    (s : Bytes) → ends_level s ≡ true → (ls : List Bytes) × (split slash s ≡ [] ∷ ls)
unfolding ends_level split
split-ends_level [] h = ([], refl)
split-ends_level (c ∷ s) h = (split slash s, rw h)

pub split-cons : (c : ℕ) (s : Bytes) → (l : Bytes) × (ls : List Bytes) × (split c s ≡ l ∷ ls)
unfolding split
split-cons c [] = ([], [], refl)
split-cons c (x ∷ s) = elim (Bool-cases (x == c)) [
  | inl at ↦ ([], split c s, rw at)
  | inr other ↦ let (l, ls, e) = split-cons c s in (x ∷ l, ls, rw (other, e))
]

pub bytes_eq-nil : (l : Bytes) → bytes_eq l [] ≡ is_empty l
unfolding bytes_eq
bytes_eq-nil [] = refl
bytes_eq-nil (c ∷ l) = refl

pub bytes_eq_iff :
    (a b l n : Bytes) → (a ≡ b → l ≡ n) → (l ≡ n → a ≡ b) → bytes_eq a b ≡ bytes_eq l n
bytes_eq_iff a b l n f g = elim (Bool-cases (bytes_eq a b)) [
  | inl yes_ab ↦
      let same = f (bytes_eq→eq a b yes_ab) in
      yes_ab ∙ sym (subst (λ z. bytes_eq l z ≡ true) same (bytes_eq_refl l))
  | inr no_ab ↦ elim (Bool-cases (bytes_eq l n)) [
    | inl yes_ln ↦
        let same = g (bytes_eq→eq l n yes_ln) in
        cc (sym no_ab ∙ subst (λ z. bytes_eq a z ≡ true) same (bytes_eq_refl a))
    | inr no_ln ↦ no_ab ∙ sym no_ln
  ]
]

pub split-none : (x : ℕ) (s : Bytes) → contains x s ≡ false → split x s ≡ s ∷ []
unfolding split contains
split-none x [] h = refl
split-none x (c ∷ s) h =
    let other : (c == x) ≡ false = ground arith in rw (other, split-none x s (ground arith)) refl

-- The parts put together again, with the character between them.
join : ℕ → List Bytes → Bytes
join x [] = []
join x (l ∷ []) = l
join x (l ∷ m ∷ ls) = l ++ (x ∷ join x (m ∷ ls))

join-split : (x : ℕ) (s : Bytes) → join x (split x s) ≡ s
unfolding split join
join-split x [] = refl
join-split x (c ∷ s) =
    let (l, ls, e) = split-cons x s in
    let rest : join x (l ∷ ls) ≡ s = ap (join x) (sym e) ∙ join-split x s in
    elim (Bool-cases (c == x)) [
      | inl at ↦ rw (at, e) (ap (λ z. x ∷ z) rest ∙ ap (λ z. z ∷ s) (sym ((==_iff c x).0 at)))
      | inr other ↦ rw (other, e) (join-add x c l ls ∙ ap (λ z. c ∷ z) rest)
    ]
  where
    join-add : (x c : ℕ) (l : Bytes) (ls : List Bytes) → join x ((c ∷ l) ∷ ls) ≡ c ∷ join x (l ∷ ls)
    join-add x c l [] = unfold join in refl
    join-add x c l (m ∷ ls) = unfold join in refl

-- Only a text without the character is its own one part.
pub split-one : (x : ℕ) (s t : Bytes) → split x s ≡ t ∷ [] → s ≡ t
unfolding join
split-one x s t e = sym (join-split x s) ∙ ap (join x) e
