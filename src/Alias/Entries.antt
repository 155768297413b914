-- ===== src/Alias/Entries.antt =====
-- The list of entries: what a search, a removal and the last element keep.
use natsmqtt.Prelude.{ℕ, suc, ◌≡◌, refl, ap, subst, false, some, List, [], ◌∷◌}
use natsmqtt.Prelude.{Bytes, bytes_eq, arith, ◌==◌, length, All, Bool-cases, inl, inr}
use natsmqtt.Topic.Match.Levels.{bytes_eq→eq}
use natsmqtt.Alias.Table.{Entry, find_alias, without, back, but_back}

-- No entry has the alias.
abbrev pub Free : ℕ → List Entry → Type 0
Free a es = All (λ e. (e.alias == a) ≡ false) es

abbrev pub Distinct : List Entry → Type 0
Distinct [] = Unit
Distinct (e ∷ es) = Free e.alias es × Distinct es

module _ (P : Bytes → ℕ → Type 0) where
  abbrev pub Each : List Entry → Type 0
  Each es = All (λ e. P e.topic e.alias) es

  pub find_alias-Each :
      (topic : Bytes) (a : ℕ) (es : List Entry) → Each es → find_alias topic es ≡ some a → P topic a
  unfolding find_alias
  find_alias-Each topic a [] h e = cc
  find_alias-Each topic a (x ∷ es) h e = elim (Bool-cases (bytes_eq x.topic topic)) [
    | inl same ↦
        let alias : x.alias ≡ a = ground arith in
        subst (P topic) alias (subst (λ t. P t x.alias) (bytes_eq→eq x.topic topic same) h.0)
    | inr other ↦ find_alias-Each topic a es h.1 (rw other at e)
  ]

  pub without-Each : (topic : Bytes) (es : List Entry) → Each es → Each (without topic es)
  unfolding without
  without-Each topic [] h = tt
  without-Each topic (x ∷ es) h = elim (Bool-cases (bytes_eq x.topic topic)) [
    | inl same ↦ rw same h.1
    | inr other ↦ rw other (h.0, without-Each topic es h.1)
  ]

  pub but_back-Each : (es : List Entry) → Each es → Each (but_back es)
  unfolding but_back
  but_back-Each [] h = tt
  but_back-Each (e ∷ []) h = tt
  but_back-Each (e ∷ f ∷ es) h = (h.0, but_back-Each (f ∷ es) h.1)

  pub back-Each : (es : List Entry) (b : Entry) → Each es → back es ≡ some b → P b.topic b.alias
  unfolding back
  back-Each [] b h e = cc
  back-Each (x ∷ []) b h e = subst (λ (z : Entry). P z.topic z.alias) (some-Entry e) h.0
    where
      some-Entry : {x y : Entry} → some x ≡ some y → x ≡ y
      some-Entry e = cc
  back-Each (x ∷ f ∷ es) b h e = back-Each (f ∷ es) b h.1 e

  pub weaken-Each :
      (Q : Bytes → ℕ → Type 0)
      → ((t : Bytes) (a : ℕ) → P t a → Q t a)
      → (es : List Entry) → Each es
      → All (λ e. Q e.topic e.alias) es
  weaken-Each Q f [] h = tt
  weaken-Each Q f (x ∷ es) h = (f x.topic x.alias h.0, weaken-Each Q f es h.1)

pub length-without :
    (topic : Bytes) (a : ℕ) (es : List Entry)
    → find_alias topic es ≡ some a
    → suc (length (without topic es)) ≡ length es
unfolding find_alias without
length-without topic a [] e = cc
length-without topic a (x ∷ es) e = elim (Bool-cases (bytes_eq x.topic topic)) [
  | inl same ↦ rw same refl
  | inr other ↦ rw other (ap suc (length-without topic a es (rw other at e)))
]

pub length-but_back :
    (e : Entry) (es : List Entry) → suc (length (but_back (e ∷ es))) ≡ length (e ∷ es)
unfolding but_back
length-but_back e [] = refl
length-but_back e (f ∷ es) = ap suc (length-but_back f es)

pub find_alias-Distinct :
    (topic : Bytes) (a : ℕ) (es : List Entry)
    → Distinct es
    → find_alias topic es ≡ some a
    → Free a (without topic es) × Distinct (without topic es)
unfolding find_alias without
find_alias-Distinct topic a [] d e = cc
find_alias-Distinct topic a (x ∷ es) d e = elim (Bool-cases (bytes_eq x.topic topic)) [
  | inl same ↦
      let alias : x.alias ≡ a = ground arith in rw same (subst (λ z. Free z es) alias d.0, d.1)
  | inr other ↦
      let later : find_alias topic es ≡ some a = rw other at e in
      let (free, distinct) = find_alias-Distinct topic a es d.1 later in
      let apart : (x.alias == a) ≡ false =
        ground (arith, find_alias-Each (λ t b. (b == x.alias) ≡ false) topic a es d.0 later) in
      rw other
        ((apart, free), (without-Each (λ t b. (b == x.alias) ≡ false) topic es d.0, distinct))
]

pub back-Distinct :
    (es : List Entry) (b : Entry)
    → Distinct es
    → back es ≡ some b
    → Free b.alias (but_back es) × Distinct (but_back es)
unfolding back but_back
back-Distinct [] b d e = cc
back-Distinct (x ∷ []) b d e = (tt, tt)
back-Distinct (x ∷ f ∷ es) b d e =
    let (free, distinct) = back-Distinct (f ∷ es) b d.1 e in
    let apart : (x.alias == b.alias) ≡ false =
      ground (arith, back-Each (λ t c. (c == x.alias) ≡ false) (f ∷ es) b d.0 e) in
    ((apart, free), (but_back-Each (λ t c. (c == x.alias) ≡ false) (f ∷ es) d.0, distinct))

pub back-cases : (e : Entry) (es : List Entry) → (b : Entry) × (back (e ∷ es) ≡ some b)
unfolding back
back-cases e [] = (e, refl)
back-cases e (f ∷ es) = back-cases f es
