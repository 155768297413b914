-- ===== src/Dict.antt =====
-- Go's maps, as lists of keys and values that hold each key once, for keys with a test of equality.
use natsmqtt.Prelude.{
  ℕ, suc, ◌≤◌, ◌≡◌, refl, ◌↔◌, ◌⊎◌, inl, inr, Bool, true, false, Option, none, some, List, [], ◌∷◌,
  arith, ◌==◌, ==_iff, if◌then◌else◌, Bytes, bytes_eq, length, Bool-cases, Option-cases,
}
use natsmqtt.Topic.Match.Levels.{bytes_eq_refl, bytes_eq→eq}
pub mod Count

pub record Key (K : Type 0) : Type 0 where
  pub same : K → K → Bool
  pub same_self : (a : K) → same a a ≡ true
  pub same→eq : (a b : K) → same a b ≡ true → a ≡ b

pub ==_self : (a : ℕ) → (a == a) ≡ true
==_self a = ground arith

pub ==→eq : (a b : ℕ) → (a == b) ≡ true → a ≡ b
==→eq a b h = ground arith

instance abbrev pub number_key : Key ℕ
number_key = record { same = ◌==◌; same_self = ==_self; same→eq = ==→eq }

instance abbrev pub text_key : Key Bytes
text_key = record { same = bytes_eq; same_self = bytes_eq_refl; same→eq = bytes_eq→eq }

abbrev pub Dict : Type 0 → Type 0 → Type 0
Dict K V = List (K × V)

module _ {K V : Type 0} ⦃e : Key K⦄ where
  -- `m[k]`
  unfoldable pub lookup : K → Dict K V → Option V
  lookup k [] = none
  lookup k ((j, v) ∷ m) = let rest = lookup k m in if e.same k j then some v else rest

  -- `delete(m, k)`
  unfoldable pub erase : K → Dict K V → Dict K V
  erase k [] = []
  erase k ((j, v) ∷ m) = let rest = erase k m in if e.same k j then rest else (j, v) ∷ rest

  -- `m[k] = v`
  unfoldable pub insert : K → V → Dict K V → Dict K V
  insert k v m = (k, v) ∷ erase k m

  -- `_, ok := m[k]`
  abbrev pub contains : K → Dict K V → Bool
  contains k m = elim (lookup k m) [ none ↦ false | some _ ↦ true ]

  pub lookup-erase :
      (j k : K) (m : Dict K V) → lookup j (erase k m) ≡ (if e.same j k then none else lookup j m)
  unfolding lookup erase
  lookup-erase j k [] = ground arith
  lookup-erase j k ((i, v) ∷ m) = ground (
    arith,
    lookup-erase j k m,
    e.same→eq k i,
    e.same→eq j i,
    e.same→eq j k,
    e.same_self k,
    e.same_self j,
  )

  pub lookup-insert :
      (j k : K) (v : V) (m : Dict K V)
      → lookup j (insert k v m) ≡ (if e.same j k then some v else lookup j m)
  unfolding lookup insert
  lookup-insert j k v m = ground (arith, lookup-erase j k m)

  pub length-erase : (k : K) (m : Dict K V) → length (erase k m) ≤ length m
  unfolding erase
  length-erase k [] = omega arith
  length-erase k ((j, v) ∷ m) = ground (arith, length-erase k m)

  pub erase_missing : (k : K) (m : Dict K V) → lookup k m ≡ none → erase k m ≡ m
  unfolding erase lookup
  erase_missing k [] h = refl
  erase_missing k ((j, v) ∷ m) h = ground (arith, erase_missing k m)

  pub length-insert : (k : K) (v : V) (m : Dict K V) → length (insert k v m) ≤ suc (length m)
  unfolding insert
  length-insert k v m = omega (arith, length-erase k m)

  pub lookup-insert_self : (k : K) (v : V) (m : Dict K V) → lookup k (insert k v m) ≡ some v
  lookup-insert_self k v m = rw (lookup-insert k k v m, e.same_self k) refl

  -- A value that is found after an insertion is the new one, or was there.
  pub lookup-insert-cases :
      (j k : K) (v w : V) (m : Dict K V)
      → lookup j (insert k v m) ≡ some w
      → ((j ≡ k) × (w ≡ v)) ⊎ ((e.same j k ≡ false) × (lookup j m ≡ some w))
  lookup-insert-cases j k v w m h = elim (Bool-cases (e.same j k)) [
    | inl here ↦ inl (e.same→eq j k here, ground (arith, lookup-insert j k v m))
    | inr there ↦ inr (there, ground (arith, lookup-insert j k v m))
  ]

  -- What was there stays where the key is new.
  pub lookup-insert_fresh :
      (j k : K) (v w : V) (m : Dict K V)
      → lookup k m ≡ none
      → lookup j m ≡ some w
      → lookup j (insert k v m) ≡ some w
  lookup-insert_fresh j k v w m free h = ground (arith, lookup-insert j k v m, e.same→eq j k)

  pub lookup-erase-cases :
      (j k : K) (w : V) (m : Dict K V)
      → lookup j (erase k m) ≡ some w
      → (e.same j k ≡ false) × (lookup j m ≡ some w)
  lookup-erase-cases j k w m h = ground (arith, lookup-erase j k m)

  pub lookup-erase_other :
      (j k : K) (w : V) (m : Dict K V)
      → e.same j k ≡ false
      → lookup j m ≡ some w
      → lookup j (erase k m) ≡ some w
  lookup-erase_other j k w m other h = rw (lookup-erase j k m, other) h

  pub contains-missing : (k : K) (m : Dict K V) → contains k m ≡ false → lookup k m ≡ none
  contains-missing k m h = ground arith

  pub contains-found :
      (k : K) (m : Dict K V) → contains k m ≡ true → (v : V) × (lookup k m ≡ some v)
  contains-found k m h = elim (Option-cases (lookup k m)) [
    | inl free ↦ absurd (ground arith)
    | inr (v, found) ↦ (v, found)
  ]
