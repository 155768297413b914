-- ===== src/Dict/Count.antt =====
-- How many entries of a map pass a test, in maps that hold each key once.
use natsmqtt.Prelude.{
  ℕ, ◌+◌, ◌≡◌, inl, inr, Bool, none, some, [], ◌∷◌, arith, if◌then◌else◌, Bool-cases, sym, subst,
}
use natsmqtt.Dict.{Key, Dict, lookup, erase, insert, erase_missing}

abbrev pub one_if : Bool → ℕ
one_if b = if b then 1 else 0

module _ {K V : Type 0} where
  unfoldable pub count : (V → Bool) → Dict K V → ℕ
  count p [] = 0
  count p ((k, v) ∷ m) = one_if (p v) + count p m

module _ {K V : Type 0} ⦃e : Key K⦄ where
  abbrev pub IsDistinct : Dict K V → Type 0
  IsDistinct [] = Unit {0}
  IsDistinct ((k, v) ∷ m) = (lookup k m ≡ none) × IsDistinct m

  pub count-erase :
      (p : V → Bool) (k : K) (v : V) (m : Dict K V)
      → IsDistinct m
      → lookup k m ≡ some v
      → count p m ≡ count p (erase k m) + one_if (p v)
  unfolding count erase lookup
  count-erase p k v [] d h = absurd (cc)
  count-erase p k v ((j, w) ∷ m) (new, d) h = elim (Bool-cases (e.same k j)) [
    | inl here ↦
        let same : k ≡ j = e.same→eq k j here in
        let gone : erase k m ≡ m =
          erase_missing k m (subst (λ i. lookup i m ≡ none) (sym same) new) in
        let found : some w ≡ some v = rw here at h in
        rw (here, gone) (let value : w ≡ v = cc in rw value (omega arith))
    | inr there ↦
        let found : lookup k m ≡ some v = rw there at h in
        let ih = count-erase p k v m d found in rw there (omega arith)
  ]

  pub count-insert :
      (p : V → Bool) (k : K) (v : V) (m : Dict K V)
      → lookup k m ≡ none
      → count p (insert k v m) ≡ count p m + one_if (p v)
  unfolding insert count
  count-insert p k v m free = rw (erase_missing k m free) (omega arith)

  pub count-insert_over :
      (p : V → Bool) (k : K) (v w : V) (m : Dict K V)
      → IsDistinct m
      → lookup k m ≡ some w
      → count p (insert k v m) + one_if (p w) ≡ count p m + one_if (p v)
  unfolding insert count
  count-insert_over p k v w m d h = omega (arith, count-erase p k w m d h)
