-- ===== src/Session/Fresh.antt =====
-- The identifiers that `nextID` gives.
use natsmqtt.Dict.{lookup, contains, contains-missing, number_key}
use natsmqtt.Prelude.{
  refl, ◌||◌, ◌≢◌, ℕ, zero, suc, ◌+◌, ◌-◌, ◌^◌, ◌≤◌, ◌<◌, ◌≡◌, ◌↔◌, inl, inr, true, false, none,
  some, arith, ◌==◌, ltb, if◌then◌else◌, Bool-cases, Option-cases, subst,
}
use natsmqtt.Session.State.{Exchanges}
use natsmqtt.Session.Identifiers.{following, is_used, find_id, next_id}

following_bounds : (id : ℕ) → (1 ≤ following id) × (following id < 2 ^ 16)
unfolding following
following_bounds id = ground arith

-- How many rounds of the loop pass before it comes to `n`, from `id` on.
abbrev rounds_to : ℕ → ℕ → ℕ
rounds_to id n = if ltb id n then n - id - 1 else n + 0xFFFE - id

rounds_to-following :
    (id n : ℕ)
    → id < 2 ^ 16
    → 1 ≤ n
    → n < 2 ^ 16
    → following id ≢ n
    → suc (rounds_to (following id) n) ≡ rounds_to id n
unfolding following
rounds_to-following id n w low high other = ground arith

module _ (s : Exchanges) where
  abbrev IsFresh : ℕ → ℕ → Type 0
  IsFresh last n = (1 ≤ n) × (n < 2 ^ 16) × (is_used s n ≡ false) × (last ≡ n)

  find_id-IsFresh :
      (rounds id n : ℕ) → (find_id s rounds id).1 ≡ some n → IsFresh (find_id s rounds id).0 n
  unfolding find_id
  find_id-IsFresh zero id n h = absurd (cc)
  find_id-IsFresh (suc rounds) id n h =
      let (low, high) = following_bounds id in
      elim (Bool-cases (is_used s (following id))) [
        | inl used ↦ rw used (find_id-IsFresh rounds (following id) n (ground arith))
        | inr free ↦
            let same : following id ≡ n = ground arith in
            rw free (omega arith, omega arith, subst (λ m. is_used s m ≡ false) same free, same)
      ]

  find_id-used :
      (rounds id n : ℕ)
      → id < 2 ^ 16
      → (find_id s rounds id).1 ≡ none
      → 1 ≤ n
      → n < 2 ^ 16
      → rounds_to id n < rounds
      → is_used s n ≡ true
  unfolding find_id
  find_id-used zero id n w h low high r = absurd (omega arith)
  find_id-used (suc rounds) id n w h low high r = elim (Bool-cases (is_used s (following id))) [
    | inl used ↦ elim (Bool-cases (following id == n)) [
      | inl here ↦
          let same : following id ≡ n = ground arith in subst (λ m. is_used s m ≡ true) same used
      | inr later ↦
          let e = rounds_to-following id n w low high (ground arith) in
          find_id-used rounds (following id) n (following_bounds id).1 (ground arith) low high
            (omega arith)
    ]
    | inr free ↦ absurd (ground arith)
  ]

  free_of_both :
      (n : ℕ) → is_used s n ≡ false → (lookup n s.inflight ≡ none) × (lookup n s.withdrawn ≡ none)
  unfolding is_used
  free_of_both n h =
      (contains-missing n s.inflight (ground arith), contains-missing n s.withdrawn (ground arith))

  used_by_one : (n : ℕ) → is_used s n ≡ (contains n s.inflight || contains n s.withdrawn)
  unfolding is_used
  used_by_one n = refl

  -- An identifier that `nextID` gives is from 1 to 65535, is neither in flight nor taken back and still
  -- owed, and is the one that the next call starts after.
  pub next_id_fresh :
      (n : ℕ)
      → (next_id s).1 ≡ some n
      → (1 ≤ n)
        × (n < 2 ^ 16)
        × (lookup n s.inflight ≡ none)
        × (lookup n s.withdrawn ≡ none)
        × ((next_id s).0.next_packet_id ≡ n)
  unfolding next_id
  next_id_fresh n h =
      let (low, high, free, last) = find_id-IsFresh 0xFFFF s.next_packet_id n h in
      let (not_in_flight, not_owed) = free_of_both n free in
      (low, high, not_in_flight, not_owed, last)

  -- `nextID` gives no identifier exactly where each one from 1 to 65535 is in flight or taken back and
  -- still owed.
  pub next_id-none :
      s.next_packet_id < 2 ^ 16
      → ((next_id s).1 ≡ none)
        ↔ ((n : ℕ) → 1 ≤ n → n < 2 ^ 16 → (contains n s.inflight || contains n s.withdrawn) ≡ true)
  unfolding next_id
  next_id-none w = (
    λ h n low high.
        rw (← used_by_one n) (find_id-used 0xFFFF s.next_packet_id n w h low high (ground arith)),
    λ all. elim (Option-cases (find_id s 0xFFFF s.next_packet_id).1) [
      | inl out ↦ out
      | inr (n, found) ↦
          let (low, high, free, _) = find_id-IsFresh 0xFFFF s.next_packet_id n found in
          absurd (ground (arith, all n low high, used_by_one n))
    ],
  )
