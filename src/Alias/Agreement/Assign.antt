-- ===== src/Alias/Agreement/Assign.antt =====
-- `next` and `assign` on tables that agree with the client, and a new table.
use natsmqtt.Prelude.{
  ℕ, suc, ◌+◌, ◌%◌, ◌^◌, ◌≤◌, ◌<◌, ◌≡◌, refl, true, false, none, some, List, [], ◌∷◌, inl, inr,
}
use natsmqtt.Prelude.{Bytes, arith, ltb, leb, length, Bool-cases}
use natsmqtt.Alias.Table.{Entry, entry, OutAliases, new_out_aliases, back, but_back, next, assign}
use natsmqtt.Alias.Entries.{length-but_back, back-cases}
use natsmqtt.Alias.Agreement.{Client, told, IsAgreed, added-IsAgreed, replaced-IsAgreed}

back-there :
    (es : List Entry)
    → 1 ≤ length es
    → (b : Entry) × (back es ≡ some b) × (suc (length (but_back es)) ≡ length es)
back-there [] h = absurd (omega arith)
back-there (e ∷ es) h = let (b, there) = back-cases e es in (b, there, length-but_back e es)

abbrev pub Assigned : OutAliases → Bytes → Client → Type 0
Assigned t topic c =
    (a : ℕ) × (t' : OutAliases) × (next t ≡ some a)
    × (assign topic t ≡ some t')
    × (t'.max ≡ t.max)
    × ((1 ≤ a) × (a ≤ t.max))
    × IsAgreed t.max t'.order (told a topic c)

module _ (t : OutAliases) (c : Client) (h : IsAgreed t.max t.order c) where
  next-room : ltb (length t.order) t.max ≡ true → next t ≡ some (suc (length t.order))
  unfolding next
  next-room room =
      let small = h.small in
      let number : (length t.order % 2 ^ 16 + 1) % 2 ^ 16 ≡ suc (length t.order) = ground arith in
      rw (room, number) refl

  next-full :
      (b : Entry)
      → ltb (length t.order) t.max ≡ false
      → back t.order ≡ some b
      → next t ≡ some b.alias
  unfolding next
  next-full b none_free there = rw (none_free, there) refl

  pub assign-Assigned : (topic : Bytes) → Assigned t topic c
  unfolding assign
  assign-Assigned topic = elim (Bool-cases (ltb (length t.order) t.max)) [
    | inl room ↦
        let not_full : leb t.max (length t.order) ≡ false = ground arith in
        let new = suc (length t.order) in
        (
          new,
          record t { order = entry topic new ∷ t.order },
          next-room room,
          rw (assign, next-room room, not_full) refl,
          refl,
          (omega arith, ground arith),
          added-IsAgreed t.max t.order c h topic (ground arith),
        )
    | inr none_free ↦
        let is_full : leb t.max (length t.order) ≡ true = ground arith in
        let positive = h.positive in
        let (b, there, size) = back-there t.order (ground arith) in
        let last = next-full b none_free there in
        let (low, high, agreed) = replaced-IsAgreed t.max t.order c h topic b there size in
        (
          b.alias,
          record t { order = entry topic b.alias ∷ but_back t.order },
          last,
          rw (assign, last, is_full) refl,
          refl,
          (low, high),
          agreed,
        )
  ]

-- A new table agrees with a client that was told nothing, where the client takes an alias at all.
pub new_out_aliases-IsAgreed :
    (max : ℕ)
    → 1 ≤ max
    → max < 2 ^ 16
    → IsAgreed (new_out_aliases max).max (new_out_aliases max).order (λ a. none)
unfolding new_out_aliases
new_out_aliases-IsAgreed max h k = record {
  positive = h;
  small = k;
  fits = omega arith;
  ranged = tt;
  distinct = tt;
  agreed = tt;
}
