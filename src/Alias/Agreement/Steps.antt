-- ===== src/Alias/Agreement/Steps.antt =====
-- One call of `encode` on tables that agree with the client.
use natsmqtt.Prelude.{
  ℕ, ◌≤◌, ◌≡◌, refl, sym, ◌∙◌, subst, true, false, ◌&&◌, Option, none, some, ◌∷◌, ◌⊎◌, inl, inr,
}
use natsmqtt.Prelude.{Bytes, arith, ltb, length, Bool-cases, Option-cases}
use natsmqtt.Packet.Result.{Error, Result, ok, err}
use natsmqtt.Packet.Model.{Publish, Packet}
use natsmqtt.Packet.Encode.Wire.{encode}
use natsmqtt.Alias.Table.{
  entry, OutAliases, find_alias, without, hit, full, credit, below, next, assign, with_alias,
  set_alias, new_name, encode_aliased, was_seen, remember, forget,
}
use natsmqtt.Alias.Agreement.Assign.{assign-Assigned}
use natsmqtt.Alias.Agreement.{Client, told, IsAgreed, Sent, moved-IsAgreed}

Result-cases {ℓ} :
    {A : Type ℓ} (r : Result A) → ((a : A) × (r ≡ ok a)) ⊎ ((e : Error) × (r ≡ err e))
Result-cases (ok a) = inl (a, refl)
Result-cases (err e) = inr (e, refl)

-- Where a call leaves table and client.
abbrev Outcome : OutAliases → Publish → Bytes → ℕ → Client → Option (Bytes × OutAliases) → Type 0
Outcome t p raw limit c r =
    (out : Bytes) × (t' : OutAliases) × (r ≡ some (out, t'))
    × (t'.max ≡ t.max)
    × Sent p raw limit t.max t'.order c out

agreed-Sent :
    (t : OutAliases) (p : Publish) (raw : Bytes) (limit : ℕ) (c : Client)
    → IsAgreed t.max t.order c
    → (t' : OutAliases) → t'.max ≡ t.max
    → t'.order ≡ t.order
    → Outcome t p raw limit c (some (raw, t'))
agreed-Sent t p raw limit c h t' m o =
    (raw, t', refl, m, Sent.plain refl (subst (λ es. IsAgreed t.max es c) (sym o) h))

module _ (p : Publish) (raw : Bytes) (limit : ℕ) (c : Client) where
  within :
      (out : Bytes)
      → (ltb 0 limit && ltb limit (length out)) ≡ false
      → (limit ≡ 0) ⊎ (length out ≤ limit)
  within out e = elim (Bool-cases (ltb 0 limit)) [
    | inl bounded ↦ inr (ground arith)
    | inr unbounded ↦ inl (ground arith)
  ]

  -- The table with the bytes of a new alias on its account.
  charged : OutAliases → Bytes → OutAliases
  charged t out = record t { spent = credit (length out) (length raw) t.spent }

  next-charged : (t : OutAliases) (out : Bytes) → next (charged t out) ≡ next t
  unfolding next charged
  next-charged t out = refl

  module _ (t : OutAliases) (a : ℕ) (next_is : next t ≡ some a) where
    unencoded :
        (e : Error)
        → encode (Packet.publish (with_alias p a false)) ≡ err e
        → set_alias t p raw limit ≡ some (raw, t)
    unfolding set_alias
    unencoded e bad = rw (set_alias, next_is, bad) refl

    over_limit :
        (out : Bytes)
        → encode (Packet.publish (with_alias p a false)) ≡ ok out
        → (ltb 0 limit && ltb limit (length out)) ≡ true
        → set_alias t p raw limit ≡ some (raw, t)
    unfolding set_alias
    over_limit out good over = rw (set_alias, next_is, good, over) refl

    in_limit :
        (out : Bytes) (t' : OutAliases)
        → encode (Packet.publish (with_alias p a false)) ≡ ok out
        → (ltb 0 limit && ltb limit (length out)) ≡ false
        → assign p.topic (charged t out) ≡ some t'
        → set_alias t p raw limit ≡ some (out, t')
    unfolding set_alias charged
    in_limit out t' good fits assigned = rw (set_alias, next_is, good, fits, assigned) refl

  assigned-Outcome :
      (t : OutAliases) (a : ℕ) (out : Bytes)
      → IsAgreed t.max t.order c
      → next t ≡ some a
      → encode (Packet.publish (with_alias p a false)) ≡ ok out
      → (ltb 0 limit && ltb limit (length out)) ≡ false
      → Outcome t p raw limit c (set_alias t p raw limit)
  assigned-Outcome t a out h next_is good fits =
      let (b, t', next_b, assigned, same_max, range, agreed) =
        assign-Assigned (charged t out) c (unfold_charged h) p.topic in
      let same : b ≡ a = some-number (sym next_b ∙ (next-charged t out ∙ next_is)) in
      finish same t' assigned same_max range agreed
    where
      some-number : {m n : ℕ} → some m ≡ some n → m ≡ n
      some-number e = cc

      unfold_charged :
          IsAgreed t.max t.order c → IsAgreed (charged t out).max (charged t out).order c
      unfold_charged h = unfold charged in h

      finish :
          {b : ℕ}
          → b ≡ a
          → (t' : OutAliases) → assign p.topic (charged t out) ≡ some t'
          → t'.max ≡ (charged t out).max
          → (1 ≤ b) × (b ≤ (charged t out).max)
          → IsAgreed (charged t out).max t'.order (told b p.topic c)
          → Outcome t p raw limit c (set_alias t p raw limit)
      finish {b = b} same t' assigned m range agreed = (
        out,
        t',
        in_limit t a next_is out t' good fits assigned,
        unfold charged in m,
        Sent.assigned a good (subst (λ z. (1 ≤ z) × (z ≤ t.max)) same (unfold charged in range))
            (within out fits)
            (subst (λ z. IsAgreed t.max t'.order (told z p.topic c)) same
              (unfold charged in agreed)),
      )

  set_alias-Outcome :
      (t : OutAliases)
      → IsAgreed t.max t.order c
      → Outcome t p raw limit c (set_alias t p raw limit)
  set_alias-Outcome t h =
      let found = assign-Assigned t c h p.topic in
      let a = found.0 in
      let next_is = found.2 in
      elim (Result-cases (encode (Packet.publish (with_alias p a false)))) [
        | inr (e, bad) ↦
            subst (Outcome t p raw limit c) (sym (unencoded t a next_is e bad))
              (agreed-Sent t p raw limit c h t refl refl)
        | inl (out, good) ↦ elim (Bool-cases (ltb 0 limit && ltb limit (length out))) [
          | inl over ↦
              subst (Outcome t p raw limit c) (sym (over_limit t a next_is out good over))
                (agreed-Sent t p raw limit c h t refl refl)
          | inr fits ↦ assigned-Outcome t a out h next_is good fits
        ]
      ]

  new_name-Outcome :
      (t : OutAliases) → IsAgreed t.max t.order c → Outcome t p raw limit c (new_name t p raw limit)
  unfolding new_name
  new_name-Outcome t h = elim (Bool-cases (full t && below t.saved t.spent)) [
    | inl costly ↦ rw costly (agreed-Sent t p raw limit c h t refl refl)
    | inr paid ↦ elim (Bool-cases (full t)) [
      | inr room ↦ rw room (set_alias-Outcome t h)
      | inl none_free ↦ elim (Bool-cases (was_seen p.topic t.seen)) [
        | inr first ↦
            rw (paid, none_free, first)
              (agreed-Sent t p raw limit c h (record t { seen = remember p.topic t.seen }) refl
                refl)
        | inl again ↦
            rw (paid, none_free, again)
              (set_alias-Outcome (record t { seen = forget p.topic t.seen }) h)
      ]
    ]
  ]

  hit-none : (t : OutAliases) → find_alias p.topic t.order ≡ none → hit p.topic t ≡ none
  unfolding hit
  hit-none t e = rw (hit, e) refl

  hit-some :
      (t : OutAliases) (a : ℕ)
      → find_alias p.topic t.order ≡ some a
      → hit p.topic t ≡ some (a, record t { order = entry p.topic a ∷ without p.topic t.order })
  unfolding hit
  hit-some t a e = rw (hit, e) refl

  reused_plain :
      (t t' : OutAliases) (a : ℕ) (e : Error)
      → hit p.topic t ≡ some (a, t')
      → encode (Packet.publish (with_alias p a true)) ≡ err e
      → encode_aliased t p raw limit ≡ some (raw, t')
  unfolding encode_aliased
  reused_plain t t' a e h bad = rw (encode_aliased, h, bad) refl

  reused_alias :
      (t t' : OutAliases) (a : ℕ) (out : Bytes)
      → hit p.topic t ≡ some (a, t')
      → encode (Packet.publish (with_alias p a true)) ≡ ok out
      → encode_aliased t p raw limit
        ≡ some (out, record t' { saved = credit (length raw) (length out) t'.saved })
  unfolding encode_aliased
  reused_alias t t' a out h good = rw (encode_aliased, h, good) refl

  reused-Outcome :
      (t : OutAliases) (a : ℕ)
      → IsAgreed t.max t.order c
      → find_alias p.topic t.order ≡ some a
      → Outcome t p raw limit c (encode_aliased t p raw limit)
  reused-Outcome t a h e =
      let (low, high, known, agreed) = moved-IsAgreed t.max t.order c h p.topic a e in
      let moved = record t { order = entry p.topic a ∷ without p.topic t.order } in
      elim (Result-cases (encode (Packet.publish (with_alias p a true)))) [
        | inr (e', bad) ↦ (
          raw,
          moved,
          reused_plain t moved a e' (hit-some t a e) bad,
          refl,
          Sent.plain refl agreed,
        )
        | inl (out, good) ↦ (
          out,
          record moved { saved = credit (length raw) (length out) t.saved },
          reused_alias t moved a out (hit-some t a e) good,
          refl,
          Sent.reused a good (low, high) known agreed,
        )
      ]

-- On a table that agrees with what the client was told, `encode` never fails: it gives the packet as it
-- was, or an alias that the client has for the topic of the packet, or the topic with an alias that
-- the client then has for it, within the client's limits; and table and client agree again.
pub encode_aliased-IsAgreed :
    (t : OutAliases) (p : Publish) (raw : Bytes) (limit : ℕ) (c : Client)
    → IsAgreed t.max t.order c
    → (out : Bytes) × (t' : OutAliases) × (encode_aliased t p raw limit ≡ some (out, t'))
      × (t'.max ≡ t.max)
      × Sent p raw limit t.max t'.order c out
encode_aliased-IsAgreed t p raw limit c h = elim (Option-cases (find_alias p.topic t.order)) [
  | inr (a, e) ↦ reused-Outcome p raw limit c t a h e
  | inl e ↦ subst (Outcome t p raw limit c) (sym (fresh e)) (new_name-Outcome p raw limit c t h)
]
  where
    fresh :
        find_alias p.topic t.order ≡ none → encode_aliased t p raw limit ≡ new_name t p raw limit
    fresh e = unfold encode_aliased in rw (encode_aliased, hit-none p raw limit c t e) refl
