-- ===== src/Session/Acks.antt =====
-- The send quota under `handlePuback` and `handlePubcomp`.
use natsmqtt.Prelude.{
  ℕ, ◌+◌, ◌-◌, ◌≡◌, refl, ap, inl, inr, ◌⊎◌, Bool, true, false, Option, none, some, arith, ◌==◌,
  not, ◌&&◌, ◌||◌, Bool-cases, Option-cases, sym, subst,
}
use natsmqtt.Dict.{lookup, erase, number_key}
use natsmqtt.Dict.Count.{one_if, IsDistinct, count-erase}
use natsmqtt.Session.State.{Owed, owed_eq, Outbound, AckOwed, Withdrawal, Exchanges}
use natsmqtt.Session.Inflight.{
  is_on, forget_resent, forget_withdrawn, complete_inflight, complete_inflight_locked,
  ack_completed,
}
use natsmqtt.Session.Handlers.{
  take_withdrawn, take_resent, finish_puback, finish_pubcomp, Client, Reply, Served, release_quota,
  settle_withdrawn, settle_resent, settle_unknown, release_for, handle_puback, handle_pubcomp,
}
use natsmqtt.Session.Quota.{slots, complete_inflight-slots}

-- The maps of a session whose connection is `k`.
pub record IsKept (k : ℕ) (s : Exchanges) : Type 0 where
  pub inflight_once : IsDistinct s.inflight
  pub withdrawn_once : IsDistinct s.withdrawn
  pub resent_once : IsDistinct s.resent
  pub apart : (id : ℕ) (o : Outbound) → lookup id s.inflight ≡ some o → lookup id s.withdrawn ≡ none
  pub charged :
      (id : ℕ) (o : Outbound)
      → lookup id s.inflight ≡ some o
      → (o.quota_held ≡ false) ⊎ ((o.resent_on ≡ none) ⊎ (o.resent_on ≡ some k))

-- The client's quota counts the slots that are spent on connection `k`.
abbrev pub IsExact : ℕ → Served → Type 0
IsExact k w = w.client.used ≡ slots k w.session

forget_withdrawn-cases :
    (id : ℕ) (t : Owed) (s : Exchanges)
    → (◌≡◌ {A = Exchanges × Option Withdrawal} (forget_withdrawn id t s) (s, none))
      ⊎ ((x : Withdrawal) × (lookup id s.withdrawn ≡ some x)
          × (◌≡◌ {A = Exchanges × Option Withdrawal}
              (forget_withdrawn id t s)
              (record s { withdrawn = erase id s.withdrawn }, some x)))
unfolding forget_withdrawn
forget_withdrawn-cases id t s = elim (Option-cases (lookup id s.withdrawn)) [
  | inl none_there ↦ inl (rw (forget_withdrawn, none_there) refl)
  | inr (x, there) ↦ elim (Bool-cases (not (owed_eq x.owed t))) [
    | inl other ↦ inl (rw (forget_withdrawn, there, other) refl)
    | inr settled ↦ inr (x, there, rw (forget_withdrawn, there, settled) refl)
  ]
]

forget_resent-cases :
    (c id : ℕ) (t : Owed) (s : Exchanges)
    → (◌≡◌ {A = Exchanges × Bool × Bool} (forget_resent c id t s) (s, false, false))
      ⊎ ((r : AckOwed) × (lookup id s.resent ≡ some r)
          × ((r.conn == c) ≡ true)
          × (◌≡◌ {A = Exchanges × Bool × Bool}
              (forget_resent c id t s)
              (record s { resent = erase id s.resent }, true, r.quota)))
unfolding forget_resent
forget_resent-cases c id t s = elim (Option-cases (lookup id s.resent)) [
  | inl none_there ↦ inl (rw (forget_resent, none_there) refl)
  | inr (r, there) ↦ elim (Bool-cases (not (r.conn == c) || not (owed_eq r.typ t))) [
    | inl other ↦ inl (rw (forget_resent, there, other) refl)
    | inr settled ↦ inr (r, there, ground arith, rw (forget_resent, there, settled) refl)
  ]
]

settle_withdrawn-IsExact :
    (id : ℕ) (t : Owed) (w : Served)
    → IsDistinct w.session.withdrawn
    → IsExact w.client.ident w
    → IsExact w.client.ident (settle_withdrawn id t w).0
      × ((settle_withdrawn id t w).0.session.resent ≡ w.session.resent)
unfolding settle_withdrawn take_withdrawn release_quota
settle_withdrawn-IsExact id t w once exact =
    let Good : Exchanges × Option Withdrawal → Type 0 = λ r.
      IsExact w.client.ident (take_withdrawn w r).0
      × ((take_withdrawn w r).0.session.resent ≡ w.session.resent) in
    elim (forget_withdrawn-cases id t w.session) [
      | inl kept ↦ subst Good (sym kept) (exact, refl)
      | inr (x, there, taken) ↦
          let one =
            count-erase (λ y. is_on w.client.ident y.quota_holder) id x w.session.withdrawn once
              there in
          subst Good (sym taken) (elim (Bool-cases (is_on w.client.ident x.quota_holder)) [
            | inl own ↦
                let mine : one_if (is_on w.client.ident x.quota_holder) ≡ 1 = ground arith in
                rw own (omega arith, refl)
            | inr other ↦
                let not_mine : one_if (is_on w.client.ident x.quota_holder) ≡ 0 = ground arith in
                rw other (omega arith, refl)
          ])
    ]

settle_resent-IsExact :
    (id : ℕ) (t : Owed) (w : Served)
    → IsDistinct w.session.resent
    → IsExact w.client.ident w
    → IsExact w.client.ident (settle_resent id t w).0
unfolding settle_resent take_resent release_quota
settle_resent-IsExact id t w once exact =
    let Good : Exchanges × Bool × Bool → Type 0 = λ r. IsExact w.client.ident (take_resent w r).0 in
    elim (forget_resent-cases w.client.ident id t w.session) [
      | inl kept ↦ subst Good (sym kept) exact
      | inr (r, there, own, taken) ↦
          let one =
            count-erase (λ y. (y.conn == w.client.ident) && y.quota) id r w.session.resent once
              there in
          subst Good (sym taken) (elim (Bool-cases r.quota) [
            | inl held ↦
                let mine : one_if ((r.conn == w.client.ident) && r.quota) ≡ 1 = ground arith in
                rw held (omega arith)
            | inr free ↦
                let not_mine : one_if ((r.conn == w.client.ident) && r.quota) ≡ 0 = ground arith in
                rw free (omega arith)
          ])
    ]

settle_withdrawn-ident :
    (id : ℕ) (t : Owed) (w : Served) → (settle_withdrawn id t w).0.client.ident ≡ w.client.ident
unfolding settle_withdrawn take_withdrawn release_quota forget_withdrawn
settle_withdrawn-ident id t w = ground arith

settle_unknown-IsExact :
    (id : ℕ) (t : Owed) (w : Served)
    → IsDistinct w.session.withdrawn
    → IsDistinct w.session.resent
    → IsExact w.client.ident w
    → IsExact w.client.ident (settle_unknown id t w).0
unfolding settle_unknown
settle_unknown-IsExact id t w withdrawn_once resent_once exact =
    let w' = (settle_withdrawn id t w).0 in
    let (kept, same) = settle_withdrawn-IsExact id t w withdrawn_once exact in
    let ident = settle_withdrawn-ident id t w in
    let settled : IsExact w.client.ident (settle_resent id t w').0 =
      subst (λ k. IsExact k (settle_resent id t w').0) ident
        (settle_resent-IsExact id t w' (rw same resent_once)
          (subst (λ k. IsExact k w') (sym ident) kept)) in
    elim (Bool-cases (settle_withdrawn id t w).1) [
      | inl back ↦ rw (settle_unknown, back) kept
      | inr not_back ↦ elim (Bool-cases (settle_resent id t w').1) [
        | inl copy ↦ rw (settle_unknown, not_back, copy) settled
        | inr unknown ↦ rw (settle_unknown, not_back, unknown) settled
      ]
    ]

release_for-used :
    (o : Outbound) (c : Client) → (release_for o c).used ≡ c.used - one_if o.quota_held
unfolding release_for release_quota
release_for-used o c = ground arith

complete_inflight-missing :
    (c id : ℕ) (s : Exchanges)
    → lookup id s.inflight ≡ none
    → ◌≡◌ {A = Exchanges × Option Outbound} (complete_inflight c id s) (s, none)
unfolding complete_inflight complete_inflight_locked ack_completed
complete_inflight-missing c id s free =
    let locked : ◌≡◌ {A = Exchanges × Option Outbound} (complete_inflight_locked c id s) (s, none) =
      rw (complete_inflight_locked, free) refl in
    ap ack_completed locked

module _ (id : ℕ) (w : Served) (kept : IsKept w.client.ident w.session)
    (exact : IsExact w.client.ident w) where
  -- What holds of the handlers' part after the exchange holds of the handler.
  after_completion :
      (Good : Exchanges × Option Outbound → Type 0)
      → Good (w.session, none)
      → ((s' : Exchanges) (done : Outbound)
          → slots w.client.ident s' + one_if done.quota_held ≡ w.client.used
          → Good (s', some done))
      → Good (complete_inflight w.client.ident id w.session)
  after_completion Good missing found = elim (Option-cases (lookup id w.session.inflight)) [
    | inl free ↦
        subst Good (sym (complete_inflight-missing w.client.ident id w.session free)) missing
    | inr (o, there) ↦
        let (s', done, completed, spent) =
          complete_inflight-slots w.client.ident w.client.ident id w.session o (record {
            inflight_once = kept.inflight_once;
            resent_once = kept.resent_once;
            there = there;
            not_withdrawn = kept.apart id o there;
            charged = kept.charged id o there;
          }) in
        subst Good (sym completed) (found s' done (omega arith))
  ]

  -- A PUBCOMP returns a slot of the send quota exactly where one is spent on its exchange: afterwards
  -- the quota again counts the slots that the connection's exchanges hold, whichever answer it got.
  pub handle_pubcomp-IsExact : IsExact w.client.ident (handle_pubcomp id w).0
  unfolding handle_pubcomp finish_pubcomp
  handle_pubcomp-IsExact =
      after_completion (λ r. IsExact w.client.ident (finish_pubcomp id w r).0)
        (settle_unknown-IsExact id Owed.pubcomp w kept.withdrawn_once kept.resent_once exact)
        (λ s' done spent. omega (arith, release_for-used done w.client))

  -- The same of a PUBACK, unless it is for a QoS 2 exchange, on which the connection ends.
  pub handle_puback-IsExact :
      (handle_puback id w).1 ≡ Reply.nothing → IsExact w.client.ident (handle_puback id w).0
  unfolding handle_puback finish_puback
  handle_puback-IsExact =
      after_completion
        (λ r.
          (finish_puback id w r).1 ≡ Reply.nothing
          → IsExact w.client.ident (finish_puback id w r).0)
        (λ e. settle_unknown-IsExact id Owed.puback w kept.withdrawn_once kept.resent_once exact)
        (λ s' done spent e. elim (Bool-cases (not (done.qos == 1))) [
          | inl other ↦ absurd (ground arith)
          | inr fine ↦ rw (finish_puback, fine) (omega (arith, release_for-used done w.client))
        ])
