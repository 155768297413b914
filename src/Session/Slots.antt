-- ===== src/Session/Slots.antt =====
-- The send quota across a new connection and messages that are taken back.
use natsmqtt.Prelude.{
  ap, ℕ, ◌+◌, ◌≡◌, refl, sym, ◌∙◌, subst, inl, inr, Bool, true, false, Option, none, some, List, [],
  ◌∷◌, Bytes, arith, ◌==◌, not, ◌&&◌, if◌then◌else◌, is_empty, leb, ◌-◌, Bool-cases, All,
}
use natsmqtt.Dict.{lookup-erase, lookup-insert, lookup-erase_other, Dict, lookup, erase, number_key}
use natsmqtt.Dict.Count.{count, one_if, IsDistinct, count-erase, count-insert}
use natsmqtt.Session.State.{Outbound, Withdrawal, Exchanges, owed_ack}
use natsmqtt.Session.Inflight.{is_on, retire_blob_locked, drop_stale, forget_stale_withdrawals}
use natsmqtt.Session.Handlers.{Client}
use natsmqtt.Session.Attach.{
  return_slots, attach, is_taken, take_back, withdraw_each, withdraw_inflight_locked, give_back,
  withdraw_inflight,
}
use natsmqtt.Session.Quota.{slots}
use natsmqtt.Session.Acks.{IsExact}

count-return_slots : (m : Dict ℕ Outbound) → count (λ o. o.quota_held) (return_slots m) ≡ 0
unfolding count return_slots
count-return_slots [] = refl
count-return_slots ((id, o) ∷ m) = omega (arith, count-return_slots m)

count-drop_stale :
    (p : Withdrawal → Bool) (attaches : ℕ) (m : Dict ℕ Withdrawal)
    → count p m ≡ 0
    → count p (drop_stale attaches m) ≡ 0
unfolding count drop_stale
count-drop_stale p attaches [] h = refl
count-drop_stale p attaches ((id, w) ∷ m) h =
    let rest = count-drop_stale p attaches m (omega arith) in
    elim (Bool-cases (leb 2 (attaches - w.made_at))) [
      | inl stale ↦ rw stale rest
      | inr kept ↦ rw kept (omega (arith, rest))
    ]

-- A new connection, for which no slot of a message taken back was spent, starts with a quota that
-- counts its slots: none.
pub attach-IsExact :
    (s : Exchanges) (c : Client)
    → c.used ≡ 0
    → count (λ w. is_on c.ident w.quota_holder) s.withdrawn ≡ 0
    → IsExact c.ident (record { session = attach c.ident s; client = c })
unfolding attach forget_stale_withdrawals count
attach-IsExact s c unused fresh =
    let old = count-return_slots s.inflight in
    let gone =
      count-drop_stale (λ w. is_on c.ident w.quota_holder) (s.attaches + 1) s.withdrawn fresh in
    omega (arith, unused, old, gone)

charged_slot :
    (k : ℕ) (o : Outbound) (c : Option ℕ)
    → c ≡ some k
    → one_if (is_on k (if o.quota_held then c else none)) ≡ one_if o.quota_held
unfolding is_on
charged_slot k o c on = elim (Bool-cases o.quota_held) [
  | inl held ↦ rw (on, held) (let own : one_if (k == k) ≡ 1 = ground arith in own)
  | inr free ↦ rw free refl
]

-- Taking a message back moves its slot to the acknowledgement that is owed.
take_back-slots :
    (k id : ℕ) (o : Outbound) (s : Exchanges)
    → IsDistinct s.inflight
    → s.conn ≡ some k
    → lookup id s.inflight ≡ some o
    → lookup id s.withdrawn ≡ none
    → slots k (take_back id o s) ≡ slots k s
unfolding take_back retire_blob_locked
take_back-slots k id o s once on there free =
    let less = count-erase (λ o. o.quota_held) id o s.inflight once there in
    let w : Withdrawal = record {
      made_at = s.attaches;
      owed = owed_ack o;
      quota_holder = if o.quota_held then s.conn else none;
    } in
    let more = count-insert (λ w. is_on k w.quota_holder) id w s.withdrawn free in
    let moved = charged_slot k o s.conn on in
    elim (Bool-cases (is_empty o.blob_key)) [
      | inl no_blob ↦ rw (take_back, retire_blob_locked, no_blob) (omega (arith, less, more, moved))
      | inr blob ↦ rw (take_back, retire_blob_locked, blob) (omega (arith, less, more, moved))
    ]

IsDistinct-erase : (id : ℕ) (m : Dict ℕ Outbound) → IsDistinct m → IsDistinct (erase id m)
unfolding erase
IsDistinct-erase id [] d = tt
IsDistinct-erase id ((j, o) ∷ m) (new, d) = elim (Bool-cases (id == j)) [
  | inl here ↦ rw here (IsDistinct-erase id m d)
  | inr there ↦ rw there (ground (arith, lookup-erase j id m, new), IsDistinct-erase id m d)
]

-- Messages that are in flight under identifiers that were not taken back.
abbrev Stand : Dict ℕ Outbound → Exchanges → Type 0
Stand m s = All (λ e. (lookup e.0 s.inflight ≡ some e.1) × (lookup e.0 s.withdrawn ≡ none)) m

module _ (id : ℕ) (o : Outbound) (s : Exchanges) where
  take_back-conn : (take_back id o s).conn ≡ s.conn
  unfolding take_back retire_blob_locked
  take_back-conn = elim (Bool-cases (is_empty o.blob_key)) [
    | inl no_blob ↦ rw (take_back, retire_blob_locked, no_blob) refl
    | inr blob ↦ rw (take_back, retire_blob_locked, blob) refl
  ]

  take_back-inflight : (take_back id o s).inflight ≡ erase id s.inflight
  unfolding take_back retire_blob_locked
  take_back-inflight = elim (Bool-cases (is_empty o.blob_key)) [
    | inl no_blob ↦ rw (take_back, retire_blob_locked, no_blob) refl
    | inr blob ↦ rw (take_back, retire_blob_locked, blob) refl
  ]

  take_back-withdrawn :
      (j : ℕ) → (j == id) ≡ false → lookup j (take_back id o s).withdrawn ≡ lookup j s.withdrawn
  unfolding take_back retire_blob_locked
  take_back-withdrawn j other =
      let w : Withdrawal = record {
        made_at = s.attaches;
        owed = owed_ack o;
        quota_holder = if o.quota_held then s.conn else none;
      } in
      elim (Bool-cases (is_empty o.blob_key)) [
        | inl no_blob ↦
            rw (take_back, retire_blob_locked, no_blob, lookup-insert j id w s.withdrawn, other)
              refl
        | inr blob ↦
            rw (take_back, retire_blob_locked, blob, lookup-insert j id w s.withdrawn, other) refl
      ]

  -- The others stand as they did.
  Stand-take_back :
      (m : Dict ℕ Outbound) → lookup id m ≡ none → Stand m s → Stand m (take_back id o s)
  unfolding lookup
  Stand-take_back [] new stand = tt
  Stand-take_back ((j, p) ∷ m) new ((there, free), stand) =
      let other : (j == id) ≡ false = ground arith in
      let rest : lookup id m ≡ none = ground arith in
      (
        (
          ap (lookup j) take_back-inflight ∙ lookup-erase_other j id p s.inflight other there,
          take_back-withdrawn j other ∙ free,
        ),
        Stand-take_back m rest stand,
      )

withdraw_each-slots :
    (denied surviving : List Bytes) (k : ℕ) (m : Dict ℕ Outbound) (s : Exchanges)
    → IsDistinct m
    → IsDistinct s.inflight
    → s.conn ≡ some k
    → Stand m s
    → slots k (withdraw_each denied surviving m s).0 ≡ slots k s
unfolding withdraw_each
withdraw_each-slots denied surviving k [] s apart once on stand = refl
withdraw_each-slots denied surviving k ((id, o) ∷ m) s (new, apart) once on ((there, free), stand) =
    elim (Bool-cases (is_taken denied surviving o)) [
      | inr kept ↦ rw kept (withdraw_each-slots denied surviving k m s apart once on stand)
      | inl taken ↦ rw taken (
          withdraw_each-slots denied surviving k m (take_back id o s) apart
            (subst IsDistinct (sym (take_back-inflight id o s))
              (IsDistinct-erase id s.inflight once))
            (take_back-conn id o s ∙ on) (Stand-take_back id o s m new stand)
          ∙ take_back-slots k id o s once on there free)
    ]

lookup-behind :
    (j : ℕ) (p : Outbound) (base n : Dict ℕ Outbound)
    → lookup j n ≡ none
    → All (λ e. lookup e.0 base ≡ some e.1) n
    → All (λ e. lookup e.0 ((j, p) ∷ base) ≡ some e.1) n
unfolding lookup
lookup-behind j p base [] new found = tt
lookup-behind j p base ((i, q) ∷ n) new (here, found) =
    let other : (i == j) ≡ false = ground arith in
    (rw other here, lookup-behind j p base n (ground arith) found)

lookup-entries : (m : Dict ℕ Outbound) → IsDistinct m → All (λ e. lookup e.0 m ≡ some e.1) m
unfolding lookup
lookup-entries [] d = tt
lookup-entries ((j, p) ∷ m) (new, d) =
    let same : (j == j) ≡ true = ground arith in
    (rw same refl, lookup-behind j p m m new (lookup-entries m d))

All-both :
    (P Q : ℕ × Outbound → Type 0) (m : Dict ℕ Outbound) → All P m → All Q m → All (λ e. P e × Q e) m
All-both P Q [] p q = tt
All-both P Q (e ∷ m) (p, ps) (q, qs) = ((p, q), All-both P Q m ps qs)

give_back-slots :
    (k : ℕ) (r : Exchanges × (List ℕ × List Bytes)) → slots k (give_back r).0 ≡ slots k r.0
unfolding give_back
give_back-slots k (s, (taken, hand_back)) =
    elim (Bool-cases (not (is_empty hand_back) && s.has_holds)) [
      | inl group ↦ rw (give_back, group) refl
      | inr alone ↦ rw (give_back, alone) refl
    ]

-- Taking back the messages of denied filters on the session's connection leaves the slots that are
-- spent on it as many: each goes with the acknowledgement still owed. Each identifier in flight is
-- there once and not already taken back.
pub withdraw_inflight-slots :
    (denied surviving : List Bytes) (k : ℕ) (s : Exchanges)
    → IsDistinct s.inflight
    → s.conn ≡ some k
    → All (λ e. lookup e.0 s.withdrawn ≡ none) s.inflight
    → slots k (withdraw_inflight denied surviving s).0 ≡ slots k s
unfolding withdraw_inflight withdraw_inflight_locked
withdraw_inflight-slots denied surviving k s once on free =
    let stand =
      All-both (λ e. lookup e.0 s.inflight ≡ some e.1) (λ e. lookup e.0 s.withdrawn ≡ none)
        s.inflight (lookup-entries s.inflight once) free in
    give_back-slots k (withdraw_inflight_locked denied surviving s)
    ∙ withdraw_each-slots denied surviving k s.inflight s once once on stand
