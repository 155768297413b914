-- ===== src/Delivery/Owed.antt =====
-- `owedBy` beside the delivery of a message from the queue.
use natsmqtt.Prelude.{
  ℕ, ◌≡◌, refl, sym, ap, inl, inr, Bool, true, false, Option, none, some, List, [], ◌∷◌, Bytes,
  bytes_eq, ltb, leb, ◌==◌, not, ◌&&◌, ◌||◌, if◌then◌else◌, is_empty, All, arith, Bool-cases,
  Option-cases,
}
use natsmqtt.Topic.Match.{match}
use natsmqtt.Topic.Subject.{subject_to_name, trim_prefix}
use natsmqtt.Message.Nats.{Headers, Received, Msg, from_nats}
use natsmqtt.Cursor.State.{Subscription, since_unknown}
use natsmqtt.Delivery.Queued.{
  min_qos, Delivery, Reader, queue_seq, delivery_for, queued_for, deliver_each, deliver_queued_owed,
  owed_each, owed_by,
}

-- The three tests that `owedBy` and the delivery share.
abbrev is_passed : Bytes → Received → Bytes → Subscription → Bool
is_passed client got name sub =
    (not (is_empty sub.share) || not (match sub.filter name))
    || (sub.no_local && bytes_eq got.origin client)
    || min_qos got.qos sub.granted_qos == 0

abbrev has_some {ℓ} : {A : Type ℓ} → Option A → Bool
has_some none = false
has_some (some a) = true

abbrev is_known : Subscription → Bool
is_known sub = not (sub.since == since_unknown)

module _ (hs : Headers) where
  has_some-queued_for :
      (client : Bytes) (arrived : ℕ) (name : Bytes) (msg : Msg hs) (sub : Subscription)
      → has_some (queued_for hs client arrived false name msg sub)
        ≡ not (is_passed client (from_nats hs msg.header) name sub)
  unfolding queued_for delivery_for
  has_some-queued_for client arrived name msg sub =
      let got = from_nats hs msg.header in
      elim (Bool-cases (not (is_empty sub.share) || not (match sub.filter name))) [
        | inl away ↦ rw (queued_for, away) refl
        | inr here ↦ elim (Bool-cases (sub.no_local && bytes_eq got.origin client)) [
          | inl own ↦ rw (queued_for, here, delivery_for, own) refl
          | inr other ↦ elim (Bool-cases (min_qos got.qos sub.granted_qos == 0)) [
            | inl low ↦ rw (queued_for, here, delivery_for, other, low) refl
            | inr high ↦ rw (queued_for, here, delivery_for, other, high) refl
          ]
        ]
      ]

  is_empty-deliver_each :
      (fails : Delivery → Bool) (client : Bytes) (arrived : ℕ) (owed_only : Bool) (name : Bytes)
      (msg : Msg hs) (sub : Subscription) (subs : List Subscription)
      → not (
          is_empty
            (deliver_each hs fails client arrived owed_only name msg (sub ∷ subs)).deliveries)
        ≡ (has_some (queued_for hs client arrived owed_only name msg sub)
            || not (
                is_empty (deliver_each hs fails client arrived owed_only name msg subs).deliveries))
  unfolding deliver_each
  is_empty-deliver_each fails client arrived owed_only name msg sub subs =
      elim (Option-cases (queued_for hs client arrived owed_only name msg sub)) [
        | inl passed ↦ rw (deliver_each, passed) refl
        | inr (d, there) ↦ elim (Bool-cases (fails d)) [
          | inl bad ↦ rw (deliver_each, there, bad) refl
          | inr good ↦ rw (deliver_each, there, good) refl
        ]
      ]

and_true : (b : Bool) → (b && true) ≡ b
and_true true = refl
and_true false = refl

and_false : (b : Bool) → (b && false) ≡ false
and_false true = refl
and_false false = refl

All-known :
    (subs : List Subscription)
    → All (λ sub. (sub.since == since_unknown) ≡ false) subs
    → All (λ sub. is_known sub ≡ true) subs
All-known [] known = tt
All-known (sub ∷ subs) (known, rest) = (ap not known, All-known subs rest)

owed_each-passed :
    (client : Bytes) (got : Received) (name : Bytes) (seq : ℕ) (m : Bool) (sub : Subscription)
    (subs : List Subscription)
    → is_passed client got name sub ≡ true
    → owed_each client got name seq m (sub ∷ subs) ≡ owed_each client got name seq m subs
unfolding owed_each
owed_each-passed client got name seq m sub subs h =
    elim (Bool-cases (not (is_empty sub.share) || not (match sub.filter name))) [
      | inl away ↦ rw (owed_each, away) refl
      | inr here ↦ elim (Bool-cases (sub.no_local && bytes_eq got.origin client)) [
        | inl own ↦ rw (owed_each, here, own) refl
        | inr other ↦
            let low : (min_qos got.qos sub.granted_qos == 0) ≡ true = rw (here, other) at h in
            rw (owed_each, here, other, low) refl
      ]
    ]

owed_each-counted :
    (client : Bytes) (got : Received) (name : Bytes) (seq : ℕ) (m : Bool) (sub : Subscription)
    (subs : List Subscription)
    → is_passed client got name sub ≡ false
    → owed_each client got name seq m (sub ∷ subs) ≡ (
        if is_known sub && ltb sub.since seq
        then (true, true)
        else owed_each client got name seq true subs)
unfolding owed_each
owed_each-counted client got name seq m sub subs h =
    elim (Bool-cases (not (is_empty sub.share) || not (match sub.filter name))) [
      | inl away ↦ let bad : true ≡ false = rw away at h in ground (arith, bad)
      | inr here ↦ elim (Bool-cases (sub.no_local && bytes_eq got.origin client)) [
        | inl own ↦ let bad : true ≡ false = rw (here, own) at h in ground (arith, bad)
        | inr other ↦
            let high : (min_qos got.qos sub.granted_qos == 0) ≡ false = rw (here, other) at h in
            rw (owed_each, here, other, high) refl
      ]
    ]

owed_each-matched_true :
    (client : Bytes) (got : Received) (name : Bytes) (seq : ℕ) (subs : List Subscription)
    → (owed_each client got name seq true subs).0 ≡ true
unfolding owed_each
owed_each-matched_true client got name seq [] = refl
owed_each-matched_true client got name seq (sub ∷ subs) =
    elim (Bool-cases (is_passed client got name sub)) [
      | inl passed ↦
          rw (owed_each-passed client got name seq true sub subs passed)
            (owed_each-matched_true client got name seq subs)
      | inr counted ↦ elim (Bool-cases (is_known sub && ltb sub.since seq)) [
        | inl fresh ↦ rw (owed_each-counted client got name seq true sub subs counted, fresh) refl
        | inr old ↦
            rw (owed_each-counted client got name seq true sub subs counted, old)
              (owed_each-matched_true client got name seq subs)
      ]
    ]

module _ (hs : Headers) where
  matched_each :
      (fails : Delivery → Bool) (client : Bytes) (arrived : ℕ) (name : Bytes) (msg : Msg hs)
      (seq : ℕ) (subs : List Subscription)
      → (owed_each client (from_nats hs msg.header) name seq false subs).0
        ≡ not (is_empty (deliver_each hs fails client arrived false name msg subs).deliveries)
  unfolding owed_each deliver_each
  matched_each fails client arrived name msg seq [] = refl
  matched_each fails client arrived name msg seq (sub ∷ subs) =
      let got = from_nats hs msg.header in
      let one = has_some-queued_for hs client arrived name msg sub in
      let all = is_empty-deliver_each hs fails client arrived false name msg sub subs in
      elim (Bool-cases (is_passed client got name sub)) [
        | inl passed ↦
            rw (owed_each-passed client got name seq false sub subs passed, all, one, passed)
              (matched_each fails client arrived name msg seq subs)
        | inr counted ↦ elim (Bool-cases (is_known sub && ltb sub.since seq)) [
          | inl fresh ↦
              rw
                (
                  owed_each-counted client got name seq false sub subs counted,
                  fresh,
                  all,
                  one,
                  counted,
                )
                refl
          | inr old ↦
              rw
                (
                  owed_each-counted client got name seq false sub subs counted,
                  old,
                  all,
                  one,
                  counted,
                )
                (owed_each-matched_true client got name seq subs)
        ]
      ]

  queued_for-owed_only :
      (client : Bytes) (arrived : ℕ) (name : Bytes) (msg : Msg hs) (sub : Subscription)
      → has_some (queued_for hs client arrived true name msg sub) ≡ (
          has_some (queued_for hs client arrived false name msg sub)
          && (not (is_known sub) || ltb sub.since (queue_seq hs msg)))
  unfolding queued_for
  queued_for-owed_only client arrived name msg sub =
      let seq = queue_seq hs msg in
      elim (Bool-cases (not (is_empty sub.share) || not (match sub.filter name))) [
        | inl away ↦ rw (queued_for, away) refl
        | inr here ↦ elim (Bool-cases (not (sub.since == since_unknown))) [
          | inr unknown ↦ rw (queued_for, here, unknown) (sym (and_true _))
          | inl known ↦ elim (Bool-cases (leb seq sub.since)) [
            | inl old ↦
                let late : ltb sub.since seq ≡ false = ground arith in
                rw (queued_for, here, known, old, late) (sym (and_false _))
            | inr new ↦
                let late : ltb sub.since seq ≡ true = ground arith in
                rw (queued_for, here, known, new, late) (sym (and_true _))
          ]
        ]
      ]

  owed_each-deliver_each :
      (fails : Delivery → Bool) (client : Bytes) (arrived : ℕ) (name : Bytes) (msg : Msg hs)
      (m : Bool) (subs : List Subscription)
      → All (λ sub. is_known sub ≡ true) subs
      → (owed_each client (from_nats hs msg.header) name (queue_seq hs msg) m subs).1
        ≡ not (is_empty (deliver_each hs fails client arrived true name msg subs).deliveries)
  unfolding owed_each deliver_each
  owed_each-deliver_each fails client arrived name msg m [] known = refl
  owed_each-deliver_each fails client arrived name msg m (sub ∷ subs) (known, rest) =
      let got = from_nats hs msg.header in
      let seq = queue_seq hs msg in
      let one = has_some-queued_for hs client arrived name msg sub in
      let only = queued_for-owed_only client arrived name msg sub in
      let all = is_empty-deliver_each hs fails client arrived true name msg sub subs in
      elim (Bool-cases (is_passed client got name sub)) [
        | inl passed ↦
            rw (owed_each-passed client got name seq m sub subs passed, all, only, one, passed)
              (owed_each-deliver_each fails client arrived name msg m subs rest)
        | inr counted ↦ elim (Bool-cases (ltb sub.since seq)) [
          | inl fresh ↦
              rw
                (
                  owed_each-counted client got name seq m sub subs counted,
                  all,
                  only,
                  one,
                  counted,
                  known,
                  fresh,
                )
                refl
          | inr old ↦
              rw
                (
                  owed_each-counted client got name seq m sub subs counted,
                  all,
                  only,
                  one,
                  counted,
                  known,
                  old,
                )
                (owed_each-deliver_each fails client arrived name msg true subs rest)
        ]
      ]

  -- `owedBy` says that a message matches exactly where its delivery from the queue hands it to a
  -- subscription, whether or not that fails.
  pub owed_by-deliver_queued :
      (fails : Delivery → Bool) (c : Reader) (arrived : ℕ) (msg : Msg hs) (seq : ℕ)
      → (owed_by hs c msg seq).0
        ≡ not (is_empty (deliver_queued_owed hs fails c arrived false msg).deliveries)
  unfolding owed_by deliver_queued_owed
  owed_by-deliver_queued fails c arrived msg seq =
      elim (Bool-cases ((from_nats hs msg.header).qos == 0)) [
        | inl low ↦ rw (owed_by, deliver_queued_owed, low) refl
        | inr high ↦ elim (Option-cases (trim_prefix c.subject_prefix msg.subject)) [
          | inl outside ↦ rw (owed_by, deliver_queued_owed, high, outside) refl
          | inr (subject, inside) ↦
              rw (owed_by, deliver_queued_owed, high, inside)
                (matched_each fails c.client_id arrived (subject_to_name subject) msg seq c.subs)
        ]
      ]

  -- Where it is known since when each subscription is owed messages, `owedBy` says that the message
  -- at its sequence is owed exactly where the delivery of what is owed only hands it to one.
  pub owed_by-deliver_queued_owed :
      (fails : Delivery → Bool) (c : Reader) (arrived : ℕ) (msg : Msg hs)
      → All (λ sub. (sub.since == since_unknown) ≡ false) c.subs
      → (owed_by hs c msg (queue_seq hs msg)).1
        ≡ not (is_empty (deliver_queued_owed hs fails c arrived true msg).deliveries)
  unfolding owed_by deliver_queued_owed
  owed_by-deliver_queued_owed fails c arrived msg known =
      elim (Bool-cases ((from_nats hs msg.header).qos == 0)) [
        | inl low ↦ rw (owed_by, deliver_queued_owed, low) refl
        | inr high ↦ elim (Option-cases (trim_prefix c.subject_prefix msg.subject)) [
          | inl outside ↦ rw (owed_by, deliver_queued_owed, high, outside) refl
          | inr (subject, inside) ↦
              rw (owed_by, deliver_queued_owed, high, inside)
                (owed_each-deliver_each fails c.client_id arrived (subject_to_name subject) msg
                  false c.subs (All-known c.subs known))
        ]
      ]
