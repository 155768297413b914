-- ===== src/Delivery/Expiry.antt =====
-- Message Expiry Intervals: expiry.go. Times are nanoseconds.
use natsmqtt.Prelude.{
  some-ne-none, ◌⊎◌, ◌&&◌, ap, ◌∙◌, ℕ, ◌+◌, ◌-◌, ◌*◌, ◌/◌, ◌≤◌, ◌<◌, ◌≡◌, ◌↔◌, refl, inl, inr, Bool,
  true, false, Option, none, some, arith, leb, ◌==◌, if◌then◌else◌, Bool-cases,
}

abbrev pub second : ℕ
second = 1000000000

-- `remainingExpiry`: what remains, and whether the message has expired. Before it arrived, nothing
-- was waited, as in a first second.
unfoldable pub remaining_expiry : ℕ → ℕ → ℕ → ℕ × Bool
remaining_expiry interval arrived now =
    let waited_seconds = (now - arrived) / second in
    if waited_seconds == 0
    then (interval, false)
    else if leb interval waited_seconds
    then (0, true)
    else (interval - waited_seconds, false)

-- `delivery`, the two fields that `applyExpiry` writes.
pub record Expiring : Type 0 where
  pub message_expiry_interval : Option ℕ
  pub expiry : Option ℕ

-- `applyExpiry` from the choice of the interval on.
unfoldable pub apply_remaining : ℕ → ℕ → ℕ → Expiring → Expiring × Bool
apply_remaining interval arrived now d =
    let (remaining, expired) = remaining_expiry interval arrived now in
    if expired
    then (record d { expiry = some interval }, true)
    else (record { message_expiry_interval = some remaining; expiry = some interval }, false)

-- The interval that counts: the one the message arrived with, where it was kept.
unfoldable pub first_interval : Option ℕ → Option ℕ → Option ℕ
first_interval none kept = none
first_interval (some current) none = some current
first_interval (some current) (some first) = some first

-- `applyExpiry`
unfoldable pub apply_expiry : ℕ → ℕ → Expiring → Expiring × Bool
apply_expiry arrived now d = elim (first_interval d.message_expiry_interval d.expiry) [
  | none ↦ (d, false)
  | some interval ↦ apply_remaining interval arrived now d
]

-- A message has expired exactly once it has waited its whole interval, and a second at least.
pub remaining_expiry-expired :
    (interval arrived now : ℕ)
    → ((remaining_expiry interval arrived now).1 ≡ true)
      ↔ ((arrived + interval * second ≤ now) × (arrived + second ≤ now))
unfolding remaining_expiry
remaining_expiry-expired interval arrived now =
    let waited = (now - arrived) / second in
    elim (Bool-cases (waited == 0)) [
      | inl none_yet ↦
          let short : waited ≡ 0 = ground arith in
          rw (remaining_expiry, none_yet)
            (λ e. ground arith, λ h. absurd (omega (arith, h.1, short)))
      | inr some_waited ↦
          let long : 1 ≤ waited = ground arith in
          elim (Bool-cases (leb interval waited)) [
            | inl whole ↦
                let all : interval ≤ waited = ground arith in
                rw (remaining_expiry, some_waited, whole)
                  (λ e. (omega (arith, all, long), omega (arith, long)), λ h. refl)
            | inr part ↦
                let less : waited < interval = ground arith in
                rw (remaining_expiry, some_waited, part)
                  (λ e. ground arith, λ h. absurd (omega (arith, h.0, less, long)))
          ]
    ]

-- What is sent of the interval of a message that has not expired is never less than what is left of
-- it, and more by less than a second.
pub remaining_expiry-bounds :
    (interval arrived now : ℕ)
    → arrived ≤ now
    → (remaining_expiry interval arrived now).1 ≡ false
    → (arrived + interval * second ≤ now + (remaining_expiry interval arrived now).0 * second)
      × (now + (remaining_expiry interval arrived now).0 * second
          < arrived + interval * second + second)
unfolding remaining_expiry
remaining_expiry-bounds interval arrived now after alive =
    let waited = (now - arrived) / second in
    elim (Bool-cases (waited == 0)) [
      | inl none_yet ↦
          let short : waited ≡ 0 = ground arith in
          rw (remaining_expiry, none_yet) (omega (arith, after), omega (arith, short, after))
      | inr some_waited ↦ elim (Bool-cases (leb interval waited)) [
        | inl whole ↦
            let gone : true ≡ false = rw (remaining_expiry, some_waited, whole) at alive in
            ground (arith, gone)
        | inr part ↦
            let less : waited < interval = ground arith in
            rw (remaining_expiry, some_waited, part)
              (omega (arith, less, after), omega (arith, less, after))
      ]
    ]

apply_expiry-interval :
    (arrived now interval : ℕ) (d : Expiring)
    → first_interval d.message_expiry_interval d.expiry ≡ some interval
    → apply_expiry arrived now d ≡ apply_remaining interval arrived now d
unfolding apply_expiry
apply_expiry-interval arrived now interval d there = rw (apply_expiry, there) refl

-- `writeResend`, the interval that a PUBLISH put on the wire again carries; `none` where it is not sent
-- and its exchange ends.
unfoldable pub resend_interval : ℕ → ℕ → ℕ → Expiring → Option (Option ℕ)
resend_interval qos arrived now o = elim (o.expiry) [
  | none ↦ some o.message_expiry_interval
  | some first ↦
      let (remaining, expired) = remaining_expiry first arrived now in
      if expired && qos == 1 then none else some (some remaining)
]

none_both : (b : Bool) → b ≡ true → b ≡ false → ⊥
none_both b yes_b no_b = ground (arith, yes_b, no_b)

apply_remaining-expiry :
    (interval arrived now : ℕ) (d : Expiring)
    → (apply_remaining interval arrived now d).0.expiry ≡ some interval
unfolding apply_remaining
apply_remaining-expiry interval arrived now d =
    elim (Bool-cases (remaining_expiry interval arrived now).1) [
      | inl gone ↦ rw (apply_remaining, gone) refl
      | inr here ↦ rw (apply_remaining, here) refl
    ]

resend_interval-kept :
    (qos arrived later interval : ℕ) (o : Expiring)
    → o.expiry ≡ some interval
    → resend_interval qos arrived later o ≡ (
        if (remaining_expiry interval arrived later).1 && qos == 1
        then none
        else some (some (remaining_expiry interval arrived later).0))
unfolding resend_interval
resend_interval-kept qos arrived later interval o kept = rw (resend_interval, kept) refl

remaining_expiry-gone :
    (interval arrived now : ℕ)
    → (remaining_expiry interval arrived now).1 ≡ true
    → (remaining_expiry interval arrived now).0 ≡ 0
unfolding remaining_expiry
remaining_expiry-gone interval arrived now h = ground (arith, h)

abbrev pub IsLeft : ℕ → ℕ → ℕ → ℕ → Type 0
IsLeft interval arrived later remaining =
    (arrived + interval * second ≤ later + remaining * second)
    × ((remaining ≡ 0) ⊎ (later + remaining * second < arrived + interval * second + second))

remaining_expiry-IsLeft :
    (interval arrived later : ℕ)
    → arrived ≤ later
    → IsLeft interval arrived later (remaining_expiry interval arrived later).0
remaining_expiry-IsLeft interval arrived later after =
    elim (Bool-cases (remaining_expiry interval arrived later).1) [
      | inl gone ↦
          let waited = (remaining_expiry-expired interval arrived later).0 gone in
          let zero_left = remaining_expiry-gone interval arrived later gone in
          (omega (arith, waited.0), inl zero_left)
      | inr alive ↦
          let bounds = remaining_expiry-bounds interval arrived later after alive in
          (bounds.0, inr bounds.1)
    ]

-- A message with an interval that arrived, was made ready to be sent and is put on the wire again later
-- keeps the interval it arrived with: at QoS 1 it is withheld exactly once it has waited that interval,
-- and a second at least; at QoS 2 it is always sent, with no less than what is left, and with 0 or more
-- than what is left by less than a second.
pub resend_interval-apply_expiry :
    (interval arrived now later : ℕ) (d : Expiring)
    → d.message_expiry_interval ≡ some interval
    → d.expiry ≡ none
    → arrived ≤ later
    → ((resend_interval 1 arrived later (apply_expiry arrived now d).0 ≡ none)
        ↔ ((arrived + interval * second ≤ later) × (arrived + second ≤ later)))
      × ((remaining : ℕ) × (resend_interval 2 arrived later (apply_expiry arrived now d).0
            ≡ some (some remaining))
          × IsLeft interval arrived later remaining)
unfolding first_interval
resend_interval-apply_expiry interval arrived now later d has unkept after =
    let first : first_interval d.message_expiry_interval d.expiry ≡ some interval =
      rw (has, unkept) refl in
    let kept =
      ap (λ r. r.0.expiry) (apply_expiry-interval arrived now interval d first)
      ∙ apply_remaining-expiry interval arrived now d in
    let o = (apply_expiry arrived now d).0 in
    let one = resend_interval-kept 1 arrived later interval o kept in
    let two = resend_interval-kept 2 arrived later interval o kept in
    let whole = remaining_expiry-expired interval arrived later in
    (
      elim (Bool-cases (remaining_expiry interval arrived later).1) [
        | inl gone ↦ rw (one, gone) (λ e. whole.0 gone, λ w. refl)
        | inr alive ↦
            rw (one, alive)
              (
                λ e. absurd (some-ne-none _ e),
                λ w.
                    absurd
                      (none_both (remaining_expiry interval arrived later).1 (whole.1 w) alive),
              )
      ],
      (
        (remaining_expiry interval arrived later).0,
        elim (Bool-cases (remaining_expiry interval arrived later).1) [
          | inl gone ↦ rw (two, gone) refl
          | inr alive ↦ rw (two, alive) refl
        ],
        remaining_expiry-IsLeft interval arrived later after,
      ),
    )
