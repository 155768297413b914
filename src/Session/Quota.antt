-- ===== src/Session/Quota.antt =====
-- The send quota: the slots that one connection has spent, and what an acknowledgement returns.
use natsmqtt.Prelude.{
  ap, Bytes, ℕ, ◌+◌, ◌≡◌, refl, inl, inr, ◌⊎◌, true, false, Option, none, some, [], arith, ◌==◌,
  not, ◌&&◌, if◌then◌else◌, is_empty, Bool-cases, Option-cases,
}
use natsmqtt.Dict.{lookup, erase, number_key}
use natsmqtt.Dict.Count.{count, one_if, IsDistinct, count-erase, count-insert, count-insert_over}
use natsmqtt.Session.State.{Outbound, Withdrawal, Exchanges, owed_ack}
use natsmqtt.Session.Inflight.{
  ack_completed, is_on, retire_blob_locked, overtakes, leave_slot, leave_owed,
  complete_inflight_locked, complete_inflight, ack_group,
}

-- The slots that are spent on connection `k`: by messages in flight, by identifiers taken back whose
-- acknowledgement returns one, and by copies that were resent.
abbrev pub slots : ℕ → Exchanges → ℕ
slots k s =
    count (λ o. o.quota_held) s.inflight
    + count (λ w. is_on k w.quota_holder) s.withdrawn
    + count (λ r. (r.conn == k) && r.quota) s.resent

-- Each map holds a key once; an identifier in flight is not also taken back; and a message that holds
-- a slot was last put on the wire by the connection itself.
pub record IsAccounted (k id : ℕ) (s : Exchanges) (o : Outbound) : Type 0 where
  pub inflight_once : IsDistinct s.inflight
  pub resent_once : IsDistinct s.resent
  pub there : lookup id s.inflight ≡ some o
  pub not_withdrawn : lookup id s.withdrawn ≡ none
  pub charged : (o.quota_held ≡ false) ⊎ ((o.resent_on ≡ none) ⊎ (o.resent_on ≡ some k))

leave_slot-slots :
    (k c id : ℕ) (o : Outbound) (s : Exchanges)
    → IsDistinct s.resent
    → (o.quota_held ≡ false) ⊎ ((o.resent_on ≡ none) ⊎ (o.resent_on ≡ some k))
    → (slots k (leave_slot c id o s).0 + one_if (leave_slot c id o s).1.quota_held
        ≡ slots k s + one_if o.quota_held)
      × ((leave_slot c id o s).0.withdrawn ≡ s.withdrawn)
unfolding leave_slot overtakes is_on
leave_slot-slots k c id o s once charged = elim (Option-cases (lookup id s.resent)) [
  | inl none_there ↦ rw (leave_slot, none_there) (refl, refl)
  | inr (r, there) ↦ elim (Bool-cases (overtakes c o r)) [
    | inr apart ↦ rw (leave_slot, there, apart) (refl, refl)
    | inl over ↦
        let own : r.conn ≡ k = ground arith in
        let held : o.quota_held ≡ true = ground arith in
        let unset : r.quota ≡ false = ground arith in
        let one =
          count-insert_over (λ r. (r.conn == k) && r.quota) id (record r { quota = true }) r
            s.resent once there in
        let before : one_if ((r.conn == k) && r.quota) ≡ 0 = ground arith in
        let after : one_if ((r.conn == k) && true) ≡ 1 = ground arith in
        let held_one : one_if o.quota_held ≡ 1 = ground arith in
        rw (leave_slot, there, over) (omega arith, refl)
  ]
]

leave_owed-slots :
    (k c id : ℕ) (o : Outbound) (s : Exchanges) (done : Outbound)
    → lookup id s.withdrawn ≡ none
    → (o.quota_held ≡ false) ⊎ ((o.resent_on ≡ none) ⊎ (o.resent_on ≡ some k))
    → (done.quota_held ≡ o.quota_held) ⊎ ((done.quota_held ≡ false) × (o.resent_on ≡ some c))
    → slots k (leave_owed c id o (s, done)).0 + one_if (leave_owed c id o (s, done)).1.quota_held
      ≡ slots k s + one_if done.quota_held
unfolding leave_owed is_on
leave_owed-slots k c id o s done free charged held = elim (Option-cases o.resent_on) [
  | inl never ↦ rw (leave_owed, never) refl
  | inr (d, on) ↦ elim (Bool-cases (d == c)) [
    | inl here ↦ rw (leave_owed, on, here) refl
    | inr displaced ↦
        let w : Withdrawal = record {
          made_at = s.attaches;
          owed = owed_ack o;
          quota_holder = if o.quota_held then some d else none;
        } in
        let one = count-insert (λ w. is_on k w.quota_holder) id w s.withdrawn free in
        let same : one_if (is_on k (if o.quota_held then some d else none))
            ≡ one_if done.quota_held =
          ground arith in
        rw (leave_owed, on, displaced) (omega arith)
  ]
]

leave_slot-held :
    (c id : ℕ) (o : Outbound) (s : Exchanges)
    → ((leave_slot c id o s).1.quota_held ≡ o.quota_held)
      ⊎ (((leave_slot c id o s).1.quota_held ≡ false) × (o.resent_on ≡ some c))
unfolding leave_slot overtakes is_on
leave_slot-held c id o s = ground arith

taken_out-slots :
    (k id : ℕ) (o : Outbound) (s : Exchanges)
    → IsDistinct s.inflight
    → lookup id s.inflight ≡ some o
    → slots k (retire_blob_locked o (record s { inflight = erase id s.inflight }))
        + one_if o.quota_held
      ≡ slots k s
unfolding retire_blob_locked
taken_out-slots k id o s once there =
    let one = count-erase (λ o. o.quota_held) id o s.inflight once there in
    elim (Bool-cases (is_empty o.blob_key)) [
      | inl bare ↦ rw (retire_blob_locked, bare) (omega arith)
      | inr blob ↦ rw (retire_blob_locked, blob) (omega arith)
    ]

retire_blob_locked-same :
    (o : Outbound) (s : Exchanges)
    → ((retire_blob_locked o s).withdrawn ≡ s.withdrawn)
      × ((retire_blob_locked o s).resent ≡ s.resent)
unfolding retire_blob_locked
retire_blob_locked-same o s = ground arith

ack_group-slots :
    (k : ℕ) (subject : Bytes) (s : Exchanges) → slots k (ack_group subject s) ≡ slots k s
unfolding ack_group
ack_group-slots k subject s = elim (Bool-cases (not (is_empty subject) && s.has_holds)) [
  | inl told ↦ rw (ack_group, told) refl
  | inr silent ↦ rw (ack_group, silent) refl
]

-- What is left of the session, and the message, without the acknowledgement to a group.
abbrev completed : ℕ → ℕ → Exchanges → Outbound → Exchanges × Outbound
completed c id s o = leave_owed c id o (
    leave_slot c id (record o { blob_key = [] })
      (retire_blob_locked o (record s { inflight = erase id s.inflight })))

complete_inflight_locked-there :
    (c id : ℕ) (s : Exchanges) (o : Outbound)
    → lookup id s.inflight ≡ some o
    → ◌≡◌ {A = Exchanges × Option Outbound}
        (complete_inflight_locked c id s)
        ((completed c id s o).0, some (completed c id s o).1)
unfolding complete_inflight_locked
complete_inflight_locked-there c id s o there = rw (complete_inflight_locked, there) refl

complete_inflight-there :
    (c id : ℕ) (s : Exchanges) (o : Outbound)
    → lookup id s.inflight ≡ some o
    → ◌≡◌ {A = Exchanges × Option Outbound} (complete_inflight c id s) (
      ack_group (completed c id s o).1.ack_subject (completed c id s o).0,
      some (completed c id s o).1,
    )
unfolding complete_inflight ack_completed
complete_inflight-there c id s o there =
    ap ack_completed (complete_inflight_locked-there c id s o there)

-- The message and the session that `completeInflight` gives, whichever connection the acknowledgement
-- came from: the slots spent on connection `k` are those spent after it, and one more where the
-- completed message hands its slot back.
pub complete_inflight-slots :
    (k c id : ℕ) (s : Exchanges) (o : Outbound)
    → IsAccounted k id s o
    → (s' : Exchanges) × (done : Outbound) × (◌≡◌ {A = Exchanges × Option Outbound}
        (complete_inflight c id s)
        (s', some done))
      × (slots k s' + one_if done.quota_held ≡ slots k s)
complete_inflight-slots k c id s o a =
    let out = retire_blob_locked o (record s { inflight = erase id s.inflight }) in
    let o' = record o { blob_key = [] } in
    let (same_w, same_r) =
      retire_blob_locked-same o (record s { inflight = erase id s.inflight }) in
    let kept = leave_slot c id o' out in
    let (slot, withdrawn) = leave_slot-slots k c id o' out (rw same_r a.resent_once) a.charged in
    let owed =
      leave_owed-slots k c id o kept.0 kept.1 (rw (withdrawn, same_w) a.not_withdrawn) a.charged
        (leave_slot-held c id o' out) in
    let last = leave_owed c id o kept in
    let taken = taken_out-slots k id o s a.inflight_once a.there in
    (
      ack_group last.1.ack_subject last.0,
      last.1,
      complete_inflight-there c id s o a.there,
      rw (ack_group-slots k last.1.ack_subject last.0) (omega arith),
    )
