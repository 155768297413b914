-- ===== src/Session/Inflight.antt =====
-- What session.go does with the messages in flight, and with those that are taken back or resent.
use natsmqtt.Prelude.{
  ℕ, ◌+◌, ◌-◌, ◌%◌, ◌^◌, Bool, true, false, Option, none, some, List, [], ◌∷◌, ◌++◌, Bytes, ltb,
  leb, ◌==◌, not, ◌&&◌, ◌||◌, if◌then◌else◌, is_empty,
}
use natsmqtt.Dict.{Dict, lookup, insert, erase, contains, number_key}
use natsmqtt.Session.State.{Owed, owed_eq, Outbound, AckOwed, Withdrawal, Exchanges, owed_ack}

-- `c == d` of two connections
unfoldable pub is_on : ℕ → Option ℕ → Bool
is_on c none = false
is_on c (some d) = c == d

-- `trackInflight`
unfoldable pub track_inflight : Outbound → Exchanges → Exchanges
track_inflight o s =
    let seq = (s.send_seq + 1) % 2 ^ 64 in
    record s { send_seq = seq; inflight = insert o.packet_id (record o { seq = seq }) s.inflight }

-- `restoreInflight`
unfoldable pub restore_inflight : Outbound → Exchanges → Exchanges
unfolding track_inflight
restore_inflight o s = if contains o.packet_id s.inflight then s else track_inflight o s

-- `sort.Slice` by the order of sending
unfoldable pub put_by_seq : Outbound → List Outbound → List Outbound
put_by_seq o [] = o ∷ []
put_by_seq o (p ∷ ps) =
    let rest = put_by_seq o ps in if ltb o.seq p.seq then o ∷ p ∷ ps else p ∷ rest

unfoldable pub sort_by_seq : Dict ℕ Outbound → List Outbound
sort_by_seq [] = []
sort_by_seq ((id, o) ∷ m) = put_by_seq o (sort_by_seq m)

-- `unacknowledged`
unfoldable pub unacknowledged : Exchanges → List Outbound
unfolding sort_by_seq
unacknowledged s = sort_by_seq s.inflight

-- The copy of the entry that `c` is about to put on the wire again.
unfoldable pub note_resent : ℕ → ℕ → Outbound → Exchanges → Exchanges
note_resent c id o s = record s {
  inflight = insert id o s.inflight;
  resent =
      insert id (record { conn = c; typ = owed_ack o; written = false; quota = false }) s.resent;
}

-- `takeQuotaSlot`
unfoldable pub take_quota_slot : ℕ → ℕ → Exchanges → Exchanges × Bool
take_quota_slot c id s = elim (lookup id s.inflight) [
  | none ↦ (s, false)
  | some o ↦ (note_resent c id (record o { quota_held = true; resent_on = some c }) s, true)
]

-- `markResent`
unfoldable pub mark_resent : ℕ → ℕ → Exchanges → Exchanges × Bool
mark_resent c id s = elim (lookup id s.inflight) [
  | none ↦ (s, false)
  | some o ↦ (note_resent c id (record o { resent_on = some c }) s, true)
]

-- `forgetResent`
unfoldable pub forget_resent : ℕ → ℕ → Owed → Exchanges → Exchanges × Bool × Bool
forget_resent c id t s = elim (lookup id s.resent) [
  | none ↦ (s, false, false)
  | some r ↦
      if not (r.conn == c) || not (owed_eq r.typ t)
      then (s, false, false)
      else (record s { resent = erase id s.resent }, true, r.quota)
]

-- `markResentWritten`
unfoldable pub mark_resent_written : ℕ → ℕ → Exchanges → Exchanges
mark_resent_written c id s = elim (lookup id s.resent) [
  | none ↦ s
  | some r ↦
      if r.conn == c
      then record s { resent = insert id (record r { written = true }) s.resent }
      else s
]

-- `abandonResend`
unfoldable pub abandon_resend : ℕ → ℕ → Exchanges → Exchanges
abandon_resend c id s = elim (lookup id s.resent) [
  | none ↦ s
  | some r ↦ if r.conn == c then record s { resent = erase id s.resent } else s
]

-- `awaitPubcomp`
unfoldable pub await_pubcomp : ℕ → Exchanges → Exchanges
await_pubcomp id s = elim (lookup id s.inflight) [
  | none ↦ s
  | some o ↦ record s { inflight = insert id (record o { awaiting_pubcomp = true }) s.inflight }
]

-- `heldGroupMessage`
unfoldable pub held_group_message : ℕ → Exchanges → Bool
held_group_message id s = elim (lookup id s.inflight) [
  | none ↦ false
  | some o ↦ not (is_empty o.ack_subject)
]

-- `s.holds.ack(subject)` where there is a subject
unfoldable pub ack_group : Bytes → Exchanges → Exchanges
ack_group subject s =
    if not (is_empty subject) && s.has_holds then record s { acked = subject ∷ s.acked } else s

-- `settleOwned`
unfoldable pub settle_owned : ℕ → Exchanges → Exchanges
unfolding ack_group
settle_owned id s = elim (lookup id s.inflight) [
  | none ↦ s
  | some o ↦
      if o.awaiting_pubcomp
      then ack_group o.ack_subject
          (record s { inflight = insert id (record o { ack_subject = [] }) s.inflight })
      else s
]

-- `retireBlobLocked`, of an entry that is taken out
unfoldable pub retire_blob_locked : Outbound → Exchanges → Exchanges
retire_blob_locked o s =
    if is_empty o.blob_key then s else record s { dead_blobs = s.dead_blobs ++ o.blob_key ∷ [] }

-- Whether the acknowledgement overtook a resend that took a slot and has not been written.
unfoldable pub overtakes : ℕ → Outbound → AckOwed → Bool
overtakes c o r =
    (r.conn == c) && (not r.written && (not r.quota && (o.quota_held && is_on c o.resent_on)))

-- The slot is left to the copy that will go out.
unfoldable pub leave_slot : ℕ → ℕ → Outbound → Exchanges → Exchanges × Outbound
leave_slot c id o s = elim (lookup id s.resent) [
  | none ↦ (s, o)
  | some r ↦
      if overtakes c o r
      then (
        record s { resent = insert id (record r { quota = true }) s.resent },
        record o { quota_held = false },
      )
      else (s, o)
]

-- An acknowledgement from a connection that another has since displaced.
unfoldable pub leave_owed : ℕ → ℕ → Outbound → Exchanges × Outbound → Exchanges × Outbound
leave_owed c id o (s, done) = elim (o.resent_on) [
  | none ↦ (s, done)
  | some d ↦ if d == c then (s, done) else (
    record s {
      withdrawn =
          insert id
            (record {
              made_at = s.attaches;
              owed = owed_ack o;
              quota_holder = if o.quota_held then some d else none;
            })
            s.withdrawn;
    },
    record done { quota_held = false },
  )
]

-- `completeInflightLocked`
unfoldable pub complete_inflight_locked : ℕ → ℕ → Exchanges → Exchanges × Option Outbound
complete_inflight_locked c id s = elim (lookup id s.inflight) [
  | none ↦ (s, none)
  | some o ↦
      let s' = retire_blob_locked o (record s { inflight = erase id s.inflight }) in
      let (after, done) = leave_owed c id o (leave_slot c id (record o { blob_key = [] }) s') in
      (after, some done)
]

-- The backlog message of a completed exchange is acknowledged to its group.
unfoldable pub ack_completed : Exchanges × Option Outbound → Exchanges × Option Outbound
ack_completed (s, none) = (s, none)
ack_completed (s, some o) = (ack_group o.ack_subject s, some o)

-- `completeInflight`
unfoldable pub complete_inflight : ℕ → ℕ → Exchanges → Exchanges × Option Outbound
complete_inflight c id s = ack_completed (complete_inflight_locked c id s)

-- `inflightEntry`
unfoldable pub inflight_entry : ℕ → Exchanges → Option Outbound
inflight_entry id s = lookup id s.inflight

-- `forgetWithdrawn`
unfoldable pub forget_withdrawn : ℕ → Owed → Exchanges → Exchanges × Option Withdrawal
forget_withdrawn id t s = elim (lookup id s.withdrawn) [
  | none ↦ (s, none)
  | some w ↦
      if not (owed_eq w.owed t)
      then (s, none)
      else (record s { withdrawn = erase id s.withdrawn }, some w)
]

-- `forgetStaleWithdrawals`
unfoldable pub drop_stale : ℕ → Dict ℕ Withdrawal → Dict ℕ Withdrawal
drop_stale attaches [] = []
drop_stale attaches ((id, w) ∷ m) =
    let rest = drop_stale attaches m in
    if leb 2 (attaches - w.made_at) then rest else (id, w) ∷ rest

unfoldable pub forget_stale_withdrawals : Exchanges → Exchanges
unfolding drop_stale
forget_stale_withdrawals s = record s { withdrawn = drop_stale s.attaches s.withdrawn }
