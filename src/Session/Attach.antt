-- ===== src/Session/Attach.antt =====
-- What a new connection and a denied subscription do to the exchanges of a session: session.go.
use natsmqtt.Prelude.{
  ℕ, ◌+◌, Bool, false, none, some, List, [], ◌∷◌, ◌++◌, Bytes, not, ◌&&◌, if◌then◌else◌, is_empty,
}
use natsmqtt.Dict.{Dict, insert, erase, number_key}
use natsmqtt.Topic.Match.{match_any}
use natsmqtt.Session.State.{Outbound, Exchanges, owed_ack}
use natsmqtt.Session.Inflight.{retire_blob_locked, forget_stale_withdrawals}

unfoldable pub return_slots : Dict ℕ Outbound → Dict ℕ Outbound
return_slots [] = []
return_slots ((id, o) ∷ m) = (id, record o { quota_held = false }) ∷ return_slots m

-- `attach`: what it does to the exchanges, for the connection `c`.
unfoldable pub attach : ℕ → Exchanges → Exchanges
attach c s = forget_stale_withdrawals (record s {
  conn = some c;
  inflight = return_slots s.inflight;
  resent = [];
  attaches = s.attaches + 1;
})

-- Whether a message in flight is taken back.
unfoldable pub is_taken : List Bytes → List Bytes → Outbound → Bool
is_taken denied surviving o =
    not o.awaiting_pubcomp && match_any denied o.topic && not (match_any surviving o.topic)

unfoldable pub take_back : ℕ → Outbound → Exchanges → Exchanges
take_back id o s =
    let gone = retire_blob_locked o (record s { inflight = erase id s.inflight }) in
    record gone {
      withdrawn =
          insert id
            (record {
              made_at = gone.attaches;
              owed = owed_ack o;
              quota_holder = if o.quota_held then gone.conn else none;
            })
            gone.withdrawn;
    }

-- `withdrawInflightLocked`, the loop over the messages in flight: the session, the identifiers taken
-- and the acknowledgement subjects of what a group gets back.
unfoldable pub withdraw_each :
    List Bytes → List Bytes → Dict ℕ Outbound → Exchanges → Exchanges × (List ℕ × List Bytes)
withdraw_each denied surviving [] s = (s, ([], []))
withdraw_each denied surviving ((id, o) ∷ m) s =
    let test = is_taken denied surviving o in
    let (after, (taken, hand_back)) =
      withdraw_each denied surviving m (if test then take_back id o s else s) in
    (
      after,
      (
        if test then id ∷ taken else taken,
        if test && not (is_empty o.ack_subject) then o.ack_subject ∷ hand_back else hand_back,
      ),
    )

unfoldable pub withdraw_inflight_locked :
    List Bytes → List Bytes → Exchanges → Exchanges × (List ℕ × List Bytes)
withdraw_inflight_locked denied surviving s = withdraw_each denied surviving s.inflight s

-- `withdrawInflight`, once the messages are taken back.
unfoldable pub give_back : Exchanges × (List ℕ × List Bytes) → Exchanges × List ℕ
give_back (s, (taken, hand_back)) = (
  if not (is_empty hand_back) && s.has_holds
      then record s { handed_back = s.handed_back ++ hand_back }
      else s,
  taken,
)

-- `withdrawInflight`
unfoldable pub withdraw_inflight : List Bytes → List Bytes → Exchanges → Exchanges × List ℕ
withdraw_inflight denied surviving s = give_back (withdraw_inflight_locked denied surviving s)
