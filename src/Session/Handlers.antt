-- ===== src/Session/Handlers.antt =====
-- `handlePuback`, `handlePubrec`, `handlePubrel` and `handlePubcomp` of publish.go. The record that they
-- have written is not modelled; a write to the client is the reply.
use natsmqtt.Prelude.{
  ℕ, ◌+◌, ◌-◌, Bool, true, false, Option, none, some, leb, ◌==◌, not, ◌&&◌, if◌then◌else◌,
}
use natsmqtt.Dict.{Dict, erase, number_key}
use natsmqtt.Session.State.{Owed, Outbound, Withdrawal, Exchanges}
use natsmqtt.Session.Inflight.{
  is_on, forget_resent, forget_withdrawn, complete_inflight, inflight_entry, await_pubcomp,
  settle_owned,
}
use natsmqtt.Session.Received.{release_qos2}

-- `conn`: `used` slots of its send quota, and the QoS 2 messages that count against the client's.
pub record Client : Type 0 where
  pub ident : ℕ
  pub used : ℕ
  pub activity : ℕ
  pub open_qos2 : Dict ℕ (Unit {0})

pub data Reply : Type 0 where
  nothing : Reply
  pubrel : ℕ → ℕ → Reply
  pubcomp : ℕ → ℕ → Reply
  queued : ℕ → Reply
  protocol_error : Reply

abbrev pub packet_identifier_not_found : ℕ
packet_identifier_not_found = 0x92

pub record Served : Type 0 where
  pub session : Exchanges
  pub client : Client

-- `releaseQuota`
unfoldable pub release_quota : Client → Client
release_quota c = record c { used = c.used - 1 }

-- The slot of an identifier that was taken back.
unfoldable pub take_withdrawn : Served → Exchanges × Option Withdrawal → Served × Bool
take_withdrawn w (s', none) = (record w { session = s' }, false)
take_withdrawn w (s', some x) = (
  record {
    session = s';
    client = if is_on w.client.ident x.quota_holder then release_quota w.client else w.client;
  },
  true,
)

-- `c.forgetWithdrawn`
unfoldable pub settle_withdrawn : ℕ → Owed → Served → Served × Bool
settle_withdrawn id t w = take_withdrawn w (forget_withdrawn id t w.session)

-- The slot of a copy that was resent.
unfoldable pub take_resent : Served → Exchanges × Bool × Bool → Served × Bool
take_resent w (s', found, quota) = (
  record { session = s'; client = if found && quota then release_quota w.client else w.client },
  found,
)

-- `c.forgetResent`
unfoldable pub settle_resent : ℕ → Owed → Served → Served × Bool
settle_resent id t w = take_resent w (forget_resent w.client.ident id t w.session)

-- `c.forgetWithdrawn(…) || c.forgetResent(…)`, and the disconnect
unfoldable pub settle_unknown : ℕ → Owed → Served → Served × Reply
settle_unknown id t w =
    let (w', withdrawn) = settle_withdrawn id t w in
    let (w'', resent) = settle_resent id t w' in
    if withdrawn then (w', nothing) else if resent then (w'', nothing) else (w'', protocol_error)

-- `c.activity.Add(1)` and `releaseQuotaFor`
unfoldable pub release_for : Outbound → Client → Client
release_for o c =
    let c' = record c { activity = c.activity + 1 } in if o.quota_held then release_quota c' else c'

-- `handlePuback`, after the exchange is completed
unfoldable pub finish_puback : ℕ → Served → Exchanges × Option Outbound → Served × Reply
finish_puback id w (s', none) = settle_unknown id Owed.puback (record w { session = s' })
finish_puback id w (s', some o) =
    if not (o.qos == 1)
    then (record w { session = s' }, protocol_error)
    else (record { session = s'; client = release_for o w.client }, nothing)

-- `handlePuback`
unfoldable pub handle_puback : ℕ → Served → Served × Reply
handle_puback id w = finish_puback id w (complete_inflight w.client.ident id w.session)

-- An exchange that a PUBREC with an error code ends.
unfoldable pub end_exchange : ℕ → Served → Served
end_exchange id w =
    let (s', completed) = complete_inflight w.client.ident id w.session in
    record {
      session = s';
      client = elim completed [
        | none ↦ record (w.client) { activity = w.client.activity + 1 }
        | some o ↦ release_for o w.client
      ];
    }

-- `handlePubrec`; `recorded` is whether the PUBREL waits for a record that says so.
unfoldable pub handle_pubrec : Bool → ℕ → ℕ → Served → Served × Reply
handle_pubrec recorded id code w = elim (inflight_entry id w.session) [
  | none ↦ (w, pubrel id packet_identifier_not_found)
  | some o ↦
      if not (o.qos == 2)
      then (
        record w { session = (complete_inflight w.client.ident id w.session).0 },
        protocol_error,
      )
      else if leb 0x80 code
      then (end_exchange id w, nothing)
      else (let s' = await_pubcomp id w.session in
          let client = record (w.client) { activity = w.client.activity + 1 } in
          if recorded
          then (record { session = s'; client = client }, queued id)
          else (record { session = settle_owned id s'; client = client }, pubrel id 0))
]

-- `handlePubrel`
unfoldable pub handle_pubrel : ℕ → Served → Served × Reply
handle_pubrel id w =
    let client = record (w.client) { open_qos2 = erase id w.client.open_qos2 } in
    let (s', outstanding) = release_qos2 id w.session in
    (
      record { session = s'; client = client },
      pubcomp id (if outstanding then 0 else packet_identifier_not_found),
    )

-- `handlePubcomp`, after the exchange is completed
unfoldable pub finish_pubcomp : ℕ → Served → Exchanges × Option Outbound → Served × Reply
finish_pubcomp id w (s', none) = settle_unknown id Owed.pubcomp (record w { session = s' })
finish_pubcomp id w (s', some o) =
    (record { session = s'; client = release_for o w.client }, nothing)

-- `handlePubcomp`
unfoldable pub handle_pubcomp : ℕ → Served → Served × Reply
handle_pubcomp id w = finish_pubcomp id w (complete_inflight w.client.ident id w.session)
