-- ===== src/Session/State.antt =====
-- The fields of session.go's `session` that its exchanges with a client use.
use natsmqtt.Prelude.{ℕ, Bool, true, false, Option, List, Bytes, ◌==◌, if◌then◌else◌}
use natsmqtt.Dict.{Dict}

-- `packet.Type`, of the two that settle an exchange
pub data Owed : Type 0 where
  puback : Owed
  pubcomp : Owed

abbrev pub owed_eq : Owed → Owed → Bool
owed_eq puback puback = true
owed_eq puback pubcomp = false
owed_eq pubcomp puback = false
owed_eq pubcomp pubcomp = true

-- `outbound`; `topic` is the topic of its PUBLISH, and a connection is its identity.
pub record Outbound : Type 0 where
  pub packet_id : ℕ
  pub qos : ℕ
  pub awaiting_pubcomp : Bool
  pub topic : Bytes
  pub seq : ℕ
  pub blob_key : Bytes
  pub quota_held : Bool
  pub resent_on : Option ℕ
  pub ack_subject : Bytes

-- `ackOwed`
pub record AckOwed : Type 0 where
  pub conn : ℕ
  pub typ : Owed
  pub written : Bool
  pub quota : Bool

-- `withdrawal`
pub record Withdrawal : Type 0 where
  pub made_at : ℕ
  pub owed : Owed
  pub quota_holder : Option ℕ

-- `session`; `acked` and `handed_back` are what its `holds` were told, where `has_holds`.
pub record Exchanges : Type 0 where
  pub conn : Option ℕ
  pub next_packet_id : ℕ
  pub inflight : Dict ℕ Outbound
  pub dead_blobs : List Bytes
  pub send_seq : ℕ
  pub received_qos2 : Dict ℕ (Unit {0})
  pub qos2_forwarding : Dict ℕ (Unit {0})
  pub withdrawn : Dict ℕ Withdrawal
  pub attaches : ℕ
  pub resent : Dict ℕ AckOwed
  pub has_holds : Bool
  pub acked : List Bytes
  pub handed_back : List Bytes

-- `owedAck`
unfoldable pub owed_ack : Outbound → Owed
owed_ack o = if o.qos == 1 then puback else pubcomp
