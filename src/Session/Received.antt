-- ===== src/Session/Received.antt =====
-- The QoS 2 identifiers that a client's messages hold: session.go.
use natsmqtt.Prelude.{ℕ, Bool, if◌then◌else◌}
use natsmqtt.Dict.{insert, erase, contains, number_key}
use natsmqtt.Session.State.{Exchanges}

-- `markQoS2Received`
unfoldable pub mark_qos2_received : ℕ → Exchanges → Exchanges × Bool
mark_qos2_received id s =
    let duplicate = contains id s.received_qos2 in
    (
      record s {
        received_qos2 = insert id tt s.received_qos2;
        qos2_forwarding = if duplicate then s.qos2_forwarding else insert id tt s.qos2_forwarding;
      },
      duplicate,
    )

-- `qos2Forwarded`
unfoldable pub qos2_forwarded : ℕ → Exchanges → Exchanges
qos2_forwarded id s = record s { qos2_forwarding = erase id s.qos2_forwarding }

-- `releaseQoS2`
unfoldable pub release_qos2 : ℕ → Exchanges → Exchanges × Bool
release_qos2 id s = (
  record s {
    received_qos2 = erase id s.received_qos2;
    qos2_forwarding = erase id s.qos2_forwarding;
  },
  contains id s.received_qos2,
)

-- `rejectPublish`, of QoS 2: what it does to the session
unfoldable pub refuse_qos2 : ℕ → Exchanges → Exchanges
refuse_qos2 id s = (release_qos2 id s).0
