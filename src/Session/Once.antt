-- ===== src/Session/Once.antt =====
-- A client's QoS 2 messages: what is forwarded, over a history of PUBLISH and PUBREL packets, and of
-- refusals, which `rejectPublish` of publish.go answers with a PUBREC of an error.
use natsmqtt.Prelude.{ℕ, ◌≡◌, refl, Bool, true, false, List, [], ◌∷◌, arith, ◌==◌, if◌then◌else◌}
use natsmqtt.Dict.{lookup, contains, number_key, lookup-insert, lookup-erase}
use natsmqtt.Session.State.{Exchanges}
use natsmqtt.Session.Received.{mark_qos2_received, qos2_forwarded, release_qos2, refuse_qos2}

-- What happens to a QoS 2 identifier: a PUBLISH comes, is forwarded or refused, and a PUBREL comes.
pub data Event : Type 0 where
  publish : ℕ → Event
  forwarded : ℕ → Event
  refused : ℕ → Event
  pubrel : ℕ → Event

unfoldable pub handle : Event → Exchanges → Exchanges
handle (publish id) s = (mark_qos2_received id s).0
handle (forwarded id) s = qos2_forwarded id s
handle (refused id) s = refuse_qos2 id s
handle (pubrel id) s = (release_qos2 id s).0

-- The last event first.
unfoldable pub handle_all : List Event → Exchanges → Exchanges
unfolding handle
handle_all [] s = s
handle_all (e ∷ es) s = handle e (handle_all es s)

-- A PUBLISH with the identifier came after the last refusal and the last PUBREL of it.
unfoldable pub is_open : ℕ → List Event → Bool
is_open id [] = false
is_open id (publish j ∷ es) = let rest = is_open id es in if id == j then true else rest
is_open id (forwarded j ∷ es) = is_open id es
is_open id (refused j ∷ es) = let rest = is_open id es in if id == j then false else rest
is_open id (pubrel j ∷ es) = let rest = is_open id es in if id == j then false else rest

contains_nothing : (id : ℕ) → contains {V = Unit {0}} id [] ≡ false
unfolding lookup
contains_nothing id = refl

contains-handle_all :
    (id : ℕ) (es : List Event) (s : Exchanges)
    → s.received_qos2 ≡ []
    → contains id (handle_all es s).received_qos2 ≡ is_open id es
unfolding handle_all is_open mark_qos2_received qos2_forwarded release_qos2 refuse_qos2
contains-handle_all id [] s e = rw e (contains_nothing id)
contains-handle_all id (publish j ∷ es) s e =
    ground
      (arith, contains-handle_all id es s e, lookup-insert id j tt (handle_all es s).received_qos2)
contains-handle_all id (forwarded j ∷ es) s e = contains-handle_all id es s e
contains-handle_all id (refused j ∷ es) s e =
    ground (arith, contains-handle_all id es s e, lookup-erase id j (handle_all es s).received_qos2)
contains-handle_all id (pubrel j ∷ es) s e =
    ground (arith, contains-handle_all id es s e, lookup-erase id j (handle_all es s).received_qos2)

-- After any history of a new session, of QoS 2 PUBLISH packets, their forwarding and refusals, and
-- PUBREL packets: a PUBLISH is taken for a repeat exactly where a PUBLISH with its identifier came after
-- the last refusal and the last PUBREL of it, and a PUBREL finds its identifier exactly where the same
-- is so.
pub received_qos2-is_open :
    (id : ℕ) (es : List Event) (s : Exchanges)
    → s.received_qos2 ≡ []
    → ((mark_qos2_received id (handle_all es s)).1 ≡ is_open id es)
      × ((release_qos2 id (handle_all es s)).1 ≡ is_open id es)
unfolding mark_qos2_received release_qos2
received_qos2-is_open id es s e = (contains-handle_all id es s e, contains-handle_all id es s e)
