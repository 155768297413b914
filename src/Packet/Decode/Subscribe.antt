-- ===== src/Packet/Decode/Subscribe.antt =====
-- `decodeSubscribe` and `decodeUnsubscribe` of packet/subscribe.go.
use natsmqtt.Prelude.{ℕ, zero, suc, ◌/◌, ◌^◌, not, some, List, [], ◌∷◌, Bytes, bit_and}
use natsmqtt.Prelude.{leb, ◌==◌, is_empty, length}
use natsmqtt.Packet.Types.{PacketType, qos_valid}
use natsmqtt.Packet.Result.{malformed, protocol, out_of_fuel, ok, err}
use natsmqtt.Packet.Reader.{Reader, and_then, ◌>>=◌, ◌>>◌, return, require, byte, uint16, text}
use natsmqtt.Packet.Properties.Read.{read_properties}
use natsmqtt.Packet.Model.{Subscription, Packet}
use natsmqtt.Packet.Decode.Publish.{has_bit}

unfoldable pub subscription_of : Bytes → ℕ → Subscription
subscription_of filter opts = record {
  filter = filter;
  qos = bit_and opts 0x03;
  no_local = has_bit opts 0x04;
  retain_as_published = has_bit opts 0x08;
  retain_handling = bit_and (opts / 2 ^ 4) 0x03;
}

-- The body of the loop of `decodeSubscribe`.
unfoldable pub read_subscription : Reader Subscription
read_subscription = do
  filter ← text
  opts ← byte
  require (bit_and opts 0xc0 == 0) malformed
  require (qos_valid (bit_and opts 0x03)) protocol
  require (leb (bit_and (opts / 2 ^ 4) 0x03) 2) protocol
  return (subscription_of filter opts)

-- `for !r.empty()` over a reader of one item, on fuel: each round takes a byte at least.
unfoldable pub read_all : {A : Type 0} → Reader A → ℕ → Reader (List A)
read_all item fuel [] = ok ([], [])
read_all item zero (b ∷ s) = err out_of_fuel
read_all item (suc fuel) (b ∷ s) = elim (item (b ∷ s)) [
  | err e ↦ err e
  | ok (a, s') ↦ and_then (read_all item fuel s') (λ others s''. ok (a ∷ others, s''))
]

unfoldable pub read_items : {A : Type 0} → Reader A → Reader (List A)
read_items item s = read_all item (length s) s

unfoldable pub decode_subscribe : Reader Packet
decode_subscribe = do
  id ← uint16
  require (not (id == 0)) protocol
  props ← read_properties PacketType.subscribe
  subs ← read_items read_subscription
  require (not (is_empty subs)) protocol
  return
      (Packet.subscribe (record { packet_id = id; properties = some props; subscriptions = subs }))

unfoldable pub decode_unsubscribe : Reader Packet
decode_unsubscribe = do
  id ← uint16
  require (not (id == 0)) protocol
  props ← read_properties PacketType.unsubscribe
  filters ← read_items text
  require (not (is_empty filters)) protocol
  return
      (Packet.unsubscribe (record { packet_id = id; properties = some props; filters = filters }))
