-- ===== src/Packet/Decode/Wire.antt =====
-- `Read`, `readRemainingLength` and `decode` of packet/packet.go. The stream is the list of the bytes
-- that it will deliver before it ends.
use natsmqtt.Prelude.{ℕ, zero, suc, ◌+◌, ◌*◌, ◌/◌, ◌^◌, ◌&&◌, not, [], ◌∷◌}
use natsmqtt.Prelude.{bit_and, ltb, ◌==◌, if◌then◌else◌, length, take, drop}
use natsmqtt.Packet.Types.{PacketType, type_code, reserved_flags}
use natsmqtt.Packet.Result.{malformed, packet_too_large, eof, unexpected_eof, ok, err}
use natsmqtt.Packet.Reader.{Reader, and_then}
use natsmqtt.Packet.Model.{Packet}
use natsmqtt.Packet.Decode.Publish.{decode_publish, decode_connack}
use natsmqtt.Packet.Decode.Acks.{decode_ack, decode_disconnect, decode_auth}
use natsmqtt.Packet.Decode.Acks.{decode_suback, decode_unsuback}
use natsmqtt.Packet.Decode.Subscribe.{decode_subscribe, decode_unsubscribe}
use natsmqtt.Packet.Decode.Connect.{decode_connect}

-- The conversion `Type(n)` for the high nibble of a byte.
unfoldable pub type_of_code : ℕ → PacketType
type_of_code zero = PacketType.will_context
type_of_code (suc zero) = PacketType.connect
type_of_code (suc (suc zero)) = PacketType.connack
type_of_code (suc (suc (suc zero))) = PacketType.publish
type_of_code (suc (suc (suc (suc n)))) =
    if n == 0
    then PacketType.puback
    else if n == 1
    then PacketType.pubrec
    else if n == 2
    then PacketType.pubrel
    else if n == 3
    then PacketType.pubcomp
    else if n == 4
    then PacketType.subscribe
    else if n == 5
    then PacketType.suback
    else if n == 6
    then PacketType.unsubscribe
    else if n == 7
    then PacketType.unsuback
    else if n == 8
    then PacketType.pingreq
    else if n == 9
    then PacketType.pingresp
    else if n == 10
    then PacketType.disconnect
    else PacketType.auth

-- A packet with no body.
unfoldable pub empty_body : Packet → Reader Packet
empty_body p [] = ok (p, [])
empty_body p (b ∷ s) = err malformed

unfoldable pub decode : PacketType → ℕ → Reader Packet
decode PacketType.connect flags = decode_connect
decode PacketType.connack flags = decode_connack
decode PacketType.publish flags = decode_publish flags
decode PacketType.puback flags = decode_ack PacketType.puback
decode PacketType.pubrec flags = decode_ack PacketType.pubrec
decode PacketType.pubrel flags = decode_ack PacketType.pubrel
decode PacketType.pubcomp flags = decode_ack PacketType.pubcomp
decode PacketType.subscribe flags = decode_subscribe
decode PacketType.suback flags = decode_suback
decode PacketType.unsubscribe flags = decode_unsubscribe
decode PacketType.unsuback flags = decode_unsuback
decode PacketType.pingreq flags = empty_body Packet.pingreq
decode PacketType.pingresp flags = empty_body Packet.pingresp
decode PacketType.disconnect flags = decode_disconnect
decode PacketType.auth flags = decode_auth
decode PacketType.will_context flags = λ s. err malformed

-- `readRemainingLength`: the value and the number of bytes it occupied. The arguments are the rounds
-- left, the index of this round, `value` and `multiplier`.
unfoldable pub remaining_length_loop : ℕ → ℕ → ℕ → ℕ → Reader (ℕ × ℕ)
remaining_length_loop zero i value multiplier s = err malformed
remaining_length_loop (suc rounds) i value multiplier [] = err unexpected_eof
remaining_length_loop (suc rounds) i value multiplier (b ∷ s) =
    let value' = value + bit_and b 0x7f * 2 ^ multiplier in
    let rest = remaining_length_loop rounds (suc i) value' (multiplier + 7) s in
    if bit_and b 0x80 == 0
    then (if ltb 0 i && b == 0 then err malformed else ok ((value', i + 1), s))
    else rest

unfoldable pub read_remaining_length : Reader (ℕ × ℕ)
read_remaining_length s = remaining_length_loop 4 0 0 0 s

-- The body is read whole, then decoded; what follows it stays in the stream.
unfoldable pub read_body : ℕ → PacketType → ℕ → ℕ × ℕ → Reader Packet
read_body max t flags (remaining, header_len) s =
    if ltb 0 max && ltb max (1 + header_len + remaining)
    then err packet_too_large
    else if ltb (length s) remaining
    then err unexpected_eof
    else and_then (decode t flags (take remaining s)) (λ p left. ok (p, drop remaining s))

unfoldable pub read_after_first : ℕ → ℕ → Reader Packet
read_after_first max first s =
    let t = type_of_code (first / 2 ^ 4) in
    let flags = bit_and first 0x0f in
    if type_code t == 0
    then err malformed
    else if not (type_code t == type_code PacketType.publish) && not (flags == reserved_flags t)
    then err malformed
    else and_then (read_remaining_length s) (read_body max t flags)

-- `Read`, with `maxPacketSize` 0 for no limit.
unfoldable pub read : ℕ → Reader Packet
read max [] = err eof
read max (first ∷ s) = read_after_first max first s
