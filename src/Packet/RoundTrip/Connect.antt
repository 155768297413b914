-- ===== src/Packet/RoundTrip/Connect.antt =====
-- The round trip of packet/connect.go.
use natsmqtt.Prelude.{ℕ, ◌/◌, ◌≤◌, ◌<◌, ◌^◌, ◌≡◌, refl, ap, subst, ◌∙◌, ◌++◌, ◌||◌, not, true}
use natsmqtt.Prelude.{
  [], ◌∷◌, Bytes, codes, bytes_eq, arith, length, length-append, Option, none, some, bit_and,
}
use natsmqtt.Prelude.{append-nil, append_assoc, is_empty, ◌==◌}
use natsmqtt.Packet.Types.{PacketType, qos_valid}
use natsmqtt.Packet.Result.{ok, unit-then, >>=-eq-ok}
use natsmqtt.Packet.Reader.{byte}
use natsmqtt.Packet.Utf8.{validate_utf8}
use natsmqtt.Packet.Writer.{put_uint16, put_binary, put_text, max_var_byte_int}
use natsmqtt.Packet.Properties.Write.{encode_properties}
use natsmqtt.Packet.Model.{Will, Connect, Packet}
use natsmqtt.Packet.Decode.{has_bit, read_will, read_username, clone, read_password, connect_tail}
use natsmqtt.Packet.Decode.{decode_connect, will_flags_ok}
use natsmqtt.Packet.Encode.{check_will, put_will, has_password, put_username, put_password}
use natsmqtt.Packet.Encode.{put_connect_tail, connect_flags, encode_connect}
use natsmqtt.Packet.RoundTrip.Primitives.{uint16-put_uint16, text-put_text, binary-put_binary}
use natsmqtt.Packet.RoundTrip.Loop.{ok-injective, checked}
use natsmqtt.Packet.RoundTrip.Valid.{IsText}
use natsmqtt.Packet.RoundTrip.Properties.{
  read_back, IsValidOption, read_properties-encode_properties,
}
use natsmqtt.Packet.RoundTrip.ConnectFlags.{will_retain, will_qos, has_will, connect_flags-Say}

abbrev pub IsValidWill : Option Will → Type 0
IsValidWill none = Unit
IsValidWill (some w) =
    (validate_utf8 w.topic ≡ ok tt) × IsValidOption PacketType.will_context w.properties

unfoldable pub read_back_will : Option Will → Option Will
read_back_will none = none
read_back_will (some w) =
    some (record w { properties = some (read_back PacketType.will_context w.properties) })

-- A password of no bytes comes back as none.
unfoldable pub read_back_password : Option Bytes → Option Bytes
read_back_password none = none
read_back_password (some b) = clone b

-- What a reader asks of a CONNECT.
pub record IsValidConnect (c : Connect) : Type 0 where
  pub client_id : validate_utf8 c.client_id ≡ ok tt
  pub keep_alive : c.keep_alive < 2 ^ 16
  pub will : IsValidWill c.will
  pub username : IsText c.username
  pub properties : IsValidOption PacketType.connect c.properties
  pub method :
      (is_empty (read_back PacketType.connect c.properties).authentication_data
        || not (is_empty (read_back PacketType.connect c.properties).authentication_method))
      ≡ true

unfoldable pub read_back_connect : Connect → Connect
read_back_connect c = record {
  client_id = c.client_id;
  clean_start = c.clean_start;
  keep_alive = c.keep_alive;
  will = read_back_will c.will;
  username = c.username;
  password = read_back_password c.password;
  properties = some (read_back PacketType.connect c.properties);
  protocol_version = 5;
}

read_will-put_will :
    (flags : ℕ) (w : Option Will) (bytes s : Bytes)
    → has_bit flags 0x04 ≡ has_will w
    → has_bit flags 0x20 ≡ will_retain w
    → bit_and (flags / 2 ^ 3) 0x03 ≡ will_qos w
    → IsValidWill w
    → put_will w ≡ ok bytes
    → length bytes ≤ max_var_byte_int
    → read_will flags (bytes ++ s) ≡ ok (read_back_will w, s)
unfolding read_will put_will read_back_will
read_will-put_will flags none bytes s present retain qos valid e short =
    rw (present, ← ok-injective e)
read_will-put_will flags (some w) bytes s present retain qos valid e short =
    let (topic_fits, e') = checked w.topic e in
    let (payload_fits, e'') = checked w.payload e' in
    let (props, written, whole) =
      >>=-eq-ok (encode_properties w.properties PacketType.will_context) _ e'' in
    let total = ok-injective whole in
    let fits : length props ≤ max_var_byte_int =
      omega
        (arith, ap length total, length-append props (put_text w.topic ++ put_binary w.payload)) in
    rw (
      present,
      retain,
      qos,
      ← total,
      append_assoc,
      append_assoc,
      read_properties-encode_properties _ w.properties props _ valid.1 written fits,
      text-put_text w.topic _ topic_fits valid.0,
      binary-put_binary w.payload s payload_fits,
    )

read_username-put_username :
    (flags : ℕ) (u bytes s : Bytes)
    → has_bit flags 0x80 ≡ not (is_empty u)
    → IsText u
    → put_username u ≡ ok bytes
    → read_username flags (bytes ++ s) ≡ ok (u, s)
unfolding read_username put_username
read_username-put_username flags [] bytes s present valid e = rw (present, ← ok-injective e)
read_username-put_username flags (c ∷ u) bytes s present valid e =
    let (fits, whole) = checked (c ∷ u) e in
    rw (present, ← ok-injective whole) (text-put_text (c ∷ u) s fits (valid (λ z. cc)))

read_password-put_password :
    (flags : ℕ) (p : Option Bytes) (bytes s : Bytes)
    → has_bit flags 0x40 ≡ has_password p
    → put_password p ≡ ok bytes
    → read_password flags (bytes ++ s) ≡ ok (read_back_password p, s)
unfolding read_password put_password read_back_password
read_password-put_password flags none bytes s present e = rw (present, ← ok-injective e)
read_password-put_password flags (some b) bytes s present e =
    let (fits, whole) = checked b e in
    rw (present, ← ok-injective whole, binary-put_binary b s fits)

-- The lengths of the parts of a body.
length-parts :
    (k : ℕ) (props id will rest bytes : Bytes)
    → put_uint16 k ++ (props ++ (put_text id ++ (will ++ rest))) ≡ bytes
    → (length props ≤ length bytes) × (length will ≤ length bytes)
length-parts k props id will rest bytes e =
    let total = ap length e in
    let first = length-append (put_uint16 k) (props ++ (put_text id ++ (will ++ rest))) in
    let second = length-append props (put_text id ++ (will ++ rest)) in
    let third = length-append (put_text id) (will ++ rest) in
    let fourth = length-append will rest in omega arith

connect_tail-put_connect_tail :
    (c : Connect) (bytes : Bytes)
    → will_qos c.will ≤ 2
    → IsValidConnect c
    → length c.client_id ≤ 65535
    → put_connect_tail c ≡ ok bytes
    → length bytes ≤ max_var_byte_int
    → connect_tail 5 (connect_flags c) bytes ≡ ok (Packet.connect (read_back_connect c), [])
unfolding connect_tail put_connect_tail read_back_connect
connect_tail-put_connect_tail c bytes q valid id_fits e short =
    let (props, written, e') = >>=-eq-ok (encode_properties c.properties PacketType.connect) _ e in
    let (will, will_written, e'') = >>=-eq-ok (put_will c.will) _ e' in
    let (username, user_written, e3) = >>=-eq-ok (put_username c.username) _ e'' in
    let (password, password_written, whole) = >>=-eq-ok (put_password c.password) _ e3 in
    let total = ok-injective whole in
    let say = connect_flags-Say c q in
    let lengths =
      length-parts c.keep_alive props c.client_id will (username ++ password) bytes total in
    rw (
      ← total,
      uint16-put_uint16 c.keep_alive _ valid.keep_alive,
      read_properties-encode_properties _ c.properties props _ valid.properties written
          (omega arith),
      valid.method,
      text-put_text c.client_id _ id_fits valid.client_id,
      read_will-put_will _ c.will will _ say.will_bit say.retain_bit say.qos_bits valid.will
          will_written (omega arith),
      read_username-put_username _ c.username username password say.user_bit valid.username
          user_written,
      rw append-nil at
          (read_password-put_password _ c.password password [] say.password_bit password_written),
      say.clean_bit,
    )

check_will-qos : (w : Option Will) (u : Unit {0}) → check_will w ≡ ok u → will_qos w ≤ 2
unfolding check_will qos_valid
check_will-qos none u e = omega arith
check_will-qos (some w) u e = ground arith

bytes_eq-protocol_name : bytes_eq (codes "MQTT") (codes "MQTT") ≡ true
unfolding bytes_eq
bytes_eq-protocol_name = refl

validate_utf8-protocol_name : validate_utf8 (codes "MQTT") ≡ ok tt
unfolding validate_utf8
validate_utf8-protocol_name = refl

decode_connect-head :
    (flags : ℕ) (s : Bytes)
    → (bit_and flags 0x01 == 0) ≡ true
    → will_flags_ok flags ≡ true
    → decode_connect (put_text (codes "MQTT") ++ (5 ∷ flags ∷ s)) ≡ connect_tail 5 flags s
unfolding decode_connect byte
decode_connect-head flags s reserved agree = rw (
  text-put_text (codes "MQTT") _ (omega arith) validate_utf8-protocol_name,
  bytes_eq-protocol_name,
  reserved,
  agree,
)

pub decode_connect-encode_connect :
    (c : Connect) (flags : ℕ) (body : Bytes)
    → IsValidConnect c
    → encode_connect c ≡ ok (flags, body)
    → length body ≤ max_var_byte_int
    → decode_connect body ≡ ok (Packet.connect (read_back_connect c), [])
unfolding encode_connect
decode_connect-encode_connect c flags body valid e short =
    let (id_fits, e') = checked c.client_id e in
    let (good, e'') = unit-then (check_will c.will) _ e' in
    let (tail, written, whole) = >>=-eq-ok (put_connect_tail c) _ e'' in
    let pairs = ok-injective whole in
    let q = check_will-qos c.will tt good in
    let say = connect_flags-Say c q in
    let fits : length tail ≤ max_var_byte_int = omega (
      arith,
      ap (λ (z : ℕ × Bytes). length z.1) pairs,
      length-append (put_text (codes "MQTT")) (5 ∷ connect_flags c ∷ tail),
    ) in
    subst (λ (z : ℕ × Bytes). decode_connect z.1 ≡ ok (Packet.connect (read_back_connect c), []))
      pairs
      (decode_connect-head (connect_flags c) tail say.reserved say.agree
        ∙ connect_tail-put_connect_tail c tail q valid id_fits written fits)
