-- ===== src/Packet/Writer.antt =====
-- The `writer` of packet/codec.go. Each method appends bytes to the buffer; here it is the bytes that
-- it appends. The bytes of a value are those below the width its Go type has.
use natsmqtt.Prelude.{ℕ, zero, suc, ◌/◌, ◌%◌, ◌^◌, ◌++◌, [], ◌∷◌, bit_or}
use natsmqtt.Prelude.{Bytes, ltb, leb, if◌then◌else◌, length}
use natsmqtt.Packet.Result.{too_long, Result, guard}

unfoldable pub put_uint16 : ℕ → Bytes
put_uint16 v = (v / 2 ^ 8 % 2 ^ 8) ∷ (v % 2 ^ 8) ∷ []

unfoldable pub put_uint32 : ℕ → Bytes
put_uint32 v = (v / 2 ^ 24 % 2 ^ 8) ∷ (v / 2 ^ 16 % 2 ^ 8) ∷ (v / 2 ^ 8 % 2 ^ 8) ∷ (v % 2 ^ 8) ∷ []

-- The loop of `appendVarByteInt`, on fuel: each round divides `v` by 128.
unfoldable pub put_var_byte_int_loop : ℕ → ℕ → Bytes
put_var_byte_int_loop zero v = []
put_var_byte_int_loop (suc fuel) v =
    let b = v % 128 in
    let more = bit_or b 0x80 ∷ put_var_byte_int_loop fuel (v / 128) in
    if ltb 0 (v / 128) then more else b ∷ []

-- Ten rounds write any int; the fifth is only reached above `max_var_byte_int`.
unfoldable pub put_var_byte_int : ℕ → Bytes
put_var_byte_int v = put_var_byte_int_loop 10 v

abbrev pub max_var_byte_int : ℕ
max_var_byte_int = 268435455

unfoldable pub var_byte_int_len : ℕ → ℕ
var_byte_int_len v =
    if ltb v 128 then 1 else if ltb v 16384 then 2 else if ltb v 2097152 then 3 else 4

-- The length prefix is `len(b) & math.MaxUint16`, the length modulo 2 ^ 16.
unfoldable pub put_binary : Bytes → Bytes
put_binary b = put_uint16 (length b % 2 ^ 16) ++ b

-- `writer.string`
unfoldable pub put_text : Bytes → Bytes
put_text s = put_binary s

unfoldable pub put_string_pair : Bytes → Bytes → Bytes
put_string_pair k v = put_text k ++ put_text v

-- `checkStringLen` and `checkBinaryLen`, which differ in the text of their error only.
unfoldable pub check_len : Bytes → Result (Unit {0})
check_len s = guard (leb (length s) 65535) too_long
