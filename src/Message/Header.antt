-- ===== src/Message/Header.antt =====
-- The values of headers in message.go, and the pairs that carry User Properties.
use natsmqtt.Prelude.{
  ℕ, ◌+◌, ◌*◌, ◌-◌, ◌/◌, ◌%◌, Bool, false, Option, none, some, [], ◌∷◌, ◌++◌, Bytes, ltb, leb, ◌==◌,
  not, ◌&&◌, ◌||◌, if◌then◌else◌,
}
use natsmqtt.Topic.Strings.{cut}

-- `unsafeHeaderByte`
unfoldable pub unsafe_header_byte : ℕ → Bool
unsafe_header_byte ch = (ch == b'%') || (ltb ch 0x20 || (ch == 0x7F))

-- `needsEscape`
unfoldable pub needs_escape : Bytes → Bool
needs_escape [] = false
needs_escape (ch ∷ s) = unsafe_header_byte ch || needs_escape s

-- `hex[d]`
unfoldable pub hex : ℕ → ℕ
hex d = if ltb d 10 then b'0' + d else b'A' + (d - 10)

-- The loop of `escapeHeader`
unfoldable pub escape_loop : Bytes → Bytes
escape_loop [] = []
escape_loop (ch ∷ s) =
    let rest = escape_loop s in
    if unsafe_header_byte ch then b'%' ∷ hex (ch / 16) ∷ hex (ch % 16) ∷ rest else ch ∷ rest

-- `escapeHeader`
unfoldable pub escape_header : Bytes → Bytes
escape_header s = if not (needs_escape s) then s else escape_loop s

-- `hexVal`
unfoldable pub hex_val : ℕ → Option ℕ
hex_val ch =
    if leb b'0' ch && leb ch b'9'
    then some (ch - b'0')
    else if leb b'A' ch && leb ch b'F'
    then some (ch - b'A' + 10)
    else if leb b'a' ch && leb ch b'f'
    then some (ch - b'a' + 10)
    else none

-- `hi<<4 | lo` of two digits
unfoldable pub unhex : ℕ → ℕ → Option ℕ
unhex h l = elim (hex_val h) [
  | none ↦ none
  | some hi ↦ elim (hex_val l) [ none ↦ none | some lo ↦ some (16 * hi + lo) ]
]

-- The loop of `unescapeHeader`
unfoldable pub unescape_loop : Bytes → Bytes
unescape_loop [] = []
unescape_loop (ch ∷ []) = ch ∷ []
unescape_loop (ch ∷ h ∷ []) = ch ∷ unescape_loop (h ∷ [])
unescape_loop (ch ∷ h ∷ l ∷ s) =
    let past = unescape_loop s in
    let next = unescape_loop (h ∷ l ∷ s) in
    if ch == b'%' then (elim (unhex h l) [ none ↦ ch ∷ next | some x ↦ x ∷ past ]) else ch ∷ next

unfoldable pub contains_percent : Bytes → Bool
contains_percent [] = false
contains_percent (ch ∷ s) = (ch == b'%') || contains_percent s

-- `unescapeHeader`
unfoldable pub unescape_header : Bytes → Bytes
unescape_header s = if not (contains_percent s) then s else unescape_loop s

-- The header of a User Property that `toNATS` adds.
unfoldable pub user_header : Bytes → Bytes → Bytes
user_header key value = escape_header key ++ b' ' ∷ escape_header value

-- The User Property that `fromNATS` takes from a header, if any.
unfoldable pub user_property : Bytes → Option (Bytes × Bytes)
user_property raw = elim (cut b' ' raw) [
  | none ↦ none
  | some (key, value) ↦ some (unescape_header key, unescape_header value)
]
