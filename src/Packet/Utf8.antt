-- ===== src/Packet/Utf8.antt =====
-- `validateUTF8` of packet/codec.go, with what it uses of Go: `utf8.ValidString`, and the runes that
-- `range` yields over a well-formed string.
use natsmqtt.Prelude.{ℕ, zero, suc, ◌+◌, ◌*◌, ◌%◌, ◌-◌, Bool, ◌&&◌, Option, none, some}
use natsmqtt.Prelude.{List, [], ◌∷◌, Bytes, leb, ◌==◌, if◌then◌else◌}
use natsmqtt.Packet.Result.{malformed, Result, ok, err}

-- What a first byte announces: itself, or `more` continuation bytes of which the next lies in lo..hi.
pub data Lead : Type 0 where
  ascii bad : Lead
  multi : ℕ → ℕ → ℕ → ℕ → Lead

abbrev pub between : ℕ → ℕ → ℕ → Bool
between lo hi b = leb lo b && leb b hi

unfoldable pub lead : ℕ → Lead
lead b =
    if leb b 0x7f
    then ascii
    else if between 0xc2 0xdf b
    then multi 0 0x80 0xbf (b - 0xc0)
    else if b == 0xe0
    then multi 1 0xa0 0xbf 0
    else if b == 0xed
    then multi 1 0x80 0x9f 13
    else if between 0xe1 0xef b
    then multi 1 0x80 0xbf (b - 0xe0)
    else if b == 0xf0
    then multi 2 0x90 0xbf 0
    else if between 0xf1 0xf3 b
    then multi 2 0x80 0xbf (b - 0xf0)
    else if b == 0xf4
    then multi 2 0x80 0x8f 4
    else bad

-- Between runes, or inside one: `more` bytes after the next, the next one's range, the bits so far.
pub data Scan : Type 0 where
  start : Scan
  inside : ℕ → ℕ → ℕ → ℕ → Scan

abbrev after_lead : Lead → Scan
after_lead (multi more lo hi bits) = inside more lo hi bits
after_lead _ = start

abbrev after_byte : ℕ → ℕ → Scan
after_byte zero bits = start
after_byte (suc more) bits = inside more 0x80 0xbf bits

abbrev consume : Lead → ℕ → Option (List ℕ) → Option (List ℕ)
consume bad b rest = none
consume (multi more lo hi bits) b rest = rest
consume ascii b none = none
consume ascii b (some rs) = some (b ∷ rs)

abbrev emit : ℕ → ℕ → Option (List ℕ) → Option (List ℕ)
emit (suc more) r rest = rest
emit zero r none = none
emit zero r (some rs) = some (r ∷ rs)

-- The runes of a string, or `none` where it is not well-formed UTF-8.
unfoldable pub runes_from : Scan → Bytes → Option (List ℕ)
unfolding lead
runes_from start [] = some []
runes_from (inside more lo hi bits) [] = none
runes_from start (b ∷ bs) = consume (lead b) b (runes_from (after_lead (lead b)) bs)
runes_from (inside more lo hi bits) (b ∷ bs) =
    let r = bits * 64 + b % 64 in
    let rest = emit more r (runes_from (after_byte more r) bs) in
    if between lo hi b then rest else none

unfoldable pub runes : Bytes → Option (List ℕ)
unfolding runes_from
runes s = runes_from start s

-- The body of the `range` loop.
unfoldable pub check_runes : List ℕ → Result (Unit {0})
check_runes [] = ok tt
check_runes (r ∷ rs) =
    if r == 0
    then err malformed
    else if between 0xd800 0xdfff r
    then err malformed
    else check_runes rs

unfoldable pub validate_utf8 : Bytes → Result (Unit {0})
unfolding runes check_runes
validate_utf8 s = elim (runes s) [ none ↦ err malformed | some rs ↦ check_runes rs ]
