-- ===== src/Topic/Subject.antt =====
-- topic/subject.go: Topic Names and Topic Filters to NATS subjects and back.
use natsmqtt.Prelude.{ℕ, Bool, true, false, ◌||◌, Option, none, some, [], ◌∷◌, ◌++◌}
use natsmqtt.Prelude.{Bytes, ◌==◌, ltb, if◌then◌else◌, length, take, drop, ◌-◌}
use natsmqtt.Topic.Strings.{has_prefix}
use natsmqtt.Topic.Validate.{slash, validate_name, validate_filter, split_shared}

abbrev pub dot : ℕ
dot = b'.'

-- `escaped`: the letter after '/' for a character, or none.
unfoldable pub escaped : ℕ → Option ℕ
escaped c =
    if c == b'*'
    then some b's'
    else if c == b'>'
    then some b'g'
    else if c == 0x20
    then some b'p'
    else if c == 0x09
    then some b't'
    else if c == 0x0a
    then some b'n'
    else if c == 0x0d
    then some b'r'
    else if c == 0x0c
    then some b'f'
    else if c == 0x7f
    then some b'd'
    else none

-- The map `escapes`.
unfoldable pub escapes : ℕ → Option ℕ
escapes l =
    if l == b's'
    then some b'*'
    else if l == b'g'
    then some b'>'
    else if l == b'p'
    then some 0x20
    else if l == b't'
    then some 0x09
    else if l == b'n'
    then some 0x0a
    else if l == b'r'
    then some 0x0d
    else if l == b'f'
    then some 0x0c
    else if l == b'd'
    then some 0x7f
    else none

-- `i == end || mt[i+1] == '/'`, of what follows index i
unfoldable pub ends_level : Bytes → Bool
ends_level [] = true
ends_level (c ∷ s) = c == slash

-- The last case of the switch: the characters that NATS cannot carry, and all others.
unfoldable pub plain_piece : Bool → ℕ → Bytes
plain_piece escape c = elim (escaped c) [
  | none ↦ c ∷ []
  | some l ↦ if escape then slash ∷ l ∷ [] else c ∷ []
]

-- One round of the loop of `convert`: what it writes for `c`, at the start or behind the byte `last`
-- of the builder, before the rest `s`.
unfoldable pub piece : Bool → Bool → Bool → ℕ → ℕ → Bytes → Bytes
piece wild escape start last c s =
    if c == slash
    then (if start || last == dot
        then slash ∷ dot ∷ []
        else if ends_level s
        then dot ∷ slash ∷ []
        else dot ∷ [])
    else if c == dot
    then slash ∷ slash ∷ []
    else if c == b'+'
    then (if wild then b'*' else c) ∷ []
    else if c == b'#'
    then (if wild then b'>' else c) ∷ []
    else plain_piece escape c

-- `lastByte` of a builder whose last byte was `last`, after more bytes.
unfoldable pub last_byte : ℕ → Bytes → ℕ
last_byte last [] = last
last_byte last (c ∷ s) = last_byte c s

-- What the loop writes, given the builder's last byte, 0 where it is empty.
unfoldable pub convert_loop : Bool → Bool → Bool → ℕ → Bytes → Bytes
convert_loop wild escape start last [] = []
convert_loop wild escape start last (c ∷ s) =
    let p = piece wild escape start last c s in
    p ++ convert_loop wild escape false (last_byte last p) s

-- `if strings.HasSuffix(out, ".") { out += "/" }`
abbrev pub close_off : ℕ → Bytes
close_off last = if last == dot then slash ∷ [] else []

unfoldable pub convert : Bytes → Bool → Bool → Bytes
convert mt wild escape =
    let out = convert_loop wild escape true 0 mt in out ++ close_off (last_byte 0 out)

-- `NameToSubject` and, with `escape`, `NameToSubjectEscaped`
unfoldable pub name_to_subject : Bool → Bytes → Option Bytes
name_to_subject escape name =
    if validate_name escape name then some (convert name false escape) else none

-- `FilterToSubject` and, with `escape`, `FilterToSubjectEscaped`
unfoldable pub filter_to_subject : Bool → Bytes → Option Bytes
filter_to_subject escape filter =
    if validate_filter escape filter
    then elim (split_shared filter) [
      | none ↦ none
      | some (share, inner) ↦ some (convert inner true escape)
    ]
    else none

-- `subjectToName`. The switch on the byte after '/' takes that byte too, or leaves it for the next round.
unfoldable pub subject_to_name : Bytes → Bytes
subject_to_name [] = []
subject_to_name (c ∷ []) = if c == slash then [] else if c == dot then slash ∷ [] else c ∷ []
subject_to_name (c ∷ d ∷ s) =
    let past = subject_to_name s in
    let next = subject_to_name (d ∷ s) in
    if c == slash
    then (if d == dot
        then slash ∷ past
        else if d == slash
        then dot ∷ past
        else elim (escapes d) [ none ↦ next | some x ↦ x ∷ past ])
    else if c == dot
    then slash ∷ next
    else c ∷ next

-- `ParentSubject`
unfoldable pub parent_subject : Bytes → Option Bytes
parent_subject subject =
    if ltb (length subject) 3
    then none
    else if has_prefix (dot ∷ b'>' ∷ []) (drop (length subject - 2) subject)
    then some (take (length subject - 2) subject)
    else none

unfoldable pub prefix : Bytes → Bytes → Bytes
prefix [] subject = subject
prefix (c ∷ p) subject = (c ∷ p) ++ (dot ∷ subject)

unfoldable pub trim_prefix : Bytes → Bytes → Option Bytes
trim_prefix [] subject = some subject
trim_prefix (c ∷ p) subject =
    let q = (c ∷ p) ++ (dot ∷ []) in
    if has_prefix q subject then some (drop (length q) subject) else none
