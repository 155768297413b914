-- ===== src/Topic/Validate.antt =====
-- The validation functions and `SplitShared` of topic/topic.go. An error of these is always one that
-- wraps `ErrInvalid`, so a check is a test, `true` for a nil error.
use natsmqtt.Prelude.{ℕ, Bool, true, false, not, ◌&&◌, ◌||◌, Option, none, some, List, [], ◌∷◌}
use natsmqtt.Prelude.{Bytes, codes, bytes_eq, leb, if◌then◌else◌, length, drop, is_empty}
use natsmqtt.Topic.Strings.{contains, contains_any, has_prefix, cut, before, split}

abbrev pub slash : ℕ
slash = b'/'

abbrev pub max_length : ℕ
max_length = 65535

abbrev pub shared_prefix : Bytes
shared_prefix = codes "$share/"

abbrev pub reserved_levels : List Bytes
reserved_levels = codes "$retained" ∷ codes "$queue" ∷ []

any_equal : Bytes → List Bytes → Bool
any_equal s [] = false
any_equal s (l ∷ ls) = bytes_eq s l || any_equal s ls

unfoldable pub reserved : Bytes → Bool
unfolding any_equal
reserved s = any_equal (before slash s) reserved_levels

-- Space, tab, line feed, carriage return, form feed and DEL.
abbrev pub blanks : Bytes
blanks = 0x20 ∷ 0x09 ∷ 0x0a ∷ 0x0d ∷ 0x0c ∷ 0x7f ∷ []

abbrev pub stars : Bytes
stars = b'*' ∷ b'>' ∷ []

abbrev pub wildcards : Bytes
wildcards = b'+' ∷ b'#' ∷ []

unfoldable pub validate_common : Bool → Bytes → Bool
validate_common escaped s =
    not (is_empty s)
    && (leb (length s) max_length
        && (not (contains 0 s)
            && (escaped || (not (contains_any blanks s) && not (contains_any stars s)))))

unfoldable pub validate_name : Bool → Bytes → Bool
validate_name escaped name =
    validate_common escaped name && (not (contains_any wildcards name) && not (reserved name))

-- One level of a filter, `last` where it is the last one.
unfoldable pub level_ok : Bytes → Bool → Bool
level_ok level last =
    (bytes_eq level (codes "+") || not (contains b'+' level))
    && (not (contains b'#' level) || (bytes_eq level (codes "#") && last))

unfoldable pub levels_ok : List Bytes → Bool
levels_ok [] = true
levels_ok (l ∷ ls) = level_ok l (is_empty ls) && levels_ok ls

unfoldable pub validate_filter_levels : Bytes → Bool
validate_filter_levels filter = not (is_empty filter) && levels_ok (split slash filter)

unfoldable pub is_shared : Bytes → Bool
is_shared f = has_prefix shared_prefix f

-- The part of `SplitShared` behind the prefix.
unfoldable pub split_share : Bytes → Option (Bytes × Bytes)
split_share rest = elim (cut slash rest) [
  | none ↦ none
  | some (share, filter) ↦
      if is_empty share
      then none
      else if contains_any wildcards share
      then none
      else if is_empty filter
      then none
      else some (share, filter)
]

-- `none` is an error. A filter that is not shared has the empty ShareName.
unfoldable pub split_shared : Bytes → Option (Bytes × Bytes)
split_shared f = if is_shared f then split_share (drop 7 f) else some ([], f)

unfoldable pub shared_filter_ok : Option (Bytes × Bytes) → Bool
shared_filter_ok none = false
shared_filter_ok (some (share, rest)) = not (reserved rest) && validate_filter_levels rest

unfoldable pub validate_filter : Bool → Bytes → Bool
validate_filter escaped filter =
    validate_common escaped filter
    && (if is_shared filter
        then shared_filter_ok (split_shared filter)
        else not (reserved filter) && validate_filter_levels filter)
