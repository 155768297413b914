-- ===== src/Topic/Match.antt =====
-- `Match` and `MatchAny` of topic/topic.go.
pub mod Levels
use natsmqtt.Prelude.{ℕ, Bool, true, false, not, ◌&&◌, ◌||◌, Option, none, some, List, [], ◌∷◌}
use natsmqtt.Prelude.{Bytes, codes, bytes_eq, ◌==◌, if◌then◌else◌}
use natsmqtt.Topic.Strings.{split}
use natsmqtt.Topic.Validate.{slash, is_shared, split_shared}

-- The loop over the filter's levels, beside the name's levels from the same index on, and the final
-- comparison of the two lengths.
unfoldable pub match_levels : List Bytes → List Bytes → Bool
match_levels [] [] = true
match_levels [] (n ∷ ns) = false
match_levels (l ∷ ls) [] = bytes_eq l (codes "#")
match_levels (l ∷ ls) (n ∷ ns) =
    bytes_eq l (codes "#") || ((bytes_eq l (codes "+") || bytes_eq l n) && match_levels ls ns)

-- A name that begins with '$', and a filter that begins with a wildcard.
unfoldable pub is_dollar : Bytes → Bool
is_dollar [] = false
is_dollar (c ∷ s) = c == b'$'

unfoldable pub starts_wild : Bytes → Bool
starts_wild [] = false
starts_wild (c ∷ s) = c == b'#' || c == b'+'

-- From the test of the two lengths on, the share already stripped.
unfoldable pub match_plain : Bytes → Bytes → Bool
match_plain [] name = false
match_plain (c ∷ filter) [] = false
match_plain (c ∷ filter) (d ∷ name) =
    if is_dollar (d ∷ name) && starts_wild (c ∷ filter)
    then false
    else match_levels (split slash (c ∷ filter)) (split slash (d ∷ name))

unfoldable pub match : Bytes → Bytes → Bool
match filter name =
    if is_shared filter
    then elim (split_shared filter) [ none ↦ false | some (share, inner) ↦ match_plain inner name ]
    else match_plain filter name

unfoldable pub match_any : List Bytes → Bytes → Bool
match_any [] name = false
match_any (f ∷ fs) name = match f name || match_any fs name
