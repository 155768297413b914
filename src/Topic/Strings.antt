-- ===== src/Topic/Strings.antt =====
-- What topic/topic.go and topic/subject.go use of Go's package strings, on the bytes of a string. Each
-- character searched for is ASCII, so that a search by bytes is the search by runes.
use natsmqtt.Prelude.{ℕ, Bool, true, false, ◌&&◌, ◌||◌, Option, none, some, List, [], ◌∷◌}
use natsmqtt.Prelude.{Bytes, ◌==◌, if◌then◌else◌}

-- `strings.ContainsRune`, `strings.Contains` of one character and `strings.IndexByte` against -1
unfoldable pub contains : ℕ → Bytes → Bool
contains c [] = false
contains c (x ∷ s) = x == c || contains c s

-- `strings.ContainsAny`, and `strings.IndexAny` against -1
unfoldable pub contains_any : Bytes → Bytes → Bool
contains_any [] s = false
contains_any (c ∷ cs) s = contains c s || contains_any cs s

unfoldable pub has_prefix : Bytes → Bytes → Bool
has_prefix [] s = true
has_prefix (p ∷ ps) [] = false
has_prefix (p ∷ ps) (x ∷ s) = x == p && has_prefix ps s

abbrev pub put_before : ℕ → Option (Bytes × Bytes) → Option (Bytes × Bytes)
put_before x none = none
put_before x (some (a, b)) = some (x ∷ a, b)

-- The parts before and after the first `c`, as `strings.Cut` and a slice at `strings.IndexByte` give.
unfoldable pub cut : ℕ → Bytes → Option (Bytes × Bytes)
cut c [] = none
cut c (x ∷ s) = let later = put_before x (cut c s) in if x == c then some ([], s) else later

-- `before, _, _ := strings.Cut(s, c)`
unfoldable pub before : ℕ → Bytes → Bytes
before c [] = []
before c (x ∷ s) = if x == c then [] else x ∷ before c s

abbrev pub add_to_first : ℕ → List Bytes → List Bytes
add_to_first x [] = (x ∷ []) ∷ []
add_to_first x (l ∷ ls) = (x ∷ l) ∷ ls

-- `strings.Split` at one character
unfoldable pub split : ℕ → Bytes → List Bytes
split c [] = [] ∷ []
split c (x ∷ s) = let ls = split c s in if x == c then [] ∷ ls else add_to_first x ls
