-- ===== src/Topic/Tests.antt =====
-- The theorems of the package topic at concrete names and filters.
use natsmqtt.Prelude.{
  ◌||◌, ◌≡◌, refl, ◌↔◌, ◌++◌, true, false, some, [], ◌∷◌, Bytes, codes, bytes_eq, All, is_empty,
}
use natsmqtt.Topic.Strings.{contains, contains_any, has_prefix, split, cut, before}
use natsmqtt.Topic.Validate.{
  validate_common, validate_name, level_ok, levels_ok, validate_filter_levels, is_shared,
  split_share, split_shared, shared_filter_ok, validate_filter, reserved,
}
use natsmqtt.Topic.Match.{is_dollar, match}
use natsmqtt.Topic.Match.Levels.{IsTopicOf, match_iff}
use natsmqtt.Topic.Subject.{
  dot, escaped, ends_level, plain_piece, piece, last_byte, convert_loop, convert,
}
use natsmqtt.Topic.Subject.{
  name_to_subject, filter_to_subject, subject_to_name, parent_subject, prefix, trim_prefix,
}
use natsmqtt.Topic.RoundTrip.{subject_to_name-name_to_subject, name_to_subject-injective}
use natsmqtt.Topic.Literal.{nats_special, name_to_subject-without}
use natsmqtt.Topic.Tokens.{name_to_subject-tokens, filter_to_subject-tokens}
use natsmqtt.Topic.Prefix.{trim_prefix_iff, parent_subject_iff, name_to_subject-not_reserved}
use natsmqtt.Topic.Delivery.{covers, parent_covers}
use natsmqtt.Topic.Delivery.Whole.{covers-match}
use natsmqtt.Topic.Grammar.{IsFilter, levels_ok_iff, IsShare, split_shared_iff}

-- Empty levels, a dot, and a character that NATS cannot carry.
abbrev name : Bytes
name = codes "/a.b//c d/"

abbrev subject : Bytes
subject = codes "/.a//b./.c/pd./"

subject_of_name : name_to_subject true name ≡ some subject
unfolding name_to_subject validate_name validate_common contains_any contains reserved before
    bytes_eq convert convert_loop piece plain_piece escaped ends_level last_byte
subject_of_name = refl

abbrev shared : Bytes
shared = codes "$share/g/a/+/#"

shared_valid : validate_filter false shared ≡ true
unfolding validate_filter validate_common contains_any contains is_shared has_prefix split_shared
    split_share cut shared_filter_ok reserved before validate_filter_levels levels_ok level_ok split
    bytes_eq
shared_valid = refl

shared_parts : split_shared shared ≡ some (codes "g", codes "a/+/#")
unfolding split_shared split_share is_shared has_prefix cut contains_any contains
shared_parts = refl

subject_of_shared : filter_to_subject false shared ≡ some (codes "a.*.>")
unfolding filter_to_subject convert convert_loop piece plain_piece escaped ends_level last_byte
subject_of_shared = rw (shared_valid, shared_parts) refl

match_iff_example :
    (match shared (codes "a/b/c") ≡ true) ↔ IsTopicOf (codes "a/+/#") (codes "a/b/c")
match_iff_example =
    match_iff false shared (codes "g") (codes "a/+/#") (codes "a/b/c") shared_valid shared_parts

subject_to_name-name_to_subject_example : subject_to_name subject ≡ name
subject_to_name-name_to_subject_example =
    subject_to_name-name_to_subject true name subject subject_of_name

name_to_subject-injective_example : name ≡ name
name_to_subject-injective_example =
    name_to_subject-injective true true name name subject subject_of_name subject_of_name

name_to_subject-without_example : All (λ x. contains x subject ≡ false) nats_special
name_to_subject-without_example = name_to_subject-without true name subject subject_of_name

name_to_subject-tokens_example : All (λ t. is_empty t ≡ false) (split dot subject)
name_to_subject-tokens_example = name_to_subject-tokens true name subject subject_of_name

filter_to_subject-tokens_example : All (λ t. is_empty t ≡ false) (split dot (codes "a.*.>"))
filter_to_subject-tokens_example =
    filter_to_subject-tokens false shared (codes "a.*.>") subject_of_shared

name_to_subject-not_reserved_example :
    (has_prefix (codes "$retained.") subject ≡ false)
    × (has_prefix (codes "$queue.") subject ≡ false)
name_to_subject-not_reserved_example =
    name_to_subject-not_reserved true name subject subject_of_name

levels_ok_iff_example :
    (levels_ok (codes "a" ∷ codes "+" ∷ codes "#" ∷ []) ≡ true)
    ↔ IsFilter (codes "a" ∷ codes "+" ∷ codes "#" ∷ [])
levels_ok_iff_example = levels_ok_iff (codes "a" ∷ codes "+" ∷ codes "#" ∷ [])

split_shared_iff_example :
    (split_shared shared ≡ some (codes "g", codes "a/+/#"))
    ↔ IsShare shared (codes "g") (codes "a/+/#")
split_shared_iff_example =
    split_shared_iff shared (codes "g") (codes "a/+/#") (unfold is_shared has_prefix in refl)

trim_prefix_iff_example :
    (trim_prefix (codes "mqtt") (codes "mqtt.a") ≡ some (codes "a"))
    ↔ (codes "mqtt.a" ≡ prefix (codes "mqtt") (codes "a"))
trim_prefix_iff_example = trim_prefix_iff (codes "mqtt") (codes "mqtt.a") (codes "a")

parent_subject_iff_example :
    (parent_subject (codes "a.>") ≡ some (codes "a"))
    ↔ ((is_empty (codes "a") ≡ false) × (codes "a.>" ≡ codes "a" ++ (dot ∷ b'>' ∷ [])))
parent_subject_iff_example = parent_subject_iff (codes "a.>") (codes "a")

subject_of_name_below : name_to_subject false (codes "a/b/c") ≡ some (codes "a.b.c")
unfolding name_to_subject validate_name validate_common contains_any contains reserved before
    bytes_eq convert convert_loop piece plain_piece escaped ends_level last_byte
subject_of_name_below = refl

covers-match_example :
    (covers (split dot (codes "a.*.>")) (split dot (codes "a.b.c"))
      || parent_covers (split dot (codes "a.*.>")) (split dot (codes "a.b.c")))
    ≡ match shared (codes "a/b/c")
unfolding is_dollar
covers-match_example =
    covers-match false shared (codes "g") (codes "a/+/#") (codes "a/b/c") (codes "a.*.>")
      (codes "a.b.c") shared_parts subject_of_shared subject_of_name_below refl

-- The parent level is delivered for the subject before the last '>'.
parent_covers_a_b : parent_covers (split dot (codes "a.*.>")) (split dot (codes "a.b")) ≡ true
unfolding parent_covers split bytes_eq
parent_covers_a_b = refl
