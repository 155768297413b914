-- ===== src/Topic/Prefix.antt =====
-- Texts that begin with a given text: the subject prefix of a broker, the parent level of a filter
-- that ends in "#", and the subjects that the broker keeps for itself.
use natsmqtt.Prelude.{
  some-injective, ℕ, zero, suc, ◌-◌, ◌≤◌, ◌≡◌, refl, sym, ap, ◌∙◌, ◌++◌, Bool, true, false, some,
  inl, inr, ◌↔◌,
}
use natsmqtt.Prelude.{
  [], ◌∷◌, Bytes, codes, bytes_eq, arith, ◌==◌, ==_iff, ltb, is_empty, Bool-cases, and→both,
}
use natsmqtt.Prelude.{
  length, take, drop, drop-append, take-append, length-append, length-drop, append_assoc,
}
use natsmqtt.Topic.Strings.{has_prefix, before}
use natsmqtt.Topic.Validate.{reserved, validate_name}
use natsmqtt.Topic.Subject.{
  dot, prefix, trim_prefix, parent_subject, name_to_subject, subject_to_name,
}
use natsmqtt.Topic.RoundTrip.{subject_to_name-name_to_subject}

pub has_prefix-append : (p s : Bytes) → has_prefix p (p ++ s) ≡ true
unfolding has_prefix
has_prefix-append [] s = refl
has_prefix-append (x ∷ p) s = rw ((==_iff x x).1 refl, has_prefix-append p s)

pub has_prefix→append : (p s : Bytes) → has_prefix p s ≡ true → s ≡ p ++ drop (length p) s
unfolding has_prefix
has_prefix→append [] s h = refl
has_prefix→append (x ∷ p) [] h = cc
has_prefix→append (x ∷ p) (y ∷ s) h =
    let (a, b) = and→both (y == x) (has_prefix p s) h in
    let same = (==_iff y x).0 a in let rest = has_prefix→append p s b in cc

-- `trimPrefix` takes off exactly the prefix that `prefix` puts on, and refuses any other subject.
pub trim_prefix_iff :
    (p subject rest : Bytes) → (trim_prefix p subject ≡ some rest) ↔ (subject ≡ prefix p rest)
unfolding trim_prefix prefix
trim_prefix_iff [] subject rest = (λ e. some-injective _ _ e, λ e. ap some e)
trim_prefix_iff (c ∷ p) subject rest = (taken, put)
  where
    q : Bytes
    q = (c ∷ p) ++ (dot ∷ [])

    joined : (t : Bytes) → q ++ t ≡ (c ∷ p) ++ (dot ∷ t)
    joined t = append_assoc (c ∷ p) (dot ∷ []) t

    taken : trim_prefix (c ∷ p) subject ≡ some rest → subject ≡ (c ∷ p) ++ (dot ∷ rest)
    taken e = elim (Bool-cases (has_prefix q subject)) [
      | inl there ↦
          let left = some-injective _ _ (rw there at e) in
          has_prefix→append q subject there
          ∙ joined (drop (length q) subject)
          ∙ ap (λ z. (c ∷ p) ++ (dot ∷ z)) left
      | inr absent ↦ cc (rw absent at e)
    ]

    put : subject ≡ (c ∷ p) ++ (dot ∷ rest) → trim_prefix (c ∷ p) subject ≡ some rest
    put e =
        let whole = e ∙ sym (joined rest) in
        rw (whole, has_prefix-append q rest, drop-append q rest)

take-drop : (n : ℕ) (s : Bytes) → take n s ++ drop n s ≡ s
take-drop zero s = refl
take-drop (suc n) [] = refl
take-drop (suc n) (x ∷ s) = ap (λ z. x ∷ z) (take-drop n s)

length-zero : (s : Bytes) → length s ≡ 0 → s ≡ []
length-zero [] h = refl
length-zero (x ∷ s) h = absurd (omega arith)

-- Two bytes that begin with two given ones are those.
two-bytes : (a b : ℕ) (s : Bytes) → length s ≡ 2 → has_prefix (a ∷ b ∷ []) s ≡ true → s ≡ a ∷ b ∷ []
two-bytes a b s h e =
    let whole = has_prefix→append (a ∷ b ∷ []) s e in
    let none_left = length-zero (drop 2 s) (omega (arith, length-drop 2 s)) in
    whole ∙ ap (λ z. a ∷ b ∷ z) none_left

wild_end : Bytes
wild_end = dot ∷ b'>' ∷ []

parent_subject→append :
    (subject parent : Bytes)
    → parent_subject subject ≡ some parent
    → (is_empty parent ≡ false) × (subject ≡ parent ++ wild_end)
unfolding parent_subject wild_end
parent_subject→append subject parent e =
    let n = length subject - 2 in
    let long : 3 ≤ length subject = ground arith in
    let ends : has_prefix (dot ∷ b'>' ∷ []) (drop n subject) ≡ true = ground arith in
    let start : take n subject ≡ parent = ground arith in
    let end_two = two-bytes dot b'>' (drop n subject) (omega (arith, length-drop n subject)) ends in
    let whole : subject ≡ parent ++ wild_end = sym (take-drop n subject) ∙ (rw (start, end_two)) in
    (nonempty parent whole long, whole)
  where
    nonempty : (q : Bytes) → subject ≡ q ++ wild_end → 3 ≤ length subject → is_empty q ≡ false
    nonempty [] w h = absurd (omega (arith, ap length w))
    nonempty (x ∷ q) w h = refl

append→parent_subject :
    (parent : Bytes) → is_empty parent ≡ false → parent_subject (parent ++ wild_end) ≡ some parent
unfolding parent_subject wild_end has_prefix
append→parent_subject [] h = cc
append→parent_subject (c ∷ p) h =
    let measure = length-append (c ∷ p) wild_end in
    let long : ltb (length ((c ∷ p) ++ wild_end)) 3 ≡ false = ground arith in
    let n : length ((c ∷ p) ++ wild_end) - 2 ≡ length (c ∷ p) = omega (arith, measure) in
    rw (long, n, take-append (c ∷ p) wild_end, drop-append (c ∷ p) wild_end)

-- `ParentSubject` gives the subject before a last token ">", and nothing for any other subject.
pub parent_subject_iff :
    (subject parent : Bytes)
    → (parent_subject subject ≡ some parent)
      ↔ ((is_empty parent ≡ false) × (subject ≡ parent ++ (dot ∷ b'>' ∷ [])))
unfolding wild_end
parent_subject_iff subject parent = (
  λ e. parent_subject→append subject parent e,
  λ h. ap parent_subject h.1 ∙ append→parent_subject parent h.0,
)

read_retained :
    (s : Bytes)
    → subject_to_name (codes "$retained." ++ s) ≡ codes "$retained/" ++ subject_to_name s
unfolding subject_to_name
read_retained [] = refl
read_retained (d ∷ s) = refl

read_queue :
    (s : Bytes) → subject_to_name (codes "$queue." ++ s) ≡ codes "$queue/" ++ subject_to_name s
unfolding subject_to_name
read_queue [] = refl
read_queue (d ∷ s) = refl

name_to_subject-free :
    (escape : Bool) (name subject : Bytes)
    → name_to_subject escape name ≡ some subject
    → reserved name ≡ false
unfolding name_to_subject validate_name
name_to_subject-free escape name subject e = ground arith

name_to_subject-not_under :
    (escape : Bool) (name subject below above : Bytes)
    → name_to_subject escape name ≡ some subject
    → ((s : Bytes) → subject_to_name (below ++ s) ≡ above ++ subject_to_name s)
    → ((s : Bytes) → reserved (above ++ s) ≡ true)
    → has_prefix below subject ≡ false
name_to_subject-not_under escape name subject below above e reads kept =
    elim (Bool-cases (has_prefix below subject)) [
      | inl there ↦
          let rest = drop (length below) subject in
          let back =
            sym (subject_to_name-name_to_subject escape name subject e)
            ∙ ap subject_to_name (has_prefix→append below subject there)
            ∙ reads rest in
          let bad : reserved name ≡ true = ap reserved back ∙ kept (subject_to_name rest) in
          cc (sym bad ∙ name_to_subject-free escape name subject e)
      | inr absent ↦ absent
    ]

-- No Topic Name has a subject under one that the broker keeps for its own use.
pub name_to_subject-not_reserved :
    (escape : Bool) (name subject : Bytes)
    → name_to_subject escape name ≡ some subject
    → (has_prefix (codes "$retained.") subject ≡ false)
      × (has_prefix (codes "$queue.") subject ≡ false)
unfolding reserved before bytes_eq
name_to_subject-not_reserved escape name subject e = (
  name_to_subject-not_under escape name subject _ (codes "$retained/") e read_retained (λ s. refl),
  name_to_subject-not_under escape name subject _ (codes "$queue/") e read_queue (λ s. refl),
)
