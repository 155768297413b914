-- ===== src/Message/Plain.antt =====
-- Headers that are kept as a function, for runs on concrete messages.
use natsmqtt.Prelude.{
  ◌≡◌, refl, inl, inr, false, List, [], ◌∷◌, ◌++◌, Bytes, bytes_eq, if◌then◌else◌, Bool-cases,
}
use natsmqtt.Message.Nats.{Headers}

abbrev pub first : List Bytes → Bytes
first [] = []
first (v ∷ vs) = v

abbrev pub set_at : Bytes → Bytes → (Bytes → List Bytes) → Bytes → List Bytes
set_at k v h j = if bytes_eq j k then v ∷ [] else h j

abbrev pub add_at : Bytes → Bytes → (Bytes → List Bytes) → Bytes → List Bytes
add_at k v h j = if bytes_eq j k then h j ++ v ∷ [] else h j

pub first-set_at :
    (j k v : Bytes) (h : Bytes → List Bytes)
    → first (set_at k v h j) ≡ (if bytes_eq j k then v else first (h j))
first-set_at j k v h = elim (Bool-cases (bytes_eq j k)) [
  | inl same ↦ rw (set_at, same) refl
  | inr other ↦ rw (set_at, other) refl
]

pub first-add_at :
    (j k v : Bytes) (h : Bytes → List Bytes)
    → bytes_eq j k ≡ false
    → first (add_at k v h j) ≡ first (h j)
first-add_at j k v h other = rw (add_at, other) refl

abbrev pub plain_headers : Headers
plain_headers = record {
  Header = Bytes → List Bytes;
  no_headers = λ j. [];
  set = set_at;
  add = add_at;
  get = λ j h. first (h j);
  values = λ j h. h j;
  get-no_headers = λ j. refl;
  values-no_headers = λ j. refl;
  get-set = first-set_at;
  values-set = λ j k v h. refl;
  get-add = first-add_at;
  values-add = λ j k v h. refl;
}
