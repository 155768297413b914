-- ===== src/Message/Carried.antt =====
-- What `fromNATS` finds in the headers that `toNATS` sets.
use natsmqtt.Prelude.{
  Option-cases, append-nil, ℕ, ◌≡◌, refl, sym, ap, ◌∙◌, inl, inr, Bool, true, false, Option, none,
  some, List, [], ◌∷◌, ◌++◌, Bytes, bytes_eq, is_empty, All, Bool-cases,
}
use natsmqtt.Topic.Match.Levels.{bytes_eq_refl}
use natsmqtt.Topic.Strings.{contains}
use natsmqtt.Packet.Properties.{UserProperty}
use natsmqtt.Message.Header.{
  needs_escape, escape_header, unescape_header, user_header, user_property,
}
use natsmqtt.Message.Decimal.{itoa, is_empty-itoa}
use natsmqtt.Message.RoundTrip.{unescape_header-escape_header, user_property_iff}
use natsmqtt.Message.Nats.{
  Headers, hdr_user_property, set_if, set_number, set_text, add_users, get_number, take_users,
}

module _ (hs : Headers) where
  open hs use {Header, set, get, values, get-set, values-set, get-add, values-add}

  pub get-set_text_other :
      (j k t : Bytes) (h : Header) → bytes_eq j k ≡ false → get j (set_text hs k t h) ≡ get j h
  unfolding set_text
  get-set_text_other j k t h other = elim (Bool-cases (is_empty t)) [
    | inl bare ↦ rw bare refl
    | inr full ↦ rw (full, get-set j k (escape_header t) h, other) refl
  ]

  pub values-set_text_other :
      (j k t : Bytes) (h : Header)
      → bytes_eq j k ≡ false
      → values j (set_text hs k t h) ≡ values j h
  unfolding set_text
  values-set_text_other j k t h other = elim (Bool-cases (is_empty t)) [
    | inl bare ↦ rw bare refl
    | inr full ↦ rw (full, values-set j k (escape_header t) h, other) refl
  ]

  pub get-set_number_other :
      (j k : Bytes) (o : Option ℕ) (h : Header)
      → bytes_eq j k ≡ false
      → get j (set_number hs k o h) ≡ get j h
  unfolding set_number
  get-set_number_other j k none h other = refl
  get-set_number_other j k (some n) h other = rw (get-set j k (itoa n) h, other) refl

  pub values-set_number_other :
      (j k : Bytes) (o : Option ℕ) (h : Header)
      → bytes_eq j k ≡ false
      → values j (set_number hs k o h) ≡ values j h
  unfolding set_number
  values-set_number_other j k none h other = refl
  values-set_number_other j k (some n) h other = rw (values-set j k (itoa n) h, other) refl

  pub get-set_if_other :
      (j : Bytes) (test : Bool) (k v : Bytes) (h : Header)
      → bytes_eq j k ≡ false
      → get j (set_if hs test k v h) ≡ get j h
  unfolding set_if
  get-set_if_other j true k v h other = rw (get-set j k v h, other) refl
  get-set_if_other j false k v h other = refl

  pub values-set_if_other :
      (j : Bytes) (test : Bool) (k v : Bytes) (h : Header)
      → bytes_eq j k ≡ false
      → values j (set_if hs test k v h) ≡ values j h
  unfolding set_if
  values-set_if_other j true k v h other = rw (values-set j k v h, other) refl
  values-set_if_other j false k v h other = refl

  -- A text comes back from its header, and an empty one from none.
  pub get-set_text :
      (k t : Bytes) (h : Header) → get k h ≡ [] → unescape_header (get k (set_text hs k t h)) ≡ t
  unfolding set_text escape_header needs_escape
  get-set_text k [] h none_there = rw none_there (unescape_header-escape_header [])
  get-set_text k (c ∷ t) h none_there =
      rw (get-set k k (escape_header (c ∷ t)) h, bytes_eq_refl k)
        (unescape_header-escape_header (c ∷ t))

  -- A number comes back from its header, and none from none.
  pub get_number-set_number :
      (parse : Bytes → Option ℕ) (k : Bytes) (o : Option ℕ) (h : Header)
      → get k h ≡ []
      → ((n : ℕ) → o ≡ some n → parse (itoa n) ≡ some n)
      → get_number hs parse k (set_number hs k o h) ≡ o
  unfolding get_number set_number
  get_number-set_number parse k none h none_there back = rw none_there refl
  get_number-set_number parse k (some n) h none_there back =
      rw (get-set k k (itoa n) h, bytes_eq_refl k, is_empty-itoa n) (back n refl)

  pub get-add_users :
      (j : Bytes) (us : List UserProperty) (h : Header)
      → bytes_eq j hdr_user_property ≡ false
      → get j (add_users hs us h) ≡ get j h
  unfolding add_users
  get-add_users j [] h other = refl
  get-add_users j (u ∷ us) h other =
      get-add_users j us (hs.add hdr_user_property (user_header u.key u.value) h) other
      ∙ get-add j hdr_user_property (user_header u.key u.value) h other

  take_users-one :
      (raws : List Bytes) (raw : Bytes) (u : UserProperty) (us : List UserProperty)
      → user_property raw ≡ some (u.key, u.value)
      → take_users hs (raws ++ raw ∷ []) ++ us ≡ take_users hs raws ++ u ∷ us
  unfolding take_users
  take_users-one [] raw u us read = rw (◌++◌, take_users, read) refl
  take_users-one (other ∷ raws) raw u us read = elim (Option-cases (user_property other)) [
    | inl nothing ↦ rw (◌++◌, take_users, nothing) (take_users-one raws raw u us read)
    | inr ((key, value), there) ↦
        rw (◌++◌, take_users, there)
          (ap (λ k. record { key = key; value = value } ∷ k) (take_users-one raws raw u us read))
  ]

  values-add_user : (k v : Bytes) (h : Header) → values k (hs.add k v h) ≡ values k h ++ v ∷ []
  values-add_user k v h = rw (values-add k k v h, bytes_eq_refl k) refl

  -- User Properties come back in their order, where no name holds a blank.
  pub take_users-add_users :
      (us : List UserProperty) (h : Header)
      → All (λ u. contains b' ' u.key ≡ false) us
      → take_users hs (values hdr_user_property (add_users hs us h))
        ≡ take_users hs (values hdr_user_property h) ++ us
  unfolding add_users
  take_users-add_users [] h free = sym (append-nil (take_users hs (values hdr_user_property h)))
  take_users-add_users (u ∷ us) h (free, rest) =
      let raw = user_header u.key u.value in
      take_users-add_users us (hs.add hdr_user_property raw h) rest
      ∙ ap (λ k. take_users hs k ++ us) (values-add_user hdr_user_property raw h)
      ∙ take_users-one (values hdr_user_property h) raw u us
          ((user_property_iff u.key u.value).1 free)
