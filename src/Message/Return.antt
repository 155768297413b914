-- ===== src/Message/Return.antt =====
-- A message through `toNATS` and back through `fromNATS`.
use natsmqtt.Prelude.{
  ℕ, ◌≤◌, ◌<◌, ◌^◌, ◌≡◌, refl, ap, ◌∙◌, false, Option, some, List, [], ◌∷◌, ◌++◌, arith, Bytes,
  bytes_eq, All,
}
use natsmqtt.Topic.Match.Levels.{bytes_eq_refl}
use natsmqtt.Topic.Strings.{contains}
use natsmqtt.Packet.Properties.{Properties}
use natsmqtt.Packet.Model.{Publish}
use natsmqtt.Message.Header.{unescape_header}
use natsmqtt.Message.Decimal.{itoa, parse_uint, atoi_upto, parse_uint-itoa, atoi_upto-itoa}
use natsmqtt.Message.Nats.{
  Headers, set_number, set_text, set_properties, set_message, get_number, take_users, hdr_qos,
  hdr_retain, hdr_payload_format, hdr_message_expiry, hdr_content_type, hdr_response_topic,
  hdr_correlation_data, hdr_user_property, hdr_origin, hdr_msg_id,
}
use natsmqtt.Message.Carried.{
  get-set_text_other, values-set_text_other, get-set_number_other, values-set_number_other,
  get-set_if_other, values-set_if_other, get-set_text, get_number-set_number, get-add_users,
  take_users-add_users,
}

abbrev pub property_keys : List Bytes
property_keys =
    hdr_payload_format ∷ hdr_message_expiry ∷ hdr_content_type ∷ hdr_response_topic
    ∷ hdr_correlation_data ∷ hdr_user_property ∷ []

abbrev pub message_keys : List Bytes
message_keys = hdr_qos ∷ hdr_msg_id ∷ hdr_retain ∷ hdr_origin ∷ []

abbrev pub OtherThan : Bytes → List Bytes → Type 0
OtherThan j keys = All (λ k. bytes_eq j k ≡ false) keys

module _ (hs : Headers) where
  open hs use {
    Header, no_headers, set, get, values, get-no_headers, values-no_headers, get-set, values-set,
  }

  pub get-set_other :
      (j k v : Bytes) (h : Header) → bytes_eq j k ≡ false → get j (set k v h) ≡ get j h
  get-set_other j k v h other = rw (get-set j k v h, other) refl

  pub values-set_other :
      (j k v : Bytes) (h : Header) → bytes_eq j k ≡ false → values j (set k v h) ≡ values j h
  values-set_other j k v h other = rw (values-set j k v h, other) refl

  pub get-set_same : (k v : Bytes) (h : Header) → get k (set k v h) ≡ v
  get-set_same k v h = rw (get-set k k v h, bytes_eq_refl k) refl

  -- A header that is none of a message's properties is what it was.
  pub get-set_properties_other :
      (j : Bytes) (q : Properties) (h : Header)
      → OtherThan j property_keys
      → get j (set_properties hs q h) ≡ get j h
  unfolding set_properties
  get-set_properties_other j q h (a, (b, (c, (d, (e, (f, _)))))) =
      get-add_users hs j q.user _ f
      ∙ get-set_text_other hs j _ q.correlation_data _ e
      ∙ get-set_text_other hs j _ q.response_topic _ d
      ∙ get-set_text_other hs j _ q.content_type _ c
      ∙ get-set_number_other hs j _ q.message_expiry_interval _ b
      ∙ get-set_number_other hs j _ q.payload_format h a

  -- A header that is none of those of the message itself is not there.
  pub get-set_message_other :
      (j id origin : Bytes) (p : Publish)
      → OtherThan j message_keys
      → get j (set_message hs id origin p) ≡ []
  unfolding set_message
  get-set_message_other j id origin p (a, (b, (c, (d, _)))) =
      get-set_text_other hs j _ origin _ d
      ∙ get-set_if_other hs j p.retain _ _ _ c
      ∙ get-set_other j _ id _ b
      ∙ get-set_other j _ (itoa p.qos) no_headers a
      ∙ get-no_headers j

  pub values-set_message_other :
      (j id origin : Bytes) (p : Publish)
      → OtherThan j message_keys
      → values j (set_message hs id origin p) ≡ []
  unfolding set_message
  values-set_message_other j id origin p (a, (b, (c, (d, _)))) =
      values-set_text_other hs j _ origin _ d
      ∙ values-set_if_other hs j p.retain _ _ _ c
      ∙ values-set_other j _ id _ b
      ∙ values-set_other j _ (itoa p.qos) no_headers a
      ∙ values-no_headers j

  -- What the properties' headers hold, whatever was set before them.
  pub get-text_in :
      (k t : Bytes) (h g : Header)
      → get k h ≡ []
      → get k g ≡ get k (set_text hs k t h)
      → unescape_header (get k g) ≡ t
  get-text_in k t h g blank same = ap unescape_header same ∙ get-set_text hs k t h blank

  get_number-in :
      (parse : Bytes → Option ℕ) (k : Bytes) (o : Option ℕ) (h g : Header)
      → get k h ≡ []
      → get k g ≡ get k (set_number hs k o h)
      → ((n : ℕ) → o ≡ some n → parse (itoa n) ≡ some n)
      → get_number hs parse k g ≡ o
  unfolding get_number
  get_number-in parse k o h g blank same back =
      rw same (get_number-set_number hs parse k o h blank back)

  pub payload_format_back :
      (q : Properties) (h : Header)
      → get hdr_payload_format h ≡ []
      → ((n : ℕ) → q.payload_format ≡ some n → n ≤ 1)
      → get_number hs (atoi_upto 1) hdr_payload_format (set_properties hs q h) ≡ q.payload_format
  unfolding set_properties bytes_eq
  payload_format_back q h blank small =
      get_number-in (atoi_upto 1) hdr_payload_format q.payload_format h (set_properties hs q h)
        blank
        (get-add_users hs _ q.user _ refl
          ∙ get-set_text_other hs _ _ q.correlation_data _ refl
          ∙ get-set_text_other hs _ _ q.response_topic _ refl
          ∙ get-set_text_other hs _ _ q.content_type _ refl
          ∙ get-set_number_other hs _ _ q.message_expiry_interval _ refl)
        (λ n e. atoi_upto-itoa 1 n (small n e) (omega arith))

  pub message_expiry_back :
      (q : Properties) (h : Header)
      → get hdr_message_expiry h ≡ []
      → ((n : ℕ) → q.message_expiry_interval ≡ some n → n < 2 ^ 32)
      → get_number hs (parse_uint (2 ^ 32)) hdr_message_expiry (set_properties hs q h)
        ≡ q.message_expiry_interval
  unfolding set_properties bytes_eq
  message_expiry_back q h blank small =
      get_number-in (parse_uint (2 ^ 32)) hdr_message_expiry q.message_expiry_interval
        (set_number hs hdr_payload_format q.payload_format h) (set_properties hs q h)
        (get-set_number_other hs _ _ q.payload_format h refl ∙ blank)
        (get-add_users hs _ q.user _ refl
          ∙ get-set_text_other hs _ _ q.correlation_data _ refl
          ∙ get-set_text_other hs _ _ q.response_topic _ refl
          ∙ get-set_text_other hs _ _ q.content_type _ refl)
        (λ n e. let s = small n e in parse_uint-itoa (2 ^ 32) n s (omega (arith, s)))

  pub content_type_back :
      (q : Properties) (h : Header)
      → get hdr_content_type h ≡ []
      → unescape_header (get hdr_content_type (set_properties hs q h)) ≡ q.content_type
  unfolding set_properties bytes_eq
  content_type_back q h blank =
      get-text_in hdr_content_type q.content_type _ (set_properties hs q h)
        (get-set_number_other hs _ _ q.message_expiry_interval _ refl
          ∙ get-set_number_other hs _ _ q.payload_format h refl
          ∙ blank)
        (get-add_users hs _ q.user _ refl
          ∙ get-set_text_other hs _ _ q.correlation_data _ refl
          ∙ get-set_text_other hs _ _ q.response_topic _ refl)

  pub response_topic_back :
      (q : Properties) (h : Header)
      → get hdr_response_topic h ≡ []
      → unescape_header (get hdr_response_topic (set_properties hs q h)) ≡ q.response_topic
  unfolding set_properties bytes_eq
  response_topic_back q h blank =
      get-text_in hdr_response_topic q.response_topic _ (set_properties hs q h)
        (get-set_text_other hs _ _ q.content_type _ refl
          ∙ get-set_number_other hs _ _ q.message_expiry_interval _ refl
          ∙ get-set_number_other hs _ _ q.payload_format h refl
          ∙ blank)
        (get-add_users hs _ q.user _ refl ∙ get-set_text_other hs _ _ q.correlation_data _ refl)

  pub correlation_data_back :
      (q : Properties) (h : Header)
      → get hdr_correlation_data h ≡ []
      → unescape_header (get hdr_correlation_data (set_properties hs q h)) ≡ q.correlation_data
  unfolding set_properties bytes_eq
  correlation_data_back q h blank =
      get-text_in hdr_correlation_data q.correlation_data _ (set_properties hs q h)
        (get-set_text_other hs _ _ q.response_topic _ refl
          ∙ get-set_text_other hs _ _ q.content_type _ refl
          ∙ get-set_number_other hs _ _ q.message_expiry_interval _ refl
          ∙ get-set_number_other hs _ _ q.payload_format h refl
          ∙ blank)
        (get-add_users hs _ q.user _ refl)

  pub user_back :
      (q : Properties) (h : Header)
      → values hdr_user_property h ≡ []
      → All (λ u. contains b' ' u.key ≡ false) q.user
      → take_users hs (values hdr_user_property (set_properties hs q h)) ≡ q.user
  unfolding set_properties bytes_eq take_users
  user_back q h blank free =
      take_users-add_users hs q.user _ free
      ∙ ap (λ k. take_users hs k ++ q.user)
          (values-set_text_other hs _ _ q.correlation_data _ refl
            ∙ values-set_text_other hs _ _ q.response_topic _ refl
            ∙ values-set_text_other hs _ _ q.content_type _ refl
            ∙ values-set_number_other hs _ _ q.message_expiry_interval _ refl
            ∙ values-set_number_other hs _ _ q.payload_format h refl
            ∙ blank)
