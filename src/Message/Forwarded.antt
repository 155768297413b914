-- ===== src/Message/Forwarded.antt =====
-- What of a message `fromNATS` returns of what `toNATS` was given.
use natsmqtt.Prelude.{
  subst, ℕ, ◌≤◌, ◌<◌, ◌^◌, ◌≡◌, refl, ap, ◌∙◌, Bool, true, false, Option, none, some, [], arith,
  Bytes, codes, bytes_eq, All,
}
use natsmqtt.Topic.Strings.{contains}
use natsmqtt.Packet.Properties.{Properties, no_properties}
use natsmqtt.Packet.Model.{Publish}
use natsmqtt.Message.Header.{unescape_header, contains_percent}
use natsmqtt.Message.Decimal.{itoa, is_empty-itoa, parse_uint, atoi_upto, atoi_upto-itoa}
use natsmqtt.Message.Nats.{
  Headers, set_if, set_properties, set_message, to_nats, get_number, take_users, from_nats, hdr_qos,
  hdr_retain, hdr_payload_format, hdr_message_expiry, hdr_content_type, hdr_response_topic,
  hdr_correlation_data, hdr_user_property, hdr_origin,
}
use natsmqtt.Message.Carried.{get-set_text_other, get-set_if_other}
use natsmqtt.Message.Return.{
  property_keys, message_keys, OtherThan, get-set_other, get-set_same, get-set_properties_other,
  get-set_message_other, values-set_message_other, get-text_in, payload_format_back,
  message_expiry_back, content_type_back, response_topic_back, correlation_data_back, user_back,
}

-- What the properties of a packet are once they travelled: those the server forwards.
unfoldable pub forwarded : Option Properties → Properties
forwarded none = no_properties
forwarded (some q) = record no_properties {
  payload_format = q.payload_format;
  message_expiry_interval = q.message_expiry_interval;
  content_type = q.content_type;
  response_topic = q.response_topic;
  correlation_data = q.correlation_data;
  user = q.user;
}

abbrev pub IsBelow : ℕ → Option ℕ → Type 0
IsBelow bound none = Unit
IsBelow bound (some n) = n < bound

IsBelow-some : (bound : ℕ) (o : Option ℕ) → IsBelow bound o → (n : ℕ) → o ≡ some n → n < bound
IsBelow-some bound o h n e = subst (IsBelow bound) e h

-- The values the decoder of a packet lets through, and no blank in the name of a User Property.
abbrev pub IsForwardable : Option Properties → Type 0
IsForwardable none = Unit
IsForwardable (some q) =
    IsBelow 2 q.payload_format
    × IsBelow (2 ^ 32) q.message_expiry_interval
    × All (λ u. contains b' ' u.key ≡ false) q.user

module _ (hs : Headers) where
  open hs use {Header, no_headers, set, get, values, get-no_headers}

  retain_header :
      (b : Bool) (h : Header)
      → get hdr_retain h ≡ []
      → bytes_eq (get hdr_retain (set_if hs b hdr_retain (codes "1") h)) (codes "1") ≡ b
  unfolding set_if bytes_eq
  retain_header true h blank = rw (get-set_same hs hdr_retain (codes "1") h) refl
  retain_header false h blank = rw blank refl

  qos_back :
      (id origin : Bytes) (p : Publish) (g : Header)
      → p.qos ≤ 2
      → get hdr_qos g ≡ get hdr_qos (set_message hs id origin p)
      → get_number hs (atoi_upto 2) hdr_qos g ≡ some p.qos
  unfolding set_message bytes_eq get_number
  qos_back id origin p g small same =
      let there : get hdr_qos g ≡ itoa p.qos =
        same
        ∙ get-set_text_other hs _ _ origin _ refl
        ∙ get-set_if_other hs _ p.retain _ _ _ refl
        ∙ get-set_other hs _ _ id _ refl
        ∙ get-set_same hs hdr_qos (itoa p.qos) no_headers in
      rw (there, is_empty-itoa p.qos) (atoi_upto-itoa 2 p.qos small (omega arith))

  retain_back :
      (id origin : Bytes) (p : Publish) (g : Header)
      → get hdr_retain g ≡ get hdr_retain (set_message hs id origin p)
      → bytes_eq (get hdr_retain g) (codes "1") ≡ p.retain
  unfolding set_message bytes_eq
  retain_back id origin p g same =
      ap (λ v. bytes_eq v (codes "1")) (same ∙ get-set_text_other hs _ _ origin _ refl)
      ∙ retain_header p.retain _ (
          get-set_other hs _ _ id _ refl
          ∙ get-set_other hs _ _ (itoa p.qos) no_headers refl
          ∙ get-no_headers _)

  origin_back :
      (id origin : Bytes) (p : Publish) (g : Header)
      → get hdr_origin g ≡ get hdr_origin (set_message hs id origin p)
      → unescape_header (get hdr_origin g) ≡ origin
  unfolding set_message bytes_eq
  origin_back id origin p g same =
      get-text_in hs hdr_origin origin _ g
        (get-set_if_other hs _ p.retain _ _ _ refl
          ∙ get-set_other hs _ _ id _ refl
          ∙ get-set_other hs _ _ (itoa p.qos) no_headers refl
          ∙ get-no_headers _)
        same

  absent_number :
      (parse : Bytes → Option ℕ) (k : Bytes) (g : Header)
      → get k g ≡ []
      → get_number hs parse k g ≡ none
  unfolding get_number
  absent_number parse k g blank = rw blank refl

  -- The parts of the result, each on its own.
  from_nats-parts :
      (g : Header) (qos : ℕ) (retain : Bool) (origin : Bytes) (q : Properties)
      → get_number hs (atoi_upto 2) hdr_qos g ≡ some qos
      → bytes_eq (get hdr_retain g) (codes "1") ≡ retain
      → unescape_header (get hdr_origin g) ≡ origin
      → get_number hs (atoi_upto 1) hdr_payload_format g ≡ q.payload_format
      → get_number hs (parse_uint (2 ^ 32)) hdr_message_expiry g ≡ q.message_expiry_interval
      → unescape_header (get hdr_content_type g) ≡ q.content_type
      → unescape_header (get hdr_response_topic g) ≡ q.response_topic
      → unescape_header (get hdr_correlation_data g) ≡ q.correlation_data
      → take_users hs (values hdr_user_property g) ≡ q.user
      → from_nats hs g
        ≡ record { qos = qos; retain = retain; origin = origin; properties = forwarded (some q) }
  unfolding from_nats forwarded
  from_nats-parts g qos retain origin q a b c d e f t u v = rw (a, b, c, d, e, f, t, u, v) refl

  from_nats-headers :
      (id origin : Bytes) (p : Publish)
      → p.qos ≤ 2
      → (o : Option Properties) → IsForwardable o
      → from_nats hs (elim o [
        | none ↦ set_message hs id origin p
        | some q ↦ set_properties hs q (set_message hs id origin p)
      ])
        ≡ record { qos = p.qos; retain = p.retain; origin = origin; properties = forwarded o }
  unfolding forwarded bytes_eq get_number take_users unescape_header contains_percent
  from_nats-headers id origin p small none ok =
      let h = set_message hs id origin p in
      from_nats-parts h p.qos p.retain origin no_properties (qos_back id origin p h small refl)
        (retain_back id origin p h refl) (origin_back id origin p h refl)
        (absent_number (atoi_upto 1) _ h
          (get-set_message_other hs _ id origin p (refl, (refl, (refl, (refl, tt))))))
        (absent_number (parse_uint (2 ^ 32)) _ h
          (get-set_message_other hs _ id origin p (refl, (refl, (refl, (refl, tt))))))
        (ap unescape_header
          (get-set_message_other hs _ id origin p (refl, (refl, (refl, (refl, tt))))))
        (ap unescape_header
          (get-set_message_other hs _ id origin p (refl, (refl, (refl, (refl, tt))))))
        (ap unescape_header
          (get-set_message_other hs _ id origin p (refl, (refl, (refl, (refl, tt))))))
        (ap (take_users hs)
          (values-set_message_other hs _ id origin p (refl, (refl, (refl, (refl, tt))))))
  from_nats-headers id origin p small (some q) (format, expiry, users) =
      let h = set_message hs id origin p in
      let g = set_properties hs q h in
      let blank : (j : Bytes) → OtherThan j message_keys → get j h ≡ [] =
        λ j other. get-set_message_other hs j id origin p other in
      let kept : (j : Bytes) → OtherThan j property_keys → get j g ≡ get j h =
        λ j other. get-set_properties_other hs j q h other in
      from_nats-parts g p.qos p.retain origin q
        (qos_back id origin p g small (kept _ (refl, (refl, (refl, (refl, (refl, (refl, tt))))))))
        (retain_back id origin p g (kept _ (refl, (refl, (refl, (refl, (refl, (refl, tt))))))))
        (origin_back id origin p g (kept _ (refl, (refl, (refl, (refl, (refl, (refl, tt))))))))
        (payload_format_back hs q h (blank _ (refl, (refl, (refl, (refl, tt)))))
          (λ n e. omega (arith, IsBelow-some 2 _ format n e)))
        (message_expiry_back hs q h (blank _ (refl, (refl, (refl, (refl, tt)))))
          (IsBelow-some (2 ^ 32) _ expiry))
        (content_type_back hs q h (blank _ (refl, (refl, (refl, (refl, tt))))))
        (response_topic_back hs q h (blank _ (refl, (refl, (refl, (refl, tt))))))
        (correlation_data_back hs q h (blank _ (refl, (refl, (refl, (refl, tt))))))
        (user_back hs q h
          (values-set_message_other hs _ id origin p (refl, (refl, (refl, (refl, tt))))) users)

  -- A message comes back from its headers with its quality of service, its retain flag, the
  -- identifier of its publisher and the properties that the server must forward, User Properties in
  -- their order; whatever the headers of a message are kept in.
  pub from_nats-to_nats :
      (id subject origin : Bytes) (p : Publish)
      → p.qos ≤ 2
      → IsForwardable p.properties
      → from_nats hs (to_nats hs id subject origin p).header ≡ record {
        qos = p.qos;
        retain = p.retain;
        origin = origin;
        properties = forwarded p.properties;
      }
  unfolding to_nats
  from_nats-to_nats id subject origin p small ok =
      from_nats-headers id origin p small p.properties ok
