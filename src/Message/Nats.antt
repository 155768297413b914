-- ===== src/Message/Nats.antt =====
-- `toNATS` and `fromNATS` of message.go. The headers of a NATS message are the nats.go library's: a
-- parameter, with what its documentation says of `Set`, `Add`, `Get` and `Values`.
use natsmqtt.Prelude.{
  ℕ, ◌^◌, ◌≡◌, Bool, false, Option, none, some, List, [], ◌∷◌, ◌++◌, Bytes, codes, bytes_eq,
  if◌then◌else◌, is_empty,
}
use natsmqtt.Packet.Properties.{UserProperty, Properties, no_properties}
use natsmqtt.Packet.Model.{Publish}
use natsmqtt.Message.Header.{escape_header, unescape_header, user_header, user_property}
use natsmqtt.Message.Decimal.{itoa, parse_uint, atoi_upto}

-- `nats.Header`
pub record Headers : Type 1 where
  pub Header : Type 0
  pub no_headers : Header
  pub set : Bytes → Bytes → Header → Header
  pub add : Bytes → Bytes → Header → Header
  pub get : Bytes → Header → Bytes
  pub values : Bytes → Header → List Bytes
  pub get-no_headers : (j : Bytes) → get j no_headers ≡ []
  pub values-no_headers : (j : Bytes) → values j no_headers ≡ []
  pub get-set :
      (j k v : Bytes) (h : Header) → get j (set k v h) ≡ (if bytes_eq j k then v else get j h)
  pub values-set :
      (j k v : Bytes) (h : Header)
      → values j (set k v h) ≡ (if bytes_eq j k then v ∷ [] else values j h)
  pub get-add : (j k v : Bytes) (h : Header) → bytes_eq j k ≡ false → get j (add k v h) ≡ get j h
  pub values-add :
      (j k v : Bytes) (h : Header)
      → values j (add k v h) ≡ (if bytes_eq j k then values j h ++ v ∷ [] else values j h)

abbrev pub hdr_qos : Bytes
hdr_qos = codes "Mqtt5-Qos"

abbrev pub hdr_retain : Bytes
hdr_retain = codes "Mqtt5-Retain"

abbrev pub hdr_payload_format : Bytes
hdr_payload_format = codes "Mqtt5-Payload-Format"

abbrev pub hdr_message_expiry : Bytes
hdr_message_expiry = codes "Mqtt5-Message-Expiry"

abbrev pub hdr_content_type : Bytes
hdr_content_type = codes "Mqtt5-Content-Type"

abbrev pub hdr_response_topic : Bytes
hdr_response_topic = codes "Mqtt5-Response-Topic"

abbrev pub hdr_correlation_data : Bytes
hdr_correlation_data = codes "Mqtt5-Correlation-Data"

abbrev pub hdr_user_property : Bytes
hdr_user_property = codes "Mqtt5-User"

abbrev pub hdr_origin : Bytes
hdr_origin = codes "Mqtt5-Origin"

abbrev pub hdr_msg_id : Bytes
hdr_msg_id = codes "Mqtt5-Msg-Id"

-- What `fromNATS` returns.
pub record Received : Type 0 where
  pub qos : ℕ
  pub retain : Bool
  pub origin : Bytes
  pub properties : Properties

module _ (hs : Headers) where
  open hs use {Header, no_headers, set, add, get, values}

  -- `nats.Msg`
  pub record Msg : Type 0 where
    pub subject : Bytes
    pub header : Header
    pub payload : Bytes

  unfoldable pub set_if : Bool → Bytes → Bytes → Header → Header
  set_if test key value h = if test then set key value h else h

  unfoldable pub set_number : Bytes → Option ℕ → Header → Header
  set_number key none h = h
  set_number key (some n) h = set key (itoa n) h

  -- A value that is escaped, unless it is empty.
  unfoldable pub set_text : Bytes → Bytes → Header → Header
  set_text key text h = if is_empty text then h else set key (escape_header text) h

  unfoldable pub add_users : List UserProperty → Header → Header
  add_users [] h = h
  add_users (u ∷ us) h = add_users us (add hdr_user_property (user_header u.key u.value) h)

  unfoldable pub set_properties : Properties → Header → Header
  set_properties q h = add_users q.user (
      set_text hdr_correlation_data q.correlation_data (
        set_text hdr_response_topic q.response_topic (
          set_text hdr_content_type q.content_type (
            set_number hdr_message_expiry q.message_expiry_interval
              (set_number hdr_payload_format q.payload_format h)))))

  -- The headers of the message itself.
  unfoldable pub set_message : Bytes → Bytes → Publish → Header
  set_message id origin p = set_text hdr_origin origin (
      set_if p.retain hdr_retain (codes "1")
        (set hdr_msg_id id (set hdr_qos (itoa p.qos) no_headers)))

  -- `toNATS`; `id` is the result of `newMessageID`.
  unfoldable pub to_nats : Bytes → Bytes → Bytes → Publish → Msg
  to_nats id subject origin p = record {
    subject = subject;
    header = elim (p.properties) [
      | none ↦ set_message id origin p
      | some q ↦ set_properties q (set_message id origin p)
    ];
    payload = p.payload;
  }

  unfoldable pub get_number : (Bytes → Option ℕ) → Bytes → Header → Option ℕ
  get_number parse key h = let v = get key h in if is_empty v then none else parse v

  unfoldable pub take_users : List Bytes → List UserProperty
  take_users [] = []
  take_users (raw ∷ raws) =
      let rest = take_users raws in
      elim (user_property raw) [
        | none ↦ rest
        | some (key, value) ↦ record { key = key; value = value } ∷ rest
      ]

  -- `fromNATS`; a message without headers has those of `no_headers`.
  unfoldable pub from_nats : Header → Received
  from_nats h = record {
    qos = elim (get_number (atoi_upto 2) hdr_qos h) [ none ↦ 0 | some n ↦ n ];
    retain = bytes_eq (get hdr_retain h) (codes "1");
    origin = unescape_header (get hdr_origin h);
    properties = record no_properties {
      payload_format = get_number (atoi_upto 1) hdr_payload_format h;
      message_expiry_interval = get_number (parse_uint (2 ^ 32)) hdr_message_expiry h;
      content_type = unescape_header (get hdr_content_type h);
      response_topic = unescape_header (get hdr_response_topic h);
      correlation_data = unescape_header (get hdr_correlation_data h);
      user = take_users (values hdr_user_property h);
    };
  }
