-- ===== src/Delivery/Whole.antt =====
-- A message from `toNATS` to what a connection delivers of it.
use natsmqtt.Prelude.{
  codes, ap, ℕ, ◌≤◌, ◌<◌, ◌^◌, ◌≡◌, refl, ◌∙◌, inl, inr, Bool, true, false, Option, none, some,
  List, [], ◌∷◌, Bytes, bytes_eq, ltb, ◌==◌, not, ◌&&◌, if◌then◌else◌, is_empty, arith, Bool-cases,
}
use natsmqtt.Topic.Match.{match}
use natsmqtt.Topic.Subject.{subject_to_name, prefix, name_to_subject}
use natsmqtt.Topic.RoundTrip.{subject_to_name-name_to_subject}
use natsmqtt.Topic.Prefix.{trim_prefix_iff}
use natsmqtt.Topic.Tokens.{validate_name-nonempty}
use natsmqtt.Topic.Validate.{validate_name}
use natsmqtt.Packet.Model.{Publish}
use natsmqtt.Packet.Properties.{Properties}
use natsmqtt.Message.Nats.{
  Msg, from_nats, Headers, set_properties, set_message, to_nats, hdr_msg_id,
}
use natsmqtt.Message.Carried.{get-set_text_other, get-set_if_other}
use natsmqtt.Message.Return.{get-set_other, get-set_same, get-set_properties_other}
use natsmqtt.Message.Forwarded.{forwarded, IsForwardable, from_nats-to_nats}
use natsmqtt.Cursor.State.{Subscription}
use natsmqtt.Delivery.Copies.{
  queue_seq-read_copy, get-read_copy, from_nats-read_copy, from_nats-keep_copy,
  live_subject-queued_subject,
}
use natsmqtt.Delivery.Queued.{
  keep_copy, min_qos, Delivery, Reader, read_copy, message_id, delivery_for, queued_for,
  deliver_each, deliver_queued_owed,
}

-- Whether a subscription is to get a message that `origin` published at QoS 1 or 2: one of its own,
-- of at least QoS 1, whose filter matches the topic, unless it is No Local and `origin` its client.
abbrev pub wants : Bytes → Bytes → Publish → Subscription → Bool
wants client origin p sub =
    is_empty sub.share
    && match sub.filter p.topic
    && not (sub.no_local && bytes_eq origin client)
    && ltb 0 sub.granted_qos

-- What it is to get of it.
abbrev pub copy : Bytes → ℕ → ℕ → Publish → Subscription → Delivery
copy id seq arrived p sub = record {
  sub = sub;
  id = id;
  seq = seq;
  topic = p.topic;
  payload = p.payload;
  qos = if ltb p.qos sub.granted_qos then p.qos else sub.granted_qos;
  retain = sub.retain_as_published && p.retain;
  props =
      if sub.id == 0
      then forwarded p.properties
      else record (forwarded p.properties) { subscription_identifiers = sub.id ∷ [] };
  arrived = arrived;
}

unfoldable pub copies : Bytes → Bytes → Bytes → ℕ → ℕ → Publish → List Subscription → List Delivery
copies client origin id seq arrived p [] = []
copies client origin id seq arrived p (sub ∷ subs) =
    let rest = copies client origin id seq arrived p subs in
    if wants client origin p sub then copy id seq arrived p sub ∷ rest else rest

name_to_subject-nonempty :
    (escape : Bool) (name subject : Bytes)
    → name_to_subject escape name ≡ some subject
    → is_empty subject ≡ false
unfolding name_to_subject subject_to_name
name_to_subject-nonempty escape name [] e =
    let none_there : [] ≡ name = subject_to_name-name_to_subject escape name [] e in
    elim (Bool-cases (validate_name escape name)) [
      | inl valid ↦
          let some_there = validate_name-nonempty escape name valid in
          ground (arith, ap is_empty none_there ∙ some_there)
      | inr invalid ↦ cc (rw invalid at e)
    ]
name_to_subject-nonempty escape name (c ∷ s) e = refl

module _ (hs : Headers) where
  -- A published message, stored under its queue subject and read from the queue.
  abbrev pub from_queue : Bytes → ℕ → Bytes → Bytes → Bytes → Bytes → Publish → Msg hs
  from_queue pre seq stamp id subject origin p =
      read_copy hs pre seq stamp
        (keep_copy hs pre subject (to_nats hs id (prefix pre subject) origin p))

  from_nats-from_queue :
      (pre : Bytes) (seq : ℕ) (stamp id subject origin : Bytes) (p : Publish)
      → p.qos ≤ 2
      → IsForwardable p.properties
      → from_nats hs (from_queue pre seq stamp id subject origin p).header ≡ record {
        qos = p.qos;
        retain = p.retain;
        origin = origin;
        properties = forwarded p.properties;
      }
  from_nats-from_queue pre seq stamp id subject origin p two ok =
      let live = to_nats hs id (prefix pre subject) origin p in
      from_nats-read_copy hs pre seq stamp (keep_copy hs pre subject live)
      ∙ from_nats-keep_copy hs pre subject live
      ∙ from_nats-to_nats hs id (prefix pre subject) origin p two ok

  id_header :
      (id origin : Bytes) (p : Publish) → hs.get hdr_msg_id (set_message hs id origin p) ≡ id
  unfolding set_message bytes_eq
  id_header id origin p =
      get-set_text_other hs _ _ origin _ refl
      ∙ get-set_if_other hs _ p.retain _ _ _ refl
      ∙ get-set_same hs _ id _

  id_header-properties :
      (id origin : Bytes) (p : Publish) (o : Option Properties)
      → hs.get hdr_msg_id (elim o [
        | none ↦ set_message hs id origin p
        | some q ↦ set_properties hs q (set_message hs id origin p)
      ])
        ≡ id
  unfolding bytes_eq
  id_header-properties id origin p none = id_header id origin p
  id_header-properties id origin p (some q) =
      get-set_properties_other hs _ q _ (refl, (refl, (refl, (refl, (refl, (refl, tt))))))
      ∙ id_header id origin p

  message_id-from_queue :
      (pre : Bytes) (seq : ℕ) (stamp id subject origin : Bytes) (p : Publish)
      → message_id hs (from_queue pre seq stamp id subject origin p) ≡ id
  unfolding message_id to_nats bytes_eq keep_copy
  message_id-from_queue pre seq stamp id subject origin p =
      let live = to_nats hs id (prefix pre subject) origin p in
      get-read_copy hs _ pre seq stamp (keep_copy hs pre subject live) refl refl
      ∙ get-set_other hs _ _ (codes "1") live.header refl
      ∙ id_header-properties id origin p p.properties

  queued_for-read_copy :
      (client pre : Bytes) (arrived seq : ℕ) (stamp id subject origin : Bytes) (p : Publish)
      (sub : Subscription)
      → 1 ≤ p.qos
      → p.qos ≤ 2
      → IsForwardable p.properties
      → seq < 2 ^ 64
      → queued_for hs client arrived false p.topic
          (from_queue pre seq stamp id subject origin p)
          sub
        ≡ (if wants client origin p sub then some (copy id seq arrived p sub) else none)
  unfolding queued_for delivery_for min_qos to_nats read_copy keep_copy
  queued_for-read_copy client pre arrived seq stamp id subject origin p sub one two ok small =
      let got = from_nats-from_queue pre seq stamp id subject origin p two ok in
      let own_id = message_id-from_queue pre seq stamp id subject origin p in
      let own_seq =
        queue_seq-read_copy hs pre seq stamp
          (keep_copy hs pre subject (to_nats hs id (prefix pre subject) origin p)) small in
      elim (Bool-cases (is_empty sub.share)) [
        | inr shared ↦ rw (queued_for, shared) refl
        | inl plain ↦ elim (Bool-cases (match sub.filter p.topic)) [
          | inr elsewhere ↦ rw (queued_for, plain, elsewhere) refl
          | inl matched ↦ elim (Bool-cases (sub.no_local && bytes_eq origin client)) [
            | inl own ↦ rw (queued_for, plain, matched, delivery_for, got, own) refl
            | inr other ↦ elim (Bool-cases (ltb 0 sub.granted_qos)) [
              | inr low ↦
                  let zero_qos : ((if ltb p.qos sub.granted_qos then p.qos else sub.granted_qos)
                        == 0)
                      ≡ true =
                    ground arith in
                  rw (queued_for, plain, matched, delivery_for, got, other, low, zero_qos) refl
              | inl high ↦
                  let some_qos : ((if ltb p.qos sub.granted_qos then p.qos else sub.granted_qos)
                        == 0)
                      ≡ false =
                    ground arith in
                  rw
                    (
                      queued_for, plain, matched, delivery_for, got, other, high, some_qos, own_id,
                      own_seq,
                    )
                    refl
            ]
          ]
        ]
      ]

  deliver_each-read_copy :
      (client pre : Bytes) (arrived seq : ℕ) (stamp id subject origin : Bytes) (p : Publish)
      (subs : List Subscription)
      → 1 ≤ p.qos
      → p.qos ≤ 2
      → IsForwardable p.properties
      → seq < 2 ^ 64
      → deliver_each hs
          (λ d. false)
          client
          arrived
          false
          p.topic
          (from_queue pre seq stamp id subject origin p)
          subs
        ≡ record { deliveries = copies client origin id seq arrived p subs; failed = false }
  unfolding deliver_each copies
  deliver_each-read_copy client pre arrived seq stamp id subject origin p [] one two ok small = refl
  deliver_each-read_copy client pre arrived seq stamp id subject origin p (sub ∷ subs) one two ok
        small =
      let each =
        queued_for-read_copy client pre arrived seq stamp id subject origin p sub one two ok
          small in
      let rest =
        deliver_each-read_copy client pre arrived seq stamp id subject origin p subs one two ok
          small in
      elim (Bool-cases (wants client origin p sub)) [
        | inl wanted ↦ rw (deliver_each, each, wanted, rest) refl
        | inr unwanted ↦ rw (deliver_each, each, unwanted, rest) refl
      ]

  -- A message of QoS 1 or 2 that was published under a Topic Name, stored in the queue and read from it
  -- is handed, where no delivery fails, to exactly the subscriptions that want it, in their order and
  -- once to each: under its topic, with its payload, its id and its sequence, at the smaller of its QoS
  -- and the one granted, with the retain flag where the subscription keeps it, and with the properties
  -- that the server forwards and the subscription's identifier. Its properties are within their
  -- bounds, no name of a User Property holds a blank, and its sequence fits 64 bits.
  pub deliver_queued-read_copy :
      (c : Reader) (escape : Bool) (arrived seq : ℕ) (stamp id subject origin : Bytes) (p : Publish)
      → 1 ≤ p.qos
      → p.qos ≤ 2
      → IsForwardable p.properties
      → seq < 2 ^ 64
      → name_to_subject escape p.topic ≡ some subject
      → deliver_queued_owed hs
          (λ d. false)
          c
          arrived
          false
          (read_copy hs c.subject_prefix seq stamp (
            keep_copy hs c.subject_prefix subject
              (to_nats hs id (prefix c.subject_prefix subject) origin p)))
        ≡ record { deliveries = copies c.client_id origin id seq arrived p c.subs; failed = false }
  unfolding deliver_queued_owed to_nats read_copy keep_copy
  deliver_queued-read_copy c escape arrived seq stamp id subject origin p one two ok small named =
      let pre = c.subject_prefix in
      let got = from_nats-from_queue pre seq stamp id subject origin p two ok in
      let high : (p.qos == 0) ≡ false = ground arith in
      let nonempty = name_to_subject-nonempty escape p.topic subject named in
      let live = live_subject-queued_subject pre subject nonempty in
      let inside = (trim_prefix_iff pre (prefix pre subject) subject).1 refl in
      let name = subject_to_name-name_to_subject escape p.topic subject named in
      rw (deliver_queued_owed, got, high, live, inside, name)
        (deliver_each-read_copy c.client_id pre arrived seq stamp id subject origin p c.subs one two
          ok small)
