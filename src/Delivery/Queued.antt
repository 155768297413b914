-- ===== src/Delivery/Queued.antt =====
-- `deliverQueuedOwed` and `owedBy`: offline.go, subscribe.go and cursor.go.
use natsmqtt.Prelude.{
  ◌++◌, length, drop, ℕ, ◌+◌, ◌-◌, ◌*◌, ◌^◌, Bool, true, false, Option, none, some, List, [], ◌∷◌,
  Bytes, codes, bytes_eq, ltb, leb, ◌==◌, not, ◌&&◌, ◌||◌, if◌then◌else◌, is_empty,
}
use natsmqtt.Topic.Match.{match}
use natsmqtt.Topic.Strings.{has_prefix}
use natsmqtt.Topic.Subject.{subject_to_name, prefix, trim_prefix}
use natsmqtt.Packet.Properties.{Properties}
use natsmqtt.Message.Nats.{Headers, Received, Msg, from_nats, hdr_msg_id}
use natsmqtt.Message.Decimal.{itoa}
use natsmqtt.Cursor.State.{Subscription, since_unknown}

abbrev pub hdr_queue_seq : Bytes
hdr_queue_seq = codes "Mqtt5-Queue-Seq"

abbrev pub hdr_arrived : Bytes
hdr_arrived = codes "Mqtt5-Arrived"

abbrev pub hdr_queued : Bytes
hdr_queued = codes "Mqtt5-Queued"

-- `queuedSubject`
unfoldable pub queued_subject : Bytes → Bytes → Bytes
queued_subject pre subject = prefix pre (codes "$queue." ++ subject)

-- The live subject of a copy that is read back.
unfoldable pub live_subject : Bytes → Bytes → Bytes
live_subject pre subject =
    let queued_prefix = queued_subject pre [] in
    if ltb (length queued_prefix) (length subject) && has_prefix queued_prefix subject
    then prefix pre (drop (length queued_prefix) subject)
    else subject

-- `strconv.ParseUint` of 64 bits, its error dropped: 0 for what is no number, the largest value for
-- one that does not fit.
unfoldable pub parse_seq : ℕ → Bytes → ℕ
parse_seq n [] = n
parse_seq n (c ∷ s) =
    let value = 10 * n + (c - b'0') in
    let rest = parse_seq value s in
    if leb b'0' c && leb c b'9' then (if ltb value (2 ^ 64) then rest else 2 ^ 64 - 1) else 0

-- `minQoS`
unfoldable pub min_qos : ℕ → ℕ → ℕ
min_qos a b = if ltb a b then a else b

-- `delivery`
pub record Delivery : Type 0 where
  pub sub : Subscription
  pub id : Bytes
  pub seq : ℕ
  pub topic : Bytes
  pub payload : Bytes
  pub qos : ℕ
  pub retain : Bool
  pub props : Properties
  pub arrived : ℕ

-- The parts of a `conn` and of its broker that deliveries read.
pub record Reader : Type 0 where
  pub client_id : Bytes
  pub subject_prefix : Bytes
  pub subs : List Subscription

-- What was handed to `deliver`, and whether the last of it failed.
pub record Handed : Type 0 where
  pub deliveries : List Delivery
  pub failed : Bool

abbrev pub nothing_handed : Handed
nothing_handed = record { deliveries = []; failed = false }

-- Whether the message's id is put among the replayed.
unfoldable pub marks_replayed : Handed → Bool
marks_replayed h = not (is_empty h.deliveries) && not h.failed

-- The loop of `owedBy`.
unfoldable pub owed_each : Bytes → Received → Bytes → ℕ → Bool → List Subscription → Bool × Bool
owed_each client got name seq matched [] = (matched, false)
owed_each client got name seq matched (sub ∷ subs) =
    let rest = owed_each client got name seq matched subs in
    let found = owed_each client got name seq true subs in
    if not (is_empty sub.share) || not (match sub.filter name)
    then rest
    else if sub.no_local && bytes_eq got.origin client
    then rest
    else if min_qos got.qos sub.granted_qos == 0
    then rest
    else if not (sub.since == since_unknown) && ltb sub.since seq
    then (true, true)
    else found

module _ (hs : Headers) where
  -- `keep`: the copy of a message that is stored. `subject` has no prefix.
  unfoldable pub keep_copy : Bytes → Bytes → Msg hs → Msg hs
  keep_copy pre subject msg = record {
    subject = queued_subject pre subject;
    header = hs.set hdr_queued (codes "1") msg.header;
    payload = msg.payload;
  }

  -- A stored copy as it is read from the queue; `stamp` is the time of its storing as a text.
  unfoldable pub read_copy : Bytes → ℕ → Bytes → Msg hs → Msg hs
  read_copy pre seq stamp stored = record {
    subject = live_subject pre stored.subject;
    header = hs.set hdr_arrived stamp (hs.set hdr_queue_seq (itoa seq) stored.header);
    payload = stored.payload;
  }

  unfoldable pub queue_seq : Msg hs → ℕ
  queue_seq msg = parse_seq 0 (hs.get hdr_queue_seq msg.header)

  unfoldable pub message_id : Msg hs → Bytes
  message_id msg = hs.get hdr_msg_id msg.header

  -- `deliveryFor`; `arrived` is what `arrivedAt` gives.
  unfoldable pub delivery_for : Bytes → ℕ → Subscription → Bytes → Msg hs → Option Delivery
  delivery_for client arrived sub name msg =
      let got = from_nats hs msg.header in
      if sub.no_local && bytes_eq got.origin client
      then none
      else some (record {
        sub = sub;
        id = message_id msg;
        seq = queue_seq msg;
        topic = name;
        payload = msg.payload;
        qos = min_qos got.qos sub.granted_qos;
        retain = sub.retain_as_published && got.retain;
        props =
            if sub.id == 0
            then got.properties
            else record (got.properties) { subscription_identifiers = sub.id ∷ [] };
        arrived = arrived;
      })

  -- What a message is to one subscription: `none` where the loop goes on without it.
  unfoldable pub queued_for : Bytes → ℕ → Bool → Bytes → Msg hs → Subscription → Option Delivery
  queued_for client arrived owed_only name msg sub =
      if not (is_empty sub.share) || not (match sub.filter name)
      then none
      else if owed_only && not (sub.since == since_unknown) && leb (queue_seq msg) sub.since
      then none
      else elim (delivery_for client arrived sub name msg) [
        | none ↦ none
        | some d ↦ if d.qos == 0 then none else some d
      ]

  -- The loop over the subscriptions; `fails` says which calls of `deliver` fail.
  unfoldable pub deliver_each :
      (Delivery → Bool) → Bytes → ℕ → Bool → Bytes → Msg hs → List Subscription → Handed
  deliver_each fails client arrived owed_only name msg [] = nothing_handed
  deliver_each fails client arrived owed_only name msg (sub ∷ subs) =
      let rest = deliver_each fails client arrived owed_only name msg subs in
      elim (queued_for client arrived owed_only name msg sub) [
        | none ↦ rest
        | some d ↦
            if fails d
            then record { deliveries = d ∷ []; failed = true }
            else record { deliveries = d ∷ rest.deliveries; failed = rest.failed }
      ]

  -- `deliverQueuedOwed`
  unfoldable pub deliver_queued_owed : (Delivery → Bool) → Reader → ℕ → Bool → Msg hs → Handed
  deliver_queued_owed fails c arrived owed_only msg =
      if (from_nats hs msg.header).qos == 0
      then nothing_handed
      else elim (trim_prefix c.subject_prefix msg.subject) [
        | none ↦ nothing_handed
        | some subject ↦
            deliver_each fails c.client_id arrived owed_only (subject_to_name subject) msg c.subs
      ]

  -- `owedBy`
  unfoldable pub owed_by : Reader → Msg hs → ℕ → Bool × Bool
  owed_by c msg seq =
      let got = from_nats hs msg.header in
      if got.qos == 0 then (false, false) else elim (trim_prefix c.subject_prefix msg.subject) [
        | none ↦ (false, false)
        | some subject ↦ owed_each c.client_id got (subject_to_name subject) seq false c.subs
      ]
