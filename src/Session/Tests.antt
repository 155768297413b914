-- ===== src/Session/Tests.antt =====
-- The exchanges of a session on small inputs.
use natsmqtt.Prelude.{
  List, bytes_eq, ◌||◌, ℕ, ◌+◌, ◌^◌, ◌≤◌, ◌<◌, ◌≡◌, ◌↔◌, refl, inl, inr, true, false, Option, none,
  some, [], ◌∷◌, ◌++◌, arith,
}
use natsmqtt.Dict.{insert, erase, contains, lookup, number_key}
use natsmqtt.Dict.Count.{count, one_if}
use natsmqtt.Session.State.{Outbound, Exchanges}
use natsmqtt.Session.Identifiers.{following, is_used, find_id, next_id}
use natsmqtt.Session.Inflight.{
  ack_completed, complete_inflight_locked, retire_blob_locked, leave_slot, leave_owed,
  track_inflight, unacknowledged, complete_inflight,
}
use natsmqtt.Session.Received.{mark_qos2_received, release_qos2, refuse_qos2}
use natsmqtt.Session.Handlers.{finish_puback, Client, Reply, Served, handle_puback, handle_pubcomp}
use natsmqtt.Session.Attach.{
  is_taken, withdraw_each, withdraw_inflight_locked, give_back, withdraw_inflight,
}
use natsmqtt.Session.Slots.{withdraw_inflight-slots}
use natsmqtt.Topic.Match.{match_any, match, match_plain, is_dollar, starts_wild, match_levels}
use natsmqtt.Topic.Validate.{is_shared}
use natsmqtt.Topic.Strings.{has_prefix, split}
use natsmqtt.Session.Fresh.{next_id_fresh, next_id-none}
use natsmqtt.Session.Order.{SentUpTo, unacknowledged-track_inflight}
use natsmqtt.Session.Once.{Event, handle, handle_all, is_open, received_qos2-is_open}
use natsmqtt.Session.Quota.{slots, complete_inflight-slots}
use natsmqtt.Session.Acks.{IsKept, IsExact, handle_pubcomp-IsExact, handle_puback-IsExact}

abbrev sent : ℕ → ℕ → Outbound
sent id qos = record {
  packet_id = id;
  qos = qos;
  awaiting_pubcomp = false;
  topic = 97 ∷ [];
  seq = 1;
  blob_key = [];
  quota_held = true;
  resent_on = none;
  ack_subject = [];
}

abbrev idle : Exchanges
idle = record {
  conn = some 1;
  next_packet_id = 7;
  inflight = [];
  dead_blobs = [];
  send_seq = 1;
  received_qos2 = [];
  qos2_forwarding = [];
  withdrawn = [];
  attaches = 1;
  resent = [];
  has_holds = false;
  acked = [];
  handed_back = [];
}

abbrev busy : Exchanges
busy = record idle { inflight = (8, sent 8 1) ∷ [] }

abbrev client : Client
client = record { ident = 1; used = 1; activity = 0; open_qos2 = [] }

abbrev serving : Served
serving = record { session = busy; client = client }

found_nine : (next_id busy).1 ≡ some 9
unfolding next_id find_id following is_used lookup
found_nine = refl

next_id_fresh_example :
    (1 ≤ 9)
    × (9 < 2 ^ 16)
    × (lookup 9 busy.inflight ≡ none)
    × (lookup 9 busy.withdrawn ≡ none)
    × ((next_id busy).0.next_packet_id ≡ 9)
next_id_fresh_example = next_id_fresh busy 9 found_nine

next_id-none_example : ((next_id busy).1 ≡ none) ↔ (
    (n : ℕ) → 1 ≤ n → n < 2 ^ 16 → (contains n busy.inflight || contains n busy.withdrawn) ≡ true)
next_id-none_example = next_id-none busy (omega arith)

unacknowledged-track_inflight_example :
    (unacknowledged (track_inflight (sent 9 2) busy)
      ≡ unacknowledged busy ++ record (sent 9 2) { seq = busy.send_seq + 1 } ∷ [])
    × SentUpTo (track_inflight (sent 9 2) busy).send_seq (track_inflight (sent 9 2) busy).inflight
unfolding lookup
unacknowledged-track_inflight_example =
    unacknowledged-track_inflight (sent 9 2) busy (omega arith) (omega arith, tt) refl

-- A PUBLISH, refused, and again: the second is new, and then a repeat.
abbrev refused_once : List Event
refused_once = Event.publish 5 ∷ Event.refused 5 ∷ Event.publish 5 ∷ []

after_refusal :
    (mark_qos2_received 5 (handle_all (Event.refused 5 ∷ Event.publish 5 ∷ []) idle)).1 ≡ false
unfolding mark_qos2_received handle_all handle refuse_qos2 release_qos2 insert erase lookup
after_refusal = refl

received_qos2-is_open_example :
    ((mark_qos2_received 5 (handle_all refused_once idle)).1 ≡ is_open 5 refused_once)
    × ((release_qos2 5 (handle_all refused_once idle)).1 ≡ is_open 5 refused_once)
received_qos2-is_open_example = received_qos2-is_open 5 refused_once idle refl

only_eight : (id : ℕ) (o : Outbound) → lookup id busy.inflight ≡ some o → sent 8 1 ≡ o
unfolding lookup
only_eight id o h = ground arith

busy-IsKept : IsKept 1 busy
unfolding lookup
busy-IsKept = record {
  inflight_once = (refl, tt);
  withdrawn_once = tt;
  resent_once = tt;
  apart = λ id o h. refl;
  charged = λ id o h. let same = only_eight id o h in inr (inl (ground arith));
}

acked : (handle_puback 8 serving).1 ≡ Reply.nothing
unfolding handle_puback finish_puback complete_inflight ack_completed complete_inflight_locked
    retire_blob_locked leave_slot leave_owed lookup
acked = refl

handle_puback-IsExact_example : IsExact 1 (handle_puback 8 serving).0
unfolding count
handle_puback-IsExact_example = handle_puback-IsExact 8 serving busy-IsKept refl acked

handle_pubcomp-IsExact_example : IsExact 1 (handle_pubcomp 3 serving).0
unfolding count
handle_pubcomp-IsExact_example = handle_pubcomp-IsExact 3 serving busy-IsKept refl

complete_inflight-slots_example :
    (s' : Exchanges) × (done : Outbound) × (◌≡◌ {A = Exchanges × Option Outbound}
      (complete_inflight 1 8 busy)
      (s', some done))
    × (slots 1 s' + one_if done.quota_held ≡ slots 1 busy)
unfolding lookup
complete_inflight-slots_example = complete_inflight-slots 1 1 8 busy (sent 8 1) (record {
  inflight_once = (refl, tt);
  resent_once = tt;
  there = refl;
  not_withdrawn = refl;
  charged = inr (inl refl);
})

-- The message in flight is taken back.
taken_back : (withdraw_inflight ((97 ∷ []) ∷ []) [] busy).1 ≡ 8 ∷ []
unfolding withdraw_inflight withdraw_inflight_locked withdraw_each give_back is_taken match_any
    match is_shared has_prefix bytes_eq match_plain is_dollar starts_wild match_levels split
taken_back = refl

withdraw_inflight-slots_example :
    slots 1 (withdraw_inflight ((97 ∷ []) ∷ []) [] busy).0 ≡ slots 1 busy
unfolding lookup
withdraw_inflight-slots_example =
    withdraw_inflight-slots ((97 ∷ []) ∷ []) [] 1 busy (refl, tt) refl (refl, tt)
