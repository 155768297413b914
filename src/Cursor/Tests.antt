-- ===== src/Cursor/Tests.antt =====
-- Runs of the cursor on small inputs.
use natsmqtt.Prelude.{ℕ, ◌≤◌, ◌<◌, ◌≡◌, refl, true, false, some, List, [], ◌∷◌, Bytes, length}
use natsmqtt.Dict.{lookup, insert, erase, number_key, text_key}
use natsmqtt.Cursor.State.{Limits, default_limits, Subscription, Conn, Session}
use natsmqtt.Cursor.Holes.{CursorView, remove_hole, since_known_locked, count_above_locked}
use natsmqtt.Cursor.Deliver.{mark_delivered, prune_delivered, ask_scan, note_delivered}
use natsmqtt.Cursor.Scan.{
  Scanned, holds, all_held, same_subs_locked, add_read, move_cursor, apply_scan_locked, apply_scan,
  scan_again,
}
use natsmqtt.Cursor.Replay.{set_since}
use natsmqtt.Cursor.Run.{Step, During, Reach, new_cursor}
use natsmqtt.Cursor.Accounts.Run.{World}
use natsmqtt.Cursor.Fit.Run.{Reach-holes_bounds}
use natsmqtt.Cursor.Ask.{note_delivered-scan_again}

abbrev sub : Subscription
sub = record {
  ident = 1;
  filter = 97 ∷ [];
  share = [];
  granted_qos = 1;
  retain_as_published = false;
  id = 0;
  no_local = false;
  since = 4;
}

abbrev client : Conn
client = record {
  ident = 1;
  closed = false;
  resuming = false;
  pending = [];
  in_hand = 0;
  from_seq = 0;
  stream_next = 0;
}

abbrev new_session : Session
new_session = record {
  cur = new_cursor;
  subs = sub ∷ [];
  delivered = [];
  max_delivered_seq = 0;
  late_seq = 0;
  away_late_seq = 0;
  away = false;
  stored = false;
  conn = some 1;
  activity = 0;
  window = 60;
}

abbrev id_at : ℕ → Bytes
id_at seq = seq ∷ []

abbrev Owed : ℕ → Type 0
Owed seq = 5 ≤ seq

abbrev read : List Scanned
read =
    record { seq = 5; id = id_at 5; owed = true }
    ∷ record { seq = 6; id = id_at 6; owed = true }
    ∷ []

-- The cursor starts after sequence 4, a scan passes 5 and 6, and 6 is delivered.
abbrev s1 : Session
s1 = set_since client [] 4 true false new_session

abbrev s2 : Session
s2 = (apply_scan default_limits client 1 5 6 (sub ∷ []) read s1).0

abbrev s3 : Session
s3 = (note_delivered default_limits 9 (id_at 6) 6 s2).0

abbrev w1 : World
w1 = record { session = s1; sent = [] }

abbrev w3 : World
w3 = record { session = s3; sent = id_at 6 ∷ [] }

abbrev view : CursorView
view = record { next = 7; holes = (5, id_at 5) ∷ [] }

steps : Reach default_limits new_session s3
steps =
    Reach.more s2 s3
      (Reach.more s1 s2
        (Reach.more new_session s1 Reach.here (Step.subscribed client [] 4 true false new_session))
        (Step.scan client 1 5 6 (sub ∷ []) read s1))
      (Step.deliver 9 6 (id_at 6) s2)

abbrev BoundedHoles : Session → Type 0
BoundedHoles s =
    (length s.cur.holes ≤ default_limits.max_holes)
    × ((seq : ℕ) (id : Bytes)
        → lookup seq s.cur.holes ≡ some id
        → (s.cur.base ≤ seq) × (seq < s.cur.next))

Reach-holes_bounds_example : BoundedHoles s3
Reach-holes_bounds_example = Reach-holes_bounds default_limits new_session s3 refl steps

abbrev eager : Limits
eager = record { max_holes = 4; id_bound = 8; scan_after = 1 }

abbrev scanning : Session
scanning = record new_session { cur = record new_cursor { next = 5; scanning = true } }

abbrev noted : Session
noted = (note_delivered eager 9 (id_at 6) 6 scanning).0

-- The scan passes what was delivered, and is run once more all the same.
abbrev passed : Session
passed = (apply_scan eager client 0 5 6 (sub ∷ []) [] noted).0

note_delivered-scan_again_example :
    ((scan_again eager false passed).1 ≡ some 1)
    × ((scan_again eager false passed).0.cur.scanning ≡ true)
unfolding note_delivered ask_scan mark_delivered prune_delivered remove_hole lookup erase insert
    apply_scan apply_scan_locked move_cursor add_read since_known_locked same_subs_locked all_held
    holds count_above_locked
note_delivered-scan_again_example =
    note_delivered-scan_again eager 9 6 (id_at 6) scanning passed false 1 refl refl
      (During.then noted passed During.none_yet (Step.scan client 0 5 6 (sub ∷ []) [] noted)) refl
