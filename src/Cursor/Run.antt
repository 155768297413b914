-- ===== src/Cursor/Run.antt =====
-- A session's cursor under deliveries, live and late copies, scans, restarts, replays and SUBSCRIBEs in
-- any order, each as one step of the session.
use natsmqtt.Prelude.{ℕ, ◌≤◌, Bool, false, Option, List, [], Bytes, All}
use natsmqtt.Cursor.State.{ReplayCursor, Limits, Subscription, Conn, Session}
use natsmqtt.Cursor.Holes.{CursorView, note_live_copy, drop_cursor_locked}
use natsmqtt.Cursor.Deliver.{note_delivered, late_copy}
use natsmqtt.Cursor.Scan.{Scanned, begin_scan, apply_scan, scan_again}
use natsmqtt.Cursor.Restart.{RestartScan, apply_restart}
use natsmqtt.Cursor.Replay.{pin_for_replay, unpin, replayed_to, set_since}

-- The cursor of a new session.
abbrev pub new_cursor : ReplayCursor
new_cursor = record {
  next = 0;
  holes = [];
  hole_at = [];
  gen = 0;
  above = 0;
  scanning = false;
  asked = false;
  pin = 0;
  base = 0;
}

-- Every step but the one that ends a scan. A restart reads from its base on.
module _ (lim : Limits) where
  pub data Step : Session → Session → Type 0 where
    deliver : (now seq : ℕ) (id : Bytes) (s : Session) → Step s (note_delivered lim now id seq s).0
    live : (seq : ℕ) (id : Bytes) (s : Session) → Step s (note_live_copy lim seq id s)
    late :
        (conn : Option ℕ) (seq : ℕ) (id : Bytes) (s : Session)
        → Step s (late_copy lim conn seq id s).0
    begin : (s : Session) → Step s (begin_scan s).0
    scan :
        (c : Conn) (gen first last : ℕ) (subs : List Subscription) (read : List Scanned)
        (s : Session)
        → Step s (apply_scan lim c gen first last subs read s).0
    restart :
        (c : Conn) (r : RestartScan) (now : ℕ) (s : Session)
        → All (λ m. r.base ≤ m.seq) r.read
        → Step s (apply_restart lim c r now s).0
    pin : (seq : ℕ) (s : Session) → Step s (pin_for_replay seq s)
    unpinned : (s : Session) → Step s (unpin s)
    replayed :
        (c : Conn) (had : Option CursorView) (first last : ℕ) (s : Session)
        → Step s (replayed_to c had first last s)
    subscribed :
        (c : Conn) (fresh : List Subscription) (last : ℕ) (exact had_non_shared : Bool)
        (s : Session)
        → Step s (set_since c fresh last exact had_non_shared s)
    dropped : (s : Session) → Step s (drop_cursor_locked s)

  -- Any steps while no scan ends.
  pub data During (s : Session) : Session → Type 0 where
    none_yet : During s s
    then : (t u : Session) → During s t → Step t u → During s u

  pub data Reach (s : Session) : Session → Type 0 where
    here : Reach s s
    more : (t u : Session) → Reach s t → Step t u → Reach s u
    again : (moved : Bool) (t : Session) → Reach s t → Reach s (scan_again lim moved t).0
