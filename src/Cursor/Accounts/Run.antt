-- ===== src/Cursor/Accounts/Run.antt =====
-- The account while the subscriptions of a session stay as they are, and what it says of a replay.
use natsmqtt.Prelude.{ℕ, ◌+◌, ◌^◌, ◌<◌, ◌≡◌, ◌⊎◌, Bool, Option, List, [], ◌∷◌, Bytes}
use natsmqtt.Dict.{Dict, number_key}
use natsmqtt.Cursor.State.{Limits, Subscription, Conn, Session}
use natsmqtt.Cursor.Holes.{note_live_copy, drop_cursor_locked}
use natsmqtt.Cursor.Deliver.{note_delivered, late_copy}
use natsmqtt.Cursor.Scan.{Scanned, begin_scan, apply_scan, scan_again}
use natsmqtt.Cursor.Replay.{pin_for_replay, unpin}
use natsmqtt.Cursor.Accounts.{IsSound}
use natsmqtt.Cursor.Accounts.Scan.{IsAscending, IsNamed, IsComplete}

abbrev pub IsIn : List Bytes → Bytes → Type 0
IsIn [] id = ⊥
IsIn (x ∷ xs) id = (x ≡ id) ⊎ IsIn xs id

-- A session, and the ids that it was sent.
pub record World : Type 0 where
  pub session : Session
  pub sent : List Bytes

-- The queue's ids by sequence, which sequences the session is owed, and where its account begins.
module _ (lim : Limits) (id_at : ℕ → Bytes) (Owed : ℕ → Type 0) (from : ℕ) where
  -- What happens between two changes of what the session is owed and two replays. A scan's reading of
  -- the stream is the stream's: in order, under its ids, and with each owed message it went over.
  pub data Passes : World → World → Type 0 where
    deliver :
        (now seq : ℕ) (id : Bytes) (w : World)
        → Passes w
            (record { session = (note_delivered lim now id seq w.session).0; sent = id ∷ w.sent })
    live :
        (seq : ℕ) (w : World)
        → Passes w (record w { session = note_live_copy lim seq (id_at seq) w.session })
    late :
        (conn : Option ℕ) (seq : ℕ) (w : World)
        → Passes w (record w { session = (late_copy lim conn seq (id_at seq) w.session).0 })
    begin : (w : World) → Passes w (record w { session = (begin_scan w.session).0 })
    scan :
        (c : Conn) (gen first last : ℕ) (subs : List Subscription) (read : List Scanned) (w : World)
        → last + 1 < 2 ^ 64
        → IsAscending read
        → IsNamed id_at read
        → IsComplete Owed from first last read
        → Passes w (record w { session = (apply_scan lim c gen first last subs read w.session).0 })
    again :
        (moved : Bool) (w : World)
        → Passes w (record w { session = (scan_again lim moved w.session).0 })
    pin : (seq : ℕ) (w : World) → Passes w (record w { session = pin_for_replay seq w.session })
    unpinned : (w : World) → Passes w (record w { session = unpin w.session })
    dropped : (w : World) → Passes w (record w { session = drop_cursor_locked w.session })

  pub data Between (w : World) : World → Type 0 where
    here : Between w w
    more : (u v : World) → Between w u → Passes u v → Between w v

  abbrev pub IsSoundWorld : World → Type 0
  IsSoundWorld w = IsSound id_at Owed (IsIn w.sent) from w.session
