-- ===== src/Cursor/Replay.antt =====
-- A resume replay's use of the cursor, and the cursors that a SUBSCRIBE starts and a stored record
-- brings: the rest of cursor.go.
use natsmqtt.Prelude.{ℕ, ◌+◌, ◌%◌, ◌^◌, Bool, Option, none, some, List, [], ◌∷◌}
use natsmqtt.Prelude.{not, ◌&&◌, ◌||◌, Bytes, bytes_eq, ltb, leb, ◌==◌, if◌then◌else◌, is_empty}
use natsmqtt.Dict.{Dict, lookup, contains, number_key, text_key}
use natsmqtt.Cursor.State.{
  since_unknown, ReplayCursor, Subscription, DeliveredMark, Conn, Session, owed_floor,
}
use natsmqtt.Cursor.Holes.{
  CursorView, cursor_view_locked, add_hole, remove_hole, set_cursor_locked, since_known_locked,
  count_above_locked,
}
use natsmqtt.Cursor.Scan.{holds, is_conn}
use natsmqtt.Cursor.Restart.{restart_next}

-- `cursorForReplay`
unfoldable pub cursor_for_replay : Session → Option CursorView
cursor_for_replay s = if s.cur.next == 0 then none else some (cursor_view_locked s)

-- `pinForReplay`
unfoldable pub pin_for_replay : ℕ → Session → Session
pin_for_replay seq s =
    if s.cur.next == 0
    then record s { cur = record (s.cur) { pin = if ltb seq 1 then 1 else seq } }
    else s

-- `unpin`
unfoldable pub unpin : Session → Session
unpin s = record s { cur = record (s.cur) { pin = 0 } }

-- `sub.since.CompareAndSwap(sinceUnknown, last)`
unfoldable pub swap_since : ℕ → Subscription → Subscription
swap_since last sub = record sub { since = if sub.since == since_unknown then last else sub.since }

unfoldable pub swap_all : ℕ → List Subscription → List Subscription
swap_all last [] = []
swap_all last (sub ∷ subs) = swap_since last sub ∷ swap_all last subs

-- The same for those of the subscriptions that a SUBSCRIBE made.
unfoldable pub swap_fresh : List Subscription → ℕ → List Subscription → List Subscription
swap_fresh fresh last [] = []
swap_fresh fresh last (sub ∷ subs) =
    (if holds sub.ident fresh then swap_since last sub else sub) ∷ swap_fresh fresh last subs

-- `s.cur.holes[seq] == id`
unfoldable pub is_hole : ℕ → Bytes → Dict ℕ Bytes → Bool
is_hole seq id holes = elim (lookup seq holes) [ none ↦ is_empty id | some id' ↦ bytes_eq id' id ]

-- The holes the replay passed are settled.
unfoldable pub settle_holes : ℕ → Dict ℕ Bytes → ReplayCursor → ReplayCursor
settle_holes last [] r = r
settle_holes last ((seq, id) ∷ had) r =
    settle_holes last had (if leb seq last && is_hole seq id r.holes then remove_hole id r else r)

abbrev touch : Session → Session
touch s = record s { activity = s.activity + 1 }

-- The cursor that a replay without one starts.
unfoldable pub start_cursor : ℕ → ℕ → ℕ → ℕ → Session → Session
start_cursor pinned start floor next s =
    if not (s.cur.next == 0)
      || ((pinned == 0) || (ltb start pinned || (not (floor == 0) && ltb floor start)))
    then s
    else (let s' = set_cursor_locked next s in
        touch (record s' { cur = record (s'.cur) { above = count_above_locked next s.delivered } }))

-- The move of the cursor that a replay started from.
unfoldable pub advance_cursor : Dict ℕ Bytes → ℕ → ℕ → Session → Session
advance_cursor had last next s =
    if s.cur.next == 0
    then s
    else (let cur = settle_holes last had s.cur in
        touch (record s {
          cur =
              if ltb cur.next next
              then record cur { next = next; above = count_above_locked next s.delivered }
              else cur;
        }))

-- `replayedTo`; `none` is a replay that had no cursor.
unfoldable pub replayed_to : Conn → Option CursorView → ℕ → ℕ → Session → Session
replayed_to c had start last s =
    let pinned = s.cur.pin in
    let s' = record s { cur = record (s.cur) { pin = 0 } } in
    if not (is_conn s.conn c.ident) || c.closed
    then s'
    else (let s'' = record s' { subs = swap_all last s.subs } in
        let floor = owed_floor c in
        let next = restart_next last floor in
        elim had [
          | none ↦ start_cursor pinned start floor next s''
          | some v ↦ advance_cursor v.holes last next s''
        ])

-- `setSince`
unfoldable pub set_since : Conn → List Subscription → ℕ → Bool → Bool → Session → Session
set_since c fresh last exact had_non_shared s =
    let s' = record s { subs = swap_fresh fresh last s.subs } in
    if exact
      && ((s.cur.next == 0)
          && (not had_non_shared
              && ((owed_floor c == 0) && (is_conn s.conn c.ident && since_known_locked s'.subs))))
    then touch (set_cursor_locked ((last + 1) % 2 ^ 64) s')
    else s'

unfoldable pub add_stored :
    ℕ → Dict Bytes DeliveredMark → List (Bytes × ℕ) → ReplayCursor → ReplayCursor
add_stored next delivered [] r = r
add_stored next delivered ((id, seq) ∷ hs) r = add_stored next delivered hs (
    if ltb seq next && (not (is_empty id) && not (contains id delivered))
    then add_hole seq id r
    else r)

-- `restoreCursorLocked`, with each stored hole's id and sequence
unfoldable pub restore_cursor_locked : ℕ → List (Bytes × ℕ) → Session → Session
restore_cursor_locked next holes s = if next == 0 then s else record s {
  cur =
      add_stored next s.delivered holes
        (record (s.cur) { next = next; holes = []; hole_at = []; gen = (s.cur.gen + 1) % 2 ^ 64 });
}

-- `saw`, on the highest sequence seen
unfoldable pub saw : ℕ → ℕ → ℕ
saw seq seen = if leb seq seen then seen else seq

-- `keepsSince`
unfoldable pub keeps_since : Subscription → Subscription → Bool
keeps_since old sub =
    is_empty sub.share
    && (is_empty old.share
        && (ltb 0 old.granted_qos
            && ((not old.no_local || sub.no_local) && not (old.since == since_unknown))))
