-- ===== src/Cursor/Holes.antt =====
-- The holes of a cursor, and how it is set and dropped.
use natsmqtt.Prelude.{ℕ, ◌+◌, ◌%◌, ◌^◌, Bool, true, false, none, some, List, [], ◌∷◌}
use natsmqtt.Prelude.{not, ◌&&◌, ◌||◌, Bytes, ltb, leb, ◌==◌, if◌then◌else◌, length, is_empty}
use natsmqtt.Dict.{Dict, lookup, insert, erase, contains, number_key, text_key}
use natsmqtt.Cursor.State.{
  since_unknown, Limits, ReplayCursor, Subscription, DeliveredMark, Session,
}

-- `addHole`
unfoldable pub add_hole : ℕ → Bytes → ReplayCursor → ReplayCursor
add_hole seq id r = record r { holes = insert seq id r.holes; hole_at = insert id seq r.hole_at }

-- `removeHole`
unfoldable pub remove_hole : Bytes → ReplayCursor → ReplayCursor
remove_hole id r = elim (lookup id r.hole_at) [
  | none ↦ r
  | some seq ↦ record r { hole_at = erase id r.hole_at; holes = erase seq r.holes }
]

-- `cursorView`
pub record CursorView : Type 0 where
  pub next : ℕ
  pub holes : Dict ℕ Bytes

unfoldable pub start_from : ℕ → Dict ℕ Bytes → ℕ
start_from low [] = low
start_from low ((seq, id) ∷ m) = start_from (if ltb seq low then seq else low) m

-- `start`
unfoldable pub start : CursorView → ℕ
unfolding start_from
start v = start_from v.next v.holes

-- `cursorViewLocked`
unfoldable pub cursor_view_locked : Session → CursorView
cursor_view_locked s = record { next = s.cur.next; holes = s.cur.holes }

-- `setCursorLocked`
unfoldable pub set_cursor_locked : ℕ → Session → Session
set_cursor_locked next s = record s {
  cur = record (s.cur) {
    next = next;
    holes = [];
    hole_at = [];
    gen = (s.cur.gen + 1) % 2 ^ 64;
    above = 0;
    pin = 0;
    base = 0;
  };
}

-- `windowSafeLocked`, with `deliveredSeqWindow` 8192
unfoldable pub window_safe_locked : ℕ → Session → Bool
window_safe_locked seq s =
    s.max_delivered_seq == 0 || leb s.max_delivered_seq ((seq + 8192) % 2 ^ 64)

-- `dropCursorLocked`
unfoldable pub drop_cursor_locked : Session → Session
unfolding set_cursor_locked
drop_cursor_locked s = record (set_cursor_locked 0 s) {
  late_seq =
      if not (s.late_seq == 0) && not (window_safe_locked s.late_seq s) then 0 else s.late_seq;
  away_late_seq =
      if not (s.away_late_seq == 0) && not (window_safe_locked s.away_late_seq s)
      then 0
      else s.away_late_seq;
}

-- `addHoleLocked`, with the Boolean that it returns
unfoldable pub add_hole_locked : Limits → ℕ → Bytes → Session → Session × Bool
add_hole_locked lim seq id s =
    if ltb seq s.cur.base
    then (drop_cursor_locked s, false)
    else if is_empty id
    then (drop_cursor_locked s, false)
    else if contains id s.delivered
    then (s, true)
    else if contains seq s.cur.holes
    then (s, true)
    else if leb lim.max_holes (length s.cur.holes)
    then (drop_cursor_locked s, false)
    else (record s { cur = add_hole seq id s.cur }, true)

-- `noteLiveCopy`
unfoldable pub note_live_copy : Limits → ℕ → Bytes → Session → Session
note_live_copy lim seq id s =
    if seq == 0
    then s
    else if not (s.cur.next == 0) && ltb seq s.cur.next
    then (let s' = (add_hole_locked lim seq id s).0 in
        record s' { activity = elim (s'.conn) [ none ↦ s'.activity | some _ ↦ s'.activity + 1 ] })
    else s

-- `sinceKnownLocked`
unfoldable pub since_known_locked : List Subscription → Bool
since_known_locked [] = true
since_known_locked (sub ∷ subs) =
    not (is_empty sub.share && (sub.since == since_unknown)) && since_known_locked subs

-- `countAboveLocked`
unfoldable pub count_above_locked : ℕ → Dict Bytes DeliveredMark → ℕ
count_above_locked seq [] = 0
count_above_locked seq ((id, m) ∷ ms) = (if leb seq m.seq then 1 else 0) + count_above_locked seq ms
