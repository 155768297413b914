-- ===== src/Cursor/Deliver.antt =====
-- What a delivery and a late copy do to a session's cursor: `noteDelivered` and `lateCopy` of
-- session.go.
use natsmqtt.Prelude.{ℕ, ◌+◌, ◌-◌, ◌*◌, ◌%◌, ◌^◌, Bool, true, false, Option, none, some, [], ◌∷◌}
use natsmqtt.Prelude.{not, ◌&&◌, ◌||◌, Bytes, ltb, leb, ◌==◌, if◌then◌else◌, length}
use natsmqtt.Dict.{Dict, insert, contains, number_key, text_key}
use natsmqtt.Cursor.State.{Limits, DeliveredMark, Session, lowest_seq}
use natsmqtt.Cursor.Holes.{remove_hole, window_safe_locked, drop_cursor_locked, add_hole_locked}

-- Whether a mark is at or above what the cursor, or a replay that may start one, keeps.
unfoldable pub keeps : ℕ → DeliveredMark → Bool
keeps keep m = not (keep == 0) && leb keep m.seq

-- Whether a mark that is not kept is old enough to be forgotten.
unfoldable pub is_stale : ℕ → ℕ → ℕ → DeliveredMark → Bool
is_stale now window highest m =
    ltb (2 * window) (now - m.at) && (m.seq == 0 || ltb ((m.seq + 8192) % 2 ^ 64) highest)

-- The loop that forgets: what is left, and the count of those kept for the cursor.
unfoldable pub forget_stale :
    ℕ → ℕ → ℕ → ℕ → Dict Bytes DeliveredMark → Dict Bytes DeliveredMark × ℕ
forget_stale keep now window highest [] = ([], 0)
forget_stale keep now window highest ((id, m) ∷ ms) =
    let (rest, kept) = forget_stale keep now window highest ms in
    if keeps keep m
    then ((id, m) ∷ rest, kept + 1)
    else if is_stale now window highest m
    then (rest, kept)
    else ((id, m) ∷ rest, kept)

-- The id is recorded, and is no hole any more.
unfoldable pub mark_delivered : Bytes → ℕ → ℕ → Session → Session
mark_delivered id seq now s =
    let cur = remove_hole id s.cur in
    let counted =
      (not (cur.next == 0) && leb cur.next seq) || ((cur.next == 0) && not (seq == 0)) in
    record s {
      delivered = insert id (record { at = now; seq = seq }) s.delivered;
      max_delivered_seq = if ltb s.max_delivered_seq seq then seq else s.max_delivered_seq;
      cur = record cur { above = if counted then cur.above + 1 else cur.above };
    }

-- Once in 64 ids beyond the first 64, the old ones go; the cursor goes with too many kept for it.
unfoldable pub prune_delivered : Limits → ℕ → Session → Session
prune_delivered lim now s =
    let size = length s.delivered in
    if ltb 64 size && (size % 64 == 0)
    then (let keep = lowest_seq (s.cur.next ∷ s.cur.pin ∷ []) in
        let (left, kept) = forget_stale keep now s.window s.max_delivered_seq s.delivered in
        let s' = record s { delivered = left } in
        if ltb lim.id_bound kept then drop_cursor_locked s' else s')
    else s

-- The scan that enough ids above the cursor ask for, with the Boolean that starts it.
unfoldable pub ask_scan : Limits → Session → Session × Bool
ask_scan lim s =
    if leb lim.scan_after s.cur.above && (not (s.cur.next == 0) || s.cur.pin == 0)
    then if not s.cur.scanning
      then (record s { cur = record (s.cur) { scanning = true } }, true)
      else (record s { cur = record (s.cur) { asked = true } }, false)
    else (s, false)

-- `noteDelivered`
unfoldable pub note_delivered : Limits → ℕ → Bytes → ℕ → Session → Session × Bool
note_delivered lim now id seq s =
    ask_scan lim (prune_delivered lim now (mark_delivered id seq now s))

-- `lateSeqSafeLocked`
unfoldable pub late_seq_safe_locked : ℕ → Session → Bool
late_seq_safe_locked seq s =
    if not (s.cur.next == 0)
    then leb s.cur.next seq || contains seq s.cur.holes
    else window_safe_locked seq s

pub data Copied : Type 0 where
  successor : ℕ → Copied
  noted : Bool → Copied

-- The hole of a late copy, and whether it is a new one.
unfoldable pub late_hole : Limits → ℕ → Bytes → Session → Session × Bool
late_hole lim seq id s =
    if not (s.cur.next == 0) && ltb seq s.cur.next
    then (let s' = (add_hole_locked lim seq id s).0 in
        (s', not (length s'.cur.holes == length s.cur.holes)))
    else (s, false)

-- What is noted of the copy when the session has no other connection.
unfoldable pub note_late : ℕ → Session → Bool → Session × Copied
note_late seq s holed =
    let safe =
      if not (s.cur.base == 0) then window_safe_locked seq s else late_seq_safe_locked seq s in
    elim (s.conn) [
      | some c ↦
          if safe
          then (record s { late_seq = lowest_seq (s.late_seq ∷ seq ∷ []) }, noted false)
          else (s, noted false)
      | none ↦
          if not s.away
          then (s, noted false)
          else if not safe || (not (s.away_late_seq == 0) && leb s.away_late_seq seq)
          then (s, noted (holed && s.stored))
          else (record s { away_late_seq = seq }, noted s.stored)
    ]

-- `s.conn != nil && s.conn != from`
unfoldable pub other_conn : Option ℕ → Option ℕ → Option ℕ
other_conn none from = none
other_conn (some c) none = some c
other_conn (some c) (some f) = if c == f then none else some c

-- `lateCopy`
unfoldable pub late_copy : Limits → Option ℕ → ℕ → Bytes → Session → Session × Copied
late_copy lim from seq id s = elim (other_conn s.conn from) [
  | some c ↦ (s, successor c)
  | none ↦ let (s', holed) = late_hole lim seq id s in note_late seq s' holed
]
