-- ===== src/Cursor/Restart.antt =====
-- A cursor that a connected session is given: `restartCursorLocked` and `applyRestart` of cursor.go.
use natsmqtt.Prelude.{ℕ, ◌+◌, ◌-◌, ◌%◌, ◌^◌, Bool, true, false, Option, none, some, List, [], ◌∷◌}
use natsmqtt.Prelude.{not, ◌&&◌, ◌||◌, Bytes, ltb, leb, ◌==◌, if◌then◌else◌, length, is_empty}
use natsmqtt.Dict.{Dict, contains, text_key}
use natsmqtt.Cursor.State.{
  Limits, ReplayCursor, Subscription, DeliveredMark, Conn, Session, owed_floor,
}
use natsmqtt.Cursor.Holes.{add_hole, set_cursor_locked, since_known_locked, count_above_locked}
use natsmqtt.Cursor.Scan.{Scanned, same_subs_locked, is_conn}

-- `restartScan`
pub record RestartScan : Type 0 where
  pub gen : ℕ
  pub subs : List Subscription
  pub began : ℕ
  pub base : ℕ
  pub last : ℕ
  pub read : List Scanned

-- The holes among what was read; `none` where one has no id.
unfoldable pub find_holes : ℕ → Dict Bytes DeliveredMark → List Scanned → Option (List Scanned)
find_holes next delivered [] = some []
find_holes next delivered (m ∷ ms) =
    let rest = find_holes next delivered ms in
    if leb next m.seq
    then some []
    else if not m.owed || contains m.id delivered
    then rest
    else if is_empty m.id
    then none
    else elim rest [ none ↦ none | some hs ↦ some (m ∷ hs) ]

unfoldable pub add_holes : List Scanned → ReplayCursor → ReplayCursor
add_holes [] r = r
add_holes (m ∷ ms) r = add_holes ms (add_hole m.seq m.id r)

unfoldable pub restart_next : ℕ → ℕ → ℕ
restart_next last floor =
    let end = (last + 1) % 2 ^ 64 in if not (floor == 0) && ltb floor end then floor else end

-- The cursor from `base` up to `next`, with the holes and the ids that are counted.
unfoldable pub restarted : ℕ → ℕ → List Scanned → Session → Session
restarted base next holes s =
    let s' = set_cursor_locked next s in
    record s' {
      cur = record (add_holes holes (record (s'.cur) { base = base })) {
        above = count_above_locked next s.delivered;
      };
    }

-- `restartCursorLocked`
unfoldable pub restart_cursor_locked : Limits → RestartScan → ℕ → ℕ → Session → Session × Bool
restart_cursor_locked lim r floor now s =
    if not (s.cur.next == 0)
      || (not (s.cur.gen == r.gen)
          || (not (s.cur.pin == 0)
              || (not (since_known_locked s.subs) || not (same_subs_locked r.subs s))))
    then (s, false)
    else if leb s.window (now - r.began)
    then (s, false)
    else if not (floor == 0) && ltb floor r.base
    then (s, false)
    else (let next = restart_next r.last floor in
        elim (find_holes next s.delivered r.read) [
          | none ↦ (s, false)
          | some holes ↦
              if ltb lim.max_holes (length holes)
              then (s, false)
              else if ltb lim.id_bound (count_above_locked next s.delivered)
              then (s, false)
              else (restarted r.base next holes s, true)
        ])

-- `applyRestart`
unfoldable pub apply_restart : Limits → Conn → RestartScan → ℕ → Session → Session × Bool
apply_restart lim c r now s =
    if not (is_conn s.conn c.ident) || (c.closed || c.resuming)
    then (s, false)
    else restart_cursor_locked lim r (owed_floor c) now s
