-- ===== src/Cursor/Scan.antt =====
-- The scan that moves a cursor forward: `scanOnce`'s start, `applyScan` and `scanAgain` of cursor.go.
use natsmqtt.Prelude.{ℕ, ◌+◌, ◌%◌, ◌^◌, Bool, true, false, Option, none, some, List, [], ◌∷◌}
use natsmqtt.Prelude.{not, ◌&&◌, ◌||◌, Bytes, ltb, leb, ◌==◌, if◌then◌else◌, length, is_empty}
use natsmqtt.Cursor.State.{Limits, Subscription, Conn, Session, owed_floor}
use natsmqtt.Cursor.Holes.{
  drop_cursor_locked, add_hole_locked, since_known_locked, count_above_locked,
}

-- `scanned`
pub record Scanned : Type 0 where
  pub seq : ℕ
  pub id : Bytes
  pub owed : Bool

-- A test on the subscriptions' identities: `held == sub` for one of them.
unfoldable pub holds : ℕ → List Subscription → Bool
holds ident [] = false
holds ident (sub ∷ subs) = (sub.ident == ident) || holds ident subs

unfoldable pub all_held : List Subscription → List Subscription → Bool
all_held held [] = true
all_held held (sub ∷ subs) = holds sub.ident held && all_held held subs

-- `sameSubsLocked`
unfoldable pub same_subs_locked : List Subscription → Session → Bool
unfolding all_held holds
same_subs_locked subs s = (length subs == length s.subs) && all_held s.subs subs

-- `hasNonShared`, and `hasNonSharedSub` of a session's subscriptions
unfoldable pub has_non_shared : List Subscription → Bool
has_non_shared [] = false
has_non_shared (sub ∷ subs) = is_empty sub.share || has_non_shared subs

-- The loop over what a scan read, with the Boolean of the last hole.
unfoldable pub add_read : Limits → ℕ → List Scanned → Session → Session × Bool
add_read lim next [] s = (s, true)
add_read lim next (m ∷ ms) s =
    let skip = add_read lim next ms s in
    let rest = add_read lim next ms (add_hole_locked lim m.seq m.id s).0 in
    if leb next m.seq
    then (s, true)
    else if not m.owed
    then skip
    else if not (add_hole_locked lim m.seq m.id s).1
    then ((add_hole_locked lim m.seq m.id s).0, false)
    else rest

-- How far the cursor moves: past `last`, but not past what the connection still holds.
unfoldable pub scan_next : ℕ → ℕ → ℕ → ℕ
scan_next start last floor =
    let end = (last + 1) % 2 ^ 64 in
    if not (floor == 0) && ltb floor end then (if ltb floor start then start else floor) else end

pub record Moved : Type 0 where
  pub moved : Bool
  pub applied : Bool
  pub stale : Bool

abbrev pub kept_still : Moved
kept_still = record { moved = false; applied = false; stale = false }

-- What a scan was begun with.
pub record Began : Type 0 where
  pub gen : ℕ
  pub start : ℕ
  pub known : Bool
  pub pinned : Bool
  pub subs : List Subscription

-- `scanOnce`, under the session's lock
unfoldable pub begin_scan : Session → Session × Began
begin_scan s =
    let began : Began = record {
      gen = s.cur.gen;
      start = s.cur.next;
      known = since_known_locked s.subs;
      pinned = not (s.cur.pin == 0);
      subs = s.subs;
    } in
    if s.cur.next == 0 then (record s { cur = record (s.cur) { above = 0 } }, began) else (s, began)

-- The holes of what was read, and the move.
unfoldable pub move_cursor : Limits → ℕ → List Scanned → Session → Session × Moved
move_cursor lim next read s =
    let (s', kept) = add_read lim next read s in
    if kept
    then (
      record s' {
        cur = record (s'.cur) { next = next; above = count_above_locked next s'.delivered };
      },
      record { moved = ltb s'.cur.next next; applied = true; stale = false },
    )
    else (s', kept_still)

-- `applyScanLocked`
unfoldable pub apply_scan_locked :
    Limits → ℕ → ℕ → ℕ → List Subscription → List Scanned → ℕ → Session → Session × Moved
apply_scan_locked lim gen start last subs read floor s =
    if not (s.cur.gen == gen) || not (s.cur.next == start)
    then (s, kept_still)
    else if ltb ((last + 1) % 2 ^ 64) start
    then (drop_cursor_locked s, kept_still)
    else if not (same_subs_locked subs s)
    then (s, record { moved = false; applied = false; stale = true })
    else if not (since_known_locked s.subs)
    then (s, kept_still)
    else move_cursor lim (scan_next start last floor) read s

-- `s.conn != c`, the negation
abbrev pub is_conn : Option ℕ → ℕ → Bool
is_conn none c = false
is_conn (some d) c = d == c

-- `applyScan`, with the Booleans it returns
unfoldable pub apply_scan :
    Limits → Conn → ℕ → ℕ → ℕ → List Subscription → List Scanned → Session → Session × Bool × Bool
apply_scan lim c gen start last subs read s =
    if not (is_conn s.conn c.ident) || c.closed
    then (s, false, false)
    else (let (s', m) = apply_scan_locked lim gen start last subs read (owed_floor c) s in
        (
          record s' { activity = if m.applied then s'.activity + 1 else s'.activity },
          m.moved,
          m.stale,
        ))

-- `scanAgain`: the connection to scan again for
unfoldable pub scan_again : Limits → Bool → Session → Session × Option ℕ
scan_again lim again s =
    let due = again && not (s.cur.next == 0) && leb lim.scan_after s.cur.above in
    let done : Session × Option ℕ =
      (record s { cur = record (s.cur) { asked = false; scanning = false } }, none) in
    elim (s.conn) [
      | none ↦ done
      | some c ↦
          if s.cur.asked || due
          then (record s { cur = record (s.cur) { asked = false } }, some c)
          else done
    ]
