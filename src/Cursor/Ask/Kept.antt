-- ===== src/Cursor/Ask/Kept.antt =====
-- A scan that is asked for stays asked for, operation by operation.
use natsmqtt.Prelude.{
  ℕ, ◌≡◌, sym, subst, inl, inr, Bool, true, Option, some, none, List, [], ◌∷◌, arith, Bytes, leb,
  ◌||◌, ◌&&◌, not, Bool-cases, Option-cases,
}
use natsmqtt.Dict.{Dict, number_key, text_key}
use natsmqtt.Cursor.State.{Limits, ReplayCursor, Subscription, Conn, Session, owed_floor}
use natsmqtt.Cursor.Holes.{
  CursorView, add_hole, remove_hole, set_cursor_locked, drop_cursor_locked, add_hole_locked,
  note_live_copy,
}
use natsmqtt.Cursor.Deliver.{
  mark_delivered, prune_delivered, ask_scan, note_delivered, late_hole, note_late, other_conn,
  late_copy,
}
use natsmqtt.Cursor.Scan.{
  is_conn, Scanned, add_read, scan_next, begin_scan, move_cursor, apply_scan_locked, apply_scan,
}
use natsmqtt.Cursor.Restart.{
  restart_next, RestartScan, find_holes, add_holes, restarted, restart_cursor_locked, apply_restart,
}
use natsmqtt.Cursor.Replay.{
  is_hole, swap_all, pin_for_replay, settle_holes, start_cursor, advance_cursor, replayed_to,
  set_since,
}

-- A scan runs, and is to run once more.
abbrev pub IsAsked : ReplayCursor → Type 0
IsAsked r = (r.scanning ≡ true) × (r.asked ≡ true)

remove_hole-IsAsked : (id : Bytes) (r : ReplayCursor) → IsAsked r → IsAsked (remove_hole id r)
unfolding remove_hole
remove_hole-IsAsked id r h = ground (arith, h.0, h.1)

pub drop_cursor_locked-IsAsked : (s : Session) → IsAsked s.cur → IsAsked (drop_cursor_locked s).cur
unfolding drop_cursor_locked set_cursor_locked
drop_cursor_locked-IsAsked s h = h

module _ (lim : Limits) where
  add_hole_locked-IsAsked :
      (seq : ℕ) (id : Bytes) (s : Session)
      → IsAsked s.cur
      → IsAsked (add_hole_locked lim seq id s).0.cur
  unfolding add_hole_locked add_hole drop_cursor_locked set_cursor_locked
  add_hole_locked-IsAsked seq id s h = ground (arith, h.0, h.1)

  pub note_live_copy-IsAsked :
      (seq : ℕ) (id : Bytes) (s : Session)
      → IsAsked s.cur
      → IsAsked (note_live_copy lim seq id s).cur
  unfolding note_live_copy
  note_live_copy-IsAsked seq id s h =
      let held = add_hole_locked-IsAsked seq id s h in ground (arith, h.0, h.1, held.0, held.1)

  mark_delivered-IsAsked :
      (id : Bytes) (seq now : ℕ) (s : Session)
      → IsAsked s.cur
      → IsAsked (mark_delivered id seq now s).cur
  unfolding mark_delivered
  mark_delivered-IsAsked id seq now s h = remove_hole-IsAsked id s.cur h

  prune_delivered-IsAsked :
      (now : ℕ) (s : Session) → IsAsked s.cur → IsAsked (prune_delivered lim now s).cur
  unfolding prune_delivered drop_cursor_locked set_cursor_locked
  prune_delivered-IsAsked now s h = ground (arith, h.0, h.1)

  ask_scan-IsAsked : (s : Session) → IsAsked s.cur → IsAsked (ask_scan lim s).0.cur
  unfolding ask_scan
  ask_scan-IsAsked s h = ground (arith, h.0, h.1)

  pub note_delivered-IsAsked :
      (now seq : ℕ) (id : Bytes) (s : Session)
      → IsAsked s.cur
      → IsAsked (note_delivered lim now id seq s).0.cur
  unfolding note_delivered
  note_delivered-IsAsked now seq id s h =
      ask_scan-IsAsked (prune_delivered lim now (mark_delivered id seq now s)) (
        prune_delivered-IsAsked now (mark_delivered id seq now s)
          (mark_delivered-IsAsked id seq now s h))

  late_hole-IsAsked :
      (seq : ℕ) (id : Bytes) (s : Session) → IsAsked s.cur → IsAsked (late_hole lim seq id s).0.cur
  unfolding late_hole
  late_hole-IsAsked seq id s h =
      let held = add_hole_locked-IsAsked seq id s h in ground (arith, h.0, h.1, held.0, held.1)

  note_late-cur : (seq : ℕ) (s : Session) (holed : Bool) → (note_late seq s holed).0.cur ≡ s.cur
  unfolding note_late
  note_late-cur seq s holed = ground arith

  pub late_copy-IsAsked :
      (conn : Option ℕ) (seq : ℕ) (id : Bytes) (s : Session)
      → IsAsked s.cur
      → IsAsked (late_copy lim conn seq id s).0.cur
  unfolding late_copy
  late_copy-IsAsked conn seq id s h = elim (Option-cases (other_conn s.conn conn)) [
    | inr (c, other) ↦ rw (late_copy, other) h
    | inl own ↦
        let held = late_hole lim seq id s in
        rw (late_copy, own)
          (subst IsAsked (sym (note_late-cur seq held.0 held.1)) (late_hole-IsAsked seq id s h))
  ]

  pub begin_scan-IsAsked : (s : Session) → IsAsked s.cur → IsAsked (begin_scan s).0.cur
  unfolding begin_scan
  begin_scan-IsAsked s h = ground (arith, h.0, h.1)

  add_read-IsAsked :
      (next : ℕ) (read : List Scanned) (s : Session)
      → IsAsked s.cur
      → IsAsked (add_read lim next read s).0.cur
  unfolding add_read
  add_read-IsAsked next [] s h = h
  add_read-IsAsked next (m ∷ ms) s h =
      let skipped = add_read-IsAsked next ms s h in
      let held = add_hole_locked-IsAsked m.seq m.id s h in
      let rest = add_read-IsAsked next ms (add_hole_locked lim m.seq m.id s).0 held in
      elim (Bool-cases (leb next m.seq)) [
        | inl past ↦ rw past h
        | inr below ↦ elim (Bool-cases m.owed) [
          | inr free ↦ rw (below, free) skipped
          | inl owed ↦ elim (Bool-cases (add_hole_locked lim m.seq m.id s).1) [
            | inl kept ↦ rw (below, owed, kept) rest
            | inr gone ↦ rw (below, owed, gone) held
          ]
        ]
      ]

  move_cursor-IsAsked :
      (next : ℕ) (read : List Scanned) (s : Session)
      → IsAsked s.cur
      → IsAsked (move_cursor lim next read s).0.cur
  unfolding move_cursor
  move_cursor-IsAsked next read s h =
      let held = add_read-IsAsked next read s h in
      elim (Bool-cases (add_read lim next read s).1) [
        | inl kept ↦ rw (move_cursor, kept) held
        | inr gone ↦ rw (move_cursor, gone) held
      ]

  apply_scan_locked-IsAsked :
      (gen first last : ℕ) (subs : List Subscription) (read : List Scanned) (floor : ℕ)
      (s : Session)
      → IsAsked s.cur
      → IsAsked (apply_scan_locked lim gen first last subs read floor s).0.cur
  unfolding apply_scan_locked
  apply_scan_locked-IsAsked gen first last subs read floor s h =
      let moved = move_cursor-IsAsked (scan_next first last floor) read s h in
      let dropped = drop_cursor_locked-IsAsked s h in
      ground (arith, h.0, h.1, moved.0, moved.1, dropped.0, dropped.1)

  pub apply_scan-IsAsked :
      (c : Conn) (gen first last : ℕ) (subs : List Subscription) (read : List Scanned) (s : Session)
      → IsAsked s.cur
      → IsAsked (apply_scan lim c gen first last subs read s).0.cur
  unfolding apply_scan
  apply_scan-IsAsked c gen first last subs read s h =
      let scanned = apply_scan_locked-IsAsked gen first last subs read (owed_floor c) s h in
      ground (arith, h.0, h.1, scanned.0, scanned.1)

  add_holes-IsAsked : (hs : List Scanned) (r : ReplayCursor) → IsAsked r → IsAsked (add_holes hs r)
  unfolding add_holes add_hole
  add_holes-IsAsked [] r h = h
  add_holes-IsAsked (m ∷ ms) r h = add_holes-IsAsked ms (add_hole m.seq m.id r) h

  restarted-IsAsked :
      (base next : ℕ) (hs : List Scanned) (s : Session)
      → IsAsked s.cur
      → IsAsked (restarted base next hs s).cur
  unfolding restarted set_cursor_locked
  restarted-IsAsked base next hs s h =
      add_holes-IsAsked hs (record ((set_cursor_locked next s).cur) { base = base }) h

  restart_cursor_locked-IsAsked :
      (r : RestartScan) (floor now : ℕ) (s : Session)
      → IsAsked s.cur
      → IsAsked (restart_cursor_locked lim r floor now s).0.cur
  unfolding restart_cursor_locked
  restart_cursor_locked-IsAsked r floor now s h =
      elim (Option-cases (find_holes (restart_next r.last floor) s.delivered r.read)) [
        | inl nameless ↦ ground (arith, h.0, h.1)
        | inr (hs, found) ↦
            let set = restarted-IsAsked r.base (restart_next r.last floor) hs s h in
            ground (arith, h.0, h.1, set.0, set.1)
      ]

  pub apply_restart-IsAsked :
      (c : Conn) (r : RestartScan) (now : ℕ) (s : Session)
      → IsAsked s.cur
      → IsAsked (apply_restart lim c r now s).0.cur
  unfolding apply_restart
  apply_restart-IsAsked c r now s h =
      let set = restart_cursor_locked-IsAsked r (owed_floor c) now s h in
      ground (arith, h.0, h.1, set.0, set.1)

pub pin_for_replay-IsAsked :
    (seq : ℕ) (s : Session) → IsAsked s.cur → IsAsked (pin_for_replay seq s).cur
unfolding pin_for_replay
pin_for_replay-IsAsked seq s h = ground (arith, h.0, h.1)

settle_holes-IsAsked :
    (last : ℕ) (had : Dict ℕ Bytes) (r : ReplayCursor)
    → IsAsked r
    → IsAsked (settle_holes last had r)
unfolding settle_holes
settle_holes-IsAsked last [] r h = h
settle_holes-IsAsked last ((seq, id) ∷ had) r h =
    elim (Bool-cases (leb seq last && is_hole seq id r.holes)) [
      | inl settled ↦
          rw (settle_holes, settled)
            (settle_holes-IsAsked last had (remove_hole id r) (remove_hole-IsAsked id r h))
      | inr kept ↦ rw (settle_holes, kept) (settle_holes-IsAsked last had r h)
    ]

start_cursor-IsAsked :
    (pinned first floor next : ℕ) (s : Session)
    → IsAsked s.cur
    → IsAsked (start_cursor pinned first floor next s).cur
unfolding start_cursor set_cursor_locked
start_cursor-IsAsked pinned first floor next s h = ground (arith, h.0, h.1)

advance_cursor-IsAsked :
    (had : Dict ℕ Bytes) (last next : ℕ) (s : Session)
    → IsAsked s.cur
    → IsAsked (advance_cursor had last next s).cur
unfolding advance_cursor
advance_cursor-IsAsked had last next s h =
    let settled = settle_holes-IsAsked last had s.cur h in
    ground (arith, h.0, h.1, settled.0, settled.1)

pub replayed_to-IsAsked :
    (c : Conn) (had : Option CursorView) (first last : ℕ) (s : Session)
    → IsAsked s.cur
    → IsAsked (replayed_to c had first last s).cur
unfolding replayed_to
replayed_to-IsAsked c none first last s h =
    elim (Bool-cases (not (is_conn s.conn c.ident) || c.closed)) [
      | inl gone ↦ rw (replayed_to, gone) h
      | inr there ↦
          rw (replayed_to, there)
            (start_cursor-IsAsked s.cur.pin first (owed_floor c) (restart_next last (owed_floor c))
              (record s { cur = record (s.cur) { pin = 0 }; subs = swap_all last s.subs }) h)
    ]
replayed_to-IsAsked c (some v) first last s h =
    elim (Bool-cases (not (is_conn s.conn c.ident) || c.closed)) [
      | inl gone ↦ rw (replayed_to, gone) h
      | inr there ↦
          rw (replayed_to, there)
            (advance_cursor-IsAsked v.holes last (restart_next last (owed_floor c))
              (record s { cur = record (s.cur) { pin = 0 }; subs = swap_all last s.subs }) h)
    ]

pub set_since-IsAsked :
    (c : Conn) (fresh : List Subscription) (last : ℕ) (exact had_non_shared : Bool) (s : Session)
    → IsAsked s.cur
    → IsAsked (set_since c fresh last exact had_non_shared s).cur
unfolding set_since set_cursor_locked
set_since-IsAsked c fresh last exact had_non_shared s h = ground (arith, h.0, h.1)
