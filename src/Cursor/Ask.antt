-- ===== src/Cursor/Ask.antt =====
-- A scan that is asked for while one runs: the request stands until that scan ends.
pub mod Kept
use natsmqtt.Prelude.{
  ℕ, ◌≡◌, refl, sym, ◌∙◌, subst, inl, inr, Bool, true, false, Option, some, none, List, [], ◌∷◌,
  arith, Bytes, leb, ltb, ◌==◌, ◌||◌, ◌&&◌, not, if◌then◌else◌, Bool-cases, Option-cases, is_empty,
  length,
}
use natsmqtt.Dict.{Dict, contains, lookup, number_key, text_key}
use natsmqtt.Cursor.State.{Limits, ReplayCursor, Subscription, Conn, Session, owed_floor}
use natsmqtt.Cursor.Holes.{
  CursorView, add_hole, remove_hole, set_cursor_locked, drop_cursor_locked, add_hole_locked,
  note_live_copy,
}
use natsmqtt.Cursor.Deliver.{
  mark_delivered, prune_delivered, ask_scan, note_delivered, late_hole, note_late, other_conn,
  late_copy,
}
use natsmqtt.Cursor.Scan.{
  is_conn, Scanned, add_read, scan_next, begin_scan, move_cursor, apply_scan_locked, apply_scan,
  scan_again,
}
use natsmqtt.Cursor.Restart.{
  restart_next, RestartScan, find_holes, add_holes, restarted, restart_cursor_locked, apply_restart,
}
use natsmqtt.Cursor.Replay.{
  is_hole, swap_all, pin_for_replay, unpin, settle_holes, start_cursor, advance_cursor, replayed_to,
  set_since,
}
use natsmqtt.Cursor.Run.{Step, During}
use natsmqtt.Cursor.Ask.Kept.{
  IsAsked, note_delivered-IsAsked, note_live_copy-IsAsked, late_copy-IsAsked, begin_scan-IsAsked,
  apply_scan-IsAsked, apply_restart-IsAsked, pin_for_replay-IsAsked, replayed_to-IsAsked,
  set_since-IsAsked, drop_cursor_locked-IsAsked,
}

module _ (lim : Limits) where
  Step-IsAsked : (s t : Session) → Step lim s t → IsAsked s.cur → IsAsked t.cur
  unfolding unpin
  Step-IsAsked _ _ (Step.deliver now seq id s) h = note_delivered-IsAsked lim now seq id s h
  Step-IsAsked _ _ (Step.live seq id s) h = note_live_copy-IsAsked lim seq id s h
  Step-IsAsked _ _ (Step.late conn seq id s) h = late_copy-IsAsked lim conn seq id s h
  Step-IsAsked _ _ (Step.begin s) h = begin_scan-IsAsked lim s h
  Step-IsAsked _ _ (Step.scan c gen first last subs read s) h =
      apply_scan-IsAsked lim c gen first last subs read s h
  Step-IsAsked _ _ (Step.restart c r now s low) h = apply_restart-IsAsked lim c r now s h
  Step-IsAsked _ _ (Step.pin seq s) h = pin_for_replay-IsAsked seq s h
  Step-IsAsked _ _ (Step.unpinned s) h = h
  Step-IsAsked _ _ (Step.replayed c had first last s) h = replayed_to-IsAsked c had first last s h
  Step-IsAsked _ _ (Step.subscribed c fresh last exact had_non_shared s) h =
      set_since-IsAsked c fresh last exact had_non_shared s h
  Step-IsAsked _ _ (Step.dropped s) h = drop_cursor_locked-IsAsked s h

  During-IsAsked : (s t : Session) → During lim s t → IsAsked s.cur → IsAsked t.cur
  During-IsAsked s _ During.none_yet h = h
  During-IsAsked s _ (During.then t u before step) h =
      Step-IsAsked t u step (During-IsAsked s t before h)

  -- Whether enough ids are above the cursor, or above where one may start.
  abbrev pub is_due : ReplayCursor → Bool
  is_due r = leb lim.scan_after r.above && (not (r.next == 0) || r.pin == 0)

  mark_delivered-scanning :
      (id : Bytes) (seq now : ℕ) (s : Session)
      → (mark_delivered id seq now s).cur.scanning ≡ s.cur.scanning
  unfolding mark_delivered remove_hole
  mark_delivered-scanning id seq now s = ground arith

  prune_delivered-scanning :
      (now : ℕ) (s : Session) → (prune_delivered lim now s).cur.scanning ≡ s.cur.scanning
  unfolding prune_delivered drop_cursor_locked set_cursor_locked
  prune_delivered-scanning now s = ground arith

  ask_scan-due :
      (s : Session)
      → s.cur.scanning ≡ true
      → is_due (ask_scan lim s).0.cur ≡ true
      → IsAsked (ask_scan lim s).0.cur
  unfolding ask_scan
  ask_scan-due s busy due = ground (arith, busy, due)

  scan_again-IsAsked :
      (moved : Bool) (c : ℕ) (s : Session)
      → s.conn ≡ some c
      → IsAsked s.cur
      → ((scan_again lim moved s).1 ≡ some c) × ((scan_again lim moved s).0.cur.scanning ≡ true)
  unfolding scan_again
  scan_again-IsAsked moved c s there h = rw (there, h.1) (refl, h.0)

  -- Where a delivery is noted while a scan runs, and enough ids are then above the cursor, that scan,
  -- when it ends, is run once more on the session's connection: whatever was done to the cursor in
  -- between, by the scan itself too, and whatever the scan says of itself.
  pub note_delivered-scan_again :
      (now seq : ℕ) (id : Bytes) (s t : Session) (moved : Bool) (c : ℕ)
      → s.cur.scanning ≡ true
      → is_due (note_delivered lim now id seq s).0.cur ≡ true
      → During lim (note_delivered lim now id seq s).0 t
      → t.conn ≡ some c
      → ((scan_again lim moved t).1 ≡ some c) × ((scan_again lim moved t).0.cur.scanning ≡ true)
  unfolding note_delivered
  note_delivered-scan_again now seq id s t moved c busy due steps there =
      let marked = mark_delivered id seq now s in
      let pruned = prune_delivered lim now marked in
      let still =
        prune_delivered-scanning now marked ∙ mark_delivered-scanning id seq now s ∙ busy in
      scan_again-IsAsked moved c t there
        (During-IsAsked (ask_scan lim pruned).0 t steps (ask_scan-due pruned still due))
