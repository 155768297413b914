-- ===== src/Cursor/Fit/Run.antt =====
-- The bounds of the holes under every step.
use natsmqtt.Prelude.{ℕ, ◌≤◌, ◌<◌, ◌≡◌, refl, Bytes, some, length}
use natsmqtt.Dict.{lookup, number_key}
use natsmqtt.Cursor.State.{Limits, Session}
use natsmqtt.Cursor.Run.{Step, Reach, new_cursor}
use natsmqtt.Cursor.Fit.{no_holes-IsFit, same-IsFit, drop_cursor_locked-IsFit}
use natsmqtt.Cursor.Fit.Deliver.{
  IsFitSession, note_live_copy-IsFitSession, note_delivered-IsFitSession, late_copy-IsFitSession,
}
use natsmqtt.Cursor.Fit.Scan.{
  apply_scan-IsFitSession, begin_scan-IsFitSession, scan_again-IsFitSession,
}
use natsmqtt.Cursor.Fit.Restart.{apply_restart-IsFitSession}
use natsmqtt.Cursor.Fit.Replay.{
  pin_for_replay-IsFitSession, replayed_to-IsFitSession, set_since-IsFitSession,
}
use natsmqtt.Cursor.Replay.{unpin}

module _ (lim : Limits) where
  Step-IsFitSession : (s t : Session) → Step lim s t → IsFitSession lim s → IsFitSession lim t
  unfolding unpin
  Step-IsFitSession _ _ (Step.deliver now seq id s) a =
      note_delivered-IsFitSession lim now id seq s a
  Step-IsFitSession _ _ (Step.live seq id s) a = note_live_copy-IsFitSession lim seq id s a
  Step-IsFitSession _ _ (Step.late conn seq id s) a = late_copy-IsFitSession lim conn seq id s a
  Step-IsFitSession _ _ (Step.begin s) a = begin_scan-IsFitSession lim s a
  Step-IsFitSession _ _ (Step.scan c gen first last subs read s) a =
      apply_scan-IsFitSession lim c gen first last subs read s a
  Step-IsFitSession _ _ (Step.restart c r now s low) a =
      apply_restart-IsFitSession lim c r now s low a
  Step-IsFitSession _ _ (Step.pin seq s) a = pin_for_replay-IsFitSession lim seq s a
  Step-IsFitSession _ _ (Step.unpinned s) a = same-IsFit lim s.cur.next s.cur _ refl refl a
  Step-IsFitSession _ _ (Step.replayed c had first last s) a =
      replayed_to-IsFitSession lim c had first last s a
  Step-IsFitSession _ _ (Step.subscribed c fresh last exact had_non_shared s) a =
      set_since-IsFitSession lim c fresh last exact had_non_shared s a
  Step-IsFitSession _ _ (Step.dropped s) a = drop_cursor_locked-IsFit lim _ s

  Reach-IsFitSession : (s t : Session) → Reach lim s t → IsFitSession lim s → IsFitSession lim t
  Reach-IsFitSession s _ Reach.here a = a
  Reach-IsFitSession s _ (Reach.more t u before step) a =
      Step-IsFitSession t u step (Reach-IsFitSession s t before a)
  Reach-IsFitSession s _ (Reach.again moved t before) a =
      scan_again-IsFitSession lim moved t (Reach-IsFitSession s t before a)

  -- Whatever happens to a new session, its cursor has at most the limit of holes, and each hole lies at
  -- or above the cursor's base and below its next sequence.
  pub Reach-holes_bounds :
      (s t : Session)
      → s.cur ≡ new_cursor
      → Reach lim s t
      → (length t.cur.holes ≤ lim.max_holes)
        × ((seq : ℕ) (id : Bytes)
            → lookup seq t.cur.holes ≡ some id
            → (t.cur.base ≤ seq) × (seq < t.cur.next))
  Reach-holes_bounds s t e steps =
      let fit = Reach-IsFitSession s t steps (rw e (no_holes-IsFit lim 0 new_cursor refl)) in
      (fit.few, fit.within)
