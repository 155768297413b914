-- ===== src/Cursor/Fit/Deliver.antt =====
-- The bounds of the holes through `noteLiveCopy`, `noteDelivered` and `lateCopy`.
use natsmqtt.Prelude.{
  ℕ, ◌<◌, ◌≡◌, refl, inl, inr, Bool, Option, [], ◌∷◌, arith, Bytes, ltb, ◌==◌, ◌%◌, ◌&&◌, not,
  length, Bool-cases, Option-cases,
}
use natsmqtt.Cursor.State.{Limits, Session, lowest_seq}
use natsmqtt.Cursor.Holes.{remove_hole, drop_cursor_locked, add_hole_locked, note_live_copy}
use natsmqtt.Cursor.Deliver.{
  forget_stale, mark_delivered, prune_delivered, ask_scan, note_delivered, late_hole, note_late,
  late_copy, other_conn,
}
use natsmqtt.Cursor.Fit.{
  remove_hole-next, add_hole_locked-next, IsFit, same-IsFit, remove_hole-IsFit,
  drop_cursor_locked-IsFit, add_hole_locked-Fits,
}

module _ (lim : Limits) where
  -- Below its own `next`.
  abbrev pub IsFitSession : Session → Type 0
  IsFitSession s = IsFit lim s.cur.next s.cur

  add_hole_locked-IsFitSession :
      (seq : ℕ) (id : Bytes) (s : Session)
      → seq < s.cur.next
      → IsFitSession s
      → IsFitSession (add_hole_locked lim seq id s).0
  add_hole_locked-IsFitSession seq id s high a =
      let (kept, refused) = add_hole_locked-Fits lim s.cur.next seq id s high a in
      elim (Bool-cases (add_hole_locked lim seq id s).1) [
        | inl fine ↦ rw (add_hole_locked-next lim seq id s fine) (kept fine)
        | inr gone ↦ refused gone (add_hole_locked lim seq id s).0.cur.next
      ]

  pub note_live_copy-IsFitSession :
      (seq : ℕ) (id : Bytes) (s : Session)
      → IsFitSession s
      → IsFitSession (note_live_copy lim seq id s)
  unfolding note_live_copy
  note_live_copy-IsFitSession seq id s a = elim (Bool-cases (seq == 0)) [
    | inl direct ↦ rw (note_live_copy, direct) a
    | inr queued ↦ elim (Bool-cases (not (s.cur.next == 0) && ltb seq s.cur.next)) [
      | inl passed ↦
          rw (note_live_copy, queued, passed)
            (add_hole_locked-IsFitSession seq id s (ground arith) a)
      | inr ahead ↦ rw (note_live_copy, queued, ahead) a
    ]
  ]

  mark_delivered-IsFitSession :
      (id : Bytes) (seq now : ℕ) (s : Session)
      → IsFitSession s
      → IsFitSession (mark_delivered id seq now s)
  unfolding mark_delivered
  mark_delivered-IsFitSession id seq now s a = rw (remove_hole-next id s.cur) (
      same-IsFit lim s.cur.next (remove_hole id s.cur) _ refl refl
        (remove_hole-IsFit lim s.cur.next id s.cur a))

  prune_delivered-IsFitSession :
      (now : ℕ) (s : Session) → IsFitSession s → IsFitSession (prune_delivered lim now s)
  unfolding prune_delivered
  prune_delivered-IsFitSession now s a =
      let keep = lowest_seq (s.cur.next ∷ s.cur.pin ∷ []) in
      let forgot = forget_stale keep now s.window s.max_delivered_seq s.delivered in
      let s' : Session = record s { delivered = forgot.0 } in
      elim (Bool-cases (ltb 64 (length s.delivered) && (length s.delivered % 64 == 0))) [
        | inr skip ↦ rw skip a
        | inl due ↦ elim (Bool-cases (ltb lim.id_bound forgot.1)) [
          | inl over ↦
              rw (due, over) (drop_cursor_locked-IsFit lim (drop_cursor_locked s').cur.next s')
          | inr fits ↦ rw (due, fits) a
        ]
      ]

  ask_scan-same :
      (s : Session)
      → ((ask_scan lim s).0.cur.holes ≡ s.cur.holes)
        × ((ask_scan lim s).0.cur.base ≡ s.cur.base)
        × ((ask_scan lim s).0.cur.next ≡ s.cur.next)
  unfolding ask_scan
  ask_scan-same s = ground arith

  pub note_delivered-IsFitSession :
      (now : ℕ) (id : Bytes) (seq : ℕ) (s : Session)
      → IsFitSession s
      → IsFitSession (note_delivered lim now id seq s).0
  unfolding note_delivered
  note_delivered-IsFitSession now id seq s a =
      let s' = prune_delivered lim now (mark_delivered id seq now s) in
      let fit =
        prune_delivered-IsFitSession now (mark_delivered id seq now s)
          (mark_delivered-IsFitSession id seq now s a) in
      let (e, f, g) = ask_scan-same s' in
      rw g (same-IsFit lim s'.cur.next s'.cur (ask_scan lim s').0.cur e f fit)

  late_hole-IsFitSession :
      (seq : ℕ) (id : Bytes) (s : Session)
      → IsFitSession s
      → IsFitSession (late_hole lim seq id s).0
  unfolding late_hole
  late_hole-IsFitSession seq id s a =
      elim (Bool-cases (not (s.cur.next == 0) && ltb seq s.cur.next)) [
        | inl passed ↦ rw passed (add_hole_locked-IsFitSession seq id s (ground arith) a)
        | inr ahead ↦ rw ahead a
      ]

  note_late-cur : (seq : ℕ) (s : Session) (holed : Bool) → (note_late seq s holed).0.cur ≡ s.cur
  unfolding note_late
  note_late-cur seq s holed = ground arith

  pub late_copy-IsFitSession :
      (conn : Option ℕ) (seq : ℕ) (id : Bytes) (s : Session)
      → IsFitSession s
      → IsFitSession (late_copy lim conn seq id s).0
  unfolding late_copy
  late_copy-IsFitSession conn seq id s a = elim (Option-cases (other_conn s.conn conn)) [
    | inr (c, other) ↦ rw (late_copy, other) a
    | inl mine ↦
        let s' = late_hole lim seq id s in
        rw (late_copy, mine, note_late-cur seq s'.0 s'.1) (late_hole-IsFitSession seq id s a)
  ]
