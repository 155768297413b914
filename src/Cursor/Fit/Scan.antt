-- ===== src/Cursor/Fit/Scan.antt =====
-- The bounds of the holes through a scan, and the cursor's way forward.
use natsmqtt.Prelude.{
  ℕ, ◌+◌, ◌%◌, ◌^◌, ◌≤◌, ◌≡◌, refl, inl, inr, Bool, false, List, [], ◌∷◌, arith, ltb, leb, ◌==◌,
  ◌||◌, not, Bool-cases,
}
use natsmqtt.Cursor.State.{Limits, Subscription, Conn, Session, owed_floor}
use natsmqtt.Cursor.Holes.{drop_cursor_locked, add_hole_locked, since_known_locked}
use natsmqtt.Cursor.Scan.{
  Scanned, add_read, scan_next, begin_scan, move_cursor, same_subs_locked, apply_scan_locked,
  apply_scan, scan_again, is_conn,
}
use natsmqtt.Cursor.Fit.{
  IsFit, Fits, same-IsFit, IsFit-mono, drop_cursor_locked-IsFit, add_hole_locked-Fits,
}
use natsmqtt.Cursor.Fit.Deliver.{IsFitSession}

module _ (lim : Limits) where
  add_read-Fits :
      (next top : ℕ) (ms : List Scanned) (s : Session)
      → next ≤ top
      → IsFit lim top s.cur
      → Fits lim top (add_read lim next ms s)
  unfolding add_read
  add_read-Fits next top [] s le a = (λ e. a, λ e t. absurd (cc))
  add_read-Fits next top (m ∷ ms) s le a = elim (Bool-cases (leb next m.seq)) [
    | inl past ↦ rw past (λ e. a, λ e t. absurd (cc))
    | inr within ↦ elim (Bool-cases m.owed) [
      | inr free ↦ rw (within, free) (add_read-Fits next top ms s le a)
      | inl owed ↦
          let (kept, refused) = add_hole_locked-Fits lim top m.seq m.id s (ground arith) a in
          elim (Bool-cases (add_hole_locked lim m.seq m.id s).1) [
            | inr gone ↦ rw (within, owed, gone) (λ e. absurd (cc), λ e t. refused gone t)
            | inl added ↦
                rw (within, owed, added)
                  (add_read-Fits next top ms (add_hole_locked lim m.seq m.id s).0 le (kept added))
          ]
    ]
  ]

  move_cursor-IsFitSession :
      (next : ℕ) (read : List Scanned) (s : Session)
      → s.cur.next ≤ next
      → IsFitSession lim s
      → IsFitSession lim (move_cursor lim next read s).0
  unfolding move_cursor
  move_cursor-IsFitSession next read s le a =
      let (kept, refused) =
        add_read-Fits next next read s (omega arith) (IsFit-mono lim s.cur.next next s.cur le a) in
      elim (Bool-cases (add_read lim next read s).1) [
        | inr gone ↦ rw gone (refused gone (add_read lim next read s).0.cur.next)
        | inl fine ↦
            rw fine (same-IsFit lim next (add_read lim next read s).0.cur _ refl refl (kept fine))
      ]

  pub le-scan_next :
      (first last floor : ℕ)
      → ltb ((last + 1) % 2 ^ 64) first ≡ false
      → first ≤ scan_next first last floor
  unfolding scan_next
  le-scan_next first last floor h = ground arith

  pub apply_scan_locked-IsFitSession :
      (gen first last : ℕ) (subs : List Subscription) (read : List Scanned) (floor : ℕ)
      (s : Session)
      → IsFitSession lim s
      → IsFitSession lim (apply_scan_locked lim gen first last subs read floor s).0
  unfolding apply_scan_locked
  apply_scan_locked-IsFitSession gen first last subs read floor s a =
      elim (Bool-cases (not (s.cur.gen == gen) || not (s.cur.next == first))) [
        | inl raced ↦ rw raced a
        | inr same ↦ elim (Bool-cases (ltb ((last + 1) % 2 ^ 64) first)) [
          | inl purged ↦
              rw (same, purged) (drop_cursor_locked-IsFit lim (drop_cursor_locked s).cur.next s)
          | inr there ↦ elim (Bool-cases (same_subs_locked subs s)) [
            | inr other ↦ rw (same, there, other) a
            | inl held ↦ elim (Bool-cases (since_known_locked s.subs)) [
              | inr unknown ↦ rw (same, there, held, unknown) a
              | inl known ↦
                  rw (same, there, held, known)
                    (move_cursor-IsFitSession (scan_next first last floor) read s
                      (ground (arith, le-scan_next first last floor there)) a)
            ]
          ]
        ]
      ]

  pub apply_scan-IsFitSession :
      (c : Conn) (gen first last : ℕ) (subs : List Subscription) (read : List Scanned) (s : Session)
      → IsFitSession lim s
      → IsFitSession lim (apply_scan lim c gen first last subs read s).0
  unfolding apply_scan
  apply_scan-IsFitSession c gen first last subs read s a =
      elim (Bool-cases (not (is_conn s.conn c.ident) || c.closed)) [
        | inl gone ↦ rw (apply_scan, gone) a
        | inr there ↦
            rw (apply_scan, there)
              (apply_scan_locked-IsFitSession gen first last subs read (owed_floor c) s a)
      ]

  begin_scan-same :
      (s : Session)
      → ((begin_scan s).0.cur.holes ≡ s.cur.holes)
        × ((begin_scan s).0.cur.base ≡ s.cur.base)
        × ((begin_scan s).0.cur.next ≡ s.cur.next)
  unfolding begin_scan
  begin_scan-same s = ground arith

  pub begin_scan-IsFitSession :
      (s : Session) → IsFitSession lim s → IsFitSession lim (begin_scan s).0
  begin_scan-IsFitSession s a =
      let (e, f, g) = begin_scan-same s in
      rw g (same-IsFit lim s.cur.next s.cur (begin_scan s).0.cur e f a)

  scan_again-same :
      (moved : Bool) (s : Session)
      → ((scan_again lim moved s).0.cur.holes ≡ s.cur.holes)
        × ((scan_again lim moved s).0.cur.base ≡ s.cur.base)
        × ((scan_again lim moved s).0.cur.next ≡ s.cur.next)
  unfolding scan_again
  scan_again-same moved s = ground arith

  pub scan_again-IsFitSession :
      (moved : Bool) (s : Session)
      → IsFitSession lim s
      → IsFitSession lim (scan_again lim moved s).0
  scan_again-IsFitSession moved s a =
      let (e, f, g) = scan_again-same moved s in
      rw g (same-IsFit lim s.cur.next s.cur (scan_again lim moved s).0.cur e f a)
