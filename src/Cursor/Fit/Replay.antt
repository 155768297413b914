-- ===== src/Cursor/Fit/Replay.antt =====
-- The bounds of the holes through a resume replay and a SUBSCRIBE.
use natsmqtt.Prelude.{
  subst, sym, ℕ, ◌+◌, ◌%◌, ◌^◌, ◌≡◌, refl, ◌∙◌, inl, inr, Bool, Option, none, some, List, [], ◌∷◌,
  arith, Bytes, ltb, leb, ◌==◌, ◌&&◌, ◌||◌, not, if◌then◌else◌, Bool-cases,
}
use natsmqtt.Dict.{Dict}
use natsmqtt.Cursor.State.{Limits, ReplayCursor, Subscription, Conn, Session, owed_floor}
use natsmqtt.Cursor.Holes.{CursorView, remove_hole, set_cursor_locked, since_known_locked}
use natsmqtt.Cursor.Scan.{is_conn}
use natsmqtt.Cursor.Restart.{restart_next}
use natsmqtt.Cursor.Replay.{
  pin_for_replay, swap_all, swap_fresh, is_hole, settle_holes, start_cursor, advance_cursor,
  replayed_to, set_since,
}
use natsmqtt.Cursor.Fit.{
  IsFit, same-IsFit, IsFit-mono, remove_hole-IsFit, set_cursor_locked-IsFit, remove_hole-next,
}
use natsmqtt.Cursor.Fit.Deliver.{IsFitSession}

module _ (lim : Limits) where
  pub pin_for_replay-IsFitSession :
      (seq : ℕ) (s : Session) → IsFitSession lim s → IsFitSession lim (pin_for_replay seq s)
  unfolding pin_for_replay
  pin_for_replay-IsFitSession seq s a = elim (Bool-cases (s.cur.next == 0)) [
    | inl bare ↦ rw (pin_for_replay, bare) (same-IsFit lim s.cur.next s.cur _ refl refl a)
    | inr has ↦ rw (pin_for_replay, has) a
  ]

  settle_hole-IsFit :
      (top last seq : ℕ) (id : Bytes) (r : ReplayCursor)
      → IsFit lim top r
      → (IsFit lim top (if leb seq last && is_hole seq id r.holes then remove_hole id r else r))
        × ((if leb seq last && is_hole seq id r.holes then remove_hole id r else r).next ≡ r.next)
  settle_hole-IsFit top last seq id r a =
      elim (Bool-cases (leb seq last && is_hole seq id r.holes)) [
        | inl here ↦ rw here (remove_hole-IsFit lim top id r a, remove_hole-next id r)
        | inr there ↦ rw there (a, refl)
      ]

  settle_holes-IsFit :
      (top last : ℕ) (had : Dict ℕ Bytes) (r : ReplayCursor)
      → IsFit lim top r
      → IsFit lim top (settle_holes last had r) × ((settle_holes last had r).next ≡ r.next)
  unfolding settle_holes
  settle_holes-IsFit top last [] r a = (a, refl)
  settle_holes-IsFit top last ((seq, id) ∷ had) r a =
      let r' = if leb seq last && is_hole seq id r.holes then remove_hole id r else r in
      let (a', same) : IsFit lim top r' × (r'.next ≡ r.next) =
        settle_hole-IsFit top last seq id r a in
      let (fit, next) = settle_holes-IsFit top last had r' a' in (fit, next ∙ same)

  advance_cursor-IsFitSession :
      (had : Dict ℕ Bytes) (last next : ℕ) (s : Session)
      → IsFitSession lim s
      → IsFitSession lim (advance_cursor had last next s)
  unfolding advance_cursor
  advance_cursor-IsFitSession had last next s a =
      let (fit, same) = settle_holes-IsFit s.cur.next last had s.cur a in
      let cur = settle_holes last had s.cur in
      elim (Bool-cases (s.cur.next == 0)) [
        | inl bare ↦ rw (advance_cursor, bare) a
        | inr has ↦ elim (Bool-cases (ltb cur.next next)) [
          | inl further ↦
              rw (advance_cursor, has, further)
                (same-IsFit lim next cur _ refl refl
                  (IsFit-mono lim s.cur.next next cur (ground arith) fit))
          | inr behind ↦
              rw (advance_cursor, has, behind) (subst (λ n. IsFit lim n cur) (sym same) fit)
        ]
      ]

  start_cursor-IsFitSession :
      (pinned first floor next : ℕ) (s : Session)
      → IsFitSession lim s
      → IsFitSession lim (start_cursor pinned first floor next s)
  unfolding start_cursor
  start_cursor-IsFitSession pinned first floor next s a =
      elim (Bool-cases (
        not (s.cur.next == 0)
        || ((pinned == 0) || (ltb first pinned || (not (floor == 0) && ltb floor first))))) [
          | inl other ↦ rw (start_cursor, other) a
          | inr fit ↦
              rw (start_cursor, fit)
                (same-IsFit lim _ (set_cursor_locked next s).cur _ refl refl
                  (set_cursor_locked-IsFit lim _ next s))
        ]

  replay-IsFitSession :
      (pinned floor : ℕ) (had : Option CursorView) (first last : ℕ) (s : Session)
      → IsFitSession lim s
      → IsFitSession lim (elim had [
        | none ↦ start_cursor pinned first floor (restart_next last floor) s
        | some v ↦ advance_cursor v.holes last (restart_next last floor) s
      ])
  replay-IsFitSession pinned floor none first last s a =
      start_cursor-IsFitSession pinned first floor (restart_next last floor) s a
  replay-IsFitSession pinned floor (some v) first last s a =
      advance_cursor-IsFitSession v.holes last (restart_next last floor) s a

  pub replayed_to-IsFitSession :
      (c : Conn) (had : Option CursorView) (first last : ℕ) (s : Session)
      → IsFitSession lim s
      → IsFitSession lim (replayed_to c had first last s)
  unfolding replayed_to
  replayed_to-IsFitSession c had first last s a =
      let unpinned : ReplayCursor = record (s.cur) { pin = 0 } in
      let fit : IsFit lim s.cur.next unpinned =
        same-IsFit lim s.cur.next s.cur unpinned refl refl a in
      elim (Bool-cases (not (is_conn s.conn c.ident) || c.closed)) [
        | inl gone ↦ rw (replayed_to, gone) fit
        | inr there ↦
            rw (replayed_to, there)
              (replay-IsFitSession s.cur.pin (owed_floor c) had first last
                (record s { cur = unpinned; subs = swap_all last s.subs }) fit)
      ]

  pub set_since-IsFitSession :
      (c : Conn) (fresh : List Subscription) (last : ℕ) (exact had_non_shared : Bool) (s : Session)
      → IsFitSession lim s
      → IsFitSession lim (set_since c fresh last exact had_non_shared s)
  unfolding set_since
  set_since-IsFitSession c fresh last exact had_non_shared s a =
      let s' = record s { subs = swap_fresh fresh last s.subs } in
      elim (Bool-cases (
        exact
        && ((s.cur.next == 0)
            && (not had_non_shared
                && ((owed_floor c == 0)
                    && (is_conn s.conn c.ident && since_known_locked s'.subs)))))) [
                      | inl starts ↦
                          rw (set_since, starts)
                            (set_cursor_locked-IsFit lim _ ((last + 1) % 2 ^ 64) s')
                      | inr kept ↦ rw (set_since, kept) a
                    ]
