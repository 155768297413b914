-- ===== src/Cursor/Fit/Restart.antt =====
-- The bounds of the holes that a restart scan sets.
use natsmqtt.Prelude.{
  ℕ, ◌+◌, ◌≤◌, ◌<◌, ◌≡◌, refl, ◌⊎◌, inl, inr, some, List, [], ◌∷◌, arith, Bytes, leb, ◌||◌, not,
  length, is_empty, All, Bool-cases, Option-cases, subst, sym,
}
use natsmqtt.Dict.{length-insert, number_key, Dict, contains, text_key}
use natsmqtt.Cursor.State.{Limits, ReplayCursor, DeliveredMark, Conn, Session, owed_floor}
use natsmqtt.Cursor.Holes.{add_hole, set_cursor_locked}
use natsmqtt.Cursor.Scan.{Scanned, is_conn}
use natsmqtt.Cursor.Restart.{
  RestartScan, find_holes, add_holes, restart_next, restarted, restart_cursor_locked, apply_restart,
}
use natsmqtt.Cursor.Fit.{IsFit, no_holes-IsFit, same-IsFit, add_hole-IsFit}
use natsmqtt.Cursor.Fit.Deliver.{IsFitSession}

add_holes-next : (hs : List Scanned) (r : ReplayCursor) → (add_holes hs r).next ≡ r.next
unfolding add_holes add_hole
add_holes-next [] r = refl
add_holes-next (m ∷ ms) r = add_holes-next ms (add_hole m.seq m.id r)

-- Each message lies from the base on and below the cursor's new place.
abbrev pub Between : ℕ → ℕ → List Scanned → Type 0
Between base next ms = All (λ m. (base ≤ m.seq) × (m.seq < next)) ms

find_holes-Between :
    (base next : ℕ) (delivered : Dict Bytes DeliveredMark) (ms hs : List Scanned)
    → All (λ m. base ≤ m.seq) ms
    → find_holes next delivered ms ≡ some hs
    → Between base next hs
unfolding find_holes
find_holes-Between base next delivered [] hs low e =
    let same : [] ≡ hs = ground arith in subst (Between base next) same tt
find_holes-Between base next delivered (m ∷ ms) hs (low, lows) e =
    let rest = find_holes-Between base next delivered ms in
    elim (Bool-cases (leb next m.seq)) [
      | inl past ↦ let same : [] ≡ hs = ground arith in subst (Between base next) same tt
      | inr within ↦ elim (Bool-cases (not m.owed || contains m.id delivered)) [
        | inl skip ↦ rest hs lows (ground arith)
        | inr new ↦ elim (Bool-cases (is_empty m.id)) [
          | inl nameless ↦ absurd (ground arith)
          | inr has_id ↦ elim (Option-cases (find_holes next delivered ms)) [
            | inl refused ↦ absurd (ground arith)
            | inr (hs', more) ↦
                let same : (m ∷ hs') ≡ hs = ground arith in
                subst (Between base next) same ((low, ground arith), rest hs' lows more)
          ]
        ]
      ]
    ]

module _ (lim : Limits) where
  add_holes-IsFit :
      (next : ℕ) (hs : List Scanned) (r : ReplayCursor)
      → Between r.base next hs
      → length r.holes + length hs ≤ lim.max_holes
      → IsFit lim next r
      → IsFit lim next (add_holes hs r)
  unfolding add_holes add_hole
  add_holes-IsFit next [] r between room a = a
  add_holes-IsFit next (m ∷ ms) r ((low, high), between) room a =
      add_holes-IsFit next ms (add_hole m.seq m.id r) between
        (omega (arith, length-insert m.seq m.id r.holes))
        (add_hole-IsFit lim next m.seq m.id r low high (omega arith) a)

  restarted-IsFitSession :
      (base next : ℕ) (hs : List Scanned) (s : Session)
      → Between base next hs
      → length hs ≤ lim.max_holes
      → IsFitSession lim (restarted base next hs s)
  unfolding restarted set_cursor_locked
  restarted-IsFitSession base next hs s between few =
      let fresh = record ((set_cursor_locked next s).cur) { base = base } in
      let fit =
        add_holes-IsFit next hs fresh between (omega arith) (no_holes-IsFit lim next fresh refl) in
      rw (add_holes-next hs fresh) (same-IsFit lim next (add_holes hs fresh) _ refl refl fit)

  restart_cursor_locked-IsFitSession :
      (r : RestartScan) (floor now : ℕ) (s : Session)
      → All (λ m. r.base ≤ m.seq) r.read
      → IsFitSession lim s
      → IsFitSession lim (restart_cursor_locked lim r floor now s).0
  unfolding restart_cursor_locked
  restart_cursor_locked-IsFitSession r floor now s low a =
      let next = restart_next r.last floor in
      let after = (restart_cursor_locked lim r floor now s).0 in
      elim (Option-cases (find_holes next s.delivered r.read)) [
        | inl refused ↦ let same : after ≡ s = ground arith in subst (IsFitSession lim) (sym same) a
        | inr (hs, found) ↦
            let same : (after ≡ s)
                ⊎ ((length hs ≤ lim.max_holes) × (after ≡ restarted r.base next hs s)) =
              ground arith in
            elim same [
              | inl kept ↦ subst (IsFitSession lim) (sym kept) a
              | inr (few, set) ↦ subst (IsFitSession lim) (sym set) (
                  restarted-IsFitSession r.base next hs s
                    (find_holes-Between r.base next s.delivered r.read hs low found) few)
            ]
      ]

  pub apply_restart-IsFitSession :
      (c : Conn) (r : RestartScan) (now : ℕ) (s : Session)
      → All (λ m. r.base ≤ m.seq) r.read
      → IsFitSession lim s
      → IsFitSession lim (apply_restart lim c r now s).0
  unfolding apply_restart
  apply_restart-IsFitSession c r now s low a =
      elim (Bool-cases (not (is_conn s.conn c.ident) || (c.closed || c.resuming))) [
        | inl gone ↦ rw (apply_restart, gone) a
        | inr there ↦
            rw (apply_restart, there)
              (restart_cursor_locked-IsFitSession r (owed_floor c) now s low a)
      ]
