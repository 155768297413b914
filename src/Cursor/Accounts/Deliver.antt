-- ===== src/Cursor/Accounts/Deliver.antt =====
-- The account through `noteDelivered` and `lateCopy`.
use natsmqtt.Prelude.{
  ℕ, ◌≡◌, refl, sym, subst, inl, inr, Bool, Option, some, [], ◌∷◌, arith, Bytes, ltb, leb, ◌==◌,
  ◌%◌, ◌&&◌, ◌||◌, not, length, Bool-cases, Option-cases,
}
use natsmqtt.Dict.{Dict, lookup, number_key, text_key, lookup-insert-cases}
use natsmqtt.Cursor.State.{Limits, DeliveredMark, Session, lowest_seq}
use natsmqtt.Cursor.Holes.{remove_hole}
use natsmqtt.Cursor.Deliver.{
  forget_stale, mark_delivered, prune_delivered, ask_scan, note_delivered, late_hole, note_late,
  late_copy, other_conn,
}
use natsmqtt.Cursor.Accounts.{Remembers, IsSound, remove_hole-IsAccounted, same-IsAccounted}
use natsmqtt.Cursor.Accounts.Holes.{drop_cursor_locked-IsSound, add_hole_locked-Outcome}

-- What is left after forgetting was there.
forget_stale-found :
    (keep now window highest : ℕ) (ms : Dict Bytes DeliveredMark) (id : Bytes) (m : DeliveredMark)
    → lookup id (forget_stale keep now window highest ms).0 ≡ some m
    → (m' : DeliveredMark) × (lookup id ms ≡ some m')
unfolding forget_stale lookup
forget_stale-found keep now window highest [] id m h = absurd (cc)
forget_stale-found keep now window highest ((j, n) ∷ ms) id m h =
    elim (Bool-cases (text_key.same id j)) [
      | inl here ↦ (n, rw here)
      | inr there ↦
          let (m', old) = forget_stale-found keep now window highest ms id m (ground arith) in
          (m', rw there old)
    ]

module _ (id_at : ℕ → Bytes) (Owed : ℕ → Type 0) (Sent : Bytes → Type 0) (from : ℕ) where
  mark_delivered-IsSound :
      (id : Bytes) (seq now : ℕ) (s : Session)
      → Sent id
      → IsSound id_at Owed Sent from s
      → IsSound id_at Owed Sent from (mark_delivered id seq now s)
  unfolding mark_delivered
  mark_delivered-IsSound id seq now s sent h = record {
    cursor =
        same-IsAccounted id_at Owed Sent from (remove_hole id s.cur) _ refl refl refl (
          remove_hole-IsAccounted id_at Owed Sent from id s.cur (λ j o same. rw same sent)
            h.cursor);
    remembers = λ j m there.
        elim (lookup-insert-cases j id (record { at = now; seq = seq }) m s.delivered there) [
          | inl (here, _) ↦ subst Sent (sym here) sent
          | inr (_, old) ↦ h.remembers j m old
        ];
  }

  prune_delivered-IsSound :
      (lim : Limits) (now : ℕ) (s : Session)
      → IsSound id_at Owed Sent from s
      → IsSound id_at Owed Sent from (prune_delivered lim now s)
  unfolding prune_delivered
  prune_delivered-IsSound lim now s h =
      let keep = lowest_seq (s.cur.next ∷ s.cur.pin ∷ []) in
      let forgot = forget_stale keep now s.window s.max_delivered_seq s.delivered in
      let remembers : Remembers Sent forgot.0 = (λ id m there.
        let (m', old) =
          forget_stale-found keep now s.window s.max_delivered_seq s.delivered id m there in
        h.remembers id m' old) in
      elim (Bool-cases (ltb 64 (length s.delivered) && (length s.delivered % 64 == 0))) [
        | inr skip ↦ rw skip h
        | inl due ↦ elim (Bool-cases (ltb lim.id_bound forgot.1)) [
          | inl over ↦
              rw (due, over)
                (drop_cursor_locked-IsSound id_at Owed Sent from (record s { delivered = forgot.0 })
                  remembers)
          | inr fits ↦ rw (due, fits) (record { cursor = h.cursor; remembers = remembers })
        ]
      ]

  ask_scan-IsSound :
      (lim : Limits) (s : Session)
      → IsSound id_at Owed Sent from s
      → IsSound id_at Owed Sent from (ask_scan lim s).0
  unfolding ask_scan
  ask_scan-IsSound lim s h =
      elim (Bool-cases
        (leb lim.scan_after s.cur.above && (not (s.cur.next == 0) || s.cur.pin == 0))) [
          | inr early ↦ rw early h
          | inl due ↦ elim (Bool-cases s.cur.scanning) [
            | inl busy ↦
                rw (due, busy)
                  (record {
                    cursor = same-IsAccounted id_at Owed Sent from s.cur _ refl refl refl h.cursor;
                    remembers = h.remembers;
                  })
            | inr free ↦
                rw (due, free)
                  (record {
                    cursor = same-IsAccounted id_at Owed Sent from s.cur _ refl refl refl h.cursor;
                    remembers = h.remembers;
                  })
          ]
        ]

  pub note_delivered-IsSound :
      (lim : Limits) (now : ℕ) (id : Bytes) (seq : ℕ) (s : Session)
      → Sent id
      → IsSound id_at Owed Sent from s
      → IsSound id_at Owed Sent from (note_delivered lim now id seq s).0
  unfolding note_delivered
  note_delivered-IsSound lim now id seq s sent h =
      ask_scan-IsSound lim (prune_delivered lim now (mark_delivered id seq now s)) (
        prune_delivered-IsSound lim now (mark_delivered id seq now s)
          (mark_delivered-IsSound id seq now s sent h))

  late_hole-IsSound :
      (lim : Limits) (seq : ℕ) (s : Session)
      → IsSound id_at Owed Sent from s
      → IsSound id_at Owed Sent from (late_hole lim seq (id_at seq) s).0
  unfolding late_hole
  late_hole-IsSound lim seq s h = elim (Bool-cases (not (s.cur.next == 0) && ltb seq s.cur.next)) [
    | inl passed ↦ rw passed (add_hole_locked-Outcome id_at Owed Sent from lim seq s h).0
    | inr ahead ↦ rw ahead h
  ]

  note_late-same :
      (seq : ℕ) (s : Session) (holed : Bool)
      → ((note_late seq s holed).0.cur ≡ s.cur)
        × ((note_late seq s holed).0.delivered ≡ s.delivered)
  unfolding note_late
  note_late-same seq s holed = ground arith

  pub late_copy-IsSound :
      (lim : Limits) (conn : Option ℕ) (seq : ℕ) (s : Session)
      → IsSound id_at Owed Sent from s
      → IsSound id_at Owed Sent from (late_copy lim conn seq (id_at seq) s).0
  unfolding late_copy
  late_copy-IsSound lim conn seq s h = elim (Option-cases (other_conn s.conn conn)) [
    | inr (c, other) ↦ rw (late_copy, other) h
    | inl mine ↦
        let sound = late_hole-IsSound lim seq s h in
        let s' = (late_hole lim seq (id_at seq) s).0 in
        let (e, f) = note_late-same seq s' (late_hole lim seq (id_at seq) s).1 in
        rw (late_copy, mine)
          (record { cursor = rw e sound.cursor; remembers = rw f sound.remembers })
  ]
