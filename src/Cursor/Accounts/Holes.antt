-- ===== src/Cursor/Accounts/Holes.antt =====
-- The account through `addHoleLocked`, `dropCursorLocked`, `setCursorLocked` and `noteLiveCopy`.
use natsmqtt.Prelude.{
  ℕ, ◌≡◌, refl, sym, subst, ◌∙◌, inl, inr, Bool, true, false, some, arith, Bytes, ltb, leb, ◌==◌,
  ◌&&◌, not, length, is_empty, Bool-cases,
}
use natsmqtt.Dict.{
  lookup, contains, number_key, text_key, lookup-insert_self, contains-missing, contains-found,
}
use natsmqtt.Cursor.State.{Limits, Session}
use natsmqtt.Cursor.Holes.{add_hole, drop_cursor_locked, add_hole_locked, note_live_copy}
use natsmqtt.Cursor.Accounts.{
  IsCovered, Remembers, IsSound, no_holes-IsAccounted, add_hole-IsAccounted, lookup-add_hole,
}

-- What an accepted hole leaves of the state before it.
pub record Grew (s s' : Session) : Type 0 where
  pub next_same : s'.cur.next ≡ s.cur.next
  pub delivered_same : s'.delivered ≡ s.delivered
  pub keeps : (j : ℕ) (v : Bytes) → lookup j s.cur.holes ≡ some v → lookup j s'.cur.holes ≡ some v

pub Grew-refl : (s : Session) → Grew s s
Grew-refl s = record { next_same = refl; delivered_same = refl; keeps = λ j v h. h }

pub Grew-trans : {s t u : Session} → Grew s t → Grew t u → Grew s u
Grew-trans g h = record {
  next_same = h.next_same ∙ g.next_same;
  delivered_same = h.delivered_same ∙ g.delivered_same;
  keeps = λ j v there. h.keeps j v (g.keeps j v there);
}

module _ (id_at : ℕ → Bytes) (Owed : ℕ → Type 0) (Sent : Bytes → Type 0) (from : ℕ) where
  pub drop_cursor_locked-IsSound :
      (s : Session)
      → Remembers Sent s.delivered
      → IsSound id_at Owed Sent from (drop_cursor_locked s)
  unfolding drop_cursor_locked
  drop_cursor_locked-IsSound s k = record {
    cursor =
        no_holes-IsAccounted id_at Owed Sent from (drop_cursor_locked s).cur refl refl
          (λ seq o low high. absurd (omega arith));
    remembers = k;
  }

  -- An accepted hole covers its message.
  abbrev pub Accepted : ℕ → Session → Session → Type 0
  Accepted seq s s' = Grew s s' × IsCovered id_at Sent s'.cur.holes seq

  abbrev pub Outcome : ℕ → Session → Session × Bool → Type 0
  Outcome seq s r = IsSound id_at Owed Sent from r.0 × (r.1 ≡ true → Accepted seq s r.0)

  dropped-Outcome :
      (seq : ℕ) (s : Session)
      → IsSound id_at Owed Sent from s
      → Outcome seq s (drop_cursor_locked s, false)
  dropped-Outcome seq s h = (drop_cursor_locked-IsSound s h.remembers, λ e. absurd (cc))

  present-Outcome :
      (seq : ℕ) (s : Session)
      → IsSound id_at Owed Sent from s
      → IsCovered id_at Sent s.cur.holes seq
      → Outcome seq s (s, true)
  present-Outcome seq s h c = (h, λ e. (Grew-refl s, c))

  added-Outcome :
      (seq : ℕ) (s : Session)
      → IsSound id_at Owed Sent from s
      → contains seq s.cur.holes ≡ false
      → Outcome seq s (record s { cur = add_hole seq (id_at seq) s.cur }, true)
  unfolding add_hole
  added-Outcome seq s h fresh =
      let free = contains-missing seq s.cur.holes fresh in
      (
        record {
          cursor = add_hole-IsAccounted id_at Owed Sent from seq s.cur h.cursor;
          remembers = h.remembers;
        },
        λ e. (
          record {
            next_same = refl;
            delivered_same = refl;
            keeps = λ j v there. lookup-add_hole id_at Owed Sent from seq s.cur j v h.cursor there;
          },
          inr (lookup-insert_self seq (id_at seq) s.cur.holes),
        ),
      )

  held-Outcome :
      (seq : ℕ) (s : Session)
      → IsSound id_at Owed Sent from s
      → contains seq s.cur.holes ≡ true
      → Outcome seq s (s, true)
  held-Outcome seq s h held =
      let (id, there) = contains-found seq s.cur.holes held in
      let named = h.cursor.named seq id there in present-Outcome seq s h (inr (ground arith))

  delivered-Outcome :
      (seq : ℕ) (s : Session)
      → IsSound id_at Owed Sent from s
      → contains (id_at seq) s.delivered ≡ true
      → Outcome seq s (s, true)
  delivered-Outcome seq s h done =
      let (m, there) = contains-found (id_at seq) s.delivered done in
      present-Outcome seq s h (inl (h.remembers (id_at seq) m there))

  pub add_hole_locked-Outcome :
      (lim : Limits) (seq : ℕ) (s : Session)
      → IsSound id_at Owed Sent from s
      → Outcome seq s (add_hole_locked lim seq (id_at seq) s)
  unfolding add_hole_locked
  add_hole_locked-Outcome lim seq s h = elim (Bool-cases (ltb seq s.cur.base)) [
    | inl below ↦ rw (add_hole_locked, below) (dropped-Outcome seq s h)
    | inr above ↦ elim (Bool-cases (is_empty (id_at seq))) [
      | inl nameless ↦ rw (add_hole_locked, above, nameless) (dropped-Outcome seq s h)
      | inr named ↦ elim (Bool-cases (contains (id_at seq) s.delivered)) [
        | inl done ↦ rw (add_hole_locked, above, named, done) (delivered-Outcome seq s h done)
        | inr new ↦ elim (Bool-cases (contains seq s.cur.holes)) [
          | inl held ↦ rw (add_hole_locked, above, named, new, held) (held-Outcome seq s h held)
          | inr fresh ↦ elim (Bool-cases (leb lim.max_holes (length s.cur.holes))) [
            | inl full ↦
                rw (add_hole_locked, above, named, new, fresh, full) (dropped-Outcome seq s h)
            | inr room ↦
                rw (add_hole_locked, above, named, new, fresh, room) (added-Outcome seq s h fresh)
          ]
        ]
      ]
    ]
  ]

  -- The same, for an id that is the message's.
  pub add_hole-Outcome :
      (lim : Limits) (seq : ℕ) (id : Bytes) (s : Session)
      → id ≡ id_at seq
      → IsSound id_at Owed Sent from s
      → Outcome seq s (add_hole_locked lim seq id s)
  add_hole-Outcome lim seq id s named h =
      subst (λ i. Outcome seq s (add_hole_locked lim seq i s)) (sym named)
        (add_hole_locked-Outcome lim seq s h)

  pub note_live_copy-IsSound :
      (lim : Limits) (seq : ℕ) (s : Session)
      → IsSound id_at Owed Sent from s
      → IsSound id_at Owed Sent from (note_live_copy lim seq (id_at seq) s)
  unfolding note_live_copy
  note_live_copy-IsSound lim seq s h =
      let sound = (add_hole_locked-Outcome lim seq s h).0 in
      elim (Bool-cases (seq == 0)) [
        | inl direct ↦ rw direct h
        | inr queued ↦ elim (Bool-cases (not (s.cur.next == 0) && ltb seq s.cur.next)) [
          | inl passed ↦
              rw (queued, passed) (record { cursor = sound.cursor; remembers = sound.remembers })
          | inr ahead ↦ rw (queued, ahead) h
        ]
      ]
