-- ===== src/Cursor/Accounts/Scan.antt =====
-- The account through a scan: what `applyScan` passes was sent or is a hole.
use natsmqtt.Prelude.{
  ℕ, ◌+◌, ◌%◌, ◌^◌, ◌≤◌, ◌<◌, ◌≡◌, refl, subst, ◌⊎◌, inl, inr, Bool, true, List, [], ◌∷◌, arith,
  Bytes, ltb, leb, ◌==◌, ◌||◌, not, All, Bool-cases,
}
use natsmqtt.Dict.{number_key}
use natsmqtt.Cursor.State.{Limits, Subscription, Conn, Session, owed_floor}
use natsmqtt.Cursor.Holes.{add_hole_locked, since_known_locked}
use natsmqtt.Cursor.Scan.{
  Scanned, add_read, scan_next, move_cursor, same_subs_locked, apply_scan_locked, apply_scan,
  is_conn,
}
use natsmqtt.Cursor.Accounts.{IsCovered, IsSound, moved-IsAccounted}
use natsmqtt.Cursor.Accounts.Holes.{
  Grew, Grew-refl, Grew-trans, drop_cursor_locked-IsSound, add_hole-Outcome,
}

-- The messages that were read come in the order of the queue.
abbrev pub IsAscending : List Scanned → Type 0
IsAscending [] = Unit {0}
IsAscending (m ∷ ms) = All (λ n. m.seq ≤ n.seq) ms × IsAscending ms

-- A message of the queue was read, as one that is owed.
abbrev pub IsRead : ℕ → List Scanned → Type 0
IsRead seq [] = ⊥
IsRead seq (m ∷ ms) = ((m.seq ≡ seq) × (m.owed ≡ true)) ⊎ IsRead seq ms

pub IsRead-All {ℓ} :
    (P : Scanned → Type ℓ) (seq : ℕ) (ms : List Scanned)
    → All P ms
    → IsRead seq ms
    → (m : Scanned) × P m × (m.seq ≡ seq)
IsRead-All P seq [] a r = absurd r
IsRead-All P seq (m ∷ ms) (p, a) (inl (here, _)) = (m, p, here)
IsRead-All P seq (m ∷ ms) (p, a) (inr later) = IsRead-All P seq ms a later

pub not_below :
    (seq next : ℕ) (ms : List Scanned) (m : Scanned)
    → All (λ n. m.seq ≤ n.seq) ms
    → next ≤ m.seq
    → IsRead seq ms
    → seq < next
    → ⊥
not_below seq next ms m above h r low =
    let (n, le, here) = IsRead-All (λ (n : Scanned). m.seq ≤ n.seq) seq ms above r in omega arith

-- Each message that was read has the id of the queue's message at its sequence.
abbrev pub IsNamed : (ℕ → Bytes) → List Scanned → Type 0
IsNamed id_at ms = All (λ m. m.id ≡ id_at m.seq) ms

-- Every owed message from `start` on that the scan went over was read.
abbrev pub IsComplete : (ℕ → Type 0) → ℕ → ℕ → ℕ → List Scanned → Type 0
IsComplete Owed from start last read =
    (seq : ℕ) → Owed seq → from ≤ seq → start ≤ seq → seq ≤ last → IsRead seq read

module _ (id_at : ℕ → Bytes) (Owed : ℕ → Type 0) (Sent : Bytes → Type 0) (from : ℕ) where
  abbrev pub AddedAll : ℕ → List Scanned → Session → Session × Bool → Type 0
  AddedAll next ms s r =
      IsSound id_at Owed Sent from r.0
      × (r.1 ≡ true
          → Grew s r.0
            × ((seq : ℕ) → IsRead seq ms → seq < next → IsCovered id_at Sent r.0.cur.holes seq))

  -- A message that an accepted hole covers stays covered.
  pub Grew-IsCovered :
      {s s' : Session} (seq : ℕ)
      → Grew s s'
      → IsCovered id_at Sent s.cur.holes seq
      → IsCovered id_at Sent s'.cur.holes seq
  Grew-IsCovered seq g (inl done) = inl done
  Grew-IsCovered seq g (inr hole) = inr (g.keeps seq (id_at seq) hole)

  pub add_read-AddedAll :
      (lim : Limits) (next : ℕ) (ms : List Scanned) (s : Session)
      → IsAscending ms
      → IsNamed id_at ms
      → IsSound id_at Owed Sent from s
      → AddedAll next ms s (add_read lim next ms s)
  unfolding add_read
  add_read-AddedAll lim next [] s asc names h = (h, λ e. (Grew-refl s, λ seq r low. absurd r))
  add_read-AddedAll lim next (m ∷ ms) s (above, asc) (named, names) h =
      elim (Bool-cases (leb next m.seq)) [
        | inl past ↦ rw past (
          h,
          λ e. (
            Grew-refl s,
            λ seq r low. elim r [
              | inl (here, _) ↦ absurd (ground arith)
              | inr later ↦ absurd (not_below seq next ms m above (ground arith) later low)
            ],
          ),
        )
        | inr within ↦ elim (Bool-cases m.owed) [
          | inr free ↦
              let (sound, rest) = add_read-AddedAll lim next ms s asc names h in
              rw (within, free)
                (
                  sound,
                  λ e.
                      let (g, all) = rest e in
                      (
                        g,
                        λ seq r low. elim r [
                          | inl (_, owed) ↦ absurd (cc)
                          | inr later ↦ all seq later low
                        ],
                      ),
                )
          | inl owed ↦
              let (sound, taken) = add_hole-Outcome id_at Owed Sent from lim m.seq m.id s named h in
              elim (Bool-cases (add_hole_locked lim m.seq m.id s).1) [
                | inr refused ↦ rw (within, owed, refused) (sound, λ e. absurd (cc))
                | inl added ↦
                    let (g, covered) = taken added in
                    let (sound', rest) =
                      add_read-AddedAll lim next ms (add_hole_locked lim m.seq m.id s).0 asc names
                        sound in
                    rw (within, owed, added)
                      (
                        sound',
                        λ e.
                            let (g', all) = rest e in
                            (
                              Grew-trans g g',
                              λ seq r low. elim r [
                                | inl (here, _) ↦
                                    subst
                                      (λ q.
                                        IsCovered id_at Sent
                                          (add_read lim next ms
                                            (add_hole_locked lim m.seq m.id s).0).0.cur.holes
                                          q)
                                      here (Grew-IsCovered m.seq g' covered)
                                | inr later ↦ all seq later low
                              ],
                            ),
                      )
              ]
        ]
      ]

  pub move_cursor-IsSound :
      (lim : Limits) (next : ℕ) (read : List Scanned) (s : Session)
      → IsAscending read
      → IsNamed id_at read
      → ((seq : ℕ) → Owed seq → from ≤ seq → s.cur.next ≤ seq → seq < next → IsRead seq read)
      → IsSound id_at Owed Sent from s
      → IsSound id_at Owed Sent from (move_cursor lim next read s).0
  unfolding move_cursor
  move_cursor-IsSound lim next read s asc names complete h =
      let (sound, rest) = add_read-AddedAll lim next read s asc names h in
      elim (Bool-cases (add_read lim next read s).1) [
        | inr refused ↦ rw refused sound
        | inl kept ↦ rw kept (record {
          cursor =
              let (g, all) = rest kept in
              let same_next = g.next_same in
              moved-IsAccounted id_at Owed Sent from (add_read lim next read s).0.cur _ refl refl
                (λ seq o low above below. all seq (complete seq o low (omega arith) below) below)
                sound.cursor;
          remembers = sound.remembers;
        })
      ]

  pub scan_next-le :
      (start last floor seq : ℕ)
      → last + 1 < 2 ^ 64
      → start ≤ seq
      → seq < scan_next start last floor
      → seq ≤ last
  unfolding scan_next
  scan_next-le start last floor seq w low high = ground arith

  pub apply_scan_locked-IsSound :
      (lim : Limits) (gen start last : ℕ) (subs : List Subscription) (read : List Scanned)
      (floor : ℕ) (s : Session)
      → last + 1 < 2 ^ 64
      → IsAscending read
      → IsNamed id_at read
      → IsComplete Owed from start last read
      → IsSound id_at Owed Sent from s
      → IsSound id_at Owed Sent from (apply_scan_locked lim gen start last subs read floor s).0
  unfolding apply_scan_locked
  apply_scan_locked-IsSound lim gen start last subs read floor s w asc names complete h =
      elim (Bool-cases (not (s.cur.gen == gen) || not (s.cur.next == start))) [
        | inl raced ↦ rw raced h
        | inr same ↦ elim (Bool-cases (ltb ((last + 1) % 2 ^ 64) start)) [
          | inl purged ↦
              rw (same, purged) (drop_cursor_locked-IsSound id_at Owed Sent from s h.remembers)
          | inr there ↦ elim (Bool-cases (same_subs_locked subs s)) [
            | inr other ↦ rw (same, there, other) h
            | inl held ↦ elim (Bool-cases (since_known_locked s.subs)) [
              | inr unknown ↦ rw (same, there, held, unknown) h
              | inl known ↦
                  rw (same, there, held, known)
                    (move_cursor-IsSound lim (scan_next start last floor) read s asc names
                      (λ seq o low above below.
                        complete seq o low (ground arith)
                          (scan_next-le start last floor seq w (ground arith) below))
                      h)
            ]
          ]
        ]
      ]

  pub apply_scan-IsSound :
      (lim : Limits) (c : Conn) (gen start last : ℕ) (subs : List Subscription)
      (read : List Scanned) (s : Session)
      → last + 1 < 2 ^ 64
      → IsAscending read
      → IsNamed id_at read
      → IsComplete Owed from start last read
      → IsSound id_at Owed Sent from s
      → IsSound id_at Owed Sent from (apply_scan lim c gen start last subs read s).0
  unfolding apply_scan
  apply_scan-IsSound lim c gen start last subs read s w asc names complete h =
      let sound =
        apply_scan_locked-IsSound lim gen start last subs read (owed_floor c) s w asc names complete
          h in
      elim (Bool-cases (not (is_conn s.conn c.ident) || c.closed)) [
        | inl gone ↦ rw (apply_scan, gone) h
        | inr there ↦
            rw (apply_scan, there) (record { cursor = sound.cursor; remembers = sound.remembers })
      ]
