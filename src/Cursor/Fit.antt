-- ===== src/Cursor/Fit.antt =====
-- The bounds of a cursor's holes: how many there are, and the sequences they lie between.
use natsmqtt.Prelude.{
  sym, subst, ℕ, suc, ◌+◌, ◌≤◌, ◌<◌, ◌≡◌, refl, inl, inr, Bool, true, false, none, some, List, [],
  ◌∷◌, arith, Bytes, ltb, leb, ◌==◌, ◌&&◌, ◌||◌, not, if◌then◌else◌, length, is_empty, Bool-cases,
  Option-cases,
}
use natsmqtt.Dict.{
  Dict, lookup, insert, erase, contains, number_key, text_key, lookup-insert-cases,
  lookup-erase-cases, length-insert, length-erase,
}
use natsmqtt.Cursor.State.{Limits, ReplayCursor, Session}
use natsmqtt.Cursor.Holes.{
  add_hole, remove_hole, set_cursor_locked, drop_cursor_locked, add_hole_locked,
}
pub mod Deliver
pub mod Scan
pub mod Restart
pub mod Replay
pub mod Run

-- At most the limit of holes, each from the base on and below `top`.
pub record IsFit (lim : Limits) (top : ℕ) (r : ReplayCursor) : Type 0 where
  pub few : length r.holes ≤ lim.max_holes
  pub within : (seq : ℕ) (id : Bytes) → lookup seq r.holes ≡ some id → (r.base ≤ seq) × (seq < top)

module _ (lim : Limits) where
  pub no_holes-IsFit : (top : ℕ) (r : ReplayCursor) → r.holes ≡ [] → IsFit lim top r
  unfolding lookup
  no_holes-IsFit top r e = record {
    few = rw e (omega arith);
    within = λ seq id h. absurd (cc (rw e at h));
  }

  pub same-IsFit :
      (top : ℕ) (r r' : ReplayCursor)
      → r'.holes ≡ r.holes
      → r'.base ≡ r.base
      → IsFit lim top r
      → IsFit lim top r'
  same-IsFit top r r' e f a = record {
    few = rw e a.few;
    within = λ seq id h. rw f (a.within seq id (rw (← e) h));
  }

  pub IsFit-mono :
      (top top' : ℕ) (r : ReplayCursor) → top ≤ top' → IsFit lim top r → IsFit lim top' r
  IsFit-mono top top' r le a = record {
    few = a.few;
    within = λ seq id h. let (low, high) = a.within seq id h in (low, omega arith);
  }

  pub add_hole-IsFit :
      (top seq : ℕ) (id : Bytes) (r : ReplayCursor)
      → r.base ≤ seq
      → seq < top
      → suc (length r.holes) ≤ lim.max_holes
      → IsFit lim top r
      → IsFit lim top (add_hole seq id r)
  unfolding add_hole
  add_hole-IsFit top seq id r low high room a = record {
    few = omega (arith, length-insert seq id r.holes);
    within = λ j v h. elim (lookup-insert-cases j seq id v r.holes h) [
      | inl (here, _) ↦ (omega arith, omega arith)
      | inr (_, old) ↦ a.within j v old
    ];
  }

  pub remove_hole-IsFit :
      (top : ℕ) (id : Bytes) (r : ReplayCursor) → IsFit lim top r → IsFit lim top (remove_hole id r)
  unfolding remove_hole
  remove_hole-IsFit top id r a = elim (Option-cases (lookup id r.hole_at)) [
    | inl none_there ↦ rw (remove_hole, none_there) a
    | inr (seq, there) ↦
        rw (remove_hole, there)
          (record {
            few = omega (arith, a.few, length-erase seq r.holes);
            within = λ j v h. a.within j v (lookup-erase-cases j seq v r.holes h).1;
          })
  ]

  pub set_cursor_locked-IsFit :
      (top next : ℕ) (s : Session) → IsFit lim top (set_cursor_locked next s).cur
  unfolding set_cursor_locked
  set_cursor_locked-IsFit top next s = no_holes-IsFit top (set_cursor_locked next s).cur refl

  pub drop_cursor_locked-IsFit : (top : ℕ) (s : Session) → IsFit lim top (drop_cursor_locked s).cur
  unfolding drop_cursor_locked
  drop_cursor_locked-IsFit top s = no_holes-IsFit top (drop_cursor_locked s).cur refl

  -- A refused hole leaves no holes at all.
  abbrev pub Fits : ℕ → Session × Bool → Type 0
  Fits top r = (r.1 ≡ true → IsFit lim top r.0.cur) × (r.1 ≡ false → (t : ℕ) → IsFit lim t r.0.cur)

  pub add_hole_locked-Fits :
      (top seq : ℕ) (id : Bytes) (s : Session)
      → seq < top
      → IsFit lim top s.cur
      → Fits top (add_hole_locked lim seq id s)
  unfolding add_hole_locked
  add_hole_locked-Fits top seq id s high a =
      let refused : Fits top (drop_cursor_locked s, false) =
        (λ e. absurd (cc), λ e t. drop_cursor_locked-IsFit t s) in
      let kept : Fits top (s, true) = (λ e. a, λ e t. absurd (cc)) in
      elim (Bool-cases (ltb seq s.cur.base || is_empty id)) [
        | inl out ↦
            let same : ◌≡◌ {A = Session × Bool} (add_hole_locked lim seq id s)
                (drop_cursor_locked s, false) =
              ground arith in
            subst (Fits top) (sym same) refused
        | inr low ↦ elim (Bool-cases (contains id s.delivered || contains seq s.cur.holes)) [
          | inl known ↦
              let same : ◌≡◌ {A = Session × Bool} (add_hole_locked lim seq id s) (s, true) =
                ground arith in
              subst (Fits top) (sym same) kept
          | inr new ↦ elim (Bool-cases (leb lim.max_holes (length s.cur.holes))) [
            | inl full ↦
                let same : ◌≡◌ {A = Session × Bool} (add_hole_locked lim seq id s)
                    (drop_cursor_locked s, false) =
                  ground arith in
                subst (Fits top) (sym same) refused
            | inr room ↦
                let added = add_hole-IsFit top seq id s.cur (ground arith) high (ground arith) a in
                let same : ◌≡◌ {A = Session × Bool} (add_hole_locked lim seq id s)
                    (record s { cur = add_hole seq id s.cur }, true) =
                  ground arith in
                subst (Fits top) (sym same) (λ e. added, λ e t. absurd (cc))
          ]
        ]
      ]

  pub add_hole_locked-next :
      (seq : ℕ) (id : Bytes) (s : Session)
      → (add_hole_locked lim seq id s).1 ≡ true
      → (add_hole_locked lim seq id s).0.cur.next ≡ s.cur.next
  unfolding add_hole_locked add_hole
  add_hole_locked-next seq id s h = ground arith

pub remove_hole-next : (id : Bytes) (r : ReplayCursor) → (remove_hole id r).next ≡ r.next
unfolding remove_hole
remove_hole-next id r = ground arith
