-- ===== src/Cursor/Accounts.antt =====
-- What a cursor accounts for: of the queue's messages, `id_at` gives the id at each sequence, `Owed`
-- says which the session is owed, `Sent` which ids it was sent, and `from` where the account begins.
use natsmqtt.Prelude.{
  ℕ, ◌≤◌, ◌<◌, ◌≡◌, refl, ap, sym, ◌∙◌, ◌⊎◌, inl, inr, Bool, true, false, none, some, [], arith,
  ltb, Bytes, ◌==◌, if◌then◌else◌, bytes_eq, ==_iff, Option-cases, Bool-cases,
}
use natsmqtt.Topic.Match.Levels.{bytes_eq_refl, bytes_eq→eq}
use natsmqtt.Dict.{
  Dict, lookup, insert, erase, contains, number_key, text_key, lookup-insert-cases,
  lookup-insert_self, lookup-insert, ==→eq, lookup-erase-cases, lookup-erase_other,
}
use natsmqtt.Cursor.State.{ReplayCursor, DeliveredMark, Session}
use natsmqtt.Cursor.Holes.{add_hole, remove_hole}
pub mod Holes
pub mod Deliver
pub mod Scan
pub mod Run

-- The message at `seq` was sent, or is a hole.
abbrev pub IsCovered : (ℕ → Bytes) → (Bytes → Type 0) → Dict ℕ Bytes → ℕ → Type 0
IsCovered id_at Sent holes seq = Sent (id_at seq) ⊎ (lookup seq holes ≡ some (id_at seq))

pub record IsAccounted (id_at : ℕ → Bytes) (Owed : ℕ → Type 0) (Sent : Bytes → Type 0) (from : ℕ)
    (r : ReplayCursor) : Type 0 where
  pub named : (seq : ℕ) (id : Bytes) → lookup seq r.holes ≡ some id → id ≡ id_at seq
  pub paired :
      (id : Bytes) (seq : ℕ) → lookup id r.hole_at ≡ some seq → lookup seq r.holes ≡ some id
  pub accounted :
      (seq : ℕ) → Owed seq → from ≤ seq → seq < r.next → IsCovered id_at Sent r.holes seq

-- Every id that the session remembers as delivered was sent.
abbrev pub Remembers : (Bytes → Type 0) → Dict Bytes DeliveredMark → Type 0
Remembers Sent delivered = (id : Bytes) (m : DeliveredMark) → lookup id delivered ≡ some m → Sent id

pub record IsSound (id_at : ℕ → Bytes) (Owed : ℕ → Type 0) (Sent : Bytes → Type 0) (from : ℕ)
    (s : Session) : Type 0 where
  pub cursor : IsAccounted id_at Owed Sent from s.cur
  pub remembers : Remembers Sent s.delivered

module _ (id_at : ℕ → Bytes) (Owed : ℕ → Type 0) (Sent : Bytes → Type 0) (from : ℕ) where
  -- A cursor with no holes accounts for what is below it where all of that was sent.
  pub no_holes-IsAccounted :
      (r : ReplayCursor)
      → r.holes ≡ []
      → r.hole_at ≡ []
      → ((seq : ℕ) → Owed seq → from ≤ seq → seq < r.next → Sent (id_at seq))
      → IsAccounted id_at Owed Sent from r
  unfolding lookup
  no_holes-IsAccounted r none_held none_back sent = record {
    named = λ seq id h. absurd (cc (rw none_held at h));
    paired = λ id seq h. absurd (cc (rw none_back at h));
    accounted = λ seq o low high. inl (sent seq o low high);
  }

  -- A hole is not changed by one that is added.
  pub lookup-add_hole :
      (seq : ℕ) (r : ReplayCursor) (j : ℕ) (v : Bytes)
      → IsAccounted id_at Owed Sent from r
      → lookup j r.holes ≡ some v
      → lookup j (add_hole seq (id_at seq) r).holes ≡ some v
  unfolding add_hole
  lookup-add_hole seq r j v a h =
      let named = a.named j v h in
      elim (Bool-cases (j == seq)) [
        | inl here ↦
            let same : j ≡ seq = ==→eq j seq here in
            rw (same, lookup-insert_self seq (id_at seq) r.holes)
              (ap some (sym (named ∙ ap id_at same)))
        | inr there ↦ ground (arith, lookup-insert j seq (id_at seq) r.holes)
      ]

  pub add_hole-IsAccounted :
      (seq : ℕ) (r : ReplayCursor)
      → IsAccounted id_at Owed Sent from r
      → IsAccounted id_at Owed Sent from (add_hole seq (id_at seq) r)
  unfolding add_hole
  add_hole-IsAccounted seq r a =
      let id = id_at seq in
      record {
        named = λ j v h. elim (lookup-insert-cases j seq id v r.holes h) [
          | inl (here, new) ↦ cc
          | inr (there, old) ↦ a.named j v old
        ];
        paired = λ v j h. elim (lookup-insert-cases v id seq j r.hole_at h) [
          | inl (here, new) ↦ rw (here, new) (lookup-insert_self seq id r.holes)
          | inr (there, old) ↦ lookup-add_hole seq r j v a (a.paired v j old)
        ];
        accounted = λ j o low high. elim (a.accounted j o low high) [
          | inl done ↦ inl done
          | inr hole ↦ inr (lookup-add_hole seq r j (id_at j) a hole)
        ];
      }

  -- No message with this id is owed and not sent.
  abbrev pub IsSettled : Bytes → Type 0
  IsSettled id = (j : ℕ) → Owed j → id_at j ≡ id → Sent (id_at j)

  -- An id that is settled is taken out of the holes.
  pub remove_hole-IsAccounted :
      (id : Bytes) (r : ReplayCursor)
      → IsSettled id
      → IsAccounted id_at Owed Sent from r
      → IsAccounted id_at Owed Sent from (remove_hole id r)
  unfolding remove_hole
  remove_hole-IsAccounted id r sent a = elim (Option-cases (lookup id r.hole_at)) [
    | inl none_there ↦ rw (remove_hole, none_there) a
    | inr (seq, there) ↦
        rw (remove_hole, there)
          (record {
            named = λ j v h. a.named j v (lookup-erase-cases j seq v r.holes h).1;
            paired = λ v j h.
                let (other, old) = lookup-erase-cases v id j r.hole_at h in
                let found = a.paired v j old in
                let here = a.paired id seq there in
                lookup-erase_other j seq v r.holes (ground (arith, bytes_eq_refl id)) found;
            accounted = λ j o low high. elim (a.accounted j o low high) [
              | inl done ↦ inl done
              | inr hole ↦ elim (Bool-cases (j == seq)) [
                | inl same ↦ inl (sent j o (let here = a.paired id seq there in ground arith))
                | inr other ↦ inr (lookup-erase_other j seq (id_at j) r.holes other hole)
              ]
            ];
          })
  ]

  -- A cursor with the same holes accounts for what is covered between the two.
  pub moved-IsAccounted :
      (r r' : ReplayCursor)
      → r'.holes ≡ r.holes
      → r'.hole_at ≡ r.hole_at
      → ((seq : ℕ)
          → Owed seq
          → from ≤ seq
          → r.next ≤ seq
          → seq < r'.next
          → IsCovered id_at Sent r.holes seq)
      → IsAccounted id_at Owed Sent from r
      → IsAccounted id_at Owed Sent from r'
  moved-IsAccounted r r' e f more a = record {
    named = λ j v h. a.named j v (rw (← e) h);
    paired = λ v j h. rw e (a.paired v j (rw (← f) h));
    accounted = λ j o low high. rw e (elim (Bool-cases (ltb j r.next)) [
      | inl old ↦ a.accounted j o low (ground arith)
      | inr new ↦ more j o low (ground arith) high
    ]);
  }

  -- A change of what the account does not read.
  pub same-IsAccounted :
      (r r' : ReplayCursor)
      → r'.holes ≡ r.holes
      → r'.hole_at ≡ r.hole_at
      → r'.next ≡ r.next
      → IsAccounted id_at Owed Sent from r
      → IsAccounted id_at Owed Sent from r'
  same-IsAccounted r r' e f g a =
      moved-IsAccounted r r' e f (λ seq o low above below. absurd (omega arith)) a

module _ (id_at : ℕ → Bytes) (Owed : ℕ → Type 0) (Sent Sent' : Bytes → Type 0) (from : ℕ) where
  -- More that was sent.
  pub IsAccounted-mono :
      (r : ReplayCursor)
      → ((id : Bytes) → Sent id → Sent' id)
      → IsAccounted id_at Owed Sent from r
      → IsAccounted id_at Owed Sent' from r
  IsAccounted-mono r more a = record {
    named = a.named;
    paired = a.paired;
    accounted = λ j o low high. elim (a.accounted j o low high) [
      | inl done ↦ inl (more (id_at j) done)
      | inr hole ↦ inr hole
    ];
  }
