-- ===== src/Session/Order.antt =====
-- The order in which messages in flight are resent, and the identifiers that QoS 2 messages hold.
use natsmqtt.Prelude.{
  subst, sym, ℕ, ◌+◌, ◌%◌, ◌^◌, ◌≤◌, ◌<◌, ◌≡◌, refl, inl, inr, false, List, [], ◌∷◌, ◌++◌, arith,
  ltb, All, Bool-cases,
}
use natsmqtt.Dict.{Dict, insert, erase, contains, number_key, erase_missing, contains-missing}
use natsmqtt.Session.State.{Outbound, Exchanges}
use natsmqtt.Session.Inflight.{track_inflight, put_by_seq, sort_by_seq, unacknowledged}

-- Every message in flight was sent no later than the last one.
abbrev pub SentUpTo : ℕ → Dict ℕ Outbound → Type 0
SentUpTo seq m = All (λ e. e.1.seq ≤ seq) m

put_by_seq-last :
    (o : Outbound) (ps : List Outbound)
    → All (λ p. p.seq < o.seq) ps
    → put_by_seq o ps ≡ ps ++ o ∷ []
unfolding put_by_seq
put_by_seq-last o [] below = refl
put_by_seq-last o (p ∷ ps) (less, below) = ground (arith, put_by_seq-last o ps below)

put_by_seq-All :
    (seq : ℕ) (o : Outbound) (ps : List Outbound)
    → o.seq < seq
    → All (λ p. p.seq < seq) ps
    → All (λ p. p.seq < seq) (put_by_seq o ps)
unfolding put_by_seq
put_by_seq-All seq o [] less below = (less, tt)
put_by_seq-All seq o (p ∷ ps) less (first, below) = elim (Bool-cases (ltb o.seq p.seq)) [
  | inl here ↦ rw here (less, (first, below))
  | inr later ↦ rw later (first, put_by_seq-All seq o ps less below)
]

sort_by_seq-All :
    (seq next : ℕ) (m : Dict ℕ Outbound)
    → seq < next
    → SentUpTo seq m
    → All (λ p. p.seq < next) (sort_by_seq m)
unfolding sort_by_seq
sort_by_seq-All seq next [] w sent = tt
sort_by_seq-All seq next ((id, o) ∷ m) w (less, sent) =
    put_by_seq-All next o (sort_by_seq m) (omega arith) (sort_by_seq-All seq next m w sent)

SentUpTo-mono : (seq next : ℕ) (m : Dict ℕ Outbound) → seq < next → SentUpTo seq m → SentUpTo next m
SentUpTo-mono seq next [] w sent = tt
SentUpTo-mono seq next (e ∷ m) w (less, sent) = (omega arith, SentUpTo-mono seq next m w sent)

-- A new message is resent after all that were in flight before it, which keep their order, and the last
-- place is again that of the last message sent.
pub unacknowledged-track_inflight :
    (o : Outbound) (s : Exchanges)
    → s.send_seq + 1 < 2 ^ 64
    → SentUpTo s.send_seq s.inflight
    → contains o.packet_id s.inflight ≡ false
    → (unacknowledged (track_inflight o s)
        ≡ unacknowledged s ++ record o { seq = s.send_seq + 1 } ∷ [])
      × SentUpTo (track_inflight o s).send_seq (track_inflight o s).inflight
unfolding unacknowledged track_inflight insert sort_by_seq
unacknowledged-track_inflight o s w sent fresh =
    let no_wrap : (s.send_seq + 1) % 2 ^ 64 ≡ s.send_seq + 1 = omega arith in
    let kept : erase o.packet_id s.inflight ≡ s.inflight =
      erase_missing o.packet_id s.inflight (contains-missing o.packet_id s.inflight fresh) in
    let last = s.send_seq + 1 in
    (
      rw (no_wrap, kept)
          (put_by_seq-last (record o { seq = last }) (sort_by_seq s.inflight)
            (sort_by_seq-All s.send_seq last s.inflight (omega arith) sent)),
      rw kept (
        omega arith,
        subst (λ q. SentUpTo q s.inflight) (sym no_wrap)
            (SentUpTo-mono s.send_seq last s.inflight (omega arith) sent),
      ),
    )
