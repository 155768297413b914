-- ===== src/Alias/Agreement.antt =====
-- The broker's table of aliases and the client's stay in step, packet by packet.
pub mod Assign
pub mod Steps
use natsmqtt.Prelude.{
  ℕ, suc, ◌+◌, ◌%◌, ◌^◌, ◌≤◌, ◌<◌, ◌≡◌, refl, sym, ap, ◌∙◌, subst, Bool, true, false, not, ◌&&◌,
  Option, none, some, List, [], ◌∷◌, ◌⊎◌, inl, inr,
}
use natsmqtt.Prelude.{
  Bytes, bytes_eq, arith, ltb, leb, ◌==◌, ==_iff, if◌then◌else◌, length, All, Bool-cases,
  Option-cases,
}
use natsmqtt.Packet.Result.{Result, ok, err}
use natsmqtt.Packet.Model.{Publish, Packet}
use natsmqtt.Packet.Encode.Wire.{encode}
use natsmqtt.Alias.Table.{
  Entry, entry, Balance, OutAliases, new_out_aliases, find_alias, without, hit, back, but_back,
  full, next, assign, with_alias, set_alias, new_name, encode_aliased, was_seen, remember, forget,
}
use natsmqtt.Alias.Entries.{
  Free, Distinct, find_alias-Each, without-Each, but_back-Each, back-Each, weaken-Each,
  length-without, length-but_back, find_alias-Distinct, back-Distinct, back-cases,
}

-- What a client has been told: the topic of each alias.
abbrev pub Client : Type 0
Client = ℕ → Option Bytes

abbrev pub told : ℕ → Bytes → Client → Client
told a topic c b = if b == a then some topic else c b

-- The table fits the client's maximum, its aliases are distinct and within it, and the client has each
-- entry.
pub record IsAgreed (max : ℕ) (order : List Entry) (c : Client) : Type 0 where
  pub positive : 1 ≤ max
  pub small : max < 2 ^ 16
  pub fits : length order ≤ max
  pub ranged : All (λ e. (1 ≤ e.alias) × (e.alias ≤ length order)) order
  pub distinct : Distinct order
  pub agreed : All (λ e. c e.alias ≡ some e.topic) order

-- What goes to the client for the topic of `p`: the packet as it was, its alias alone, or the topic
-- with an alias, within the limit of the client.
pub data Sent (p : Publish) (raw : Bytes) (limit max : ℕ) (order : List Entry) (c : Client)
    (out : Bytes) : Type 0 where
  plain : out ≡ raw → IsAgreed max order c → Sent p raw limit max order c out
  reused :
      (a : ℕ)
      → encode (Packet.publish (with_alias p a true)) ≡ ok out
      → (1 ≤ a) × (a ≤ max)
      → c a ≡ some p.topic
      → IsAgreed max order c
      → Sent p raw limit max order c out
  assigned :
      (a : ℕ)
      → encode (Packet.publish (with_alias p a false)) ≡ ok out
      → (1 ≤ a) × (a ≤ max)
      → (limit ≡ 0) ⊎ (length out ≤ limit)
      → IsAgreed max order (told a p.topic c)
      → Sent p raw limit max order c out

-- Another alias keeps what the client was told of it.
told-agreed :
    (a : ℕ) (topic : Bytes) (c : Client) (es : List Entry)
    → Free a es
    → All (λ e. c e.alias ≡ some e.topic) es
    → All (λ e. told a topic c e.alias ≡ some e.topic) es
told-agreed a topic c [] f h = tt
told-agreed a topic c (x ∷ es) f h = (rw f.0 h.0, told-agreed a topic c es f.1 h.1)

told_self : (a : ℕ) (topic : Bytes) (c : Client) → told a topic c a ≡ some topic
told_self a topic c = rw ((==_iff a a).1 refl) refl

module _ (max : ℕ) (order : List Entry) (c : Client) (h : IsAgreed max order c) where
  -- An alias that is in use moves to the front.
  moved-IsAgreed :
      (topic : Bytes) (a : ℕ)
      → find_alias topic order ≡ some a
      → (1 ≤ a)
        × (a ≤ max)
        × (c a ≡ some topic)
        × IsAgreed max (entry topic a ∷ without topic order) c
  moved-IsAgreed topic a e =
      let (low, high) =
        find_alias-Each (λ t b. (1 ≤ b) × (b ≤ length order)) topic a order h.ranged e in
      let known = find_alias-Each (λ t b. c b ≡ some t) topic a order h.agreed e in
      let size : length (entry topic a ∷ without topic order) ≡ length order =
        length-without topic a order e in
      let fits = h.fits in
      (
        low,
        omega arith,
        known,
        record {
          positive = h.positive;
          small = h.small;
          fits = omega arith;
          ranged = (
            (low, omega arith),
            weaken-Each (λ t b. (1 ≤ b) × (b ≤ length order))
                (λ t b. (1 ≤ b) × (b ≤ length (entry topic a ∷ without topic order)))
                (λ t b r. (r.0, omega (arith, r.1))) (without topic order)
                (without-Each _ topic order h.ranged),
          );
          distinct = find_alias-Distinct topic a order h.distinct e;
          agreed = (known, without-Each (λ t b. c b ≡ some t) topic order h.agreed);
        },
      )

  Free-above :
      (es : List Entry) (n : ℕ) → All (λ e. (1 ≤ e.alias) × (e.alias ≤ n)) es → Free (suc n) es
  Free-above [] n r = tt
  Free-above (x ∷ es) n r = (ground (arith, r.0), Free-above es n r.1)

  -- A free alias is the next number.
  added-IsAgreed :
      (topic : Bytes)
      → length order < max
      → IsAgreed max (entry topic (suc (length order)) ∷ order) (told (suc (length order)) topic c)
  added-IsAgreed topic room = record {
    positive = h.positive;
    small = h.small;
    fits = omega arith;
    ranged = (
      (omega arith, omega arith),
      weaken-Each (λ t b. (1 ≤ b) × (b ≤ length order)) (λ t b. (1 ≤ b) × (b ≤ suc (length order)))
          (λ t b r. (r.0, omega (arith, r.1))) order h.ranged,
    );
    distinct = (Free-above order (length order) h.ranged, h.distinct);
    agreed = (
      told_self (suc (length order)) topic c,
      told-agreed (suc (length order)) topic c order (Free-above order (length order) h.ranged)
          h.agreed,
    );
  }

  -- The least recently used alias goes to the new topic.
  replaced-IsAgreed :
      (topic : Bytes) (b : Entry)
      → back order ≡ some b
      → suc (length (but_back order)) ≡ length order
      → (1 ≤ b.alias)
        × (b.alias ≤ max)
        × IsAgreed max (entry topic b.alias ∷ but_back order) (told b.alias topic c)
  replaced-IsAgreed topic b e size =
      let (low, high) = back-Each (λ t a. (1 ≤ a) × (a ≤ length order)) order b h.ranged e in
      let (free, distinct) = back-Distinct order b h.distinct e in
      let fits = h.fits in
      (
        low,
        omega arith,
        record {
          positive = h.positive;
          small = h.small;
          fits = omega arith;
          ranged = (
            (low, omega arith),
            weaken-Each (λ t a. (1 ≤ a) × (a ≤ length order))
                (λ t a. (1 ≤ a) × (a ≤ length (entry topic b.alias ∷ but_back order)))
                (λ t a r. (r.0, omega (arith, r.1))) (but_back order)
                (but_back-Each _ order h.ranged),
          );
          distinct = (free, distinct);
          agreed = (
            told_self b.alias topic c,
            told-agreed b.alias topic c (but_back order) free
                (but_back-Each (λ t a. c a ≡ some t) order h.agreed),
          );
        },
      )
