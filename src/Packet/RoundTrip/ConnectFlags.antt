-- ===== src/Packet/RoundTrip/ConnectFlags.antt =====
-- What the Connect Flags say of the CONNECT that they were written for.
use natsmqtt.Prelude.{ℕ, ◌*◌, ◌/◌, ◌≤◌, ◌^◌, ◌≡◌, refl, ◌&&◌, not, Bool, true, false, arith}
use natsmqtt.Prelude.{Option, none, some, bit_and, bit_or, is_empty, ◌==◌, ==_iff}
use natsmqtt.Prelude.{
  all_below, all_below_sound, all_bools, all_bools_sound, same, same→eq, and→both,
}
use natsmqtt.Packet.Types.{qos_valid}
use natsmqtt.Packet.Model.{Will, Connect}
use natsmqtt.Packet.Decode.{has_bit, will_flags_ok}
use natsmqtt.Packet.Encode.{or_if, will_flags, has_password, connect_flags}

-- The flags of one CONNECT: no reserved bit, Will flags that agree, and each field's own bit.
pub record Say (flags : ℕ) (clean will user password retain : Bool) (qos : ℕ) : Type 0 where
  pub reserved : (bit_and flags 0x01 == 0) ≡ true
  pub agree : will_flags_ok flags ≡ true
  pub clean_bit : has_bit flags 0x02 ≡ clean
  pub will_bit : has_bit flags 0x04 ≡ will
  pub user_bit : has_bit flags 0x80 ≡ user
  pub password_bit : has_bit flags 0x40 ≡ password
  pub retain_bit : has_bit flags 0x20 ≡ retain
  pub qos_bits : bit_and (flags / 2 ^ 3) 0x03 ≡ qos

say : ℕ → Bool → Bool → Bool → Bool → Bool → ℕ → Bool
say flags clean will user password retain qos =
    (bit_and flags 0x01 == 0)
    && (will_flags_ok flags
        && (same (has_bit flags 0x02) clean
            && (same (has_bit flags 0x04) will
                && (same (has_bit flags 0x80) user
                    && (same (has_bit flags 0x40) password
                        && (same (has_bit flags 0x20) retain
                            && (bit_and (flags / 2 ^ 3) 0x03 == qos)))))))

say→Say :
    (flags : ℕ) (clean will user password retain : Bool) (qos : ℕ)
    → say flags clean will user password retain qos ≡ true
    → Say flags clean will user password retain qos
unfolding say
say→Say flags clean will user password retain qos h =
    let (a, h1) = and→both _ _ h in
    let (b, h2) = and→both _ _ h1 in
    let (c, h3) = and→both _ _ h2 in
    let (d, h4) = and→both _ _ h3 in
    let (e, h5) = and→both _ _ h4 in
    let (f, h6) = and→both _ _ h5 in
    let (g, i) = and→both _ _ h6 in
    record {
      reserved = a;
      agree = b;
      clean_bit = same→eq _ _ c;
      will_bit = same→eq _ _ d;
      user_bit = same→eq _ _ e;
      password_bit = same→eq _ _ f;
      retain_bit = same→eq _ _ g;
      qos_bits = (==_iff _ _).0 i;
    }

-- The flags without a Will, and with one.
abbrev plain_flags : Bool → Bool → Bool → ℕ
plain_flags clean user password = or_if password 0x40 (or_if user 0x80 (or_if clean 0x02 0))

abbrev with_will : Bool → Bool → Bool → Bool → ℕ → ℕ
with_will clean user password retain qos =
    or_if password 0x40 (
      or_if user 0x80 (or_if retain 0x20 (bit_or (or_if clean 0x02 0) (bit_or 0x04 (qos * 2 ^ 3)))))

plain_table :
    all_bools (λ c. all_bools (λ u. all_bools (λ p. say (plain_flags c u p) c false u p false 0)))
    ≡ true
unfolding all_bools say will_flags_ok qos_valid
plain_table = refl

will_table :
    all_bools (λ c. all_bools (λ u.
      all_bools
        (λ p. all_bools (λ r. all_below 3 (λ q. say (with_will c u p r q) c true u p r q)))))
    ≡ true
unfolding all_bools all_below say will_flags_ok qos_valid
will_table = refl

abbrev pub will_retain : Option Will → Bool
will_retain none = false
will_retain (some w) = w.retain

abbrev pub will_qos : Option Will → ℕ
will_qos none = 0
will_qos (some w) = w.qos

abbrev pub has_will : Option Will → Bool
has_will none = false
has_will (some w) = true

say_will :
    (c u p : Bool) (w : Option Will)
    → will_qos w ≤ 2
    → say
        (or_if p 0x40 (or_if u 0x80 (will_flags w (or_if c 0x02 0))))
        c
        (has_will w)
        u
        p
        (will_retain w)
        (will_qos w)
      ≡ true
unfolding will_flags
say_will c u p none h = all_bools_sound _ (all_bools_sound _ (all_bools_sound _ plain_table c) u) p
say_will c u p (some w) h =
    all_below_sound 3 _
      (all_bools_sound _
        (all_bools_sound _ (all_bools_sound _ (all_bools_sound _ will_table c) u) p) w.retain)
      w.qos (omega arith)

pub connect_flags-Say :
    (c : Connect)
    → will_qos c.will ≤ 2
    → Say
        (connect_flags c)
        c.clean_start
        (has_will c.will)
        (not (is_empty c.username))
        (has_password c.password)
        (will_retain c.will)
        (will_qos c.will)
unfolding connect_flags
connect_flags-Say c h = say→Say _ _ _ _ _ _ _ (say_will _ _ _ c.will h)
