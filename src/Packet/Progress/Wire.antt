-- ===== src/Packet/Progress/Wire.antt =====
-- `Read` ends on every stream, takes two bytes at least for a packet, and keeps to its limit.
use natsmqtt.Prelude.{
  ℕ, zero, suc, ◌+◌, ◌*◌, ◌/◌, ◌^◌, ◌≤◌, ◌<◌, ◌≡◌, refl, Bool, true, false, not, ◌&&◌, [], ◌∷◌, ◌⊎◌,
  inl, inr, Bool-cases,
}
use natsmqtt.Prelude.{
  Bytes, arith, length, take, drop, length-drop, ltb, ◌==◌, if◌then◌else◌, bit_and,
}
use natsmqtt.Packet.Types.{PacketType, type_code, reserved_flags}
use natsmqtt.Packet.Result.{Result, ok, err}
use natsmqtt.Packet.Reader.{and_then}
use natsmqtt.Packet.Model.{Packet}
use natsmqtt.Packet.Decode.Wire.{
  type_of_code, decode, remaining_length_loop, read_remaining_length, read_body, read_after_first,
  read,
}
use natsmqtt.Packet.Progress.Rules.{is_fuel, Settles, Takes}
use natsmqtt.Packet.Progress.Bodies.{decode-Takes}

-- What `readRemainingLength` gives: a width that is the number of bytes it took.
abbrev Counted : ℕ → Bytes → Result ((ℕ × ℕ) × Bytes) → Type 0
Counted i s (ok ((value, width), s')) = (width + length s' ≡ i + length s) × (i < width)
Counted i s (err e) = is_fuel e ≡ false

if-Counted :
    (i : ℕ) (s : Bytes) (b : Bool) (x y : Result ((ℕ × ℕ) × Bytes))
    → Counted i s x
    → Counted i s y
    → Counted i s (if b then x else y)
if-Counted i s true x y h k = h
if-Counted i s false x y h k = k

remaining_length_loop-Counted :
    (rounds i value m : ℕ) (s : Bytes) → Counted i s (remaining_length_loop rounds i value m s)
unfolding remaining_length_loop
remaining_length_loop-Counted zero i value m s = refl
remaining_length_loop-Counted (suc r) i value m [] = refl
remaining_length_loop-Counted (suc r) i value m (b ∷ s) =
    if-Counted i (b ∷ s) (bit_and b 0x80 == 0) _ _
      (if-Counted i (b ∷ s) (ltb 0 i && b == 0) _ _ refl (omega arith, omega arith))
      (later _ (remaining_length_loop-Counted r (suc i) (value + bit_and b 0x7f * 2 ^ m) (m + 7) s))
  where
    later : (x : Result ((ℕ × ℕ) × Bytes)) → Counted (suc i) s x → Counted i (b ∷ s) x
    later (ok ((value, width), s')) (h, k) = (omega arith, omega arith)
    later (err e) h = h

-- What a packet takes of its stream: two bytes at least, and no more than a limit other than 0.
abbrev pub Framed : ℕ → Bytes → Result (Packet × Bytes) → Type 0
Framed max s (ok (p, s')) = (2 + length s' ≤ length s) × ((max ≡ 0) ⊎ (length s ≤ length s' + max))
Framed max s (err e) = is_fuel e ≡ false

if-Framed :
    (max : ℕ) (s : Bytes) (b : Bool) (x y : Result (Packet × Bytes))
    → (b ≡ true → Framed max s x)
    → (b ≡ false → Framed max s y)
    → Framed max s (if b then x else y)
if-Framed max s true x y h k = h refl
if-Framed max s false x y h k = k refl

module _ (max first : ℕ) (t : PacketType) (flags : ℕ) (s : Bytes) where
  read_body-Framed :
      (n width : ℕ) (s' : Bytes)
      → width + length s' ≡ length s
      → 0 < width
      → Framed max (first ∷ s) (read_body max t flags (n, width) s')
  unfolding read_body
  read_body-Framed n width s' h k =
      if-Framed max (first ∷ s) (ltb 0 max && ltb max (1 + width + n)) _ _ (λ _. refl)
        (λ fits.
          if-Framed max (first ∷ s) (ltb (length s') n) _ _ (λ _. refl)
            (λ there.
              decoded fits there (decode t flags (take n s'))
                (unfold Takes in decode-Takes t flags (take n s'))))
    where
      decoded :
          (ltb 0 max && ltb max (1 + width + n)) ≡ false
          → ltb (length s') n ≡ false
          → (r : Result (Packet × Bytes)) → Settles 0 (take n s') r
          → Framed max (first ∷ s) (and_then r (λ p left. ok (p, drop n s')))
      decoded fits there (ok (p, left)) c = (ground (arith, length-drop n s'), limit)
        where
          limit : (max ≡ 0) ⊎ (length (first ∷ s) ≤ length (drop n s') + max)
          limit = elim (Bool-cases (ltb 0 max)) [
            | inl bounded ↦ inr (ground (arith, length-drop n s'))
            | inr unbounded ↦ inl (ground arith)
          ]
      decoded fits there (err e) c = c

  after_length-Framed :
      (r : Result ((ℕ × ℕ) × Bytes))
      → Counted 0 s r
      → Framed max (first ∷ s) (and_then r (read_body max t flags))
  after_length-Framed (ok ((n, width), s')) (h, k) = read_body-Framed n width s' (omega arith) k
  after_length-Framed (err e) h = h

-- Whatever the stream, `Read` either refuses, never for want of rounds, or takes a packet of two bytes
-- at least, and of no more bytes than a limit other than 0.
pub read-Framed : (max : ℕ) (s : Bytes) → Framed max s (read max s)
unfolding read read_after_first read_remaining_length
read-Framed max [] = refl
read-Framed max (first ∷ s) =
    let t = type_of_code (first / 2 ^ 4) in
    let flags = bit_and first 0x0f in
    if-Framed max (first ∷ s) (type_code t == 0) _ _ (λ _. refl)
      (λ _.
        if-Framed max (first ∷ s)
          (not (type_code t == type_code PacketType.publish) && not (flags == reserved_flags t)) _ _
          (λ _. refl)
          (λ _.
            after_length-Framed max first t flags s (read_remaining_length s)
              (remaining_length_loop-Counted 4 0 0 0 s)))
