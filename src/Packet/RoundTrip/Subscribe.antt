-- ===== src/Packet/RoundTrip/Subscribe.antt =====
-- The round trips of packet/subscribe.go.
use natsmqtt.Prelude.{
  ℕ, zero, suc, ◌*◌, ◌/◌, ◌≤◌, ◌<◌, ◌^◌, ◌≡◌, refl, ap, subst, ◌++◌, ◌&&◌, not, Bool, true,
}
use natsmqtt.Prelude.{
  [], ◌∷◌, List, Bytes, arith, length, length-append, some, All, bit_and, bit_or,
}
use natsmqtt.Prelude.{append_assoc, is_empty, leb, ◌==◌, ==_iff, leb→le}
use natsmqtt.Prelude.{
  all_below, all_below_sound, all_bools, all_bools_sound, same, same→eq, and→both,
}
use natsmqtt.Packet.Types.{PacketType, qos_valid}
use natsmqtt.Packet.Result.{protocol, Result, ok, guard-then, >>=-eq-ok}
use natsmqtt.Packet.Reader.{Reader, byte, text}
use natsmqtt.Packet.Utf8.{validate_utf8}
use natsmqtt.Packet.Writer.{put_uint16, put_binary, put_text, max_var_byte_int}
use natsmqtt.Packet.Properties.Write.{encode_properties}
use natsmqtt.Packet.Model.{Subscription, Subscribe, Unsubscribe, Packet}
use natsmqtt.Packet.Decode.{has_bit, subscription_of, read_subscription, read_all, read_items}
use natsmqtt.Packet.Decode.{decode_subscribe, decode_unsubscribe}
use natsmqtt.Packet.Encode.{or_if, subscription_options, put_subscription, put_filter, put_all}
use natsmqtt.Packet.Encode.{encode_subscribe, encode_unsubscribe}
use natsmqtt.Packet.RoundTrip.Primitives.{uint16-put_uint16, text-put_text}
use natsmqtt.Packet.RoundTrip.Loop.{ok-injective, checked, nonzero}
use natsmqtt.Packet.RoundTrip.Properties.{
  read_back, IsValidOption, read_properties-encode_properties,
}

abbrev options_of : Bool → Bool → ℕ → ℕ → ℕ
options_of rap nl handling qos = or_if rap 0x08 (or_if nl 0x04 (bit_or qos (handling * 2 ^ 4)))

-- What Subscription Options say, from the reserved bits to Retain Handling.
abbrev options_say : Bool → Bool → ℕ → ℕ → Bool
options_say rap nl handling qos =
    let opts = options_of rap nl handling qos in
    (bit_and opts 0xc0 == 0)
    && ((bit_and opts 0x03 == qos)
        && (same (has_bit opts 0x04) nl
            && (same (has_bit opts 0x08) rap && (bit_and (opts / 2 ^ 4) 0x03 == handling))))

options_say_table :
    all_bools (λ r. all_bools (λ n. all_below 3 (λ h. all_below 3 (options_say r n h)))) ≡ true
unfolding all_bools all_below
options_say_table = refl

options_back :
    (rap nl : Bool) (handling qos : ℕ)
    → handling ≤ 2
    → qos ≤ 2
    → ((bit_and (options_of rap nl handling qos) 0xc0 == 0) ≡ true)
      × (bit_and (options_of rap nl handling qos) 0x03 ≡ qos)
      × (has_bit (options_of rap nl handling qos) 0x04 ≡ nl)
      × (has_bit (options_of rap nl handling qos) 0x08 ≡ rap)
      × (bit_and (options_of rap nl handling qos / 2 ^ 4) 0x03 ≡ handling)
options_back rap nl handling qos h q =
    let row = all_bools_sound _ (all_bools_sound _ options_say_table rap) nl in
    let cell =
      all_below_sound 3 _ (all_below_sound 3 _ row handling (omega arith)) qos (omega arith) in
    let (a, r) = and→both _ _ cell in
    let (b, r') = and→both _ _ r in
    let (c, r'') = and→both _ _ r' in
    let (d, e) = and→both _ _ r'' in
    (a, (==_iff _ _).0 b, same→eq _ _ c, same→eq _ _ d, (==_iff _ _).0 e)

read_subscription-put_subscription :
    (sub : Subscription) (a s : Bytes)
    → validate_utf8 sub.filter ≡ ok tt
    → put_subscription sub ≡ ok a
    → read_subscription (a ++ s) ≡ ok (sub, s)
unfolding put_subscription read_subscription subscription_options subscription_of qos_valid byte
read_subscription-put_subscription sub a s valid e =
    let (fits, e') = checked sub.filter e in
    let (q, e'') = guard-then (leb sub.qos 2) protocol _ e' in
    let (h, whole) = guard-then (leb sub.retain_handling 2) protocol _ e'' in
    let (reserved, qos, nl, rap, handling) =
      options_back sub.retain_as_published sub.no_local sub.retain_handling sub.qos (leb→le _ _ h)
        (leb→le _ _ q) in
    rw (
      ← ok-injective whole,
      append_assoc,
      text-put_text sub.filter _ fits valid,
      reserved,
      qos,
      handling,
      q,
      h,
      nl,
      rap,
    )

-- One round of the loop over a body.
read_all-front :
    {A : Type 0} (item : Reader A) (x : A) (xs : List A) (fuel : ℕ) (a rest : Bytes)
    → 1 ≤ length a
    → length (a ++ rest) ≤ fuel
    → item (a ++ rest) ≡ ok (x, rest)
    → ((f : ℕ) → length rest ≤ f → read_all item f rest ≡ ok (xs, []))
    → read_all item fuel (a ++ rest) ≡ ok (x ∷ xs, [])
read_all-front item x xs fuel [] rest some_byte h e others = absurd (omega arith)
read_all-front item x xs zero (b ∷ a) rest some_byte h e others = absurd (omega arith)
read_all-front item x xs (suc f) (b ∷ a) rest some_byte h e others =
    let fewer : length rest ≤ f = omega (arith, length-append a rest) in
    unfold read_all in rw (e, others f fewer, read_all)

-- A list of items, each of which is read back from what was written for it.
module _ {A : Type 0} (put : A → Result Bytes) (item : Reader A) (P : A → Type 0)
    (reads : (x : A) (a s : Bytes) → P x → put x ≡ ok a → item (a ++ s) ≡ ok (x, s))
    (nonempty : (x : A) (a : Bytes) → put x ≡ ok a → 1 ≤ length a) where
  read_all-put_all :
      (xs : List A) (fuel : ℕ) (bytes : Bytes)
      → All P xs
      → put_all put xs ≡ ok bytes
      → length bytes ≤ fuel
      → read_all item fuel bytes ≡ ok (xs, [])
  unfolding put_all
  read_all-put_all [] fuel bytes valid e h = rw (← ok-injective e) (unfold read_all in refl)
  read_all-put_all (x ∷ xs) fuel bytes valid e h =
      let (a, written, e') = >>=-eq-ok (put x) _ e in
      let (rest, others, whole) = >>=-eq-ok (put_all put xs) _ e' in
      subst (λ z. read_all item fuel z ≡ ok (x ∷ xs, [])) (ok-injective whole)
        (read_all-front item x xs fuel a rest (nonempty x a written)
          (omega (arith, ap length (ok-injective whole))) (reads x a rest valid.0 written)
          (λ f. read_all-put_all xs f rest valid.1 others))

  read_items-put_all :
      (xs : List A) (bytes : Bytes)
      → All P xs
      → put_all put xs ≡ ok bytes
      → read_items item bytes ≡ ok (xs, [])
  unfolding read_items
  read_items-put_all xs bytes valid e =
      read_all-put_all xs (length bytes) bytes valid e (omega arith)

put_text-nonempty : (s : Bytes) → 1 ≤ length (put_text s)
unfolding put_text put_binary put_uint16
put_text-nonempty s = omega arith

put_subscription-nonempty :
    (sub : Subscription) (a : Bytes) → put_subscription sub ≡ ok a → 1 ≤ length a
unfolding put_subscription
put_subscription-nonempty sub a e =
    let (_, e') = checked sub.filter e in
    let (_, e'') = guard-then (qos_valid sub.qos) protocol _ e' in
    let (_, whole) = guard-then (leb sub.retain_handling 2) protocol _ e'' in
    omega (
      arith,
      ap length (ok-injective whole),
      length-append (put_text sub.filter) (subscription_options sub ∷ []),
    )

put_filter-nonempty : (f : Bytes) (a : Bytes) → put_filter f ≡ ok a → 1 ≤ length a
unfolding put_filter
put_filter-nonempty f a e =
    omega (arith, ap length (ok-injective (checked f e).1), put_text-nonempty f)

text-put_filter :
    (f a s : Bytes) → validate_utf8 f ≡ ok tt → put_filter f ≡ ok a → text (a ++ s) ≡ ok (f, s)
unfolding put_filter
text-put_filter f a s valid e =
    let (fits, whole) = checked f e in rw (← ok-injective whole) (text-put_text f s fits valid)

abbrev HasFilter : Subscription → Type 0
HasFilter sub = validate_utf8 sub.filter ≡ ok tt

abbrev IsFilter : Bytes → Type 0
IsFilter f = validate_utf8 f ≡ ok tt

-- What a reader asks of a SUBSCRIBE and of an UNSUBSCRIBE.
pub record IsValidSubscribe (s : Subscribe) : Type 0 where
  pub packet_id : (1 ≤ s.packet_id) × (s.packet_id < 2 ^ 16)
  pub properties : IsValidOption PacketType.subscribe s.properties
  pub subscriptions : All HasFilter s.subscriptions

pub record IsValidUnsubscribe (u : Unsubscribe) : Type 0 where
  pub packet_id : (1 ≤ u.packet_id) × (u.packet_id < 2 ^ 16)
  pub properties : IsValidOption PacketType.unsubscribe u.properties
  pub filters : All IsFilter u.filters

unfoldable pub read_back_subscribe : Subscribe → Subscribe
read_back_subscribe s = record s { properties = some (read_back PacketType.subscribe s.properties) }

unfoldable pub read_back_unsubscribe : Unsubscribe → Unsubscribe
read_back_unsubscribe u = record u {
  properties = some (read_back PacketType.unsubscribe u.properties);
}

-- The length of the properties in a body of a Packet Identifier, properties and a payload.
fits_in_body :
    (id : ℕ) (props payload body : Bytes)
    → put_uint16 id ++ (props ++ payload) ≡ body
    → length body ≤ max_var_byte_int
    → length props ≤ max_var_byte_int
fits_in_body id props payload body e h = omega (
  arith,
  ap length e,
  length-append (put_uint16 id) (props ++ payload),
  length-append props payload,
)

pub decode_subscribe-encode_subscribe :
    (s : Subscribe) (flags : ℕ) (body : Bytes)
    → IsValidSubscribe s
    → encode_subscribe s ≡ ok (flags, body)
    → length body ≤ max_var_byte_int
    → decode_subscribe body ≡ ok (Packet.subscribe (read_back_subscribe s), [])
unfolding encode_subscribe decode_subscribe read_back_subscribe
decode_subscribe-encode_subscribe s flags body valid e short =
    let (some_filter, e') = guard-then (not (is_empty s.subscriptions)) protocol _ e in
    let (props, written, e'') =
      >>=-eq-ok (encode_properties s.properties PacketType.subscribe) _ e' in
    let (payload, items, whole) = >>=-eq-ok (put_all put_subscription s.subscriptions) _ e'' in
    let pairs = ok-injective whole in
    let fits =
      fits_in_body s.packet_id props payload body (ap (λ (z : ℕ × Bytes). z.1) pairs) short in
    subst
      (λ (z : ℕ × Bytes). decode_subscribe z.1 ≡ ok (Packet.subscribe (read_back_subscribe s), []))
      pairs
      (rw (
        uint16-put_uint16 s.packet_id (props ++ payload) valid.packet_id.1,
        nonzero s.packet_id valid.packet_id.0,
        read_properties-encode_properties _ s.properties props payload valid.properties written
            fits,
        read_items-put_all put_subscription read_subscription HasFilter
            read_subscription-put_subscription put_subscription-nonempty s.subscriptions payload
            valid.subscriptions items,
        some_filter,
      ))

pub decode_unsubscribe-encode_unsubscribe :
    (u : Unsubscribe) (flags : ℕ) (body : Bytes)
    → IsValidUnsubscribe u
    → encode_unsubscribe u ≡ ok (flags, body)
    → length body ≤ max_var_byte_int
    → decode_unsubscribe body ≡ ok (Packet.unsubscribe (read_back_unsubscribe u), [])
unfolding encode_unsubscribe decode_unsubscribe read_back_unsubscribe
decode_unsubscribe-encode_unsubscribe u flags body valid e short =
    let (some_filter, e') = guard-then (not (is_empty u.filters)) protocol _ e in
    let (props, written, e'') =
      >>=-eq-ok (encode_properties u.properties PacketType.unsubscribe) _ e' in
    let (payload, items, whole) = >>=-eq-ok (put_all put_filter u.filters) _ e'' in
    let pairs = ok-injective whole in
    let fits =
      fits_in_body u.packet_id props payload body (ap (λ (z : ℕ × Bytes). z.1) pairs) short in
    subst
      (λ (z : ℕ × Bytes).
        decode_unsubscribe z.1 ≡ ok (Packet.unsubscribe (read_back_unsubscribe u), []))
      pairs
      (rw (
        uint16-put_uint16 u.packet_id (props ++ payload) valid.packet_id.1,
        nonzero u.packet_id valid.packet_id.0,
        read_properties-encode_properties _ u.properties props payload valid.properties written
            fits,
        read_items-put_all put_filter text IsFilter text-put_filter put_filter-nonempty u.filters
            payload valid.filters items,
        some_filter,
      ))
