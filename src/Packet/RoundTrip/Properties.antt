-- ===== src/Packet/RoundTrip/Properties.antt =====
-- `readProperties` reads back what `Properties.encode` writes, less what may not stand in the packet.
use natsmqtt.Prelude.{
  ℕ, suc, false, ◌≡◌, ◌≤◌, refl, sym, ap, ◌∙◌, ◌++◌, Option, none, some, List, [], ◌∷◌, Bytes,
  arith, length,
}
use natsmqtt.Prelude.{append-nil, append_assoc, length-append, take-append, drop-append, ltb}
use natsmqtt.Packet.Types.{PacketType}
use natsmqtt.Packet.Result.{Result, ok, >>=-eq-ok}
use natsmqtt.Packet.Writer.{put_var_byte_int, max_var_byte_int}
use natsmqtt.Packet.Properties.{prop_code, Properties, no_properties}
use natsmqtt.Packet.Properties.{prop_shared_sub_avail}
use natsmqtt.Packet.Properties.Read.{properties_loop, properties_of, sub_reader, read_properties}
use natsmqtt.Packet.Properties.Write.{in_turn, property_pieces, encode_properties}
use natsmqtt.Packet.RoundTrip.Primitives.{var_byte_int-put_var_byte_int}
use natsmqtt.Packet.RoundTrip.Loop.{Step, Reads, Reads-nothing, Reads-append, ok-injective, nonzero}
use natsmqtt.Packet.RoundTrip.Valid.{IsValid, restrict}
use natsmqtt.Packet.RoundTrip.LowProperties.{
  Step-payload_format, Step-message_expiry, Step-content_type,
}
use natsmqtt.Packet.RoundTrip.LowProperties.{Step-response_topic, Step-correlation_data}
use natsmqtt.Packet.RoundTrip.LowProperties.{Step-subscription_id, Step-session_expiry}
use natsmqtt.Packet.RoundTrip.LowProperties.{Step-assigned_client_id, Step-server_keep_alive}
use natsmqtt.Packet.RoundTrip.MiddleProperties.{
  Step-auth_method, Step-auth_data, Step-request_problem_info,
}
use natsmqtt.Packet.RoundTrip.MiddleProperties.{Step-will_delay_interval, Step-request_response}
use natsmqtt.Packet.RoundTrip.MiddleProperties.{Step-response_info, Step-server_reference}
use natsmqtt.Packet.RoundTrip.MiddleProperties.{Step-reason_string, Step-receive_maximum}
use natsmqtt.Packet.RoundTrip.HighProperties.{Step-topic_alias_maximum, Step-topic_alias}
use natsmqtt.Packet.RoundTrip.HighProperties.{Step-maximum_qos, Step-retain_available, Step-user}
use natsmqtt.Packet.RoundTrip.HighProperties.{Step-maximum_packet_size, Step-wildcard_sub_avail}
use natsmqtt.Packet.RoundTrip.HighProperties.{Step-sub_id_avail, Step-shared_sub_avail}

-- Whatever the statements `rs` write is read from `q` to `t`.
record ReadsAll (ctx : PacketType) (b : ℕ) (q : Properties) (rs : List (Result Bytes)) (d : ℕ)
    (t : Properties) : Type 0 where
  run : (bytes : Bytes) → in_turn rs ≡ ok bytes → Reads ctx b q bytes d t

no_more : {ctx : PacketType} {b : ℕ} {q : Properties} → ReadsAll ctx b q [] b q
unfolding in_turn
no_more {ctx} {b} {q} = record {
  run = λ bytes e. rw (← ok-injective e) (Reads-nothing ctx b b q (omega arith));
}

infixr 20 ◌⟫◌
◌⟫◌ :
    {ctx : PacketType} {b c d : ℕ} {q r t : Properties} {x : Result Bytes}
    {xs : List (Result Bytes)}
    → Step ctx b q x c r
    → ReadsAll ctx c r xs d t
    → ReadsAll ctx b q (x ∷ xs) d t
unfolding in_turn
◌⟫◌ {ctx} {b} {c} {d} {q} {r} {t} {x} {xs} first others = record {
  run = λ bytes e.
      let (front, e', e'') = >>=-eq-ok x _ e in
      let (back, written, whole) = >>=-eq-ok (in_turn xs) _ e'' in
      rw (← ok-injective whole)
        (Reads-append ctx b c d q r t front back (first.run front e') (others.run back written));
}

module _ (ctx : PacketType) (p : Properties) (valid : IsValid ctx p) where
  ReadsAll-property_pieces :
      ReadsAll ctx 0 no_properties
        (property_pieces ctx p)
        (suc (prop_code prop_shared_sub_avail))
        (restrict ctx p)
  unfolding property_pieces restrict
  ReadsAll-property_pieces =
      Step-payload_format ctx p valid
      ⟫ Step-message_expiry ctx p valid
      ⟫ Step-content_type ctx p valid
      ⟫ Step-response_topic ctx p valid
      ⟫ Step-correlation_data ctx p valid
      ⟫ Step-subscription_id ctx p valid
      ⟫ Step-session_expiry ctx p valid
      ⟫ Step-assigned_client_id ctx p valid
      ⟫ Step-server_keep_alive ctx p valid
      ⟫ Step-auth_method ctx p valid
      ⟫ Step-auth_data ctx p valid
      ⟫ Step-request_problem_info ctx p valid
      ⟫ Step-will_delay_interval ctx p valid
      ⟫ Step-request_response ctx p valid
      ⟫ Step-response_info ctx p valid
      ⟫ Step-server_reference ctx p valid
      ⟫ Step-reason_string ctx p valid
      ⟫ Step-receive_maximum ctx p valid
      ⟫ Step-topic_alias_maximum ctx p valid
      ⟫ Step-topic_alias ctx p valid
      ⟫ Step-maximum_qos ctx p valid
      ⟫ Step-retain_available ctx p valid
      ⟫ Step-user ctx p valid
      ⟫ Step-maximum_packet_size ctx p valid
      ⟫ Step-wildcard_sub_avail ctx p valid
      ⟫ Step-sub_id_avail ctx p valid
      ⟫ Step-shared_sub_avail ctx p valid
      ⟫ no_more

-- What a reader makes of properties that were written: a nil pointer comes back as no properties.
abbrev pub read_back : PacketType → Option Properties → Properties
read_back ctx none = no_properties
read_back ctx (some p) = restrict ctx p

abbrev pub IsValidOption : PacketType → Option Properties → Type 0
IsValidOption ctx none = Unit
IsValidOption ctx (some p) = IsValid ctx p

properties_of-in_turn :
    (ctx : PacketType) (p : Properties) (body : Bytes)
    → IsValid ctx p
    → in_turn (property_pieces ctx p) ≡ ok body
    → properties_of ctx body ≡ ok (restrict ctx p)
unfolding properties_of
properties_of-in_turn ctx p body valid e =
    let (seen, f, below, fuel, reads) =
      (ReadsAll-property_pieces ctx p valid).run body e [] [] (length body) tt
        (rw append-nil (omega arith)) in
    rw (append-nil body) at reads ∙ unfold properties_loop in refl

properties_of-nil : (ctx : PacketType) → ok no_properties ≡ properties_of ctx []
unfolding properties_of properties_loop
properties_of-nil ctx = refl

sub_reader-append :
    (ctx : PacketType) (q : Properties) (body s : Bytes)
    → properties_of ctx body ≡ ok q
    → sub_reader (length body) ctx (body ++ s) ≡ ok (q, s)
sub_reader-append ctx q [] s e =
    let long_enough : ltb (length s) 0 ≡ false = ground arith in
    rw long_enough (ap (λ z. ok (z, s)) (ok-injective (properties_of-nil ctx ∙ e)))
sub_reader-append ctx q (b ∷ body) s e =
    let long_enough : ltb (length ((b ∷ body) ++ s)) (length (b ∷ body)) ≡ false =
      ground (arith, length-append body s) in
    rw (
      long_enough,
      nonzero (length (b ∷ body)) (omega arith),
      take-append body s,
      drop-append body s,
      e,
    )

-- For properties that a packet of type `ctx` can carry, `readProperties` of what `encode` writes in at
-- most the bytes that a Property Length counts gives back those that are legal there, and leaves
-- what follows.
pub read_properties-encode_properties :
    (ctx : PacketType) (p : Option Properties) (bytes s : Bytes)
    → IsValidOption ctx p
    → encode_properties p ctx ≡ ok bytes
    → length bytes ≤ max_var_byte_int
    → read_properties ctx (bytes ++ s) ≡ ok (read_back ctx p, s)
unfolding read_properties encode_properties
read_properties-encode_properties ctx none bytes s valid e h =
    rw (← ok-injective e, var_byte_int-put_var_byte_int 0 s (omega arith))
      (sub_reader-append ctx no_properties [] s (sym (properties_of-nil ctx)))
read_properties-encode_properties ctx (some p) bytes s valid e h =
    let (body, e', e'') = >>=-eq-ok (in_turn (property_pieces ctx p)) _ e in
    let whole = ok-injective e'' in
    let short : length body ≤ max_var_byte_int =
      omega (arith, ap length whole, length-append (put_var_byte_int (length body)) body) in
    rw (← whole, append_assoc, var_byte_int-put_var_byte_int (length body) (body ++ s) short)
      (sub_reader-append ctx (restrict ctx p) body s (properties_of-in_turn ctx p body valid e'))
