-- ===== src/Packet/RoundTrip/Repeats.antt =====
-- The properties that repeat, Subscription Identifier and User Property, are read back in order.
use natsmqtt.Prelude.{ℕ, suc, ◌≤◌, ◌≡◌, ◌≢◌, refl, subst, ◌++◌, ◌&&◌, not, true, false}
use natsmqtt.Prelude.{[], ◌∷◌, List, ◌⊎◌, inl, inr, Bool-cases, Bytes, arith, length, All}
use natsmqtt.Prelude.{append_assoc, append-nil, leb}
use natsmqtt.Packet.Types.{PacketType}
use natsmqtt.Packet.Result.{ok, protocol, guard-then, >>=-eq-ok}
use natsmqtt.Packet.Writer.{max_var_byte_int, put_var_byte_int, put_string_pair}
use natsmqtt.Packet.Utf8.{validate_utf8}
use natsmqtt.Packet.Properties.{PropId, prop_code, allowed_in, UserProperty, Properties}
use natsmqtt.Packet.Properties.{prop_subscription_id, prop_user}
use natsmqtt.Packet.Properties.Read.{read_property, seen_has, repeatable}
use natsmqtt.Packet.Properties.Write.{put, put_subscription_ids, put_user}
use natsmqtt.Packet.RoundTrip.Loop.{
  Below, Reads, Reads-nothing, Reads-append, Reads-item, keep_list,
}
use natsmqtt.Packet.RoundTrip.Loop.{not-seen, ok-injective, checked}

-- `enc` writes the values `vs` of one property, each by `emit`, and `P` holds of each.
data Written {A : Type 0} (id : PropId) (ctx : PacketType) (emit : A → Bytes) (P : A → Type 0)
    : List A → Bytes → Type 0 where
  written_nil : Written id ctx emit P [] []
  written_cons :
      {x : A} {xs : List A} {rest : Bytes}
      → P x
      → Written id ctx emit P xs rest
      → Written id ctx emit P (x ∷ xs) (put id ctx (emit x) ++ rest)

module _ {A : Type 0} (id : PropId) (ctx : PacketType) (emit : A → Bytes) (P : A → Type 0) where
  put_allowed : (e : Bytes) → allowed_in id ctx ≡ true → put id ctx e ≡ prop_code id ∷ e
  unfolding put
  put_allowed e allowed = rw allowed

  -- What has been read makes no difference to a value that may repeat, or that is the last.
  fresh_tail :
      (x : A) (xs : List A)
      → (repeatable id ctx ≡ true) ⊎ (length (x ∷ xs) ≤ 1)
      → xs ≢ []
      → (seen : List PropId) → Below (suc (prop_code id)) seen
      → (seen_has seen id && not (repeatable id ctx)) ≡ false
  fresh_tail x xs (inl again) ne seen below = rw again (ground arith)
  fresh_tail x [] (inr last) ne seen below = absurd (ne refl)
  fresh_tail x (y ∷ ys) (inr last) ne seen below = absurd (omega arith)

  once_tail :
      (x : A) (xs : List A)
      → (repeatable id ctx ≡ true) ⊎ (length (x ∷ xs) ≤ 1)
      → (repeatable id ctx ≡ true) ⊎ (length xs ≤ 1)
  once_tail x xs (inl again) = inl again
  once_tail x xs (inr last) = inr (omega arith)

  -- Nothing is written where the property may not stand.
  Written-refused :
      {vs : List A} {bytes : Bytes}
      → allowed_in id ctx ≡ false
      → Written id ctx emit P vs bytes
      → bytes ≡ []
  unfolding put
  Written-refused e written_nil = refl
  Written-refused e (written_cons p w) = rw e (Written-refused e w)

  module _ (set : List A → Properties)
      (reads : (ys : List A) (x : A) (s : Bytes)
        → P x
        → read_property id (set ys) (emit x ++ s) ≡ ok (set (ys ++ (x ∷ [])), s))
      (allowed : allowed_in id ctx ≡ true) where
    Reads-Written :
        (b : ℕ) (ys vs : List A) (bytes : Bytes)
        → Written id ctx emit P vs bytes
        → b ≤ suc (prop_code id)
        → (repeatable id ctx ≡ true) ⊎ (length vs ≤ 1)
        → (vs ≢ []
            → (seen : List PropId) → Below b seen
            → (seen_has seen id && not (repeatable id ctx)) ≡ false)
        → Reads ctx b (set ys) bytes (suc (prop_code id)) (set (ys ++ vs))
    unfolding put
    Reads-Written b ys [] bytes written_nil h once fresh =
        rw append-nil (Reads-nothing ctx b (suc (prop_code id)) (set ys) h)
    Reads-Written b ys vs bytes (written_cons {x = x} {xs = xs} {rest = rest} p w) h once fresh =
        rw (put_allowed (emit x) allowed, ← append_assoc ys (x ∷ []) xs)
          (Reads-append ctx b (suc (prop_code id)) (suc (prop_code id)) (set ys)
            (set (ys ++ (x ∷ []))) (set ((ys ++ (x ∷ [])) ++ xs)) (prop_code id ∷ emit x) rest
            (Reads-item ctx b (suc (prop_code id)) id (set ys) (set (ys ++ (x ∷ []))) (emit x) h
              (omega arith) allowed (fresh (λ z. cc)) (λ s. reads ys x s p))
            (Reads-Written (suc (prop_code id)) (ys ++ (x ∷ [])) xs rest w (omega arith)
              (once_tail x xs once) (fresh_tail x xs once)))

  -- The values of one property, kept where it may stand in `ctx`.
  Reads-list :
      (b : ℕ) (set : List A → Properties) (vs : List A) (bytes : Bytes)
      → ((ys : List A) (x : A) (s : Bytes)
          → P x
          → read_property id (set ys) (emit x ++ s) ≡ ok (set (ys ++ (x ∷ [])), s))
      → b ≤ prop_code id
      → (repeatable id ctx ≡ true) ⊎ (length vs ≤ 1)
      → Written id ctx emit P vs bytes
      → Reads ctx b (set []) bytes (suc (prop_code id)) (set (keep_list id ctx vs))
  Reads-list b set vs bytes reads h once w = elim (Bool-cases (allowed_in id ctx)) [
    | inl e ↦ rw e (
        Reads-Written set reads e b [] vs bytes w (omega arith) once
          (λ _ seen below. not-seen ctx b id seen h below))
    | inr e ↦
        rw (e, Written-refused e w)
          (Reads-nothing ctx b (suc (prop_code id)) (set []) (omega arith))
  ]

abbrev pub IsSubscriptionId : ℕ → Type 0
IsSubscriptionId v = (1 ≤ v) × (v ≤ max_var_byte_int)

Written-subscription_ids :
    (ctx : PacketType) (vs : List ℕ) (bytes : Bytes)
    → put_subscription_ids ctx vs ≡ ok bytes
    → Written prop_subscription_id ctx put_var_byte_int IsSubscriptionId vs bytes
unfolding put_subscription_ids
Written-subscription_ids ctx [] bytes e = subst (Written _ _ _ _ []) (ok-injective e) written_nil
Written-subscription_ids ctx (v ∷ vs) bytes e =
    let (inside, e') = guard-then (leb 1 v && leb v max_var_byte_int) protocol _ e in
    let (rest, written, e'') = >>=-eq-ok (put_subscription_ids ctx vs) _ e' in
    subst (Written _ _ _ _ (v ∷ vs)) (ok-injective e'')
      (written_cons (ground arith) (Written-subscription_ids ctx vs rest written))

pub Reads-subscription_ids :
    (ctx : PacketType) (b : ℕ) (set : List ℕ → Properties) (vs : List ℕ) (bytes : Bytes)
    → ((ys : List ℕ) (x : ℕ) (s : Bytes)
        → IsSubscriptionId x
        → read_property prop_subscription_id (set ys) (put_var_byte_int x ++ s)
          ≡ ok (set (ys ++ (x ∷ [])), s))
    → b ≤ prop_code prop_subscription_id
    → (repeatable prop_subscription_id ctx ≡ true) ⊎ (length vs ≤ 1)
    → put_subscription_ids ctx vs ≡ ok bytes
    → Reads ctx b
        (set [])
        bytes
        (suc (prop_code prop_subscription_id))
        (set (keep_list prop_subscription_id ctx vs))
Reads-subscription_ids ctx b set vs bytes reads h once e =
    Reads-list prop_subscription_id ctx put_var_byte_int IsSubscriptionId b set vs bytes reads h
      once (Written-subscription_ids ctx vs bytes e)

abbrev pub IsUserProperty : UserProperty → Type 0
IsUserProperty u = (validate_utf8 u.key ≡ ok tt) × (validate_utf8 u.value ≡ ok tt)

abbrev pub IsWritable : UserProperty → Type 0
IsWritable u = IsUserProperty u × (length u.key ≤ 65535) × (length u.value ≤ 65535)

abbrev pub put_pair : UserProperty → Bytes
put_pair u = put_string_pair u.key u.value

Written-user :
    (ctx : PacketType) (us : List UserProperty) (bytes : Bytes)
    → All IsUserProperty us
    → put_user ctx us ≡ ok bytes
    → Written prop_user ctx put_pair IsWritable us bytes
unfolding put_user
Written-user ctx [] bytes valid e = subst (Written _ _ _ _ []) (ok-injective e) written_nil
Written-user ctx (u ∷ us) bytes (valid, others) e =
    let (key_fits, e') = checked u.key e in
    let (value_fits, e'') = checked u.value e' in
    let (rest, written, whole) = >>=-eq-ok (put_user ctx us) _ e'' in
    subst (Written _ _ _ _ (u ∷ us)) (ok-injective whole)
      (written_cons (valid, key_fits, value_fits) (Written-user ctx us rest others written))

pub Reads-user :
    (ctx : PacketType) (b : ℕ) (set : List UserProperty → Properties) (us : List UserProperty)
    (bytes : Bytes)
    → ((ys : List UserProperty) (x : UserProperty) (s : Bytes)
        → IsWritable x
        → read_property prop_user (set ys) (put_pair x ++ s) ≡ ok (set (ys ++ (x ∷ [])), s))
    → b ≤ prop_code prop_user
    → All IsUserProperty us
    → put_user ctx us ≡ ok bytes
    → Reads ctx b (set []) bytes (suc (prop_code prop_user)) (set (keep_list prop_user ctx us))
unfolding repeatable
Reads-user ctx b set us bytes reads h valid e =
    Reads-list prop_user ctx put_pair IsWritable b set us bytes reads h (inl refl)
      (Written-user ctx us bytes valid e)
