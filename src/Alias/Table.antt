-- ===== src/Alias/Table.antt =====
-- `outAliases` of outalias.go. The map `byTopic` holds the elements of `order` by their topics, and
-- each change is made to both, so it is a search of `order` here; `none` is a nil pointer's panic.
use natsmqtt.Prelude.{
  ℕ, ◌+◌, ◌%◌, ◌^◌, Bool, true, false, not, ◌&&◌, ◌||◌, Option, none, some, List, [], ◌∷◌,
}
use natsmqtt.Prelude.{Bytes, bytes_eq, ltb, leb, if◌then◌else◌, length}
use natsmqtt.Packet.Result.{ok, err}
use natsmqtt.Packet.Properties.{Properties, no_properties}
use natsmqtt.Packet.Model.{Publish, Packet}
use natsmqtt.Packet.Encode.Wire.{encode}

-- `outAlias`
pub record Entry : Type 0 where
  pub topic : Bytes
  pub alias : ℕ

-- An int that is added to and subtracted from: the difference of the two.
pub record Balance : Type 0 where
  pub gain : ℕ
  pub loss : ℕ

-- `outAliases`; `order` has the most recently used entry first.
pub record OutAliases : Type 0 where
  pub max : ℕ
  pub order : List Entry
  pub saved : Balance
  pub spent : Balance
  pub seen : List Bytes

abbrev pub max_seen_alias_names : ℕ
max_seen_alias_names = 32

-- `b += n - m`
abbrev pub credit : ℕ → ℕ → Balance → Balance
credit n m b = record { gain = b.gain + n; loss = b.loss + m }

abbrev pub below : Balance → Balance → Bool
below a b = ltb (a.gain + b.loss) (b.gain + a.loss)

unfoldable pub new_out_aliases : ℕ → OutAliases
new_out_aliases max = record {
  max = max;
  order = [];
  saved = record { gain = 0; loss = 0 };
  spent = record { gain = 0; loss = 0 };
  seen = [];
}

-- `t.byTopic[topic]`
unfoldable pub find_alias : Bytes → List Entry → Option ℕ
find_alias topic [] = none
find_alias topic (e ∷ es) =
    let rest = find_alias topic es in if bytes_eq e.topic topic then some e.alias else rest

unfoldable pub without : Bytes → List Entry → List Entry
without topic [] = []
without topic (e ∷ es) =
    let rest = without topic es in if bytes_eq e.topic topic then es else e ∷ rest

abbrev pub entry : Bytes → ℕ → Entry
entry topic alias = record { topic = topic; alias = alias }

unfoldable pub hit : Bytes → OutAliases → Option (ℕ × OutAliases)
hit topic t = elim (find_alias topic t.order) [
  | none ↦ none
  | some a ↦ some (a, record t { order = entry topic a ∷ without topic t.order })
]

-- `t.order.Back()`, and the list without it
unfoldable pub back : List Entry → Option Entry
back [] = none
back (e ∷ []) = some e
back (e ∷ f ∷ es) = back (f ∷ es)

unfoldable pub but_back : List Entry → List Entry
but_back [] = []
but_back (e ∷ []) = []
but_back (e ∷ f ∷ es) = e ∷ but_back (f ∷ es)

abbrev pub full : OutAliases → Bool
full t = leb t.max (length t.order)

unfoldable pub next : OutAliases → Option ℕ
next t =
    if ltb (length t.order) t.max
    then some ((length t.order % 2 ^ 16 + 1) % 2 ^ 16)
    else elim (back t.order) [ none ↦ none | some e ↦ some e.alias ]

unfoldable pub assign : Bytes → OutAliases → Option OutAliases
assign topic t = elim (next t) [
  | none ↦ none
  | some a ↦
      some (record t { order = entry topic a ∷ (if full t then but_back t.order else t.order) })
]

abbrev pub given : Option Properties → Properties
given none = no_properties
given (some q) = q

unfoldable pub with_alias : Publish → ℕ → Bool → Publish
with_alias p alias omit_topic = record p {
  properties = some (record (given p.properties) { topic_alias = some alias });
  topic = if omit_topic then [] else p.topic;
}

unfoldable pub was_seen : Bytes → List Bytes → Bool
was_seen topic [] = false
was_seen topic (s ∷ ss) = bytes_eq s topic || was_seen topic ss

-- `delete(t.seen, topic)`
unfoldable pub forget : Bytes → List Bytes → List Bytes
forget topic [] = []
forget topic (s ∷ ss) = let rest = forget topic ss in if bytes_eq s topic then rest else s ∷ rest

unfoldable pub remember : Bytes → List Bytes → List Bytes
remember topic seen = if leb max_seen_alias_names (length seen) then topic ∷ [] else topic ∷ seen

-- From the encoding under the next alias on.
unfoldable pub set_alias : OutAliases → Publish → Bytes → ℕ → Option (Bytes × OutAliases)
set_alias t p raw limit = elim (next t) [
  | none ↦ none
  | some a ↦ elim (encode (Packet.publish (with_alias p a false))) [
    | err e ↦ some (raw, t)
    | ok out ↦
        if ltb 0 limit && ltb limit (length out)
        then some (raw, t)
        else elim (assign p.topic (record t { spent = credit (length out) (length raw) t.spent })) [
          | none ↦ none
          | some t' ↦ some (out, t')
        ]
  ]
]

-- A name that has no alias.
unfoldable pub new_name : OutAliases → Publish → Bytes → ℕ → Option (Bytes × OutAliases)
new_name t p raw limit =
    if full t && below t.saved t.spent
    then some (raw, t)
    else if full t
    then (if not (was_seen p.topic t.seen)
        then some (raw, record t { seen = remember p.topic t.seen })
        else set_alias (record t { seen = forget p.topic t.seen }) p raw limit)
    else set_alias t p raw limit

-- `encode`
unfoldable pub encode_aliased : OutAliases → Publish → Bytes → ℕ → Option (Bytes × OutAliases)
encode_aliased t p raw limit = elim (hit p.topic t) [
  | none ↦ new_name t p raw limit
  | some (a, t') ↦ elim (encode (Packet.publish (with_alias p a true))) [
    | err e ↦ some (raw, t')
    | ok out ↦ some (out, record t' { saved = credit (length raw) (length out) t'.saved })
  ]
]

-- `aliasPublish`, with `minAliasedTopic` 8; `none` is a connection without a table.
unfoldable pub alias_publish :
    Option OutAliases → Publish → Bytes → ℕ → Option (Bytes × Option OutAliases)
alias_publish none p raw limit = some (raw, none)
alias_publish (some t) p raw limit =
    if ltb (length p.topic) 8
    then some (raw, some t)
    else elim (encode_aliased t p raw limit) [ none ↦ none | some (out, t') ↦ some (out, some t') ]
