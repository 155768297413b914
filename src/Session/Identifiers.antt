-- ===== src/Session/Identifiers.antt =====
-- `nextID` of session.go.
use natsmqtt.Prelude.{
  ℕ, zero, suc, ◌+◌, ◌%◌, ◌^◌, Bool, Option, none, some, ◌||◌, ◌==◌, if◌then◌else◌,
}
use natsmqtt.Dict.{contains, number_key}
use natsmqtt.Session.State.{Exchanges}

-- `s.nextPacketID++`, past 0
unfoldable pub following : ℕ → ℕ
following id = let up = (id + 1) % 2 ^ 16 in if up == 0 then 1 else up

-- `busy || owed`
unfoldable pub is_used : Exchanges → ℕ → Bool
is_used s id = contains id s.inflight || contains id s.withdrawn

-- The loop from the identifier given last, with its rounds.
unfoldable pub find_id : Exchanges → ℕ → ℕ → ℕ × Option ℕ
find_id s zero id = (id, none)
find_id s (suc rounds) id =
    let rest = find_id s rounds (following id) in
    if is_used s (following id) then rest else (following id, some (following id))

-- `nextID`
unfoldable pub next_id : Exchanges → Exchanges × Option ℕ
next_id s =
    let (last, found) = find_id s 0xFFFF s.next_packet_id in
    (record s { next_packet_id = last }, found)
