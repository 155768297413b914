-- ===== src/Alias/Tests.antt =====
-- The table of aliases at a concrete connection.
use natsmqtt.Prelude.{◌≡◌, false, none, some, [], ◌∷◌, Bytes, codes, arith}
use natsmqtt.Packet.Model.{Publish}
use natsmqtt.Alias.Table.{OutAliases, new_out_aliases, encode_aliased}
use natsmqtt.Alias.Agreement.{Client, Sent}
use natsmqtt.Alias.Agreement.Assign.{new_out_aliases-IsAgreed}
use natsmqtt.Alias.Agreement.Steps.{encode_aliased-IsAgreed}

abbrev reading : Publish
reading = record {
  dup = false;
  qos = 0;
  retain = false;
  topic = codes "sensors/1";
  packet_id = 0;
  properties = none;
  payload = 1 ∷ [];
}

abbrev nothing_told : Client
nothing_told = λ a. none

encode_aliased-IsAgreed_example :
    (out : Bytes) × (t' : OutAliases) × (encode_aliased
        (new_out_aliases 2)
        reading
        (codes "plain")
        64
      ≡ some (out, t'))
    × (t'.max ≡ (new_out_aliases 2).max)
    × Sent reading (codes "plain") 64 (new_out_aliases 2).max t'.order nothing_told out
encode_aliased-IsAgreed_example =
    encode_aliased-IsAgreed (new_out_aliases 2) reading (codes "plain") 64 nothing_told
      (new_out_aliases-IsAgreed 2 (omega arith) (omega arith))
