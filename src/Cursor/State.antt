-- ===== src/Cursor/State.antt =====
-- The data of cursor.go: the cursor, and the fields of a session, of its connection and of its
-- subscriptions that the cursor's operations read and write.
use natsmqtt.Prelude.{
  ℕ, ◌-◌, ◌*◌, ◌^◌, Bool, Option, List, [], ◌∷◌, Bytes, ltb, ◌==◌, if◌then◌else◌,
}
use natsmqtt.Prelude.{not, ◌&&◌, ◌||◌}
use natsmqtt.Dict.{Dict}

-- `maxReplayHoles`, `cursorIDBound` and `cursorScanAfter`
pub record Limits : Type 0 where
  pub max_holes : ℕ
  pub id_bound : ℕ
  pub scan_after : ℕ

-- With `maxStoredDelivered` 4096.
abbrev pub default_limits : Limits
default_limits = record { max_holes = 1024; id_bound = 4 * 4096; scan_after = 1024 }

abbrev pub since_unknown : ℕ
since_unknown = 2 ^ 64 - 1

-- `replayCursor`
pub record ReplayCursor : Type 0 where
  pub next : ℕ
  pub holes : Dict ℕ Bytes
  pub hole_at : Dict Bytes ℕ
  pub gen : ℕ
  pub above : ℕ
  pub scanning : Bool
  pub asked : Bool
  pub pin : ℕ
  pub base : ℕ

-- `subscription`; `ident` tells one pointer from another.
pub record Subscription : Type 0 where
  pub ident : ℕ
  pub filter : Bytes
  pub share : Bytes
  pub granted_qos : ℕ
  pub no_local : Bool
  pub retain_as_published : Bool
  pub id : ℕ
  pub since : ℕ

-- `deliveredMark`
pub record DeliveredMark : Type 0 where
  pub at : ℕ
  pub seq : ℕ

-- `conn`: `pending` counts the waiting sequences.
pub record Conn : Type 0 where
  pub ident : ℕ
  pub closed : Bool
  pub resuming : Bool
  pub pending : Dict ℕ ℕ
  pub in_hand : ℕ
  pub from_seq : ℕ
  pub stream_next : ℕ

-- `session`; `conn` is the identity of its connection and `activity` that connection's count,
-- `away` is whether `awayAt` is set, and `stored` whether `rec` is.
pub record Session : Type 0 where
  pub cur : ReplayCursor
  pub subs : List Subscription
  pub delivered : Dict Bytes DeliveredMark
  pub max_delivered_seq : ℕ
  pub late_seq : ℕ
  pub away_late_seq : ℕ
  pub away : Bool
  pub stored : Bool
  pub conn : Option ℕ
  pub activity : ℕ
  pub window : ℕ

-- `lowestSeq`, the loop over the sequences
unfoldable pub lowest_from : ℕ → List ℕ → ℕ
lowest_from lowest [] = lowest
lowest_from lowest (q ∷ qs) =
    lowest_from (if not (q == 0) && (lowest == 0 || ltb q lowest) then q else lowest) qs

unfoldable pub lowest_seq : List ℕ → ℕ
unfolding lowest_from
lowest_seq qs = lowest_from 0 qs

-- `seqSet.min`, the loop over the map's keys
unfoldable pub min_from : ℕ → Dict ℕ ℕ → ℕ
min_from lowest [] = lowest
min_from lowest ((seq, n) ∷ m) = min_from (if lowest == 0 || ltb seq lowest then seq else lowest) m

unfoldable pub min : Dict ℕ ℕ → ℕ
unfolding min_from
min m = min_from 0 m

-- `owedFloor`
unfoldable pub owed_floor : Conn → ℕ
owed_floor c =
    let floor = lowest_seq (min c.pending ∷ c.in_hand ∷ []) in
    lowest_seq (floor ∷ c.from_seq ∷ c.stream_next ∷ [])
