-- ===== src/Closing.antt =====
-- `Close` of storage/topic.go and of storage/partition_log.go. That the broker stops the retention
-- loop first is not modelled.
pub mod Refusals
mod Tests
use marchiq.Base.{ℕ, suc, Bool, true, false, ◌&&◌, ◌||◌, not, List, [], ◌∷◌, if◌then◌else◌}
use marchiq.Names.{Name}
use marchiq.Log.{Segment, PartitionLog, segments}
use marchiq.Broker.{Broker, Topic}

-- Whether the two files of the segment at a base offset are closed without an error.
pub record CloseIo : Type 0 where
  pub close_log : ℕ → Bool
  pub close_index : ℕ → Bool

-- The loop over the segments, each of which is closed: whether one of them fails.
abbrev pub close_segments : CloseIo → List Segment → Bool
close_segments io [] = false
close_segments io (s ∷ ss) =
    not (io.close_log s.base_offset && io.close_index s.base_offset) || close_segments io ss

-- Whether there was an error, and the partition.
unfoldable pub close_partition : CloseIo → PartitionLog → Bool × PartitionLog
close_partition io p =
    if p.closed then (false, p) else (close_segments io (segments p), record p { closed = true })

-- The loop over the partitions of a topic, from number `i` on.
abbrev pub close_partitions : (ℕ → CloseIo) → ℕ → List PartitionLog → Bool × List PartitionLog
close_partitions io i [] = (false, [])
close_partitions io i (p ∷ ps) =
    let (e, q) = close_partition (io i) p in
    let (es, qs) = close_partitions io (suc i) ps in (e || es, q ∷ qs)

abbrev pub close_topics : (Name → ℕ → CloseIo) → List (Name × Topic) → Bool × List (Name × Topic)
close_topics io [] = (false, [])
close_topics io ((name, t) ∷ ts) =
    let (e, ps) = close_partitions (io name) 0 t.partitions in
    let (es, us) = close_topics io ts in (e || es, (name, record t { partitions = ps }) ∷ us)

unfoldable pub close : (Name → ℕ → CloseIo) → Broker → Bool × Broker
close io b =
    if b.closed
    then (false, b)
    else (let (e, ts) = close_topics io b.topics in (e, record b { closed = true; topics = ts }))
