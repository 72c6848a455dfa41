-- ===== src/Broker.antt =====
-- storage/types.go: `Broker`, `Topic` and the counters; storage/topic.go: the way to a partition,
-- `Produce`, `GetOffsets`, `Fetch`, `DescribeSegments` and `Stats`; the data of storage/group.go.
pub mod Hash
pub mod Produce
mod Tests
use marchiq.Base.{
  ℕ, zero, suc, ◌+◌, ◌%◌, ◌^◌, ℤ, pos, negsuc, int64_of, eq_int, Bool, not, List, [], ◌∷◌, length,
  get_elem?, Option, none, some, ltb, leb, ◌==◌, if◌then◌else◌, Error, closed, topic_not_found,
  partition_not_found, stuck, Result, ok, err, ◌>>=◌,
}
use marchiq.Names.{Name, eq_name, TopicConfig}
use marchiq.Maps.{get, set}
use marchiq.Codec.{Record}
use marchiq.Log.{PartitionLog}
use marchiq.Log.Append.{AppendIo, append}
use marchiq.Log.Read.{Offsets, offsets, SegmentInfo, describe_segments, read_from}
use marchiq.Broker.Hash.{fnv32a}

pub record GroupTopic : Type 0 where
  pub size : ℕ
  pub members : List Name
  pub offsets : List (ℕ × ℕ)

pub record Group : Type 0 where
  pub name : Name
  pub topics : List (Name × GroupTopic)

pub record Stats : Type 0 where
  pub produce_records : ℕ
  pub produce_bytes : ℕ
  pub fetch_records : ℕ
  pub fetch_bytes : ℕ

-- `rr` is a `uint64`.
pub record Topic : Type 0 where
  pub config : TopicConfig
  pub partitions : List PartitionLog
  pub rr : ℕ

pub record Broker : Type 0 where
  pub topics : List (Name × Topic)
  pub closed : Bool
  pub groups : List (Name × Group)
  pub max_segment_bytes : ℕ
  pub index_interval_bytes : ℕ
  pub stats : Stats

unfoldable pub get_topic : Broker → Name → Result Topic
get_topic b name =
    if b.closed
    then err closed
    else elim (get eq_name name b.topics) [ none ↦ err topic_not_found | some t ↦ ok t ]

-- The partition of a number that may be out of range.
abbrev pub at_partition : Topic → ℤ → Result PartitionLog
at_partition t (negsuc n) = err partition_not_found
at_partition t (pos n) = elim (get_elem? t.partitions n) [
  | none ↦ err partition_not_found
  | some p ↦ ok p
]

unfoldable pub get_partition : Broker → Name → ℤ → Result PartitionLog
get_partition b topic partition =
    if b.closed then err closed else elim (get eq_name topic b.topics) [
      | none ↦ err topic_not_found
      | some t ↦ at_partition t partition
    ]

-- `-(r + 1) % n` as an index, after 2 ^ 63 records: a negative one would panic.
abbrev pub picked_negative : ℕ → ℕ → Result ℕ
picked_negative r n = if (r + 1) % n == 0 then ok 0 else err stuck

-- The partition that the broker picks, and the next value of the round-robin cursor.
unfoldable pub pick_partition : Topic → List ℕ → Result ℕ × ℕ
pick_partition t [] = (
  elim (int64_of t.rr) [
    | pos r ↦ ok (r % length t.partitions)
    | negsuc r ↦ picked_negative r (length t.partitions)
  ],
  (t.rr + 1) % 2 ^ 64,
)
pick_partition t (x ∷ xs) = (ok (fnv32a (x ∷ xs) % length t.partitions), t.rr)

abbrev pub set_topic : Broker → Name → Topic → Broker
set_topic b name t = record b { topics = set eq_name name t b.topics }

-- The number of the partition to write to.
unfoldable pub resolve_partition : Broker → Name → ℤ → List ℕ → Result ℕ × Broker
resolve_partition b topic (pos n) key = (do p ← get_partition b topic (pos n); ok n, b)
resolve_partition b topic (negsuc (suc n)) key = (err partition_not_found, b)
resolve_partition b topic (negsuc zero) key = elim (get_topic b topic) [
  | err e ↦ (err e, b)
  | ok t ↦
      let (chosen, rr) = pick_partition t key in (chosen, set_topic b topic (record t { rr = rr }))
]

abbrev pub replace : {A : Type 0} → ℕ → A → List A → List A
replace n x [] = []
replace zero x (y ∷ ys) = x ∷ ys
replace (suc n) x (y ∷ ys) = y ∷ replace n x ys

-- The broker with another state of one partition.
abbrev pub set_partition : Broker → Name → ℕ → PartitionLog → Broker
set_partition b topic n p = elim (get eq_name topic b.topics) [
  | none ↦ b
  | some t ↦ set_topic b topic (record t { partitions = replace n p t.partitions })
]

abbrev pub count_produce : List ℕ → List ℕ → Stats → Stats
count_produce key value s = record s {
  produce_records = s.produce_records + 1;
  produce_bytes = s.produce_bytes + (length key + length value);
}

unfoldable pub produce_to :
    AppendIo → Broker → Name → ℕ → List ℕ → List ℕ → ℤ → Result (Record × ℕ) × Broker
produce_to io b topic n key value acks = elim (get_partition b topic (pos n)) [
  | err e ↦ (err e, b)
  | ok p ↦
      let (res, after) = append io p key value acks in
      let written = set_partition b topic n after in
      elim res [
        | err e ↦ (err e, written)
        | ok r ↦ (ok (r, n), record written { stats = count_produce key value b.stats })
      ]
]

unfoldable pub produce :
    AppendIo → Broker → Name → ℤ → List ℕ → List ℕ → ℤ → Result (Record × ℕ) × Broker
produce io b topic partition key value acks =
    let (res, picked) = resolve_partition b topic partition key in
    elim res [ err e ↦ (err e, picked) | ok n ↦ produce_to io picked topic n key value acks ]

unfoldable pub get_offsets : Broker → Name → ℤ → Result Offsets
get_offsets b topic partition = do p ← get_partition b topic partition; offsets p

abbrev pub payload : List Record → ℕ
payload [] = 0
payload (r ∷ rs) = length r.key + length r.value + payload rs

abbrev pub count_fetch : List Record → Stats → Stats
count_fetch rs s = if length rs == 0 then s else record s {
  fetch_records = s.fetch_records + length rs;
  fetch_bytes = s.fetch_bytes + payload rs;
}

abbrev pub fetched : Result (List Record × Offsets) → Broker → Broker
fetched (err e) b = b
fetched (ok (rs, o)) b = record b { stats = count_fetch rs b.stats }

unfoldable pub fetch : Broker → Name → ℤ → ℤ → ℤ → ℤ → Result (List Record × Offsets) × Broker
fetch b topic partition offset max_records max_bytes =
    let res = (do
      p ← get_partition b topic partition
      rs ← read_from p offset max_records max_bytes
      o ← offsets p
      ok (rs, o)) in
    (res, fetched res b)

unfoldable pub describe : Broker → Name → ℤ → Result (List SegmentInfo)
describe b topic partition = do p ← get_partition b topic partition; describe_segments p
