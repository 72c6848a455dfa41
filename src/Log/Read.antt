-- ===== src/Log/Read.antt =====
-- storage/partition_log.go: `ReadFrom`, `Offsets` and `DescribeSegments`. Where the
-- reads of a segment meet an I/O error is a field of its state.
pub mod Select
pub mod Segments
pub mod Limits
pub mod Range
pub mod Climbs
use marchiq.Base.{
  ℕ, zero, suc, ◌+◌, ◌-◌, ◌≤◌, ℤ, pos, negsuc, is_positive, pos_part, Bool, ◌&&◌, not, List, [],
  ◌∷◌, ◌++◌, map, length, drop, get_or, ltb, leb, ◌==◌, ◌||◌, if◌then◌else◌, Error, closed, other,
  offset_out_of_range, Result, ok, err,
}
use marchiq.Codec.{Record, Reader, decode_record}
use marchiq.Index.{lookup_index}
use marchiq.Search.{search_first}
use marchiq.Log.{Segment, new_segment, PartitionLog, segments, section_reader}

-- The half-open range of offsets that can be read.
pub record Offsets : Type 0 where
  pub earliest : ℕ
  pub latest : ℕ

-- The base offset of the first segment.
abbrev pub earliest_of : PartitionLog → ℕ
earliest_of p = (get_or (segments p) 0 p.active).base_offset

-- The offsets that a read may start from: the readable range and its end.
abbrev pub InRange : PartitionLog → ℤ → Type 0
InRange p (pos o) = (earliest_of p ≤ o) × (o ≤ p.next_offset)
InRange p (negsuc n) = ⊥

unfoldable pub offsets : PartitionLog → Result Offsets
offsets p =
    if p.closed
    then err closed
    else ok (record { earliest = earliest_of p; latest = p.next_offset })

pub record SegmentInfo : Type 0 where
  pub base_offset : ℕ
  pub size_bytes : ℕ
  pub records : ℕ

unfoldable pub describe_segments : PartitionLog → Result (List SegmentInfo)
describe_segments p =
    if p.closed
    then err closed
    else ok (
        map
          (λ s. record {
            base_offset = s.base_offset;
            size_bytes = s.size_bytes;
            records = s.records;
          })
          (segments p))

-- The loops' state: the records so far and their bytes, or what `ReadFrom` has returned already.
pub data ReadStep : Type 0 where
  going : List Record → ℕ → ReadStep
  done : List Record → ReadStep
  failed : Error → ReadStep

-- The limits of a fetch: the first offset wanted, and at most how many records and bytes.
pub record Budget : Type 0 where
  pub offset : ℕ
  pub max_records : ℕ
  pub max_bytes : ℕ

-- One record of `n` bytes that was decoded.
abbrev pub take_record : Budget → ℕ → ℕ → Record → ℕ → List Record → ℕ → ReadStep
take_record b start cur r n out total =
    if ltb cur start
    then going out total
    else if ltb 0 (length out) && ltb b.max_bytes (total + n)
    then done out
    else going (out ++ (r ∷ [])) (total + n)

-- The inner loop, with `rounds` = `end - cur`.
unfoldable pub read_segment : Budget → ℕ → ℕ → Reader → ℕ → List Record → ℕ → ReadStep
read_segment b start zero reader cur out total = going out total
read_segment b start (suc rounds) reader cur out total =
    if leb b.max_records (length out)
    then going out total
    else (let (res, n, after) = decode_record reader cur in
        elim res [
          | err e ↦ failed e
          | ok r ↦ elim (take_record b start cur r n out total) [
            | going out' total' ↦ read_segment b start rounds after (cur + 1) out' total'
            | done out' ↦ done out'
            | failed e ↦ failed e
          ]
        ])

abbrev pub start_of : Budget → Segment → ℕ
start_of b s = if ltb b.offset s.base_offset then s.base_offset else b.offset

unfoldable pub read_one : Budget → Segment → List Record → ℕ → ReadStep
read_one b s out total =
    let start = start_of b s in
    let entry = lookup_index s.index (start - s.base_offset) in
    let cur = s.base_offset + entry.rel_offset in
    let end = s.base_offset + s.records in
    read_segment b start (end - cur) (section_reader s entry.position) cur out total

-- The outer loop, over the segments that are left.
unfoldable pub read_segments : Budget → List Segment → List Record → ℕ → Result (List Record)
read_segments b [] out total = ok out
read_segments b (s ∷ ss) out total =
    if leb b.max_records (length out) then ok out else elim (read_one b s out total) [
      | going out' total' ↦ read_segments b ss out' total'
      | done out' ↦ ok out'
      | failed e ↦ err e
    ]

-- The first segment that ends after `offset`.
abbrev pub first_segment : List Segment → ℕ → ℕ
first_segment ss offset =
    search_first (length ss)
      (λ i. let s = get_or ss i (new_segment 0) in ltb offset (s.base_offset + s.records))

unfoldable pub read_in_range : PartitionLog → Budget → Result (List Record)
read_in_range p b =
    if ltb b.offset (earliest_of p) || ltb p.next_offset b.offset
    then err offset_out_of_range
    else if b.offset == p.next_offset
    then ok []
    else read_segments b (drop (first_segment (segments p) b.offset) (segments p)) [] 0

-- The arguments are signed in the source. A negative offset is below every segment's base.
unfoldable pub read_from : PartitionLog → ℤ → ℤ → ℤ → Result (List Record)
read_from p offset max_records max_bytes =
    if p.closed
    then err closed
    else if not (is_positive max_records)
    then err other
    else if not (is_positive max_bytes)
    then err other
    else elim offset [
      | negsuc n ↦ err offset_out_of_range
      | pos o ↦ read_in_range p (record {
        offset = o;
        max_records = pos_part max_records;
        max_bytes = pos_part max_bytes;
      })
    ]
