-- ===== src/Log/Open.antt =====
-- storage/partition_log.go: `scanSegment`, `openSegment` and `openPartition`, which rebuild the
-- state of a partition from its files. What the operating system answers is an argument.
pub mod Scanning
pub mod Accepted
pub mod Surviving
pub mod Recovery
pub mod Crash
pub mod Whole
pub mod Reopen
pub mod Durability
mod Directory
mod Tests
use marchiq.Base.{
  none, ℕ, zero, suc, ◌+◌, ◌-◌, Bool, true, false, ◌||◌, ◌&&◌, not, List, [], ◌∷◌, ◌++◌, length,
  take, leb, ◌==◌, if◌then◌else◌, Error, eof, unexpected_eof, other, stuck, Result, ok, err, ◌>>=◌,
}
use marchiq.Codec.{Record, Reader, decode_record}
use marchiq.Index.{IndexEntry, encode_index_entry}
use marchiq.Log.{File, Segment, PartitionLog, sync_file}

-- What the scan of a segment's file finds: the last good boundary, the records below it, a sparse
-- index of them, and whether a partial frame follows.
pub record Scan : Type 0 where
  pub size_bytes : ℕ
  pub records : ℕ
  pub index : List IndexEntry
  pub torn : Bool

-- The scan ends at a clean boundary, at a torn tail, or with a failure.
abbrev pub scan_end : Error → ℕ → ℕ → List IndexEntry → Result Scan
scan_end eof size records index =
    ok (record { size_bytes = size; records = records; index = index; torn = false })
scan_end unexpected_eof size records index =
    ok (record { size_bytes = size; records = records; index = index; torn = true })
scan_end e size records index = err e

-- Whether the frame that begins at `size` gets an index entry.
abbrev pub is_due : ℕ → ℕ → ℕ → ℕ → Bool
is_due interval size records last = records == 0 || leb interval (size - last)

unfoldable pub scan_loop : ℕ → ℕ → ℕ → Reader → ℕ → ℕ → List IndexEntry → ℕ → Result Scan
scan_loop zero base interval reader size records index last = err stuck
scan_loop (suc fuel) base interval reader size records index last =
    let (res, n, after) = decode_record reader (base + records) in
    let due = is_due interval size records last in
    let entry : IndexEntry = record { rel_offset = records; position = size } in
    elim res [
      | err e ↦ scan_end e size records index
      | ok r ↦
          scan_loop fuel base interval after (size + n) (records + 1)
            (if due then index ++ (entry ∷ []) else index) (if due then size else last)
    ]

-- Each round takes a byte at least, so the fuel suffices.
unfoldable pub scan_segment : Reader → ℕ → ℕ → Result Scan
scan_segment reader base interval =
    scan_loop (suc (length reader.avail)) base interval reader 0 0 [] 0

-- Whether each call of one `openSegment` succeeds, and what reading meets at the file's end.
pub record OpenIo : Type 0 where
  pub open_log : Bool
  pub stat : Bool
  pub read_fault : Bool
  pub truncate : Bool
  pub sync : Bool
  pub open_index : Bool
  pub rewrite_index : Bool

-- The two files of a segment on disk.
pub record DiskSegment : Type 0 where
  pub base_offset : ℕ
  pub log : File
  pub index : File

abbrev pub last_position : List IndexEntry → ℕ
last_position [] = 0
last_position (e ∷ []) = e.position
last_position (e ∷ f ∷ es) = last_position (f ∷ es)

abbrev pub segment_of : DiskSegment → File → Scan → Segment
segment_of d file s = record {
  base_offset = d.base_offset;
  file = file;
  index_file = d.index;
  size_bytes = s.size_bytes;
  records = s.records;
  index = s.index;
  last_indexed_pos = last_position s.index;
  named = true;
  read_limit = none;
}

-- The log after a scan: cut to the last good boundary where it is torn, which only the active
-- segment may be.
unfoldable pub repair : OpenIo → Bool → File → Scan → Result File
repair io is_active f s =
    if not s.torn
    then ok f
    else if not is_active
    then err other
    else if not io.truncate
    then err other
    else if not io.sync
    then err other
    else ok (sync_file (record f { bytes = take s.size_bytes f.bytes }))

unfoldable pub open_segment : OpenIo → DiskSegment → Bool → ℕ → Result Segment
open_segment io d is_active interval = if not io.open_log || not io.stat then err other else do
  s ← scan_segment (record { avail = d.log.bytes; faulty = io.read_fault }) d.base_offset interval
  f ← repair io is_active d.log s
  if not io.open_index || not io.rewrite_index then err other else ok (segment_of d f s)

-- The loop over the segments in order; the last one is the active one.
unfoldable pub open_segments :
    (ℕ → OpenIo) → DiskSegment → List DiskSegment → ℕ → Result (List Segment × Segment)
open_segments io d [] interval = do s ← open_segment (io d.base_offset) d true interval; ok ([], s)
open_segments io d (d' ∷ ds) interval = do
  s ← open_segment (io d.base_offset) d false interval
  (sealed, active) ← open_segments io d' ds interval
  ok (s ∷ sealed, active)

-- The directory's segments, in the order of their base offsets.
unfoldable pub open_partition : (ℕ → OpenIo) → List DiskSegment → ℕ → ℕ → Result PartitionLog
open_partition io [] max_segment_bytes interval = err other
open_partition io (d ∷ ds) max_segment_bytes interval = do
  (sealed, active) ← open_segments io d ds interval
  ok (record {
    next_offset = active.base_offset + active.records;
    sealed = sealed;
    active = active;
    failed = false;
    closed = false;
    max_segment_bytes = max_segment_bytes;
    index_interval_bytes = interval;
    unsynced_deletion = false;
  })
