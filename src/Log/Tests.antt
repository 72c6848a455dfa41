-- ===== src/Log/Tests.antt =====
-- Runs of a small partition, and its theorems at those states.
use marchiq.Base.{
  ℕ, ◌≡◌, ◌≢◌, ◌↔◌, refl, pos, List, [], ◌∷◌, ◌++◌, length, take, true, false, ok, err, stuck,
  Result, offset_out_of_range, result_uncertain, arith,
}
use marchiq.BigEndian.{put_uint, uint}
use marchiq.Codec.{
  Record, Reader, encode_record, decode_record, decode_header, decode_body, decode_fields,
  read_full,
}
use marchiq.Codec.Tests.{golden, golden_bytes}
use marchiq.Index.{encode_index_entry}
use marchiq.Log.{PartitionLog, Segment, new_partition}
use marchiq.Log.Append.Sealing.{append-Full}
use marchiq.Log.View.{Full, frames, IsValid, IsSegment}
use marchiq.Log.Append.{
  AppendIo, append, append_encoded, append_frame, make_room, roll_locked, index_next, write_frame,
  sync_frame, publish, acks_leader, acks_none,
}
use marchiq.Log.Append.Refines.{
  append-refines, append_outcome, published, Done, new_partition-IsValid,
}
use marchiq.Log.Read.{read_from, earliest_of}
use marchiq.Log.Read.Limits.{from_offset, within_budget}
use marchiq.Log.Read.Range.{Readable, read_from-contents, read_from_range}
use marchiq.Log.Open.{OpenIo, DiskSegment, Scan, scan_loop, scan_segment, open_segment}
use marchiq.Log.Open.Scanning.{scan_segment-ne-stuck}
use marchiq.Log.Open.Accepted.{Scanned, scan_segment-Scanned}
use marchiq.Log.Open.Surviving.{surviving}
use marchiq.Log.Open.Crash.{AllWell, open_segment_crash}

-- Every call succeeds, and writes `n` bytes.
abbrev pub good_io : ℕ → AppendIo
good_io n = record {
  now = pos 5;
  seal_sync = true;
  seal_index_sync = true;
  create_segment = true;
  create_index = true;
  sync_segment = true;
  sync_dir = true;
  index_write = true;
  index_written = 16;
  frame_write = true;
  frame_written = n;
  frame_sync = true;
  index_sync = true;
}

-- A partition whose segments hold one record of two bytes each.
abbrev pub empty_log : PartitionLog
empty_log = new_partition 30 4096

abbrev pub log_of : Result Record × PartitionLog → PartitionLog
log_of x = x.1

abbrev pub one_record : PartitionLog
one_record = log_of (append (good_io 23) empty_log (1 ∷ []) (2 ∷ []) acks_leader)

abbrev pub two_records : PartitionLog
two_records = log_of (append (good_io 23) one_record (1 ∷ []) (3 ∷ []) acks_none)

-- The second write takes 4 of 23 bytes.
abbrev cut_write : Result Record × PartitionLog
cut_write = append (good_io 4) one_record (1 ∷ []) (3 ∷ []) acks_leader

cut_write_fences : (cut_write.0 ≡ err result_uncertain) × (cut_write.1.failed ≡ true)
unfolding append append_encoded append_frame make_room roll_locked index_next write_frame sync_frame
    publish encode_record encode_index_entry put_uint
cut_write_fences = (refl, refl)

two_segments : (length two_records.sealed ≡ 1) × (two_records.next_offset ≡ 2)
unfolding append append_encoded append_frame make_room roll_locked index_next write_frame sync_frame
    publish encode_record encode_index_entry put_uint
two_segments = (refl, refl)

append-refines_example :
    IsValid one_record
      ([] ++ published (append (good_io 23) empty_log (1 ∷ []) (2 ∷ []) acks_leader).0)
append-refines_example =
    append-refines (good_io 23) empty_log (1 ∷ []) (2 ∷ []) acks_leader []
      (new_partition-IsValid 30 4096) (omega arith)

append_outcome_example : Done (good_io 4) one_record (1 ∷ []) (3 ∷ []) cut_write.0 cut_write.1
append_outcome_example = append_outcome (good_io 4) one_record (1 ∷ []) (3 ∷ []) acks_leader

abbrev pub stored_records : List Record
stored_records =
    ([] ++ published (append (good_io 23) empty_log (1 ∷ []) (2 ∷ []) acks_leader).0)
    ++ published (append (good_io 23) one_record (1 ∷ []) (3 ∷ []) acks_none).0

pub two_records-IsValid : IsValid two_records stored_records
two_records-IsValid =
    append-refines (good_io 23) one_record (1 ∷ []) (3 ∷ []) acks_none
      ([] ++ published (append (good_io 23) empty_log (1 ∷ []) (2 ∷ []) acks_leader).0)
      append-refines_example (omega arith)

pub two_records_range :
    (two_records.closed ≡ false) × (earliest_of two_records ≡ 0) × (two_records.next_offset ≡ 2)
unfolding append append_encoded append_frame make_room roll_locked index_next write_frame sync_frame
    publish encode_record encode_index_entry put_uint
two_records_range = (refl, refl, refl)

read_from-contents_example :
    read_from two_records (pos 1) (pos 10) (pos 100)
    ≡ ok (within_budget 10 100 true (from_offset 1 stored_records))
read_from-contents_example =
    read_from-contents two_records stored_records 1 10 100 two_records-IsValid two_records_range.0
      (omega arith) (omega arith) (omega (arith, two_records_range))
      (omega (arith, two_records_range))

read_from_range_example :
    (read_from two_records (pos 7) (pos 10) (pos 100) ≡ err offset_out_of_range)
    ↔ ((offset_out_of_range ≡ offset_out_of_range) × ¬ Readable two_records (pos 7))
read_from_range_example =
    read_from_range two_records stored_records (pos 7) 10 100 offset_out_of_range
      two_records-IsValid two_records_range.0 (omega arith) (omega arith)

scan_segment-ne-stuck_example :
    scan_segment (record { avail = 1 ∷ []; faulty = false }) 0 4096 ≢ err stuck
scan_segment-ne-stuck_example =
    scan_segment-ne-stuck (record { avail = 1 ∷ []; faulty = false }) 0 4096

-- The file holds the golden frame and the first bytes of another.
abbrev torn_reader : Reader
torn_reader = record { avail = golden_bytes ++ (1 ∷ 0 ∷ []); faulty = false }

abbrev torn_scan : Scan
torn_scan = record {
  size_bytes = 23;
  records = 1;
  index = record { rel_offset = 0; position = 0 } ∷ [];
  torn = true;
}

torn_scanned : scan_segment torn_reader 7 4096 ≡ ok torn_scan
unfolding scan_segment scan_loop decode_record decode_header decode_body decode_fields read_full
    uint
torn_scanned = refl

scan_segment-Scanned_example :
    (rs : List Record) × Scanned 7 (golden_bytes ++ (1 ∷ 0 ∷ [])) rs torn_scan
scan_segment-Scanned_example =
    scan_segment-Scanned 7 4096 torn_reader torn_scan (omega arith) torn_scanned

abbrev pub well_io : OpenIo
well_io = record {
  open_log = true;
  stat = true;
  read_fault = false;
  truncate = true;
  sync = true;
  open_index = true;
  rewrite_index = true;
}

pub well_io-AllWell : AllWell well_io
well_io-AllWell = record {
  open_log = refl;
  stat = refl;
  read_fault = refl;
  truncate = refl;
  sync = refl;
  open_index = refl;
  rewrite_index = refl;
}

-- One golden record is on disk whole, and a second one up to its tenth byte.
abbrev crashed_disk : DiskSegment
crashed_disk = record {
  base_offset = 0;
  log = record {
    bytes = take 33 (frames (golden ∷ record golden { offset = 1 } ∷ []));
    synced = 0;
  };
  index = record { bytes = []; synced = 0 };
}

open_segment_crash_example :
    (s : Segment) × (open_segment well_io crashed_disk true 4096 ≡ ok s)
    × IsSegment s (surviving 33 (golden ∷ record golden { offset = 1 } ∷ []))
    × (s.file.bytes ≡ frames (surviving 33 (golden ∷ record golden { offset = 1 } ∷ [])))
open_segment_crash_example =
    open_segment_crash well_io crashed_disk 4096 33 (golden ∷ record golden { offset = 1 } ∷ [])
      well_io-AllWell refl (refl, (refl, tt))
      ((omega arith, omega arith), ((omega arith, omega arith), tt))

append-Full_example : Full (append (good_io 23) one_record (1 ∷ []) (3 ∷ []) acks_none).1.sealed
unfolding append append_encoded encode_record put_uint
append-Full_example = append-Full (good_io 23) one_record (1 ∷ []) (3 ∷ []) acks_none tt
