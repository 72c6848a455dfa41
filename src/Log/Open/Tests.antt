-- ===== src/Log/Open/Tests.antt =====
-- Crashes of small partitions.
use marchiq.Base.{List, map, true, ltb_int, ◌≡◌, refl, pos, [], ◌∷◌, false, ok, arith}
use marchiq.BigEndian.{put_uint}
use marchiq.Codec.{Record, encode_record}
use marchiq.Index.{encode_index_entry}
use marchiq.Log.Append.{
  append, append_encoded, append_frame, make_room, roll_locked, index_next, write_frame, sync_frame,
  publish,
}
use marchiq.Log.View.{IsLog, IsValid, IsClean, contents}
use marchiq.Log.{PartitionLog}
use marchiq.Log.Tests.{one_record, well_io, well_io-AllWell}
use marchiq.Sorting.{sort}
use marchiq.Log.Listing.{list_segment_bases}
use marchiq.Log.Listing.Found.{
  SegmentFile, index_of, log_of, entry_of, log_bases, list_segment_bases-files,
}
use marchiq.Log.Open.{open_partition}
use marchiq.Log.Open.Surviving.{surviving}
use marchiq.Log.Open.Reopen.{image, Recoverable, open_partition_crash}

abbrev first : Record
first = record { offset = 0; timestamp_ns = pos 5; key = 1 ∷ []; value = 2 ∷ [] }

one_record-IsLog : IsLog one_record [] (first ∷ [])
unfolding append append_encoded append_frame make_room roll_locked index_next write_frame sync_frame
    publish encode_record encode_index_entry put_uint
one_record-IsLog = record {
  old = tt;
  current = record {
    counted = refl;
    sized = refl;
    stored = refl;
    numbered = (refl, tt);
    fits = ((omega arith, omega arith), tt);
    indexed = ((omega arith, refl), tt);
    readable = refl;
  };
  ascending = (omega arith, tt);
  next = refl;
}

one_record-IsClean : IsClean one_record
unfolding append append_encoded append_frame make_room roll_locked index_next write_frame sync_frame
    publish encode_record encode_index_entry put_uint
one_record-IsClean = refl

-- Ten bytes of the frame are left.
open_partition_crash_example :
    (q : PartitionLog) × (open_partition (λ _. well_io) (image one_record 10) 30 4096 ≡ ok q)
    × IsValid q (contents [] (surviving 10 (first ∷ [])))
    × Recoverable q
    × (q.failed ≡ false)
    × (q.closed ≡ false)
unfolding append append_encoded encode_record put_uint
open_partition_crash_example =
    open_partition_crash (λ _. well_io) one_record [] (first ∷ []) 10 30 4096 (λ _. well_io-AllWell)
      one_record-IsLog one_record-IsClean tt

-- As the directory lists them: by name, an index before its log.
abbrev two_segments : List SegmentFile
two_segments = index_of 7 ∷ log_of 7 ∷ index_of 120 ∷ log_of 120 ∷ []

list_segment_bases-files_example :
    list_segment_bases true (map entry_of two_segments)
    ≡ ok (sort ltb_int (map pos (log_bases two_segments)))
list_segment_bases-files_example =
    list_segment_bases-files two_segments (omega arith, (omega arith, tt))
