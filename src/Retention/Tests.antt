-- ===== src/Retention/Tests.antt =====
-- Retention passes over a partition of two segments.
use marchiq.Base.{◌==◌, ltb_int, ◌≡◌, refl, true, List, [], ◌∷◌, some, pos, inl, get_or, arith}
use marchiq.Maps.{get}
use marchiq.Names.{Name, TopicConfig, eq_name}
use marchiq.Broker.{Group, GroupTopic}
use marchiq.Log.Tests.{two_records, stored_records, two_records-IsValid, two_records_range}
use marchiq.Log.Append.{
  append, append_encoded, append_frame, make_room, roll_locked, index_next, write_frame, sync_frame,
  publish,
}
use marchiq.Codec.{encode_record}
use marchiq.Index.{encode_index_entry}
use marchiq.BigEndian.{put_uint}
use marchiq.Log.Read.{read_from, earliest_of}
use marchiq.Log.View.{Full}
use marchiq.Retention.{
  RetentionIo, removed, cutoff, retention_clamps, enforce_retention, doomed, expired, oversize,
  delete_loop, finish_pass,
}
use marchiq.Retention.Keeps.{Trimmed, enforce_retention-Trimmed, read_from-enforce_retention}
use marchiq.Retention.Clamps.{uncommitted_from, enforce_retention-spares_groups}

-- Every file is old, and every call succeeds.
abbrev old_files : RetentionIo
old_files = record {
  mtime = λ base. some (pos 0);
  remove_log = λ base. removed;
  remove_index = λ base. removed;
  close_segment = λ base. true;
  sync_dir = true;
}

abbrev by_age_only : TopicConfig
by_age_only = record {
  name = b'a' ∷ [];
  partitions = pos 1;
  retention_ms = pos 1;
  retention_bytes = pos 0;
}

-- The group has committed offset 0.
abbrev reader : GroupTopic
reader = record { size = 1; members = (b'm' ∷ []) ∷ []; offsets = (0, 0) ∷ [] }

abbrev readers : List (Name × Group)
readers = ((b'g' ∷ []), record { name = b'g' ∷ []; topics = ((b'a' ∷ []), reader) ∷ [] }) ∷ []

two_records-Full : Full two_records.sealed
unfolding append append_encoded append_frame make_room roll_locked index_next write_frame sync_frame
    publish encode_record encode_index_entry put_uint
two_records-Full = (omega arith, tt)

first_deleted :
    earliest_of (enforce_retention old_files (pos 2000000) by_age_only 1 true two_records).1 ≡ 1
unfolding enforce_retention doomed expired oversize delete_loop finish_pass cutoff append
    append_encoded append_frame make_room roll_locked index_next write_frame sync_frame publish
    encode_record encode_index_entry put_uint
first_deleted = refl

-- 9223372036855 ms are more nanoseconds than an `int64` holds: the cutoff lies in the future.
cutoff_wraps :
    ltb_int (pos 1700000000000000000) (cutoff (pos 1700000000000000000) (pos 9223372036855)) ≡ true
unfolding cutoff
cutoff_wraps = refl

enforce_retention-Trimmed_example :
    Trimmed two_records stored_records 1
      (enforce_retention old_files (pos 2000000) by_age_only 1 true two_records).1
enforce_retention-Trimmed_example =
    enforce_retention-Trimmed old_files (pos 2000000) by_age_only 1 true two_records stored_records
      1 two_records-IsValid two_records-Full (inl (refl, omega arith))

read_from-enforce_retention_example :
    read_from
      (enforce_retention old_files (pos 2000000) by_age_only 1 true two_records).1
      (pos 1)
      (pos 10)
      (pos 100)
    ≡ read_from two_records (pos 1) (pos 10) (pos 100)
read_from-enforce_retention_example =
    read_from-enforce_retention old_files (pos 2000000) by_age_only 1 two_records stored_records 1
      10 100 two_records-IsValid two_records-Full two_records_range.0 (omega arith) (omega arith)
      (omega arith) (omega (arith, two_records_range)) (omega (arith, first_deleted))
      (omega (arith, two_records_range))

enforce_retention-spares_groups_example :
    Trimmed two_records stored_records
      (uncommitted_from (get ◌==◌ 0 reader.offsets))
      (enforce_retention old_files
        (pos 2000000)
        by_age_only
        (get_or (retention_clamps readers (b'a' ∷ []) 1).0 0 0)
        (retention_clamps readers (b'a' ∷ []) 1).1
        two_records).1
unfolding eq_name
enforce_retention-spares_groups_example =
    enforce_retention-spares_groups old_files (pos 2000000) by_age_only readers (b'a' ∷ []) reader 1
      0 two_records stored_records (omega arith) (inl refl) two_records-IsValid two_records-Full
