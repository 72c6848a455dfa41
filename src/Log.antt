-- ===== src/Log.antt =====
-- storage/types.go: the state of one partition, `PartitionLog`, and of its segments.
pub mod View
pub mod Append
pub mod Read
pub mod Open
pub mod Listing
pub mod Tests
use marchiq.Base.{
  ltb, if◌then◌else◌, Option, none, some, ℕ, ◌+◌, Bool, true, false, List, [], ◌∷◌, ◌++◌, length,
  take, drop, ◌-◌,
}
use marchiq.Codec.{Reader}
use marchiq.Index.{IndexEntry}

-- An open file: its bytes, and how many of them a `Sync` has made durable.
pub record File : Type 0 where
  pub bytes : List ℕ
  pub synced : ℕ

abbrev pub empty_file : File
empty_file = record { bytes = []; synced = 0 }

-- `Write` of `chunk` when the system takes the first `n` bytes of it.
abbrev pub write_file : File → List ℕ → ℕ → File
write_file f chunk n = record f { bytes = f.bytes ++ take n chunk }

abbrev pub sync_file : File → File
sync_file f = record f { synced = length f.bytes }

-- `named` tells whether the name of the log in the directory is sure to survive a crash. `read_limit`
-- is where reads of the log meet an I/O error, if they do: the disk decides that.
pub record Segment : Type 0 where
  pub base_offset : ℕ
  pub file : File
  pub index_file : File
  pub size_bytes : ℕ
  pub records : ℕ
  pub index : List IndexEntry
  pub last_indexed_pos : ℕ
  pub named : Bool
  pub read_limit : Option ℕ

abbrev pub new_segment : ℕ → Segment
new_segment base = record {
  base_offset = base;
  file = empty_file;
  index_file = empty_file;
  size_bytes = 0;
  records = 0;
  index = [];
  last_indexed_pos = 0;
  named = true;
  read_limit = none;
}

-- `segments` of the source, its last element apart: that is the active segment. `failed` tells
-- whether an error is stored there. `unsynced_deletion` tells whether a crash may bring back files
-- that were deleted, as the directory was not synced since.
pub record PartitionLog : Type 0 where
  pub next_offset : ℕ
  pub sealed : List Segment
  pub active : Segment
  pub failed : Bool
  pub closed : Bool
  pub max_segment_bytes : ℕ
  pub index_interval_bytes : ℕ
  pub unsynced_deletion : Bool

abbrev pub segments : PartitionLog → List Segment
segments p = p.sealed ++ (p.active ∷ [])

-- The partition of a topic that was just created.
abbrev pub new_partition : ℕ → ℕ → PartitionLog
new_partition max_segment_bytes index_interval_bytes = record {
  next_offset = 0;
  sealed = [];
  active = new_segment 0;
  failed = false;
  closed = false;
  max_segment_bytes = max_segment_bytes;
  index_interval_bytes = index_interval_bytes;
  unsynced_deletion = false;
}

-- `io.NewSectionReader(seg.file, position, seg.sizeBytes - position)`.
abbrev pub section_reader : Segment → ℕ → Reader
section_reader s position = elim s.read_limit [
  | none ↦ record {
    avail = take (s.size_bytes - position) (drop position s.file.bytes);
    faulty = false;
  }
  | some n ↦ record {
    avail =
        take ((if ltb n s.size_bytes then n else s.size_bytes) - position)
          (drop position s.file.bytes);
    faulty = ltb n s.size_bytes;
  }
]
