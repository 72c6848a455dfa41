-- ===== src/Log/Append.antt =====
-- storage/partition_log.go: `Append` and `rollLocked`. What the operating system answers to the
-- calls of one `Append` is an argument.
pub mod Stages
pub mod Written
pub mod Refines
pub mod Sealing
pub mod Durable
pub mod Names
pub mod ReadBack
use marchiq.Base.{
  ℕ, ◌+◌, ◌-◌, ℤ, Bool, true, false, ◌&&◌, ◌||◌, not, List, [], ◌∷◌, ◌++◌, length, ltb, leb, ◌==◌,
  if◌then◌else◌, max_int64, eq_int, pos, Error, closed, partition_fenced, result_uncertain, other,
  Result, ok, err,
}
use marchiq.Codec.{Record, encode_record}
use marchiq.Index.{IndexEntry, encode_index_entry}
use marchiq.Log.{File, write_file, sync_file, Segment, new_segment, PartitionLog}

-- The clock, and for each call whether it succeeds; of a `Write` also how many bytes it took.
pub record AppendIo : Type 0 where
  pub now : ℤ
  pub seal_sync : Bool
  pub seal_index_sync : Bool
  pub create_segment : Bool
  pub create_index : Bool
  pub sync_segment : Bool
  pub sync_dir : Bool
  pub index_write : Bool
  pub index_written : ℕ
  pub frame_write : Bool
  pub frame_written : ℕ
  pub frame_sync : Bool
  pub index_sync : Bool

abbrev pub acks_none : ℤ
acks_none = pos 0

abbrev pub acks_leader : ℤ
acks_leader = pos 1

-- The new state, and whether the operation went well.
abbrev pub Outcome : Type 0
Outcome = Bool × PartitionLog

abbrev pub fence : PartitionLog → PartitionLog
fence p = record p { failed = true }

-- The old files are synced before the new ones are made. The name of the new log is sure to survive
-- only when the directory is synced, and that settles what was deleted there before.
unfoldable pub roll_locked : AppendIo → PartitionLog → Outcome
roll_locked io p =
    let old = p.active in
    let synced = record old { file = sync_file old.file } in
    let sealed = record synced { index_file = sync_file old.index_file } in
    if not io.seal_sync
    then (false, p)
    else if not io.seal_index_sync
    then (false, record p { active = synced })
    else if not (io.create_segment && (io.create_index && (io.sync_segment && io.sync_dir)))
    then (false, record p { active = sealed })
    else (
      true,
      record p {
        sealed = p.sealed ++ (sealed ∷ []);
        active = record (new_segment p.next_offset) { named = io.sync_dir };
        unsynced_deletion = p.unsynced_deletion && not io.sync_dir;
      },
    )

-- An index entry for the next frame, if it is the segment's first or the last entry is
-- `indexIntervalBytes` behind.
unfoldable pub index_next : AppendIo → PartitionLog → Outcome
index_next io p =
    let seg = p.active in
    let entry : IndexEntry = record { rel_offset = seg.records; position = seg.size_bytes } in
    let file = write_file seg.index_file (encode_index_entry entry) io.index_written in
    if seg.records == 0 || leb p.index_interval_bytes (seg.size_bytes - seg.last_indexed_pos)
    then (if not io.index_write
        then (false, record p { active = record seg { index_file = file } })
        else (
          true,
          record p {
            active = record seg {
              index_file = file;
              index = seg.index ++ (entry ∷ []);
              last_indexed_pos = seg.size_bytes;
            };
          },
        ))
    else (true, p)

unfoldable pub write_frame : AppendIo → List ℕ → PartitionLog → Outcome
write_frame io frame p =
    let seg = p.active in
    (
      io.frame_write && io.frame_written == length frame,
      record p { active = record seg { file = write_file seg.file frame io.frame_written } },
    )

unfoldable pub sync_frame : AppendIo → ℤ → PartitionLog → Outcome
sync_frame io acks p =
    let seg = p.active in
    let synced = record seg { file = sync_file seg.file } in
    if not (eq_int acks acks_leader)
    then (true, p)
    else if not io.frame_sync
    then (false, p)
    else if not io.index_sync
    then (false, record p { active = synced })
    else (true, record p { active = record synced { index_file = sync_file seg.index_file } })

unfoldable pub publish : List ℕ → PartitionLog → PartitionLog
publish frame p =
    let seg = p.active in
    record p {
      active = record seg { size_bytes = seg.size_bytes + length frame; records = seg.records + 1 };
      next_offset = p.next_offset + 1;
    }

-- The next step where the last went well, and a fenced partition otherwise.
abbrev pub and_then : Outcome → (PartitionLog → Outcome) → Outcome
and_then (true, p) next = next p
and_then (false, p) next = (false, p)

-- The roll, if the frame would not fit an active segment that holds a record.
unfoldable pub make_room : AppendIo → List ℕ → PartitionLog → Outcome
unfolding roll_locked
make_room io frame p =
    if ltb 0 p.active.records && ltb p.max_segment_bytes (p.active.size_bytes + length frame)
    then roll_locked io p
    else (true, p)

unfoldable pub append_frame : AppendIo → ℤ → List ℕ → PartitionLog → Outcome
unfolding make_room index_next write_frame sync_frame
append_frame io acks frame p =
    and_then (make_room io frame p)
      λ a. and_then (index_next io a) λ b. and_then (write_frame io frame b) (sync_frame io acks)

abbrev pub settle : Record → List ℕ → Outcome → Result Record × PartitionLog
settle r frame (true, p) = (ok r, publish frame p)
settle r frame (false, p) = (err result_uncertain, fence p)

unfoldable pub append_encoded :
    AppendIo → ℤ → Record → PartitionLog → Result (List ℕ) → Result Record × PartitionLog
unfolding append_frame publish
append_encoded io acks r p (err e) = (err e, p)
append_encoded io acks r p (ok frame) = settle r frame (append_frame io acks frame p)

unfoldable pub append : AppendIo → PartitionLog → List ℕ → List ℕ → ℤ → Result Record × PartitionLog
append io p key value acks =
    let r : Record = record {
      offset = p.next_offset;
      timestamp_ns = io.now;
      key = key;
      value = value;
    } in
    if p.closed
    then (err closed, p)
    else if p.failed
    then (err partition_fenced, p)
    else if not (eq_int acks acks_none) && not (eq_int acks acks_leader)
    then (err other, p)
    else if p.next_offset == max_int64
    then (err other, p)
    else append_encoded io acks r p (encode_record r)
