-- ===== src/Retention.antt =====
-- storage/retention.go: the clamps of the consumer groups, and one retention pass over a partition.
-- What the operating system answers is an argument.
pub mod Deletion
pub mod Choice
pub mod Keeps
pub mod Clamps
pub mod Janitor
mod Tests
use marchiq.Base.{
  ltb_int, sub_nat, ℕ, zero, suc, ◌+◌, ◌-◌, ◌*◌, ◌%◌, ◌^◌, ℤ, pos, negsuc, is_positive, pos_part,
  uint64_of, int64_of, max_int64, Bool, true, false, ◌&&◌, ◌||◌, not, List, [], ◌∷◌, ◌++◌, length,
  map, Option, none, some, ltb, leb, ◌==◌, if◌then◌else◌, Error, closed, other, stuck, Result, ok,
  err, ◌>>=◌,
}
use marchiq.Names.{Name, eq_name, TopicConfig}
use marchiq.Maps.{get}
use marchiq.Log.{Segment, PartitionLog, segments}
use marchiq.Broker.{Group, GroupTopic}

-- What a group that joined the topic still needs of a partition begins here.
abbrev pub bound_of : GroupTopic → ℕ → ℕ
bound_of gt p = elim (get ◌==◌ p gt.offsets) [ none ↦ 0 | some c ↦ c + 1 ]

-- The loop over the partitions, from `p` on.
abbrev pub lower : GroupTopic → ℕ → List ℕ → List ℕ
lower gt p [] = []
lower gt p (bound ∷ bounds) =
    (if ltb (bound_of gt p) bound then bound_of gt p else bound) ∷ lower gt (suc p) bounds

-- A group that has not joined the topic is passed over.
abbrev pub lower_by : Option GroupTopic → List ℕ × Bool → List ℕ × Bool
lower_by none (bounds, clamped) = (bounds, clamped)
lower_by (some gt) (bounds, clamped) = (lower gt 0 bounds, true)

-- The loop over the groups.
abbrev pub clamp_loop : Name → List (Name × Group) → List ℕ × Bool → List ℕ × Bool
clamp_loop topic [] x = x
clamp_loop topic ((name, g) ∷ gs) x = clamp_loop topic gs (lower_by (get eq_name topic g.topics) x)

abbrev pub unclamped : ℕ → List ℕ
unclamped zero = []
unclamped (suc n) = max_int64 ∷ unclamped n

unfoldable pub retention_clamps : List (Name × Group) → Name → ℕ → List ℕ × Bool
retention_clamps groups topic partitions = clamp_loop topic groups (unclamped partitions, false)

-- What `os.Remove` answers.
pub data Removal : Type 0 where
  removed missing refused : Removal

-- Whether one of the two errors is another than "not there".
abbrev pub is_real : Removal → Bool
is_real refused = true
is_real r = false

abbrev pub first_real_error : Removal → Removal → Bool
first_real_error log_err idx_err = is_real log_err || is_real idx_err

-- The answers for the segment of a base offset. A modification time is in nanoseconds.
pub record RetentionIo : Type 0 where
  pub mtime : ℕ → Option ℤ
  pub remove_log : ℕ → Removal
  pub remove_index : ℕ → Removal
  pub close_segment : ℕ → Bool
  pub sync_dir : Bool

abbrev pub below_clamp : ℕ → Bool → Segment → Bool
below_clamp clamp clamped s = not clamped || leb (s.base_offset + s.records) clamp

-- `a + b`
abbrev pub add_int : ℤ → ℤ → ℤ
add_int (pos a) (pos b) = pos (a + b)
add_int (pos a) (negsuc b) = sub_nat a (b + 1)
add_int (negsuc a) (pos b) = sub_nat b (a + 1)
add_int (negsuc a) (negsuc b) = negsuc (a + b + 1)

-- `-time.Duration(ms) * time.Millisecond`, an `int64` that wraps around.
abbrev pub age_limit : ℤ → ℤ
age_limit ms = int64_of ((2 ^ 64 - uint64_of ms) * 1000000 % 2 ^ 64)

unfoldable pub cutoff : ℤ → ℤ → ℤ
cutoff now ms = add_int now (age_limit ms)

-- One segment, whose modification time `Stat` may fail to tell.
abbrev pub take_expired : ℤ → Segment → Option ℤ → Result (List ℕ) → Result (List ℕ)
take_expired limit s none rest = err other
take_expired limit s (some t) rest = do
  bases ← rest
  ok (if ltb_int t limit then s.base_offset ∷ bases else bases)

-- The bases of the segments that have expired, up to the first one that reaches the clamp.
unfoldable pub expired : RetentionIo → ℤ → ℕ → Bool → List Segment → Result (List ℕ)
expired io limit clamp clamped [] = ok []
expired io limit clamp clamped (s ∷ ss) =
    let rest = expired io limit clamp clamped ss in
    if not (below_clamp clamp clamped s)
    then ok []
    else take_expired limit s (io.mtime s.base_offset) rest

abbrev pub total_bytes : List Segment → ℕ
total_bytes [] = 0
total_bytes (s ∷ ss) = s.size_bytes + total_bytes ss

-- The bases of the oldest segments, until the rest fits `budget` bytes.
unfoldable pub oversize : ℕ → ℕ → Bool → ℕ → List Segment → List ℕ
oversize budget clamp clamped total [] = []
oversize budget clamp clamped total (s ∷ ss) =
    let rest = oversize budget clamp clamped (total - s.size_bytes) ss in
    if leb total budget || not (below_clamp clamp clamped s) then [] else s.base_offset ∷ rest

abbrev pub is_doomed : ℕ → List ℕ → Bool
is_doomed base [] = false
is_doomed base (b ∷ bs) = base == b || is_doomed base bs

abbrev pub by_age : RetentionIo → ℤ → TopicConfig → ℕ → Bool → List Segment → Result (List ℕ)
by_age io now cfg clamp clamped sealed =
    if is_positive cfg.retention_ms
    then expired io (cutoff now cfg.retention_ms) clamp clamped sealed
    else ok []

abbrev pub by_size : TopicConfig → ℕ → Bool → PartitionLog → List ℕ
by_size cfg clamp clamped p =
    if is_positive cfg.retention_bytes
    then oversize (pos_part cfg.retention_bytes) clamp clamped (total_bytes (segments p)) p.sealed
    else []

-- The bases of all segments to delete.
unfoldable pub doomed : RetentionIo → ℤ → TopicConfig → ℕ → Bool → PartitionLog → Result (List ℕ)
doomed io now cfg clamp clamped p = do
  old ← by_age io now cfg clamp clamped p.sealed
  ok (old ++ by_size cfg clamp clamped p)

-- A pass so far: the segments that stay, how many were deleted, and whether there was an error.
abbrev pub Pass : Type 0
Pass = List Segment × ℕ × Bool

abbrev pub keep : Segment → Bool → Pass → Pass
keep s failed (kept, n, e) = (s ∷ kept, n, failed || e)

abbrev pub drop_segment : Bool → Pass → Pass
drop_segment failed (kept, n, e) = (kept, suc n, failed || e)

-- A segment that stays because one of its two files could not be unlinked. Its log has kept the name
-- only if that was the one.
abbrev pub keeps_name : Removal → Bool → Bool
keeps_name removed named = false
keeps_name missing named = false
keeps_name refused named = named

abbrev pub half_removed : Removal → Segment → Segment
half_removed answer s = record s { named = keeps_name answer s.named }

-- The loop over the segments.
unfoldable pub delete_loop : RetentionIo → List ℕ → List Segment → Pass
delete_loop io bases [] = ([], 0, false)
delete_loop io bases (s ∷ ss) =
    let rest = delete_loop io bases ss in
    let base = s.base_offset in
    if not (is_doomed base bases)
    then keep s false rest
    else if first_real_error (io.remove_log base) (io.remove_index base)
    then keep (half_removed (io.remove_log base) s) true rest
    else drop_segment (not (io.close_segment base)) rest

-- The last of the segments is the active one. The source would go on with none; the model has no
-- such partition.
abbrev pub split_last : List Segment → Option (List Segment × Segment)
split_last [] = none
split_last (s ∷ ss) = elim (split_last ss) [
  | none ↦ some ([], s)
  | some (old, active) ↦ some (s ∷ old, active)
]

-- How many segments were deleted, and whether there was an error beside.
unfoldable pub finish_pass : RetentionIo → PartitionLog → Pass → Result (ℕ × Bool) × PartitionLog
finish_pass io p (kept, n, failed) = elim (split_last kept) [
  | none ↦ (err stuck, p)
  | some (old, active) ↦ (
    ok (n, failed || (ltb 0 n && not io.sync_dir)),
    record p {
      sealed = old;
      active = active;
      unsynced_deletion = if ltb 0 n then not io.sync_dir else p.unsynced_deletion;
    },
  )
]

abbrev pub delete_doomed :
    RetentionIo → PartitionLog → Result (List ℕ) → Result (ℕ × Bool) × PartitionLog
delete_doomed io p (err e) = (err e, p)
delete_doomed io p (ok []) = (ok (0, false), p)
delete_doomed io p (ok (base ∷ bases)) =
    finish_pass io p (delete_loop io (base ∷ bases) (segments p))

unfoldable pub enforce_retention :
    RetentionIo → ℤ → TopicConfig → ℕ → Bool → PartitionLog → Result (ℕ × Bool) × PartitionLog
enforce_retention io now cfg clamp clamped p =
    if p.closed
    then (err closed, p)
    else if p.failed
    then (ok (0, false), p)
    else delete_doomed io p (doomed io now cfg clamp clamped p)
