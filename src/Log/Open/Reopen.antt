-- ===== src/Log/Open/Reopen.antt =====
-- Opening a partition after a crash.
use marchiq.Base.{
  ℕ, ◌+◌, ◌≤◌, ◌≡◌, refl, ap, ◌∙◌, sym, false, List, [], ◌∷◌, ◌++◌, length, take, take_all, All,
  Result, ok, ◌>>=◌, >>=-ok, arith,
}
use mathlib.Core.Path.{subst}
use marchiq.Codec.{Record}
use marchiq.Log.{File, Segment, PartitionLog}
use marchiq.Log.View.{
  IsClean, frames, IsSegment, Holds, Ascending, IsLog, contents, IsValid, IsSealed,
}
use marchiq.Log.Open.{OpenIo, DiskSegment, open_segment, open_segments, open_partition}
use marchiq.Log.Open.Surviving.{surviving}
use marchiq.Log.Open.Crash.{AllWell, Reopened, open_segment-Reopened}
use marchiq.Log.Open.Whole.{open_segment_whole}

-- A file after a crash: what is there is durable.
abbrev pub persisted : List ℕ → File
persisted bytes = record { bytes = bytes; synced = length bytes }

abbrev pub disk_of : Segment → List ℕ → DiskSegment
disk_of s bytes = record {
  base_offset = s.base_offset;
  log = persisted bytes;
  index = s.index_file;
}

-- The files of a partition after a crash: the sealed segments are as they were, and of the log of
-- the active one there are the first `k` bytes. `image_first` is the first segment.
abbrev pub image_first : List Segment → ℕ → Segment → DiskSegment
image_first [] k a = disk_of a (take k a.file.bytes)
image_first (s ∷ ss) k a = disk_of s s.file.bytes

abbrev pub image_rest : List Segment → ℕ → Segment → List DiskSegment
image_rest [] k a = []
image_rest (s ∷ ss) k a = image_first ss k a ∷ image_rest ss k a

abbrev pub image : PartitionLog → ℕ → List DiskSegment
image p k = image_first p.sealed k p.active ∷ image_rest p.sealed k p.active

-- The file holds the frames of the records and nothing else.
whole_frames :
    (s : Segment) (rs : List Record)
    → IsSegment s rs
    → length s.file.bytes ≡ s.size_bytes
    → s.file.bytes ≡ frames rs
whole_frames s rs h e = sym (take_all s.file.bytes s.size_bytes (omega (arith, e))) ∙ h.stored

-- The reopened segments, in the place of `ss` and `a`.
record Reopening (rss : List (List Record)) (rs : List Record) (low : ℕ) (a : Segment)
    (x : List Segment × Segment) : Type 0 where
  holds : Holds x.0 rss
  sealed : All IsSealed x.0
  ascending : Ascending low (x.0 ++ (x.1 ∷ []))
  last : Reopened (disk_of a (frames rs)) rs x.1

abbrev Reopens :
    Result (List Segment × Segment) → List (List Record) → List Record → ℕ → Segment → Type 0
Reopens res rss rs low a = (x : List Segment × Segment) × (res ≡ ok x) × Reopening rss rs low a x

module _ (io : ℕ → OpenIo) (well : (base : ℕ) → AllWell (io base)) (interval k : ℕ) (a : Segment)
    (rs : List Record) (ha : IsSegment a rs) (ca : length a.file.bytes ≡ a.size_bytes) where
  open_active-Reopens :
      (low : ℕ)
      → low ≤ a.base_offset
      → Reopens (open_segments io (image_first [] k a) [] interval) [] (surviving k rs) low a
  unfolding open_segments
  open_active-Reopens low le =
      let (s, e, h) =
        open_segment-Reopened (io a.base_offset) (image_first [] k a) interval k rs
          (well a.base_offset) (ap (take k) (whole_frames a rs ha ca)) ha.numbered ha.fits in
      (
        ([], s),
        ap (λ r. r >>= λ x. ok ([], x)) e,
        record {
          holds = tt;
          sealed = tt;
          ascending = (omega (arith, le, h.base), tt);
          last = record {
            segment = h.segment;
            bytes = h.bytes;
            base = h.base;
            durable = λ _. h.durable refl;
          };
        },
      )

  open_segments-Reopens :
      (ss : List Segment) (rss : List (List Record)) (low : ℕ)
      → Holds ss rss
      → All IsSealed ss
      → Ascending low (ss ++ (a ∷ []))
      → Reopens
          (open_segments io (image_first ss k a) (image_rest ss k a) interval)
          rss
          (surviving k rs)
          low
          a
  unfolding open_segments
  open_segments-Reopens [] [] low g h asc = open_active-Reopens low asc.0
  open_segments-Reopens [] (x ∷ rss) low g h asc = absurd g
  open_segments-Reopens (s ∷ ss) [] low g h asc = absurd g
  open_segments-Reopens (s ∷ ss) (qs ∷ rss) low g h asc =
      let d = disk_of s s.file.bytes in
      let (s', e, r) =
        open_segment_whole (io s.base_offset) d interval qs (well s.base_offset)
          (whole_frames s qs g.0 h.0.1) g.0.numbered g.0.fits in
      let (x, es, t) = open_segments-Reopens ss rss (s.base_offset + s.records) g.1 h.1 asc.1 in
      (
        (s' ∷ x.0, x.1),
        >>=-ok (open_segment (io s.base_offset) d false interval) _ s' _ e (
            >>=-ok (open_segments io (image_first ss k a) (image_rest ss k a) interval) _ x _ es
              refl),
        record {
          holds = (r.segment, t.holds);
          sealed = (
            (
              omega (arith, r.segment.counted, g.0.counted, h.0.0),
              omega (arith, r.segment.sized, ap length r.bytes),
              r.durable refl,
            ),
            t.sealed,
          );
          ascending = (
            omega (arith, asc.0, r.base),
            subst (λ b. Ascending b (x.0 ++ (x.1 ∷ [])))
                (omega (arith, r.base, r.segment.counted, g.0.counted)) t.ascending,
          );
          last = t.last;
        },
      )

-- What a partition needs to come back from a crash: sealed segments are whole and durable.
abbrev pub Recoverable : PartitionLog → Type 0
Recoverable p = All IsSealed p.sealed

-- After a crash of a valid partition that was not fenced, whose sealed segments are whole and
-- durable: whatever number `k` of bytes is left of the active segment, and if all calls succeed,
-- `openPartition` finds all records of the sealed segments and those of the active one whose frames
-- are whole within the `k` bytes. The reopened partition is valid again, open, not fenced, and can
-- come back from the next crash.
pub open_partition_crash :
    (io : ℕ → OpenIo) (p : PartitionLog) (rss : List (List Record)) (rs : List Record)
    (k max_segment_bytes interval : ℕ)
    → ((base : ℕ) → AllWell (io base))
    → IsLog p rss rs
    → IsClean p
    → Recoverable p
    → (q : PartitionLog) × (open_partition io (image p k) max_segment_bytes interval ≡ ok q)
      × IsValid q (contents rss (surviving k rs))
      × Recoverable q
      × (q.failed ≡ false)
      × (q.closed ≡ false)
unfolding open_partition
open_partition_crash io p rss rs k max interval well l clean r =
    let (x, e, t) =
      open_segments-Reopens io well interval k p.active rs l.current clean p.sealed rss 0 l.old r
        l.ascending in
    (
      record {
        next_offset = x.1.base_offset + x.1.records;
        sealed = x.0;
        active = x.1;
        failed = false;
        closed = false;
        max_segment_bytes = max;
        index_interval_bytes = interval;
        unsynced_deletion = false;
      },
      >>=-ok
          (open_segments io (image_first p.sealed k p.active) (image_rest p.sealed k p.active)
            interval)
          _ x _ e refl,
      record {
        holds = (
          rss,
          surviving k rs,
          record { old = t.holds; current = t.last.segment; ascending = t.ascending; next = refl },
          refl,
        );
        clean = λ _. omega (arith, t.last.segment.sized, ap length t.last.bytes);
      },
      t.sealed,
      refl,
      refl,
    )
