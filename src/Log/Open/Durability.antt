-- ===== src/Log/Open/Durability.antt =====
-- A record that was acknowledged with `acks=1` survives a crash.
use marchiq.Base.{
  refl, Bool, true, if◌then◌else◌, All, ℕ, ◌≤◌, ◌≡◌, ap, ◌∙◌, false, List, [], ◌∷◌, length, Result,
  ok, arith,
}
use mathlib.Core.Path.{subst}
use marchiq.Codec.{Record}
use marchiq.Log.{PartitionLog, Segment}
use marchiq.Log.View.{IsValid, contents}
use marchiq.Log.Append.Names.{Named}
use marchiq.Log.Open.{OpenIo, DiskSegment, open_partition}
use marchiq.Log.Open.Surviving.{surviving_all}
use marchiq.Log.Open.Crash.{AllWell}
use marchiq.Log.Open.Reopen.{
  image, image_first, image_rest, disk_of, Recoverable, open_partition_crash,
}

-- What opening after a crash gives, where no record of `all` was lost.
abbrev pub Restored : Result PartitionLog → List Record → Type 0
Restored res all =
    (q : PartitionLog) × (res ≡ ok q) × IsValid q all × Recoverable q × (q.failed ≡ false)

pub open_partition-Restored :
    (io : ℕ → OpenIo) (p : PartitionLog) (all : List Record) (k max_segment_bytes interval : ℕ)
    → ((base : ℕ) → AllWell (io base))
    → IsValid p all
    → p.failed ≡ false
    → Recoverable p
    → length p.active.file.bytes ≤ k
    → Restored (open_partition io (image p k) max_segment_bytes interval) all
open_partition-Restored io p all k max interval w v nf r le =
    let (rss, rs, l, same) = v.holds in
    let (q, e, vq, rq, fq, cq) =
      open_partition_crash io p rss rs k max interval w l (v.clean nf) r in
    let kept = surviving_all k rs (omega (arith, l.current.sized, v.clean nf)) in
    (q, e, subst (IsValid q) (ap (contents rss) kept ∙ same) vq, rq, fq)

-- The files that a directory holds after a crash, each with whether its name is sure to be there.
abbrev named_files : List Segment → ℕ → Segment → List (Bool × DiskSegment)
named_files [] k a = (a.named, image_first [] k a) ∷ []
named_files (s ∷ ss) k a = (s.named, disk_of s s.file.bytes) ∷ named_files ss k a

abbrev only_named : List (Bool × DiskSegment) → List DiskSegment
only_named [] = []
only_named ((n, d) ∷ ds) = let rest = only_named ds in if n then d ∷ rest else rest

-- What a crash may leave of a partition: the first `k` bytes of the active segment's log, the whole
-- logs of the sealed segments, and of all these only the ones whose names were made durable.
abbrev pub crash_image : PartitionLog → ℕ → List DiskSegment
crash_image p k = only_named (named_files p.sealed k p.active)

crash_image-Named : (p : PartitionLog) (k : ℕ) → Named p → crash_image p k ≡ image p k
crash_image-Named p k (h, last, _) = all_named p.sealed p.active h last
  where
    all_named :
        (ss : List Segment) (a : Segment)
        → All (λ s. s.named ≡ true) ss
        → a.named ≡ true
        → only_named (named_files ss k a) ≡ image_first ss k a ∷ image_rest ss k a
    all_named [] a h last = rw (last) refl
    all_named (s ∷ ss) a h last =
        rw (h.0) (ap (λ l. disk_of s s.file.bytes ∷ l) (all_named ss a h.1 last))

-- The directory after a crash. `back` is what of the deleted files comes back, where it can: it may
-- be anything.
abbrev pub crash_disk : PartitionLog → ℕ → (List DiskSegment → List DiskSegment) → List DiskSegment
crash_disk p k back = if p.unsynced_deletion then back (crash_image p k) else crash_image p k

pub crash_disk-Named :
    (p : PartitionLog) (k : ℕ) (back : List DiskSegment → List DiskSegment)
    → Named p
    → crash_disk p k back ≡ image p k
crash_disk-Named p k back h = rw (h.2) (crash_image-Named p k h)
