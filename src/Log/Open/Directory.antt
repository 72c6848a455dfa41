-- ===== src/Log/Open/Directory.antt =====
-- storage/partition_log.go: `openPartition` from the listing of its directory on.
use marchiq.Base.{
  ℕ, ℤ, pos, negsuc, ltb_int, Bool, true, List, [], ◌∷◌, map, refl, ap, ◌∙◌, ◌≡◌, ◌<◌, ◌^◌, All,
  stuck, Result, ok, err, ◌>>=◌,
}
use marchiq.Sorting.{sort}
use marchiq.Log.{PartitionLog}
use marchiq.Log.Listing.{DirEntry, list_segment_bases}
use marchiq.Log.Listing.Found.{SegmentFile, entry_of, log_bases, list_segment_bases-files}
use marchiq.Log.Open.{OpenIo, DiskSegment, open_partition}

-- The files at the bases that were listed. The model has no segment that begins below 0.
abbrev at_bases : (ℕ → DiskSegment) → List ℤ → Result (List DiskSegment)
at_bases disk [] = ok []
at_bases disk (negsuc n ∷ bases) = err stuck
at_bases disk (pos n ∷ bases) = do ds ← at_bases disk bases; ok (disk n ∷ ds)

-- `readable` tells whether the directory can be read, and `disk` what its files hold.
open_directory :
    (ℕ → OpenIo) → Bool → List DirEntry → (ℕ → DiskSegment) → ℕ → ℕ → Result PartitionLog
open_directory io readable entries disk max_segment_bytes interval = do
  bases ← list_segment_bases readable entries
  ds ← at_bases disk bases
  open_partition io ds max_segment_bytes interval

at_bases-map :
    (disk : ℕ → DiskSegment) (bases : List ℕ) → at_bases disk (map pos bases) ≡ ok (map disk bases)
at_bases-map disk [] = refl
at_bases-map disk (b ∷ bases) = ap (λ r. r >>= λ ds. ok (disk b ∷ ds)) (at_bases-map disk bases)

-- A directory of segment files, in whatever order they are listed, is opened from the lowest base
-- to the highest.
open_directory-files :
    (io : ℕ → OpenIo) (files : List SegmentFile) (bases : List ℕ) (disk : ℕ → DiskSegment)
    (max_segment_bytes interval : ℕ)
    → All (λ b. b < 2 ^ 63) (log_bases files)
    → sort ltb_int (map pos (log_bases files)) ≡ map pos bases
    → open_directory io true (map entry_of files) disk max_segment_bytes interval
      ≡ open_partition io (map disk bases) max_segment_bytes interval
unfolding open_directory
open_directory-files io files bases disk max interval h same =
    ap (λ r. r >>= λ bs. at_bases disk bs >>= λ ds. open_partition io ds max interval)
      (list_segment_bases-files files h ∙ ap ok same)
    ∙ ap (λ r. r >>= λ ds. open_partition io ds max interval) (at_bases-map disk bases)
