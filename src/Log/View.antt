-- ===== src/Log/View.antt =====
-- What a partition holds: the records whose frames its files store, segment by segment.
use marchiq.Base.{
  Bool, none, ℕ, suc, ◌+◌, ◌≤◌, ◌<◌, ◌≡◌, refl, ap, ◌∙◌, sym, false, List, [], ◌∷◌, ◌++◌,
  append_assoc, length, take, take-append_le, length-take, All, IsInt64, arith,
}
use marchiq.Codec.{Record, frame_of, max_record_bytes}
use marchiq.Codec.RoundTrip.{frame_length}
use marchiq.Index.{IndexEntry}
use marchiq.Log.{File, Segment, PartitionLog, segments}

abbrev pub frames : List Record → List ℕ
frames [] = []
frames (r ∷ rs) = frame_of r ++ frames rs

pub frames-append : (rs qs : List Record) → frames (rs ++ qs) ≡ frames rs ++ frames qs
frames-append [] qs = refl
frames-append (r ∷ rs) qs =
    ap (λ l. frame_of r ++ l) (frames-append rs qs)
    ∙ sym (append_assoc (frame_of r) (frames rs) (frames qs))

-- A record that has a frame.
abbrev pub Fits : Record → Type 0
Fits r = (frame_length r ≤ max_record_bytes) × IsInt64 r.timestamp_ns

-- The records have the offsets `base`, `base + 1`, and so on.
abbrev pub Numbered : ℕ → List Record → Type 0
Numbered base [] = Unit
Numbered base (r ∷ rs) = (r.offset ≡ base) × Numbered (suc base) rs

-- The entry names a record of the segment, or its end, and where that one's frame begins.
abbrev pub IndexesInto : List Record → IndexEntry → Type 0
IndexesInto rs e =
    (e.rel_offset ≤ length rs) × (e.position ≡ length (frames (take e.rel_offset rs)))

-- The segment stores the records `rs`. Behind `size_bytes` its file may hold what a failed write
-- has left. Its log is read without I/O errors.
pub record IsSegment (s : Segment) (rs : List Record) : Type 0 where
  pub counted : s.records ≡ length rs
  pub sized : s.size_bytes ≡ length (frames rs)
  pub stored : take s.size_bytes s.file.bytes ≡ frames rs
  pub numbered : Numbered s.base_offset rs
  pub fits : All Fits rs
  pub indexed : All (IndexesInto rs) s.index
  pub readable : s.read_limit ≡ none

abbrev pub Holds : List Segment → List (List Record) → Type 0
Holds [] [] = Unit
Holds (s ∷ ss) (rs ∷ rss) = IsSegment s rs × Holds ss rss
Holds [] (rs ∷ rss) = ⊥
Holds (s ∷ ss) [] = ⊥

-- The segments' offset ranges follow one another, with gaps where segments were deleted.
abbrev pub Ascending : ℕ → List Segment → Type 0
Ascending low [] = Unit
Ascending low (s ∷ ss) = (low ≤ s.base_offset) × Ascending (s.base_offset + s.records) ss

-- Every segment holds a record.
abbrev pub Full : List Segment → Type 0
Full ss = All (λ s. 0 < s.records) ss

abbrev pub flatten : List (List Record) → List Record
flatten [] = []
flatten (rs ∷ rss) = rs ++ flatten rss

-- `rss` are the records of the sealed segments and `rs` those of the active one.
pub record IsLog (p : PartitionLog) (rss : List (List Record)) (rs : List Record) : Type 0 where
  pub old : Holds p.sealed rss
  pub current : IsSegment p.active rs
  pub ascending : Ascending 0 (segments p)
  pub next : p.next_offset ≡ p.active.base_offset + p.active.records

-- The abstract log: all records, oldest first.
abbrev pub contents : List (List Record) → List Record → List Record
contents rss rs = flatten rss ++ rs

-- `p` holds the records `all`, in some division into segments.
abbrev pub Contains : PartitionLog → List Record → Type 0
Contains p all =
    (rss : List (List Record)) × (rs : List Record) × IsLog p rss rs × (contents rss rs ≡ all)

-- Nothing stands behind the published bytes of the active segment.
abbrev pub IsClean : PartitionLog → Type 0
IsClean p = length p.active.file.bytes ≡ p.active.size_bytes

-- A partition between two operations: a partial frame is left behind only when it is fenced.
pub record IsValid (p : PartitionLog) (all : List Record) : Type 0 where
  pub holds : Contains p all
  pub clean : p.failed ≡ false → IsClean p

module _ (s : Segment) (rs : List Record) (h : IsSegment s rs) where
  pub size_bytes-le : s.size_bytes ≤ length s.file.bytes
  size_bytes-le = omega (arith, h.sized, ap length h.stored, length-take s.size_bytes s.file.bytes)

  -- What is written behind the published bytes does not change the segment.
  pub IsSegment-write :
      (f : File) (x : File) (more : List ℕ)
      → f.bytes ≡ s.file.bytes ++ more
      → IsSegment (record s { file = f; index_file = x }) rs
  IsSegment-write f x more e = record {
    counted = h.counted;
    sized = h.sized;
    stored = rw (e, take-append_le s.size_bytes s.file.bytes more size_bytes-le) h.stored;
    numbered = h.numbered;
    fits = h.fits;
    indexed = h.indexed;
    readable = h.readable;
  }

-- Its name does not matter for what a segment holds.
pub IsSegment-named :
    (s : Segment) (rs : List Record) (b : Bool)
    → IsSegment s rs
    → IsSegment (record s { named = b }) rs
IsSegment-named s rs b h = record {
  counted = h.counted;
  sized = h.sized;
  stored = h.stored;
  numbered = h.numbered;
  fits = h.fits;
  indexed = h.indexed;
  readable = h.readable;
}

-- The file of a sealed segment holds its frames and nothing else, and all of it is durable.
abbrev pub IsSealed : Segment → Type 0
IsSealed s =
    (0 < s.records) × (length s.file.bytes ≡ s.size_bytes) × (s.file.synced ≡ length s.file.bytes)
