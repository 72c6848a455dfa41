-- ===== src/Log/Listing/Found.antt =====
-- The files that a partition has made are found again by their names.
use marchiq.Base.{
  ℕ, zero, suc, ◌-◌, ◌^◌, ◌<◌, ◌≡◌, ◌≢◌, refl, ap, ◌∙◌, pos, ltb_int, true, false, List, [], ◌∷◌,
  ◌++◌, map, length, length-append, All, none, some, Bool-cases, inl, inr, ok, ◌>>=◌, arith,
}
use marchiq.Names.{Name, eq_name, eq_name→≡, decimal}
use marchiq.Sorting.{sort}
use marchiq.Strconv.{parse_digits, parse_int, signed}
use marchiq.Strconv.RoundTrip.{parse_digits-decimal, parse_int-format_int}
use marchiq.Log.Listing.{
  DirEntry, log_suffix, index_suffix, zeros, padded, segment_name, index_name, before, behind_byte,
  with_base, with_name, list_loop, list_segment_bases,
}

-- Names of different lengths differ.
longer : (a b : Name) → length a ≢ length b → eq_name a b ≡ false
longer a b h = elim (Bool-cases (eq_name a b)) [
  | inl e ↦ absurd (h (ap length (eq_name→≡ a b e)))
  | inr e ↦ e
]

before-append : (s : Name) → before log_suffix (s ++ log_suffix) ≡ some s
unfolding eq_name
before-append [] = refl
before-append (b ∷ bs) =
    rw
      (longer (b ∷ bs ++ log_suffix) log_suffix
        (λ e. absurd (omega (arith, e, length-append bs log_suffix))))
      (ap (behind_byte b) (before-append bs))

before_index : (s : Name) → before log_suffix (s ++ index_suffix) ≡ none
unfolding eq_name
before_index [] = refl
before_index (b ∷ bs) =
    rw
      (longer (b ∷ bs ++ index_suffix) log_suffix
        (λ e. absurd (omega (arith, e, length-append bs index_suffix))))
      (ap (behind_byte b) (before_index bs))

parse_digits-zeros : (k : ℕ) (s : Name) → parse_digits 0 (zeros k s) ≡ parse_digits 0 s
parse_digits-zeros zero s = refl
parse_digits-zeros (suc k) s = parse_digits-zeros k s

parse_int-padded : (n : ℕ) → n < 2 ^ 63 → parse_int (padded n) ≡ some (pos n)
unfolding parse_int
parse_int-padded n h = width (20 - length (decimal n))
  where
    width : (k : ℕ) → parse_int (zeros k (decimal n)) ≡ some (pos n)
    width zero = parse_int-format_int (pos n) h
    width (suc k) =
        ap (signed false) (parse_digits-zeros k (decimal n) ∙ parse_digits-decimal n)
        ∙ ground (arith, h)

-- A file of the segment that begins at a base offset.
pub data SegmentFile : Type 0 where
  log_of index_of : ℕ → SegmentFile

abbrev pub entry_of : SegmentFile → DirEntry
entry_of (log_of b) = record { name = segment_name b; is_dir = false }
entry_of (index_of b) = record { name = index_name b; is_dir = false }

-- The base offsets of the logs among the files.
abbrev pub log_bases : List SegmentFile → List ℕ
log_bases [] = []
log_bases (log_of b ∷ fs) = b ∷ log_bases fs
log_bases (index_of b ∷ fs) = log_bases fs

list_loop-map :
    (fs : List SegmentFile)
    → All (λ b. b < 2 ^ 63) (log_bases fs)
    → list_loop (map entry_of fs) ≡ ok (map pos (log_bases fs))
unfolding list_loop
list_loop-map [] h = refl
list_loop-map (log_of b ∷ fs) h =
    ap (λ o. with_name o (list_loop (map entry_of fs))) (before-append (padded b))
    ∙ ap (λ i. with_base i (list_loop (map entry_of fs))) (parse_int-padded b h.0)
    ∙ ap (with_base (some (pos b))) (list_loop-map fs h.1)
list_loop-map (index_of b ∷ fs) h =
    ap (λ o. with_name o (list_loop (map entry_of fs))) (before_index (padded b))
    ∙ list_loop-map fs h

-- In a directory of logs and index files of segments, with those names and in whatever order they
-- are listed, `listSegmentBases` finds the base offset of every log, in ascending order, and passes
-- over the index files. (The base offsets are `int64` values.)
pub list_segment_bases-files :
    (files : List SegmentFile)
    → All (λ b. b < 2 ^ 63) (log_bases files)
    → list_segment_bases true (map entry_of files) ≡ ok (sort ltb_int (map pos (log_bases files)))
unfolding list_segment_bases
list_segment_bases-files files h =
    ap (λ r. r >>= λ bs. ok (sort ltb_int bs)) (list_loop-map files h)
