-- ===== src/Log/Read/Range.antt =====
-- `ReadFrom` returns the longest run of records from the given offset on that its budget allows.
use mathlib.Core.Path.{ap₂, subst}
use native.Mathlib.Nat.{le_trans, sub-zero}
use marchiq.Base.{
  ℕ, zero, suc, ◌+◌, ◌-◌, ◌≤◌, ◌<◌, ◌≡◌, refl, ap, ◌∙◌, sym, true, false, List, [], ◌∷◌, ◌++◌,
  append_assoc, length, length-append, take, drop, get_or, All, All-append, ok, err, ltb, arith,
  Bool-cases, inl, inr, take_all, ltb→le, ◌||◌, ℤ, pos, negsuc, ◌↔◌, Error, offset_out_of_range,
}
use marchiq.Codec.{Record}
use marchiq.Search.{search_first-IsEdge, IsEdge}
use marchiq.Log.{Segment, new_segment, PartitionLog, segments}
use marchiq.Log.View.{IsSegment, Holds, Ascending, flatten, IsLog, contents, IsValid}
use marchiq.Log.Append.Stages.{Holds-append, flatten-append}
use marchiq.Log.Read.{
  Budget, read_segments, read_in_range, read_from, first_segment, earliest_of, InRange,
}
use marchiq.Log.Read.Select.{select, select-skip, settle_read}
use marchiq.Log.Read.Limits.{from_offset, within_budget, within_budget_nil, select-within_budget}
use marchiq.Log.Read.Segments.{read_segments-select, Numbered-below}

abbrev nth : List Segment → ℕ → Segment
nth ss i = get_or ss i (new_segment 0)

low-le_end :
    (ss : List Segment) (low k : ℕ)
    → Ascending low ss
    → k < length ss
    → low ≤ (nth ss k).base_offset + (nth ss k).records
low-le_end [] low k h lt = absurd (omega arith)
low-le_end (s ∷ ss) low zero h lt = omega arith
low-le_end (s ∷ ss) low (suc k) h lt =
    omega (arith, low-le_end ss (s.base_offset + s.records) k h.1 (omega arith))

pub IsSegment-below :
    (s : Segment) (rs : List Record) (bound : ℕ)
    → IsSegment s rs
    → s.base_offset + s.records ≤ bound
    → All (λ r. r.offset < bound) rs
IsSegment-below s rs bound h le =
    subst (All (λ r. r.offset < bound)) (take_all rs (length rs) (omega arith))
      (Numbered-below s.base_offset (length rs) bound rs h.numbered (omega (arith, h.counted)))

shift : (k : ℕ) → suc k - 1 ≡ k
shift k = omega arith

-- Where one segment ends by `offset`, so do all before it.
passed :
    (ss : List Segment) (rss : List (List Record)) (low k offset : ℕ)
    → Ascending low ss
    → Holds ss rss
    → k < length ss
    → (nth ss k).base_offset + (nth ss k).records ≤ offset
    → All (λ r. r.offset < offset) (flatten (take (suc k) rss))
passed [] rss low k offset h g lt le = absurd (omega arith)
passed (s ∷ ss) [] low k offset h g lt le = absurd g
passed (s ∷ ss) (rs ∷ rss) low zero offset h g lt le =
    All-append _ rs [] (IsSegment-below s rs offset g.0 le) tt
passed (s ∷ ss) (rs ∷ rss) low (suc k) offset h g lt le =
    let later = low-le_end ss (s.base_offset + s.records) k h.1 (omega arith) in
    All-append _ rs (flatten (take (suc k) rss))
      (IsSegment-below s rs offset g.0 (le_trans later le))
      (passed ss rss (s.base_offset + s.records) k offset h.1 g.1 (omega arith) le)

flatten-take-drop :
    (n : ℕ) (rss : List (List Record)) → flatten rss ≡ flatten (take n rss) ++ flatten (drop n rss)
flatten-take-drop zero rss = refl
flatten-take-drop (suc n) [] = refl
flatten-take-drop (suc n) (rs ∷ rss) =
    ap (λ l. rs ++ l) (flatten-take-drop n rss)
    ∙ sym (append_assoc rs (flatten (take n rss)) (flatten (drop n rss)))

Holds-drop :
    (n : ℕ) (ss : List Segment) (rss : List (List Record))
    → Holds ss rss
    → Holds (drop n ss) (drop n rss)
Holds-drop zero ss rss h = h
Holds-drop (suc n) [] [] h = tt
Holds-drop (suc n) [] (rs ∷ rss) h = absurd h
Holds-drop (suc n) (s ∷ ss) [] h = absurd h
Holds-drop (suc n) (s ∷ ss) (rs ∷ rss) h = Holds-drop n ss rss h.1

length-Holds :
    (ss : List Segment) (rss : List (List Record)) → Holds ss rss → length ss ≡ length rss
length-Holds [] [] h = refl
length-Holds [] (rs ∷ rss) h = absurd h
length-Holds (s ∷ ss) [] h = absurd h
length-Holds (s ∷ ss) (rs ∷ rss) h = ap suc (length-Holds ss rss h.1)

module _ (b : Budget) (ss : List Segment) (rss : List (List Record)) (low : ℕ)
    (up : Ascending low ss) (h : Holds ss rss) where
  -- The segments before the first that ends after the offset hold nothing that is wanted.
  first_segment-passed :
      All (λ r. r.offset < b.offset) (flatten (take (first_segment ss b.offset) rss))
  first_segment-passed = below_edge (first_segment ss b.offset) (
      search_first-IsEdge (length ss)
        (λ i. ltb b.offset ((nth ss i).base_offset + (nth ss i).records)))
    where
      below_edge :
          (k : ℕ)
          → IsEdge (λ i. ltb b.offset ((nth ss i).base_offset + (nth ss i).records)) (length ss) k
          → All (λ r. r.offset < b.offset) (flatten (take k rss))
      below_edge zero e = tt
      below_edge (suc k) e = passed ss rss low k b.offset up h (omega (arith, e.0)) (
          subst (λ j. (nth ss j).base_offset + (nth ss j).records ≤ b.offset) (shift k)
            (ltb→le _ _ (e.1 (omega arith))))

  read_from_first :
      read_segments b (drop (first_segment ss b.offset) ss) [] 0
      ≡ ok (within_budget b.max_records b.max_bytes true (from_offset b.offset (flatten rss)))
  read_from_first =
      let k = first_segment ss b.offset in
      read_segments-select b (drop k ss) (drop k rss) [] 0 (Holds-drop k ss rss h)
      ∙ ap settle_read (
          sym (
            select-skip b b.offset (flatten (take k rss)) (flatten (drop k rss)) [] 0
              first_segment-passed)
          ∙ ap (λ l. select b b.offset l [] 0) (sym (flatten-take-drop k rss)))
      ∙ select-within_budget b b.offset (flatten rss) [] 0
      ∙ ap₂ (λ n k. ok (within_budget n k true (from_offset b.offset (flatten rss)))) (sub-zero _)
          (sub-zero _)

pub from_offset_none :
    (offset : ℕ) (rs : List Record) → All (λ r. r.offset < offset) rs → from_offset offset rs ≡ []
from_offset_none offset [] h = refl
from_offset_none offset (r ∷ rs) h = ground (arith, from_offset_none offset rs h.1)

nth_last : (ss : List Segment) (s : Segment) → nth (ss ++ (s ∷ [])) (length ss) ≡ s
nth_last [] s = refl
nth_last (x ∷ ss) s = nth_last ss s

module _ (p : PartitionLog) (rss : List (List Record)) (rs : List Record) (h : IsLog p rss rs) where
  all_held : Holds (segments p) (rss ++ (rs ∷ []))
  all_held = Holds-append p.sealed rss p.active rs h.old h.current

  -- Every record is below the next offset.
  pub contents-below : All (λ r. r.offset < p.next_offset) (contents rss rs)
  contents-below =
      subst (All (λ r. r.offset < p.next_offset))
        (ap flatten (take_all (rss ++ (rs ∷ [])) (suc (length p.sealed)) (omega (arith, sizes)))
          ∙ flatten-append rss rs)
        (passed (segments p) (rss ++ (rs ∷ [])) 0 (length p.sealed) p.next_offset h.ascending
          all_held (omega (arith, length-append p.sealed (p.active ∷ [])))
          (rw nth_last (omega (arith, h.next))))
    where
      sizes : length (rss ++ (rs ∷ [])) ≡ suc (length p.sealed)
      sizes = omega (arith, length-append rss (rs ∷ []), length-Holds p.sealed rss h.old)

  pub read_in_range-contents :
      (b : Budget)
      → earliest_of p ≤ b.offset
      → b.offset ≤ p.next_offset
      → read_in_range p b
        ≡ ok (within_budget b.max_records b.max_bytes true (from_offset b.offset (contents rss rs)))
  unfolding read_in_range
  read_in_range-contents b lo hi = ground (arith, whole, at_end)
    where
      whole :
          read_segments b (drop (first_segment (segments p) b.offset) (segments p)) [] 0
          ≡ ok (
              within_budget b.max_records b.max_bytes true (from_offset b.offset (contents rss rs)))
      whole =
          read_from_first b (segments p) (rss ++ (rs ∷ [])) 0 h.ascending all_held
          ∙ ap (λ l. ok (within_budget b.max_records b.max_bytes true (from_offset b.offset l)))
              (flatten-append rss rs)

      at_end :
          b.offset ≡ p.next_offset
          → within_budget b.max_records b.max_bytes true (from_offset b.offset (contents rss rs))
            ≡ []
      at_end e =
          rw (e, from_offset_none p.next_offset (contents rss rs) contents-below)
            (within_budget_nil b.max_records b.max_bytes true)

module _ (p : PartitionLog) (max_records max_bytes : ℕ) (is_open : p.closed ≡ false)
    (mr : 0 < max_records) (mb : 0 < max_bytes) where
  read_from-pos :
      (o : ℕ)
      → read_from p (pos o) (pos max_records) (pos max_bytes)
        ≡ read_in_range p (record { offset = o; max_records = max_records; max_bytes = max_bytes })
  unfolding read_from
  read_from-pos o = ground arith

  read_from-negsuc :
      (n : ℕ) → read_from p (negsuc n) (pos max_records) (pos max_bytes) ≡ err offset_out_of_range
  unfolding read_from
  read_from-negsuc n = ground arith

-- On an open partition a read with positive limits, from an offset of the readable range on,
-- returns the records of the abstract log from that offset on, as many as the limits let through.
-- The result does not depend on the segments, on the index or on an earlier failure.
pub read_from-contents :
    (p : PartitionLog) (all : List Record) (offset max_records max_bytes : ℕ)
    → IsValid p all
    → p.closed ≡ false
    → 0 < max_records
    → 0 < max_bytes
    → earliest_of p ≤ offset
    → offset ≤ p.next_offset
    → read_from p (pos offset) (pos max_records) (pos max_bytes)
      ≡ ok (within_budget max_records max_bytes true (from_offset offset all))
read_from-contents p all offset max_records max_bytes v is_open mr mb lo hi =
    let b : Budget = record { offset = offset; max_records = max_records; max_bytes = max_bytes } in
    let (rss, rs, h, e) = v.holds in
    read_from-pos p max_records max_bytes is_open mr mb offset
    ∙ read_in_range-contents p rss rs h b lo hi
    ∙ ap (λ l. ok (within_budget max_records max_bytes true (from_offset offset l))) e

read_in_range_error :
    (p : PartitionLog) (b : Budget) (e : Error) {out : List Record}
    → (earliest_of p ≤ b.offset → b.offset ≤ p.next_offset → read_in_range p b ≡ ok out)
    → (read_in_range p b ≡ err e) ↔ ((e ≡ offset_out_of_range) × ¬ InRange p (pos b.offset))
unfolding read_in_range
read_in_range_error p b e inside =
    elim (Bool-cases (ltb b.offset (earliest_of p) || ltb p.next_offset b.offset)) [
      | inl out ↦ rw out ((λ h. (cc, λ i. ground arith)), (λ h. cc))
      | inr in_ ↦ (
        (λ h. absurd (cc (h, inside (ground arith) (ground arith)))),
        (λ h. absurd (h.1 (ground arith, ground arith))),
      )
    ]

-- The base of the first segment: of the first sealed one, or of the active one if none is sealed.
abbrev pub first_base : List Segment → Segment → ℕ
first_base [] active = active.base_offset
first_base (s ∷ ss) active = s.base_offset

pub earliest_of-first : (p : PartitionLog) → earliest_of p ≡ first_base p.sealed p.active
earliest_of-first p = first p.sealed p.active
  where
    first :
        (ss : List Segment) (a : Segment)
        → (get_or (ss ++ (a ∷ [])) 0 a).base_offset ≡ first_base ss a
    first [] a = refl
    first (s ∷ ss) a = refl

-- The offsets from the first segment's base to the end, ends included.
abbrev pub Readable : PartitionLog → ℤ → Type 0
Readable p (pos o) = (first_base p.sealed p.active ≤ o) × (o ≤ p.next_offset)
Readable p (negsuc n) = ⊥

read_from-InRange :
    (p : PartitionLog) (all : List Record) (offset : ℤ) (max_records max_bytes : ℕ) (e : Error)
    → IsValid p all
    → p.closed ≡ false
    → 0 < max_records
    → 0 < max_bytes
    → (read_from p offset (pos max_records) (pos max_bytes) ≡ err e)
      ↔ ((e ≡ offset_out_of_range) × ¬ InRange p offset)
read_from-InRange p all (pos offset) max_records max_bytes e v is_open mr mb =
    let b : Budget = record { offset = offset; max_records = max_records; max_bytes = max_bytes } in
    let (rss, rs, h, same) = v.holds in
    rw (read_from-pos p max_records max_bytes is_open mr mb offset)
      (read_in_range_error p b e (read_in_range-contents p rss rs h b))
read_from-InRange p all (negsuc n) max_records max_bytes e v is_open mr mb =
    rw (read_from-negsuc p max_records max_bytes is_open mr mb n) ((λ h. (cc, λ x. x)), (λ h. cc))

-- On a valid open partition a read with positive limits fails exactly when its offset lies outside
-- of the range from the base of the first segment to the next offset, ends included, and then with
-- `ErrOffsetOutOfRange`. (A valid partition's files are read without I/O errors.)
pub read_from_range :
    (p : PartitionLog) (all : List Record) (offset : ℤ) (max_records max_bytes : ℕ) (e : Error)
    → IsValid p all
    → p.closed ≡ false
    → 0 < max_records
    → 0 < max_bytes
    → (read_from p offset (pos max_records) (pos max_bytes) ≡ err e)
      ↔ ((e ≡ offset_out_of_range) × ¬ Readable p offset)
read_from_range p all (pos o) max_records max_bytes e v is_open mr mb =
    subst
      (λ lo.
        (read_from p (pos o) (pos max_records) (pos max_bytes) ≡ err e)
        ↔ ((e ≡ offset_out_of_range) × ¬ ((lo ≤ o) × (o ≤ p.next_offset))))
      (earliest_of-first p)
      (read_from-InRange p all (pos o) max_records max_bytes e v is_open mr mb)
read_from_range p all (negsuc n) max_records max_bytes e v is_open mr mb =
    read_from-InRange p all (negsuc n) max_records max_bytes e v is_open mr mb
