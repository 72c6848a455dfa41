-- ===== src/Log/Read/Segments.antt =====
-- Each segment's share of a read: the index only saves work, and the bytes decode to the records.
use mathlib.Core.Path.{subst}
use native.Mathlib.Nat.{add-zero}
use native.Mathlib.Numerals.{add-one}
use marchiq.Base.{
  ℕ, zero, suc, ◌+◌, ◌-◌, ◌≤◌, ◌<◌, ◌≡◌, refl, ap, ◌∙◌, sym, false, List, [], ◌∷◌, ◌++◌, length,
  take, drop, get_or, All, All-drop, Result, ok, err, leb, ltb, arith, Bool-cases, inl, inr,
  take-append-drop, length-drop, drop-append_length, take-drop,
}
use marchiq.Codec.{Record, decode_record, frame_of}
use marchiq.Codec.RoundTrip.{frame_length, decode_record-frame_of}
use marchiq.Index.{IndexEntry, lookup_index, zero_entry}
use marchiq.Search.{search_first, search_first-IsEdge}
use marchiq.Log.{Segment, section_reader}
use marchiq.Log.View.{frames, frames-append, Fits, Numbered, IndexesInto, IsSegment, Holds, flatten}
use marchiq.Log.Read.{
  Budget, ReadStep, going, done, failed, start_of, read_segment, read_one, read_segments,
}
use marchiq.Log.Read.Select.{select, select_full, select-append, select-skip, settle_read, continue}

same_record : (r : Record) {n : ℕ} → r.offset ≡ n → record r { offset = n } ≡ r
same_record r e = λ i. record r { offset = sym e i }

-- The inner loop decodes the frames of `rs` and makes the choices of `select`.
read_segment-select :
    (b : Budget) (start cur : ℕ) (rs out : List Record) (total : ℕ)
    → Numbered cur rs
    → All Fits rs
    → read_segment b start (length rs) (record { avail = frames rs; faulty = false }) cur out total
      ≡ select b start rs out total
unfolding read_segment
read_segment-select b start cur [] out total hn hf = refl
read_segment-select b start cur (r ∷ rs) out total hn hf = ground (
  arith,
  decoded,
  read_segment-select b start (cur + 1) rs out total (rw add-one hn.1) hf.1,
  read_segment-select b start (cur + 1) rs (out ++ (r ∷ [])) (total + frame_length r)
      (rw add-one hn.1) hf.1,
)
  where
    decoded :
        decode_record (record { avail = frame_of r ++ frames rs; faulty = false }) cur
        ≡ (ok r, frame_length r, record { avail = frames rs; faulty = false })
    decoded =
        decode_record-frame_of r (frames rs) false cur hf.0.1 hf.0.0
        ∙ ap (λ x. (ok x, frame_length r, record { avail = frames rs; faulty = false }))
            (same_record r hn.0)

-- The entry that is found indexes into the segment, at or before `target`.
module _ (rs : List Record) where
  entry-IndexesInto :
      (es : List IndexEntry) (i : ℕ)
      → All (IndexesInto rs) es
      → IndexesInto rs (get_or es i zero_entry)
  entry-IndexesInto [] i h = omega arith
  entry-IndexesInto (e ∷ es) zero h = h.0
  entry-IndexesInto (e ∷ es) (suc i) h = entry-IndexesInto es i h.1

  pub lookup_index-IndexesInto :
      (es : List IndexEntry) (target : ℕ)
      → All (IndexesInto rs) es
      → IndexesInto rs (lookup_index es target) × ((lookup_index es target).rel_offset ≤ target)
  unfolding lookup_index
  lookup_index-IndexesInto es target h =
      let f = λ (i : ℕ). ltb target (get_or es i zero_entry).rel_offset in
      let k = search_first (length es) f in
      let edge = search_first-IsEdge (length es) f in
      ground (arith, edge, entry-IndexesInto es (k - 1) h)

Numbered-drop : (base n : ℕ) (rs : List Record) → Numbered base rs → Numbered (base + n) (drop n rs)
Numbered-drop base zero rs h = rw add-zero h
Numbered-drop base (suc n) [] h = tt
Numbered-drop base (suc n) (r ∷ rs) h =
    subst (λ k. Numbered k (drop n rs)) (omega arith) (Numbered-drop (suc base) n rs h.1)

-- The offsets of `n` numbered records are below any bound from `base + n` on.
pub Numbered-below :
    (base n bound : ℕ) (rs : List Record)
    → Numbered base rs
    → base + n ≤ bound
    → All (λ r. r.offset < bound) (take n rs)
Numbered-below base zero bound rs h le = tt
Numbered-below base (suc n) bound [] h le = tt
Numbered-below base (suc n) bound (r ∷ rs) h le =
    (omega arith, Numbered-below (suc base) n bound rs h.1 (omega arith))

-- In a segment the choice by `start` is the choice by the offset that was asked for.
select-start :
    (b : Budget) (s : Segment) (base : ℕ) (rs out : List Record) (total : ℕ)
    → s.base_offset ≤ base
    → Numbered base rs
    → select b (start_of b s) rs out total ≡ select b b.offset rs out total
select-start b s base [] out total le h = refl
select-start b s base (r ∷ rs) out total le h = ground (
  arith,
  select-start b s (suc base) rs out total (omega arith) h.1,
  select-start b s (suc base) rs (out ++ (r ∷ [])) (total + frame_length r) (omega arith) h.1,
)

drop-frames :
    (n : ℕ) (rs : List Record) → drop (length (frames (take n rs))) (frames rs) ≡ frames (drop n rs)
drop-frames n rs =
    ap (λ l. drop (length (frames (take n rs))) l)
      (ap frames (sym (take-append-drop n rs)) ∙ frames-append (take n rs) (drop n rs))
    ∙ drop-append_length (frames (take n rs)) (frames (drop n rs)) _ refl

-- The reader at an entry of the index holds the frames from that record on.
section_reader-frames :
    (s : Segment) (rs : List Record) (e : IndexEntry)
    → IsSegment s rs
    → IndexesInto rs e
    → section_reader s e.position ≡ record { avail = frames (drop e.rel_offset rs); faulty = false }
section_reader-frames s rs e h i = rw (h.readable) (
    ap (λ l. record { avail = l; faulty = false })
      (take-drop e.position s.size_bytes s.file.bytes
        ∙ ap (drop e.position) h.stored
        ∙ ap (λ k. drop k (frames rs)) i.1
        ∙ drop-frames e.rel_offset rs))

module _ (b : Budget) (s : Segment) (rs out : List Record) (total : ℕ) (h : IsSegment s rs) where
  -- From any entry that is not past the start, the loop comes to the same result.
  read_at :
      (e : IndexEntry)
      → IndexesInto rs e
      → e.rel_offset ≤ start_of b s - s.base_offset
      → read_segment b
          (start_of b s)
          (s.base_offset + s.records - (s.base_offset + e.rel_offset))
          (section_reader s e.position)
          (s.base_offset + e.rel_offset)
          out
          total
        ≡ select b b.offset rs out total
  read_at e i le =
      rw (section_reader-frames s rs e h i, rounds)
        (read_segment-select b (start_of b s) (s.base_offset + e.rel_offset) (drop e.rel_offset rs)
            out total (Numbered-drop s.base_offset e.rel_offset rs h.numbered)
            (All-drop Fits e.rel_offset rs h.fits)
          ∙ sym (
              select-skip b (start_of b s) (take e.rel_offset rs) (drop e.rel_offset rs) out total (
                Numbered-below s.base_offset e.rel_offset (start_of b s) rs h.numbered
                  (ground arith)))
          ∙ ap (λ l. select b (start_of b s) l out total) (take-append-drop e.rel_offset rs)
          ∙ select-start b s s.base_offset rs out total (omega arith) h.numbered)
    where
      rounds :
          s.base_offset + s.records - (s.base_offset + e.rel_offset) ≡ length (drop e.rel_offset rs)
      rounds = omega (arith, h.counted, length-drop e.rel_offset rs)

  pub read_one-select : read_one b s out total ≡ select b b.offset rs out total
  unfolding read_one
  read_one-select =
      let target = start_of b s - s.base_offset in
      let (i, le) = lookup_index-IndexesInto rs s.index target h.indexed in
      read_at (lookup_index s.index target) i le

settle-continue :
    (st : ReadStep) (k : List Record → ℕ → Result (List Record)) (k' : List Record → ℕ → ReadStep)
    → ((out : List Record) (total : ℕ) → k out total ≡ settle_read (k' out total))
    → (elim st as (λ _. Result (List Record)) [
      | going out total ↦ k out total
      | done out ↦ ok out
      | failed e ↦ err e
    ])
      ≡ settle_read (continue st k')
settle-continue (going out total) k k' h = h out total
settle-continue (done out) k k' h = refl
settle-continue (failed e) k k' h = refl

-- The outer loop is one pass over the records of the segments.
pub read_segments-select :
    (b : Budget) (ss : List Segment) (rss : List (List Record)) (out : List Record) (total : ℕ)
    → Holds ss rss
    → read_segments b ss out total ≡ settle_read (select b b.offset (flatten rss) out total)
unfolding read_segments
read_segments-select b [] [] out total h = refl
read_segments-select b [] (rs ∷ rss) out total h = absurd h
read_segments-select b (s ∷ ss) [] out total h = absurd h
read_segments-select b (s ∷ ss) (rs ∷ rss) out total h =
    elim (Bool-cases (leb b.max_records (length out))) [
      | inl full ↦ rw (full, select_full b b.offset (flatten (rs ∷ rss)) out total full) refl
      | inr room ↦
          rw
            (
              room,
              read_one-select b s rs out total h.0,
              select-append b b.offset rs (flatten rss) out total,
            )
            (settle-continue (select b b.offset rs out total) (read_segments b ss)
              (select b b.offset (flatten rss)) (λ o t. read_segments-select b ss rss o t h.1))
    ]
