-- ===== src/Groups/Fetch.antt =====
-- What a group fetch delivers from a partition.
use marchiq.Base.{
  leb, suc, none, some, refl, ℕ, ◌+◌, ◌≤◌, ◌<◌, ◌≡◌, ap, ◌∙◌, sym, true, false, List, [], ◌∷◌, ◌++◌,
  ltb, if◌then◌else◌, arith, Bool-cases, inl, inr, Option, pos, ok, ◌>>=◌, ltb→le, get_or,
}
use marchiq.Codec.{Record}
use marchiq.Log.{PartitionLog, Segment}
use marchiq.Log.View.{IsValid, Ascending}
use marchiq.Log.Read.{Offsets, offsets, read_from, read_in_range, earliest_of}
use marchiq.Log.Read.Limits.{from_offset, within_budget}
use marchiq.Log.Read.Climbs.{behind}
use marchiq.Log.Read.Range.{first_base, earliest_of-first, read_from-contents}
use marchiq.Retention.Choice.{low-le_last}
use marchiq.Groups.{
  PartitionFetch, fetch_partition, fetch_range, fetched_from, clamp_start, next_after,
}

abbrev pub range_of : PartitionLog → Offsets
range_of p = record { earliest = earliest_of p; latest = p.next_offset }

-- The fetch of `p` for a group that committed `committed`, from where the code starts it.
abbrev pub fetched_at : PartitionLog → List Record → ℕ → Option ℕ → ℕ → ℕ → PartitionFetch
fetched_at p all n committed max_records max_bytes =
    let start = clamp_start (range_of p) committed in
    let rs = within_budget max_records max_bytes true (from_offset start all) in
    fetched_from n (range_of p) start rs

offsets-range : (p : PartitionLog) → p.closed ≡ false → offsets p ≡ ok (range_of p)
unfolding offsets
offsets-range p op = ground (arith, op)

pub earliest-le :
    (p : PartitionLog) (all : List Record) → IsValid p all → earliest_of p ≤ p.next_offset
earliest-le p all v =
    let (rss, rs, l, e) = v.holds in omega (arith, l.next, first-le p.sealed p.active l.ascending)
  where
    first-le :
        (ss : List Segment) (a : Segment)
        → Ascending 0 (ss ++ (a ∷ []))
        → (get_or (ss ++ (a ∷ [])) 0 a).base_offset ≤ a.base_offset
    first-le [] a h = omega arith
    first-le (s ∷ ss) a h = omega (arith, low-le_last ss a (s.base_offset + s.records) h.1)

-- The start lies in the readable range or at its end.
pub clamp_start-range :
    (o : Offsets) (committed : Option ℕ)
    → o.earliest ≤ o.latest
    → (o.earliest ≤ clamp_start o committed) × (clamp_start o committed ≤ o.latest)
clamp_start-range o committed h = (ground arith, ground arith)

module _ (p : PartitionLog) (all : List Record) (mr mb : ℕ) (v : IsValid p all)
    (op : p.closed ≡ false) (hr : 0 < mr) (hb : 0 < mb) where
  at_end : read_from p (pos p.next_offset) (pos mr) (pos mb) ≡ ok []
  unfolding read_from read_in_range
  at_end = ground (arith, op, earliest-le p all v)

  -- A read from the end on would find nothing either.
  poll :
      (start : ℕ)
      → earliest_of p ≤ start
      → start ≤ p.next_offset
      → (if ltb start p.next_offset then read_from p (pos start) (pos mr) (pos mb) else ok [])
        ≡ ok (within_budget mr mb true (from_offset start all))
  poll start lo hi = elim (Bool-cases (ltb start p.next_offset)) [
    | inl before ↦ rw (before) (read_from-contents p all start mr mb v op hr hb lo hi)
    | inr end ↦ rw (end) (
        sym at_end
        ∙ ap (λ o. read_from p (pos o) (pos mr) (pos mb))
            (omega (arith, hi, ltb→le start p.next_offset end))
        ∙ read_from-contents p all start mr mb v op hr hb lo hi)
  ]

pub fetch_partition-fetched_at :
    (p : PartitionLog) (all : List Record) (n : ℕ) (committed : Option ℕ)
    (max_records max_bytes : ℕ)
    → IsValid p all
    → p.closed ≡ false
    → 0 < max_records
    → 0 < max_bytes
    → fetch_partition p n committed (pos max_records) (pos max_bytes)
      ≡ ok (fetched_at p all n committed max_records max_bytes)
unfolding fetch_partition
fetch_partition-fetched_at p all n committed mr mb v op hr hb =
    let start = clamp_start (range_of p) committed in
    let r = clamp_start-range (range_of p) committed (earliest-le p all v) in
    ap (λ x. x >>= fetch_range p n committed (pos mr) (pos mb)) (offsets-range p op)
    ∙ ap (λ x. x >>= λ rs. ok (fetched_from n (range_of p) start rs))
        (poll p all mr mb v op hr hb start r.0 r.1)

pub next_after-behind : (start : ℕ) (rs : List Record) → next_after start rs ≡ behind start rs
next_after-behind start [] = refl
next_after-behind start (r ∷ rs) = next_after-behind (r.offset + 1) rs

-- The offset behind the committed one, or 0 where there is none.
abbrev pub resume : Option ℕ → ℕ
resume none = 0
resume (some c) = suc c

-- The number between `lo` and `hi` that is closest to `x`.
abbrev pub closest : ℕ → ℕ → ℕ → ℕ
closest lo hi x = if leb x lo then lo else if leb hi x then hi else x

clamp_start-closest :
    (lo hi : ℕ) (committed : Option ℕ)
    → lo ≤ hi
    → clamp_start (record { earliest = lo; latest = hi }) committed
      ≡ closest lo hi (resume committed)
clamp_start-closest lo hi none h = ground arith
clamp_start-closest lo hi (some c) h = ground arith

-- What is wanted: from the offset behind the committed one, or the closest that the partition has,
-- as many records as the limits let through; the offset behind the last of them; and the end.
abbrev pub delivery : PartitionLog → List Record → ℕ → Option ℕ → ℕ → ℕ → PartitionFetch
delivery p all n committed max_records max_bytes =
    let start = closest (first_base p.sealed p.active) p.next_offset (resume committed) in
    let rs = within_budget max_records max_bytes true (from_offset start all) in
    record {
      partition = n;
      records = rs;
      next_offset = behind start rs;
      high_watermark = p.next_offset;
    }

fetched_at-delivery :
    (p : PartitionLog) (all : List Record) (n : ℕ) (committed : Option ℕ) (mr mb : ℕ)
    → IsValid p all
    → fetched_at p all n committed mr mb ≡ delivery p all n committed mr mb
fetched_at-delivery p all n committed mr mb v =
    let rs_at = λ (s : ℕ). within_budget mr mb true (from_offset s all) in
    let lo = earliest_of-first p in
    let same : clamp_start (range_of p) committed
        ≡ closest (first_base p.sealed p.active) p.next_offset (resume committed) =
      clamp_start-closest (earliest_of p) p.next_offset committed (earliest-le p all v)
      ∙ ap (λ l. closest l p.next_offset (resume committed)) lo in
    ap (λ s. fetched_from n (range_of p) s (rs_at s)) same
    ∙ ap
        (λ e. record {
          partition = n;
          records = rs_at (closest (first_base p.sealed p.active) p.next_offset (resume committed));
          next_offset = e;
          high_watermark = p.next_offset;
        })
        (next_after-behind (closest (first_base p.sealed p.active) p.next_offset (resume committed))
          (rs_at (closest (first_base p.sealed p.active) p.next_offset (resume committed))))

-- On a valid open partition and with positive limits, the fetch of a group always succeeds, also
-- where retention or a loss of data has moved the range away from the committed offset. It starts
-- at the offset behind the committed one, or at 0 if there is none; and where the partition does
-- not have it, at the closest offset between the base of its first segment and its end. It delivers
-- the records of the abstract log from there on, as many as the limits let through, with the offset
-- behind the last one and the end of the partition.
pub fetch_partition-delivery :
    (p : PartitionLog) (all : List Record) (n : ℕ) (committed : Option ℕ)
    (max_records max_bytes : ℕ)
    → IsValid p all
    → p.closed ≡ false
    → 0 < max_records
    → 0 < max_bytes
    → fetch_partition p n committed (pos max_records) (pos max_bytes)
      ≡ ok (delivery p all n committed max_records max_bytes)
fetch_partition-delivery p all n committed mr mb v op hr hb =
    fetch_partition-fetched_at p all n committed mr mb v op hr hb
    ∙ ap ok (fetched_at-delivery p all n committed mr mb v)
