-- ===== src/Groups/Drain.antt =====
-- A consumer that fetches, and commits the last record that it got, until nothing is left.
use marchiq.Base.{
  ℕ, zero, suc, ◌+◌, ◌-◌, ◌≤◌, ◌<◌, ◌≡◌, refl, ap, ◌∙◌, sym, ℤ, pos, true, false, List, [], ◌∷◌,
  ◌++◌, length, length-append, All, Option, some, ok, err, arith,
}
use mathlib.Core.Path.{subst}
use marchiq.Codec.{Record}
use marchiq.Codec.RoundTrip.{frame_length}
use marchiq.Log.{PartitionLog}
use marchiq.Log.View.{IsValid}
use marchiq.Log.Read.{Offsets, earliest_of}
use marchiq.Log.Read.Limits.{from_offset, within_budget}
use marchiq.Log.Read.Range.{contents-below}
use marchiq.Log.Read.Climbs.{
  Climbs, IsValid-Climbs, from_offset-Climbs, from_offset-from_offset, from_offset-All, behind, Cut,
  within_budget-Cut,
}
use marchiq.Groups.{fetch_partition, clamp_start, next_after}
use marchiq.Groups.Fetch.{
  next_after-behind, range_of, fetched_at, fetch_partition-fetched_at, earliest-le,
  clamp_start-range,
}

-- The loop ends with a fetch that brings nothing.
abbrev with_rest : List Record → List Record → List Record
with_rest [] rest = []
with_rest (r ∷ rs) rest = r ∷ rs ++ rest

-- At most `rounds` fetches, the first one behind `committed`.
abbrev pub drain : ℕ → PartitionLog → ℕ → Option ℕ → ℤ → ℤ → List Record
drain zero p n committed mr mb = []
drain (suc rounds) p n committed mr mb = elim (fetch_partition p n committed mr mb) [
  | err e ↦ []
  | ok f ↦ with_rest f.records (drain rounds p n (some (f.next_offset - 1)) mr mb)
]

-- After a commit the next fetch starts where the last one ended.
clamp_start-next :
    (o : Offsets) (m : ℕ) → 0 < m → o.earliest ≤ m → m ≤ o.latest → clamp_start o (some (m - 1)) ≡ m
clamp_start-next o m h lo hi = ground arith

length-from_offset : (o : ℕ) (rs : List Record) → length (from_offset o rs) ≤ length rs
length-from_offset o [] = omega arith
length-from_offset o (r ∷ rs) = ground (arith, length-from_offset o rs)

module _ (p : PartitionLog) (all : List Record) (n mr mb : ℕ) (v : IsValid p all)
    (op : p.closed ≡ false) (hr : 0 < mr) (hb : 0 < mb) where
  below_end : All (λ r. r.offset < p.next_offset) all
  below_end =
      let (rss, rs, l, e) = v.holds in
      subst (All (λ r. r.offset < p.next_offset)) e (contents-below p rss rs l)

  -- One round of the loop.
  drain_round :
      (rounds : ℕ) (committed : Option ℕ)
      → drain (suc rounds) p n committed (pos mr) (pos mb) ≡ (
          let f = fetched_at p all n committed mr mb in
          with_rest f.records (drain rounds p n (some (f.next_offset - 1)) (pos mr) (pos mb)))
  drain_round rounds committed =
      rw (fetch_partition-fetched_at p all n committed mr mb v op hr hb, drain) refl

  abbrev Left : ℕ → ℕ → Type 0
  Left rounds start =
      (committed : Option ℕ)
      → clamp_start (range_of p) committed ≡ start
      → drain rounds p n committed (pos mr) (pos mb) ≡ from_offset start all

  -- A round that brings the records `w`, of which there are some, and leaves those behind.
  round_some :
      (rounds start : ℕ) (ys : List Record) (w : List Record)
      → from_offset start all ≡ ys
      → Cut start p.next_offset ys w
      → earliest_of p ≤ start
      → start < behind start w
      → (length (from_offset (behind start w) all) < rounds → Left rounds (behind start w))
      → length ys < suc rounds
      → 0 < length w
      → w ++ drain rounds p n (some (behind start w - 1)) (pos mr) (pos mb) ≡ ys
  round_some rounds start ys w ey k lo pos_w ih lt lw =
      let m = behind start w in
      let later : from_offset m all ≡ from_offset m ys =
        sym (from_offset-from_offset start m all k.low) ∙ ap (from_offset m) ey in
      let split : w ++ from_offset m all ≡ ys = ap (λ l. w ++ l) later ∙ k.split in
      ap (λ l. w ++ l)
        (ih (omega (arith, lt, lw, ap length split, length-append w (from_offset m all)))
          (some (m - 1))
          (clamp_start-next (range_of p) m (omega arith) (omega (arith, k.low)) k.high))
      ∙ split

  drain_records :
      (c rounds start : ℕ) (ys : List Record)
      → 0 < c
      → from_offset start all ≡ ys
      → earliest_of p ≤ start
      → start ≤ p.next_offset
      → ((m : ℕ)
          → length (from_offset m all) < rounds
          → earliest_of p ≤ m
          → m ≤ p.next_offset
          → Left rounds m)
      → length ys < suc rounds
      → with_rest (within_budget c mb true ys) (
          drain rounds p n
            (some (next_after start (within_budget c mb true ys) - 1))
            (pos mr)
            (pos mb))
        ≡ ys
  drain_records zero rounds start ys hc ey lo hi ih lt = absurd (omega arith)
  drain_records (suc c) rounds start [] hc ey lo hi ih lt = refl
  drain_records (suc c) rounds start (y ∷ ys) hc ey lo hi ih lt =
      let w = within_budget (suc c) mb true (y ∷ ys) in
      let climbs =
        subst (Climbs start) ey (from_offset-Climbs start 0 all (IsValid-Climbs p all v)) in
      let below =
        subst (All (λ r. r.offset < p.next_offset)) ey
          (from_offset-All (λ r. r.offset < p.next_offset) start all below_end) in
      let k =
        within_budget-Cut (suc c) mb true start p.next_offset start (y ∷ ys) climbs (omega arith) hi
          below in
      let k' =
        within_budget-Cut c (mb - frame_length y) false (y.offset + 1) p.next_offset (y.offset + 1)
          ys climbs.1 (omega arith) (omega (arith, below.0)) below.1 in
      ap (λ m. w ++ drain rounds p n (some (m - 1)) (pos mr) (pos mb)) (next_after-behind start w)
      ∙ round_some rounds start (y ∷ ys) w ey k lo (omega (arith, climbs.0, k'.low))
          (λ short. ih (behind start w) short (omega (arith, lo, k.low)) k.high) lt (omega arith)

  -- The loop brings the records that are left from its start on.
  drain-Left :
      (rounds start : ℕ)
      → length (from_offset start all) < rounds
      → earliest_of p ≤ start
      → start ≤ p.next_offset
      → Left rounds start
  drain-Left zero start lt lo hi = absurd (omega arith)
  drain-Left (suc rounds) start lt lo hi = λ committed es.
      drain_round rounds committed
      ∙ subst
          (λ s.
            with_rest (within_budget mr mb true (from_offset s all)) (
              drain rounds p n
                (some (next_after s (within_budget mr mb true (from_offset s all)) - 1)) (pos mr)
                (pos mb))
            ≡ from_offset start all)
          (sym es)
          (drain_records mr rounds start (from_offset start all) hr refl lo hi
            (λ m short lo' hi'. drain-Left rounds m short lo' hi') lt)

-- A consumer on a valid open partition that fetches with positive limits, and commits the last
-- record of each batch, ends after at most one fetch more than there are records: it has got every
-- record from its start on, each once and in order, whatever the limits are.
pub drain_all :
    (p : PartitionLog) (all : List Record) (n max_records max_bytes rounds : ℕ)
    (committed : Option ℕ)
    → IsValid p all
    → p.closed ≡ false
    → 0 < max_records
    → 0 < max_bytes
    → length all < rounds
    → drain rounds p n committed (pos max_records) (pos max_bytes)
      ≡ from_offset (clamp_start (range_of p) committed) all
drain_all p all n mr mb rounds committed v op hr hb lt =
    let start = clamp_start (range_of p) committed in
    let r = clamp_start-range (range_of p) committed (earliest-le p all v) in
    drain-Left p all n mr mb v op hr hb rounds start
      (omega (arith, lt, length-from_offset start all)) r.0 r.1 committed refl
