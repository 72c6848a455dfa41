-- ===== src/Log/Read/Climbs.antt =====
-- The offsets of a log climb, with gaps where segments were deleted.
use marchiq.Base.{
  ℕ, zero, suc, ◌+◌, ◌-◌, ◌≤◌, ◌<◌, ◌≡◌, refl, ap, ◌∙◌, sym, Bool, false, ◌&&◌, not, List, [], ◌∷◌,
  ◌++◌, length, All, ltb, if_rule, arith,
}
use mathlib.Core.Path.{subst}
use marchiq.Codec.{Record}
use marchiq.Codec.RoundTrip.{frame_length}
use marchiq.Log.{Segment, PartitionLog, segments}
use marchiq.Log.View.{Numbered, Ascending, Holds, flatten, IsValid}
use marchiq.Log.Append.Stages.{Holds-append, flatten-append}
use marchiq.Log.Read.Limits.{from_offset, within_budget}

abbrev pub Climbs : ℕ → List Record → Type 0
Climbs low [] = Unit
Climbs low (r ∷ rs) = (low ≤ r.offset) × Climbs (r.offset + 1) rs

pub Climbs-weaken : (low low' : ℕ) (rs : List Record) → low ≤ low' → Climbs low' rs → Climbs low rs
Climbs-weaken low low' [] le h = tt
Climbs-weaken low low' (r ∷ rs) le h = (omega arith, h.1)

Climbs-append :
    (base low : ℕ) (rs qs : List Record)
    → Numbered base rs
    → low ≤ base
    → Climbs (base + length rs) qs
    → Climbs low (rs ++ qs)
Climbs-append base low [] qs h le k = Climbs-weaken low (base + 0) qs (omega arith) k
Climbs-append base low (r ∷ rs) qs h le k = (
  omega (arith, h.0),
  Climbs-append (suc base) (r.offset + 1) rs qs h.1 (omega (arith, h.0))
      (Climbs-weaken (suc base + length rs) (base + suc (length rs)) qs (omega arith) k),
)

Holds-Climbs :
    (ss : List Segment) (rss : List (List Record)) (low : ℕ)
    → Ascending low ss
    → Holds ss rss
    → Climbs low (flatten rss)
Holds-Climbs [] [] low h g = tt
Holds-Climbs [] (rs ∷ rss) low h g = absurd g
Holds-Climbs (s ∷ ss) [] low h g = absurd g
Holds-Climbs (s ∷ ss) (rs ∷ rss) low h g =
    Climbs-append s.base_offset low rs (flatten rss) g.0.numbered h.0 (
      Climbs-weaken (s.base_offset + length rs) (s.base_offset + s.records) (flatten rss)
        (omega (arith, g.0.counted)) (Holds-Climbs ss rss (s.base_offset + s.records) h.1 g.1))

pub IsValid-Climbs : (p : PartitionLog) (all : List Record) → IsValid p all → Climbs 0 all
IsValid-Climbs p all v =
    let (rss, rs, l, e) = v.holds in
    subst (Climbs 0) (flatten-append rss rs ∙ e) (
      Holds-Climbs (segments p) (rss ++ (rs ∷ [])) 0 l.ascending
        (Holds-append p.sealed rss p.active rs l.old l.current))

-- From an offset that is not above the first one on, there are all records.
pub from_offset_whole :
    (o low : ℕ) (rs : List Record) → Climbs low rs → o ≤ low → from_offset o rs ≡ rs
from_offset_whole o low [] h le = refl
from_offset_whole o low (r ∷ rs) h le =
    ground (arith, h.0, from_offset_whole o (r.offset + 1) rs h.1 (omega (arith, h.0)))

pub from_offset-Climbs :
    (o low : ℕ) (rs : List Record) → Climbs low rs → Climbs o (from_offset o rs)
from_offset-Climbs o low [] h = tt
from_offset-Climbs o low (r ∷ rs) h =
    if_rule (Climbs o) (ltb r.offset o) (from_offset o rs) (r ∷ from_offset o rs)
      (λ _. from_offset-Climbs o (r.offset + 1) rs h.1)
      λ k. (
        ground (arith, k),
        subst (Climbs (r.offset + 1))
            (sym (from_offset_whole o (r.offset + 1) rs h.1 (ground (arith, k)))) h.1,
      )

pub from_offset-from_offset :
    (o o' : ℕ) (rs : List Record) → o ≤ o' → from_offset o' (from_offset o rs) ≡ from_offset o' rs
from_offset-from_offset o o' [] le = refl
from_offset-from_offset o o' (r ∷ rs) le = ground (arith, from_offset-from_offset o o' rs le)

pub from_offset-All :
    (P : Record → Type 0) (o : ℕ) (rs : List Record) → All P rs → All P (from_offset o rs)
from_offset-All P o [] h = tt
from_offset-All P o (r ∷ rs) h =
    if_rule (All P) (ltb r.offset o) (from_offset o rs) (r ∷ from_offset o rs)
      (λ _. from_offset-All P o rs h.1) (λ _. (h.0, from_offset-All P o rs h.1))

-- The offset behind the last record.
abbrev pub behind : ℕ → List Record → ℕ
behind start [] = start
behind start (r ∷ rs) = behind (r.offset + 1) rs

-- What a fetch lets through.
pub record Cut (start bound : ℕ) (rs w : List Record) : Type 0 where
  pub low : start ≤ behind start w
  pub high : behind start w ≤ bound
  pub split : w ++ from_offset (behind start w) rs ≡ rs

none-Cut :
    (start bound low : ℕ) (rs : List Record)
    → Climbs low rs
    → start ≤ low
    → start ≤ bound
    → Cut start bound rs []
none-Cut start bound low rs h le lb = record {
  low = omega arith;
  high = lb;
  split = from_offset_whole start low rs h le;
}

pub within_budget-Cut :
    (c b : ℕ) (first : Bool) (start bound low : ℕ) (rs : List Record)
    → Climbs low rs
    → start ≤ low
    → start ≤ bound
    → All (λ r. r.offset < bound) rs
    → Cut start bound rs (within_budget c b first rs)
within_budget-Cut zero b first start bound low rs h le lb u = none-Cut start bound low rs h le lb
within_budget-Cut (suc c) b first start bound low [] h le lb u = none-Cut start bound low [] h le lb
within_budget-Cut (suc c) b first start bound low (r ∷ rs) h le lb u =
    if_rule (Cut start bound (r ∷ rs)) (not first && ltb b (frame_length r)) []
      (r ∷ within_budget c (b - frame_length r) false rs)
      (λ _. none-Cut start bound low (r ∷ rs) h le lb)
      λ _.
        let w = within_budget c (b - frame_length r) false rs in
        let k =
          within_budget-Cut c (b - frame_length r) false (r.offset + 1) bound (r.offset + 1) rs h.1
            (omega arith) (omega (arith, u.0)) u.1 in
        record {
          low = omega (arith, k.low, h.0);
          high = k.high;
          split =
              ap (λ l. r ∷ w ++ l) (skip (behind (r.offset + 1) w) (omega (arith, k.low)))
              ∙ ap (λ l. r ∷ l) k.split;
        }
  where
    skip : (o : ℕ) → r.offset < o → from_offset o (r ∷ rs) ≡ from_offset o rs
    skip o lt = ground (arith, lt)
