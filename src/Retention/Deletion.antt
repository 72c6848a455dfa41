-- ===== src/Retention/Deletion.antt =====
-- The deletion of segments: what stays is a log, and the records that nobody may lose are in it.
use marchiq.Base.{
  ℕ, ◌+◌, ◌≤◌, ◌≡◌, refl, ap, ◌∙◌, sym, Bool, true, false, List, [], ◌∷◌, ◌++◌, All, not, if_rule,
  arith, some,
}
use marchiq.Codec.{Record}
use marchiq.Log.{Segment}
use marchiq.Log.View.{IsSegment, IsSegment-named, Holds, Ascending, flatten}
use marchiq.Log.Read.Limits.{from_offset, from_offset-append}
use marchiq.Log.Read.Range.{from_offset_none, IsSegment-below}
use marchiq.Retention.{
  RetentionIo, half_removed, keeps_name, Pass, is_doomed, delete_loop, keep, drop_segment,
  split_last, first_real_error,
}

pub split_last-append :
    (ss : List Segment) (a : Segment) → split_last (ss ++ (a ∷ [])) ≡ some (ss, a)
split_last-append [] a = refl
split_last-append (s ∷ ss) a = rw (split_last-append ss a) refl

pub Ascending-weaken :
    (ss : List Segment) (low low' : ℕ) → low ≤ low' → Ascending low' ss → Ascending low ss
Ascending-weaken [] low low' le h = tt
Ascending-weaken (s ∷ ss) low low' le h = (omega arith, h.1)

-- The segments that are to be deleted end at or below `o`.
abbrev pub Spares : ℕ → List ℕ → List Segment → Type 0
Spares o bases ss =
    All (λ s. is_doomed s.base_offset bases ≡ true → s.base_offset + s.records ≤ o) ss

-- The segments `kept` in front of `a`, with the records `rss`, instead of those with `old`.
pub record Remains (P : Segment → Type 0) (o low : ℕ) (a : Segment) (old : List (List Record))
    (kept : List Segment) (rss : List (List Record)) : Type 0 where
  pub holds : Holds kept rss
  pub ascending : Ascending low (kept ++ (a ∷ []))
  pub full : All P kept
  pub same : from_offset o (flatten rss) ≡ from_offset o (flatten old)

module _ (P : Segment → Type 0)
    (stable : (s : Segment) (b : Bool) → P s → P (record s { named = b })) (io : RetentionIo)
    (bases : List ℕ) (o : ℕ) (a : Segment) where
  abbrev After : ℕ → List (List Record) → Pass → Type 0
  After low old x =
      (kept : List Segment) × (rss : List (List Record)) × (x.0 ≡ kept ++ (a ∷ []))
      × Remains P o low a old kept rss

  After-keep :
      (s : Segment) (rs : List Record) (low : ℕ) (old : List (List Record)) (f : Bool) (x : Pass)
      → IsSegment s rs
      → low ≤ s.base_offset
      → P s
      → After (s.base_offset + s.records) old x
      → After low (rs ∷ old) (keep s f x)
  After-keep s rs low old f x hs le full (kept, rss, e, h) = (
    s ∷ kept,
    rs ∷ rss,
    ap (λ l. s ∷ l) e,
    record {
      holds = (hs, h.holds);
      ascending = (le, h.ascending);
      full = (full, h.full);
      same =
          from_offset-append o rs (flatten rss)
          ∙ ap (λ l. from_offset o rs ++ l) h.same
          ∙ sym (from_offset-append o rs (flatten old));
    },
  )

  After-drop :
      (s : Segment) (rs : List Record) (low : ℕ) (old : List (List Record)) (f : Bool) (x : Pass)
      → IsSegment s rs
      → low ≤ s.base_offset
      → s.base_offset + s.records ≤ o
      → After (s.base_offset + s.records) old x
      → After low (rs ∷ old) (drop_segment f x)
  After-drop s rs low old f x hs le below (kept, rss, e, h) = (
    kept,
    rss,
    e,
    record {
      holds = h.holds;
      ascending =
          Ascending-weaken (kept ++ (a ∷ [])) low (s.base_offset + s.records) (omega arith)
            h.ascending;
      full = h.full;
      same =
          h.same
          ∙ sym (
              ap (λ l. l ++ from_offset o (flatten old))
                (from_offset_none o rs (IsSegment-below s rs o hs below)))
          ∙ sym (from_offset-append o rs (flatten old));
    },
  )

  pub delete_loop-After :
      (ss : List Segment) (rss : List (List Record)) (low : ℕ)
      → Holds ss rss
      → Ascending low (ss ++ (a ∷ []))
      → All P ss
      → Spares o bases ss
      → is_doomed a.base_offset bases ≡ false
      → After low rss (delete_loop io bases (ss ++ (a ∷ [])))
  unfolding delete_loop
  delete_loop-After [] [] low g h full sp na =
      ([], [], ground (arith, na), record { holds = tt; ascending = h; full = tt; same = refl })
  delete_loop-After [] (rs ∷ rss) low g h full sp na = absurd g
  delete_loop-After (s ∷ ss) [] low g h full sp na = absurd g
  delete_loop-After (s ∷ ss) (rs ∷ rss) low g h full sp na =
      let Q = After low (rs ∷ rss) in
      let ih = delete_loop-After ss rss (s.base_offset + s.records) g.1 h.1 full.1 sp.1 na in
      let base = s.base_offset in
      let rest = delete_loop io bases (ss ++ (a ∷ [])) in
      if_rule Q (not (is_doomed base bases)) _ _
        (λ _. After-keep s rs low rss false rest g.0 h.0 full.0 ih)
        λ d.
          if_rule Q (first_real_error (io.remove_log base) (io.remove_index base)) _ _
            (λ _.
              After-keep (half_removed (io.remove_log base) s) rs low rss true rest
                (IsSegment-named s rs (keeps_name (io.remove_log base) s.named) g.0) h.0
                (stable s (keeps_name (io.remove_log base) s.named) full.0) ih)
            λ _.
              After-drop s rs low rss (not (io.close_segment base)) rest g.0 h.0
                (sp.0 (ground (arith, d))) ih
