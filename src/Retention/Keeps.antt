-- ===== src/Retention/Keeps.antt =====
-- A retention pass takes no record from a consumer group.
use marchiq.Base.{
  ℕ, ◌+◌, ◌≤◌, ◌<◌, ◌≡◌, refl, ap, ◌∙◌, sym, Bool, true, false, List, [], ◌∷◌, ◌++◌, All, if_rule,
  arith, inl, inr, ◌⊎◌, ℤ, pos, Result, ok, err,
}
use marchiq.Names.{TopicConfig}
use marchiq.Codec.{Record}
use marchiq.Log.{Segment, PartitionLog, segments}
use marchiq.Log.View.{Full, Ascending, flatten, IsLog, IsValid, contents}
use marchiq.Log.Read.{read_from, earliest_of}
use marchiq.Log.Read.Limits.{from_offset, from_offset-append, within_budget}
use marchiq.Log.Read.Range.{read_from-contents}
use marchiq.Retention.{
  RetentionIo, Pass, below_clamp, delete_loop, finish_pass, delete_doomed, doomed,
  enforce_retention,
}
use marchiq.Retention.Deletion.{Remains, split_last-append, delete_loop-After}
use marchiq.Retention.Choice.{
  AllChosen, doomed-AllChosen, low-le_last, Spares-Chosen, active-spared,
}

-- The offset `o` cannot be needed from a segment that is deleted: it is at or above the clamp, or
-- not below the active segment.
abbrev pub Protected : ℕ → Bool → PartitionLog → ℕ → Type 0
Protected clamp clamped p o = ((clamped ≡ true) × (clamp ≤ o)) ⊎ (p.active.base_offset ≤ o)

-- `q` is `p` without some of the records below `o`.
pub record TrimmedBy (P : Segment → Type 0) (p : PartitionLog) (all : List Record) (o : ℕ)
    (q : PartitionLog) : Type 0 where
  pub remaining : List Record
  pub valid : IsValid q remaining
  pub same : from_offset o remaining ≡ from_offset o all
  pub full : All P q.sealed
  pub next : q.next_offset ≡ p.next_offset
  pub is_open : q.closed ≡ p.closed

abbrev pub Trimmed : PartitionLog → List Record → ℕ → PartitionLog → Type 0
Trimmed = TrimmedBy (λ s. 0 < s.records)

ends_by :
    (clamp : ℕ) (clamped : Bool) (o : ℕ) (ss : List Segment) (a : Segment) (low : ℕ)
    → Ascending low (ss ++ (a ∷ []))
    → ((clamped ≡ true) × (clamp ≤ o)) ⊎ (a.base_offset ≤ o)
    → All (λ s. below_clamp clamp clamped s ≡ true → s.base_offset + s.records ≤ o) ss
ends_by clamp clamped o [] a low h k = tt
ends_by clamp clamped o (s ∷ ss) a low h (inl (c, le)) = (
  λ b. ground (arith, b, c, le),
  ends_by clamp clamped o ss a (s.base_offset + s.records) h.1 (inl (c, le)),
)
ends_by clamp clamped o (s ∷ ss) a low h (inr le) = (
  λ b. omega (arith, le, low-le_last ss a (s.base_offset + s.records) h.1),
  ends_by clamp clamped o ss a (s.base_offset + s.records) h.1 (inr le),
)

module _ (P : Segment → Type 0) (p : PartitionLog) (all : List Record) (o : ℕ) (v : IsValid p all)
    (full : Full p.sealed) (keeps : All P p.sealed) where
  Trimmed-refl : TrimmedBy P p all o p
  Trimmed-refl = record {
    remaining = all;
    valid = v;
    same = refl;
    full = keeps;
    next = refl;
    is_open = refl;
  }

  finish_pass-Trimmed :
      (io : RetentionIo) (x : Pass) (kept : List Segment) (rss old : List (List Record))
      (rs : List Record)
      → x.0 ≡ kept ++ (p.active ∷ [])
      → Remains P o 0 p.active old kept rss
      → IsLog p old rs
      → contents old rs ≡ all
      → TrimmedBy P p all o (finish_pass io p x).1
  unfolding finish_pass
  finish_pass-Trimmed io x kept rss old rs e h l c =
      rw (e, finish_pass, split_last-append kept p.active)
        (record {
          remaining = contents rss rs;
          valid = record {
            holds = (
              rss,
              rs,
              record { old = h.holds; current = l.current; ascending = h.ascending; next = l.next },
              refl,
            );
            clean = v.clean;
          };
          same =
              from_offset-append o (flatten rss) rs
              ∙ ap (λ l. l ++ from_offset o rs) h.same
              ∙ sym (from_offset-append o (flatten old) rs)
              ∙ ap (from_offset o) c;
          full = h.full;
          next = refl;
          is_open = refl;
        })

  delete_doomed-Trimmed :
      ((s : Segment) (b : Bool) → P s → P (record s { named = b }))
      → (io : RetentionIo) (clamp : ℕ) (clamped : Bool) (d : Result (List ℕ))
      → ((bases : List ℕ) → d ≡ ok bases → AllChosen clamp clamped p.sealed bases)
      → Protected clamp clamped p o
      → TrimmedBy P p all o (delete_doomed io p d).1
  delete_doomed-Trimmed stable io clamp clamped (err e) c k = Trimmed-refl
  delete_doomed-Trimmed stable io clamp clamped (ok []) c k = Trimmed-refl
  delete_doomed-Trimmed stable io clamp clamped (ok (b ∷ bs)) c k =
      let (old, rs, l, same) = v.holds in
      let chosen = c (b ∷ bs) refl in
      let spared =
        Spares-Chosen clamp clamped o (b ∷ bs) p.sealed p.active 0 l.ascending full
          (λ x _. chosen x) (ends_by clamp clamped o p.sealed p.active 0 l.ascending k) in
      let (kept, rss, e, h) =
        delete_loop-After P stable io (b ∷ bs) o p.active p.sealed old 0 l.old l.ascending keeps
          spared (active-spared clamp clamped (b ∷ bs) p.sealed p.active l.ascending full chosen) in
      finish_pass-Trimmed io (delete_loop io (b ∷ bs) (segments p)) kept rss old rs e h l same

abbrev TrimmedAfter :
    (Segment → Type 0) → PartitionLog → List Record → ℕ → Result (ℕ × Bool) × PartitionLog → Type 0
TrimmedAfter P p all o x = TrimmedBy P p all o x.1

pub enforce_retention-TrimmedBy :
    (P : Segment → Type 0)
    → ((s : Segment) (b : Bool) → P s → P (record s { named = b }))
    → (io : RetentionIo) (now : ℤ) (cfg : TopicConfig) (clamp : ℕ) (clamped : Bool)
      (p : PartitionLog) (all : List Record) (o : ℕ)
    → IsValid p all
    → Full p.sealed
    → All P p.sealed
    → Protected clamp clamped p o
    → TrimmedBy P p all o (enforce_retention io now cfg clamp clamped p).1
unfolding enforce_retention
enforce_retention-TrimmedBy P stable io now cfg clamp clamped p all o v full keeps k =
    let Q = TrimmedAfter P p all o in
    if_rule Q p.closed _ _ (λ _. Trimmed-refl P p all o v full keeps)
      λ _.
        if_rule Q p.failed _ _ (λ _. Trimmed-refl P p all o v full keeps)
          λ _.
            delete_doomed-Trimmed P p all o v full keeps stable io clamp clamped
              (doomed io now cfg clamp clamped p) (doomed-AllChosen clamp clamped io now cfg p) k

-- A retention pass over a valid partition whose sealed segments hold records leaves a valid one,
-- whatever the system answers and whatever the policy is. For every offset `o` at or above the
-- clamp (or, with or without a clamp, not below the active segment) it keeps all records from `o`
-- on. The next offset is unchanged.
pub enforce_retention-Trimmed :
    (io : RetentionIo) (now : ℤ) (cfg : TopicConfig) (clamp : ℕ) (clamped : Bool) (p : PartitionLog)
    (all : List Record) (o : ℕ)
    → IsValid p all
    → Full p.sealed
    → Protected clamp clamped p o
    → Trimmed p all o (enforce_retention io now cfg clamp clamped p).1
enforce_retention-Trimmed io now cfg clamp clamped p all o v full k =
    enforce_retention-TrimmedBy (λ s. 0 < s.records) (λ s b h. h) io now cfg clamp clamped p all o v
      full full k

-- A reader at or above the clamp does not notice the pass: if its offset is in the readable range
-- before and after, then the same read returns the same records.
pub read_from-enforce_retention :
    (io : RetentionIo) (now : ℤ) (cfg : TopicConfig) (clamp : ℕ) (p : PartitionLog)
    (all : List Record) (o max_records max_bytes : ℕ)
    → IsValid p all
    → Full p.sealed
    → p.closed ≡ false
    → 0 < max_records
    → 0 < max_bytes
    → clamp ≤ o
    → earliest_of p ≤ o
    → earliest_of (enforce_retention io now cfg clamp true p).1 ≤ o
    → o ≤ p.next_offset
    → read_from
        (enforce_retention io now cfg clamp true p).1
        (pos o)
        (pos max_records)
        (pos max_bytes)
      ≡ read_from p (pos o) (pos max_records) (pos max_bytes)
read_from-enforce_retention io now cfg clamp p all o mr mb v full op hr hb k lo lo' hi =
    let t = enforce_retention-Trimmed io now cfg clamp true p all o v full (inl (refl, k)) in
    read_from-contents (enforce_retention io now cfg clamp true p).1 t.remaining o mr mb t.valid
      (t.is_open ∙ op) hr hb lo' (omega (arith, hi, t.next))
    ∙ ap (λ l. ok (within_budget mr mb true l)) t.same
    ∙ sym (read_from-contents p all o mr mb v op hr hb lo hi)
