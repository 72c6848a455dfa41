-- ===== src/Index/Lookup.antt =====
-- `lookupIndex` finds the closest entry at or before the target.
use marchiq.Base.{
  ℕ, ◌-◌, ◌≤◌, ◌<◌, ◌≡◌, refl, Bool, List, length, get_or, ltb, ltb→le, ltb→lt, ◌==◌, if◌then◌else◌,
  if_rule, arith, Bool-cases, inl, inr, ◌⊎◌,
}
use marchiq.Search.{search_first-IsEdge, IsEdge}
use marchiq.Index.{IndexEntry, zero_entry, lookup_index}

abbrev pub entry_at : List IndexEntry → ℕ → IndexEntry
entry_at index i = get_or index i zero_entry

abbrev pub Sorted : List IndexEntry → Type 0
Sorted index =
    (i j : ℕ)
    → i ≤ j
    → j < length index
    → (entry_at index i).rel_offset ≤ (entry_at index j).rel_offset

-- `e` is the zero entry or in the index, it is not beyond the target, and no entry is closer.
pub record IsClosest (index : List IndexEntry) (target : ℕ) (e : IndexEntry) : Type 0 where
  pub known : (e ≡ zero_entry) ⊎ ((i : ℕ) × (i < length index) × (e ≡ entry_at index i))
  pub before : e.rel_offset ≤ target
  pub closest :
      (i : ℕ)
      → i < length index
      → (entry_at index i).rel_offset ≤ target
      → (entry_at index i).rel_offset ≤ e.rel_offset

module _ (index : List IndexEntry) (target : ℕ) (sorted : Sorted index) where
  abbrev beyond : ℕ → Bool
  beyond i = ltb target (entry_at index i).rel_offset

  edge_before :
      (k i : ℕ)
      → IsEdge beyond (length index) k
      → i < length index
      → (entry_at index i).rel_offset ≤ target
      → i < k
  edge_before k i h lt le = elim (Bool-cases (ltb i k)) [
    | inl t ↦ ltb→lt i k t
    | inr f ↦
        let ki = ltb→le i k f in
        absurd (
          omega (
            arith,
            le,
            sorted k i ki lt,
            ltb→lt target (entry_at index k).rel_offset (h.2 (omega (arith, ki, lt))),
          ))
  ]

  at_edge :
      (k : ℕ)
      → IsEdge beyond (length index) k
      → IsClosest index target (if k == 0 then zero_entry else entry_at index (k - 1))
  at_edge k h =
      if_rule (IsClosest index target) (k == 0) zero_entry (entry_at index (k - 1))
        (λ none. record {
          known = inl refl;
          before = omega arith;
          closest = λ i lt le. absurd (ground (arith, none, edge_before k i h lt le));
        })
        (λ some. found (ground (arith, some)))
    where
      found : 0 < k → IsClosest index target (entry_at index (k - 1))
      found lt = record {
        known = inr (k - 1, omega (arith, lt, h.0), refl);
        before = ltb→le target (entry_at index (k - 1)).rel_offset (h.1 lt);
        closest = λ i li le.
            sorted i (k - 1) (omega (arith, edge_before k i h li le)) (omega (arith, lt, h.0));
      }

-- In a sorted index, the search finds the entry of the greatest relative offset that is at most the
-- target, and the zero entry where there is none.
pub lookup_index-IsClosest :
    (index : List IndexEntry) (target : ℕ)
    → Sorted index
    → IsClosest index target (lookup_index index target)
unfolding lookup_index
lookup_index-IsClosest index target sorted =
    at_edge index target sorted _ (search_first-IsEdge (length index) (beyond index target sorted))
