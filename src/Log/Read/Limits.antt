-- ===== src/Log/Read/Limits.antt =====
-- What the offset and the budget of a fetch let through, stated over a list of records.
use mathlib.Core.Path.{ap₂}
use marchiq.Base.{
  ℕ, zero, suc, ◌+◌, ◌-◌, ◌<◌, ◌≡◌, refl, ap, sym, Bool, true, false, ◌&&◌, not, List, [], ◌∷◌,
  ◌++◌, append_assoc, append-nil, length, length-append, ok, leb, ltb, ◌==◌, if◌then◌else◌, arith,
  Bool-cases, inl, inr, leb→le,
}
use marchiq.Codec.{Record}
use marchiq.Codec.RoundTrip.{frame_length}
use marchiq.Log.Read.{Budget}
use marchiq.Log.Read.Select.{select, settle_read}

-- The records at or after an offset.
abbrev pub from_offset : ℕ → List Record → List Record
from_offset offset [] = []
from_offset offset (r ∷ rs) =
    let rest = from_offset offset rs in if ltb r.offset offset then rest else r ∷ rest

pub from_offset-append :
    (o : ℕ) (rs qs : List Record) → from_offset o (rs ++ qs) ≡ from_offset o rs ++ from_offset o qs
from_offset-append o [] qs = refl
from_offset-append o (r ∷ rs) qs = ground (arith, from_offset-append o rs qs)

-- The records that a fetch may return: at most `count`, with frames of at most `bytes` bytes
-- together. The first one comes whatever its size.
abbrev pub within_budget : ℕ → ℕ → Bool → List Record → List Record
within_budget zero bytes first rs = []
within_budget (suc count) bytes first [] = []
within_budget (suc count) bytes first (r ∷ rs) =
    let rest = within_budget count (bytes - frame_length r) false rs in
    if not first && ltb bytes (frame_length r) then [] else r ∷ rest

pub within_budget_nil : (count bytes : ℕ) (first : Bool) → within_budget count bytes first [] ≡ []
within_budget_nil zero bytes first = refl
within_budget_nil (suc count) bytes first = refl

within_budget_step :
    (c count bytes : ℕ) (first : Bool) (r : Record) (rs : List Record)
    → c ≡ suc count
    → within_budget c bytes first (r ∷ rs) ≡ (
        if not first && ltb bytes (frame_length r)
        then []
        else r ∷ within_budget count (bytes - frame_length r) false rs)
within_budget_step c count bytes first r rs e = rw e refl

-- The loop's test on the bytes so far is the test on the bytes that are left.
stop_test :
    (n max total size : ℕ)
    → 0 < size
    → (ltb 0 n && ltb max (total + size)) ≡ (not (n == 0) && ltb (max - total) size)
stop_test n max total size h = ground arith

module _ (b : Budget) (start : ℕ) where
  abbrev pub left : List Record → ℕ → List Record → List Record
  left out total rs =
      within_budget (b.max_records - length out) (b.max_bytes - total) (length out == 0)
        (from_offset start rs)

  pub select-within_budget :
      (rs out : List Record) (total : ℕ)
      → settle_read (select b start rs out total) ≡ ok (out ++ left out total rs)
  select-within_budget [] out total = rw within_budget_nil (ap ok (sym (append-nil out)))
  select-within_budget (r ∷ rs) out total = elim (Bool-cases (leb b.max_records (length out))) [
    | inl full ↦ rw (full, none_left full) (ap ok (sym (append-nil out)))
    | inr room ↦
        let out' = out ++ (r ∷ []) in
        ground (
          arith,
          room,
          stop_test (length out) b.max_bytes total (frame_length r) (omega arith),
          within_budget_step (b.max_records - length out) (b.max_records - length out')
              (b.max_bytes - total) (length out == 0) r (from_offset start rs) (count_down room),
          after_one,
          append-nil out,
          append_assoc out (r ∷ []) (
              within_budget (b.max_records - length out') (b.max_bytes - total - frame_length r)
                false (from_offset start rs)),
          select-within_budget rs out total,
          select-within_budget rs out' (total + frame_length r),
        )
  ]
    where
      none_left : leb b.max_records (length out) ≡ true → b.max_records - length out ≡ 0
      none_left full = omega (arith, leb→le _ _ full)

      count_down :
          leb b.max_records (length out) ≡ false
          → b.max_records - length out ≡ suc (b.max_records - length (out ++ (r ∷ [])))
      count_down room = ground (arith, length-append out (r ∷ []))

      after_one :
          left (out ++ (r ∷ [])) (total + frame_length r) rs
          ≡ within_budget
              (b.max_records - length (out ++ (r ∷ [])))
              (b.max_bytes - total - frame_length r)
              false
              (from_offset start rs)
      after_one =
          ap₂
            (λ k f.
              within_budget (b.max_records - length (out ++ (r ∷ []))) k f (from_offset start rs))
            (omega arith) (ground (arith, length-append out (r ∷ [])))
