-- ===== src/Log/Read/Select.antt =====
-- The loops of `ReadFrom` over records that are already decoded, as one pass over a list.
use marchiq.Base.{
  ℕ, ◌+◌, ◌<◌, ◌≡◌, refl, sym, true, List, [], ◌∷◌, ◌++◌, length, All, Result, ok, err, leb,
  if◌then◌else◌, arith, Bool-cases, inl, inr,
}
use marchiq.Codec.{Record}
use marchiq.Codec.RoundTrip.{frame_length}
use marchiq.Log.Read.{Budget, ReadStep, going, done, failed, take_record}

abbrev pub select : Budget → ℕ → List Record → List Record → ℕ → ReadStep
select b start [] out total = going out total
select b start (r ∷ rs) out total =
    if leb b.max_records (length out)
    then going out total
    else elim (take_record b start r.offset r (frame_length r) out total) [
      | going out' total' ↦ select b start rs out' total'
      | done out' ↦ done out'
      | failed e ↦ failed e
    ]

-- What `ReadFrom` returns when its loops have ended so.
abbrev pub settle_read : ReadStep → Result (List Record)
settle_read (going out total) = ok out
settle_read (done out) = ok out
settle_read (failed e) = err e

abbrev pub continue : ReadStep → (List Record → ℕ → ReadStep) → ReadStep
continue (going out total) k = k out total
continue (done out) k = done out
continue (failed e) k = failed e

module _ (b : Budget) (start : ℕ) where
  -- Once there are enough records, the rest changes nothing.
  pub select_full :
      (rs out : List Record) (total : ℕ)
      → leb b.max_records (length out) ≡ true
      → select b start rs out total ≡ going out total
  select_full [] out total h = refl
  select_full (r ∷ rs) out total h = rw h refl

  pub select-append :
      (xs ys out : List Record) (total : ℕ)
      → select b start (xs ++ ys) out total
        ≡ continue (select b start xs out total) (select b start ys)
  select-append [] ys out total = refl
  select-append (r ∷ xs) ys out total = elim (Bool-cases (leb b.max_records (length out))) [
    | inl full ↦ rw full (sym (select_full ys out total full))
    | inr room ↦ ground (
      arith,
      room,
      select-append xs ys out total,
      select-append xs ys (out ++ (r ∷ [])) (total + frame_length r),
    )
  ]

  -- Records before `start` are passed over.
  pub select-skip :
      (xs ys out : List Record) (total : ℕ)
      → All (λ r. r.offset < start) xs
      → select b start (xs ++ ys) out total ≡ select b start ys out total
  select-skip [] ys out total h = refl
  select-skip (r ∷ xs) ys out total h = elim (Bool-cases (leb b.max_records (length out))) [
    | inl full ↦ rw full (sym (select_full ys out total full))
    | inr room ↦ rw room (ground (arith, select-skip xs ys out total h.1))
  ]
