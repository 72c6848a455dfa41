-- ===== src/Broker/Produce.antt =====
-- The partition that the broker picks for a record.
use marchiq.Base.{
  ℕ, zero, suc, ◌+◌, ◌%◌, ◌^◌, ◌<◌, ◌≤◌, ◌≡◌, refl, ap, ◌∙◌, List, [], ◌∷◌, length, arith, Result,
  ok,
}
use native.Mathlib.Nat.{mod-eq_of_lt}
use mathlib.Core.Path.{ap₂}
use marchiq.Broker.{Topic, pick_partition}

-- The picks for `n` records without a key, one after another.
abbrev pub deal : ℕ → Topic → List (Result ℕ)
deal zero t = []
deal (suc n) t = (pick_partition t []).0 ∷ deal n (record t { rr = (pick_partition t []).1 })

-- The numbers `r`, `r + 1`, and so on, by their remainder.
abbrev pub round : ℕ → ℕ → ℕ → List (Result ℕ)
round zero r size = []
round (suc n) r size = ok (r % size) ∷ round n (r + 1) size

pick_keyless :
    (t : Topic) → t.rr < 2 ^ 63 → pick_partition t [] ≡ (ok (t.rr % length t.partitions), t.rr + 1)
unfolding pick_partition
pick_keyless t h = ground (arith, small)
  where
    small : (t.rr + 1) % 2 ^ 64 ≡ t.rr + 1
    small = mod-eq_of_lt (omega (arith, h))

-- Records without a key go to the partitions in turn, as long as the cursor stays below 2 ^ 63.
pub pick_partition-round :
    (n : ℕ) (t : Topic) → t.rr + n ≤ 2 ^ 63 → deal n t ≡ round n t.rr (length t.partitions)
pick_partition-round zero t h = refl
pick_partition-round (suc n) t h =
    let e = pick_keyless t (omega (arith, h)) in
    ap₂ (λ x y. x.0 ∷ deal n (record t { rr = y.1 })) e e
    ∙ ap (λ l. ok (t.rr % length t.partitions) ∷ l)
        (pick_partition-round n (record t { rr = t.rr + 1 }) (omega (arith, h)))
