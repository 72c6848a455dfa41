-- ===== src/Search.antt =====
-- `sort.Search` of Go's standard library: the binary search that storage/index.go and
-- storage/partition_log.go call. Each round at least halves `j - i`, so `n` rounds are enough.
use marchiq.Base.{
  ℕ, zero, suc, ◌+◌, ◌-◌, ◌/◌, ◌≤◌, ◌<◌, ◌≡◌, Bool, true, false, ltb, if◌then◌else◌, arith,
}

search_loop : ℕ → (ℕ → Bool) → ℕ → ℕ → ℕ
search_loop zero f i j = i
search_loop (suc fuel) f i j =
    let h = (i + j) / 2 in
    let rest = search_loop fuel f (if f h then i else h + 1) (if f h then h else j) in
    if ltb i j then rest else i

unfoldable pub search_first : ℕ → (ℕ → Bool) → ℕ
unfolding search_loop
search_first n f = search_loop n f 0 n

-- `f` fails just below `k`, and holds at `k` unless `k` is the end.
abbrev pub IsEdge : (ℕ → Bool) → ℕ → ℕ → Type 0
IsEdge f n k = (k ≤ n) × (0 < k → f (k - 1) ≡ false) × (k < n → f k ≡ true)

search_loop-IsEdge :
    (fuel : ℕ) (f : ℕ → Bool) (n i j : ℕ)
    → j ≤ i + fuel
    → i ≤ j
    → j ≤ n
    → (0 < i → f (i - 1) ≡ false)
    → (j < n → f j ≡ true)
    → IsEdge f n (search_loop fuel f i j)
unfolding search_loop
search_loop-IsEdge zero f n i j enough le fit below above = ground (arith, above)
search_loop-IsEdge (suc fuel) f n i j enough le fit below above =
    let h = (i + j) / 2 in
    ground (arith, search_loop-IsEdge fuel f n (if f h then i else h + 1) (if f h then h else j))

-- The search ends at an edge of `f`, whatever `f` is.
pub search_first-IsEdge : (n : ℕ) (f : ℕ → Bool) → IsEdge f n (search_first n f)
unfolding search_first
search_first-IsEdge n f =
    search_loop-IsEdge n f n 0 n (omega arith) (omega arith) (omega arith)
      (λ h. absurd (omega arith)) (λ h. absurd (omega arith))
