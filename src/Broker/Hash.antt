-- ===== src/Broker/Hash.antt =====
-- `hash/fnv`'s 32-bit FNV-1a, by which storage/topic.go picks the partition of a key.
use marchiq.Base.{ℕ, zero, suc, ◌+◌, ◌*◌, ◌/◌, ◌%◌, ◌^◌, ◌≡◌, refl, List, [], ◌∷◌}

-- The exclusive or of `n`-bit numbers.
abbrev xor_bits : ℕ → ℕ → ℕ → ℕ
xor_bits zero a b = 0
xor_bits (suc n) a b = (a % 2 + b % 2) % 2 + 2 * xor_bits n (a / 2) (b / 2)

-- One byte; it meets only the lowest eight bits.
abbrev fnv_step : ℕ → ℕ → ℕ
fnv_step h b = (h / 256 * 256 + xor_bits 8 (h % 256) b) * 16777619 % 2 ^ 32

abbrev fnv_loop : ℕ → List ℕ → ℕ
fnv_loop h [] = h
fnv_loop h (b ∷ bs) = fnv_loop (fnv_step h b) bs

unfoldable pub fnv32a : List ℕ → ℕ
fnv32a key = fnv_loop 2166136261 key

fnv32a_a : fnv32a (b'a' ∷ []) ≡ 3826002220
unfolding fnv32a
fnv32a_a = refl
