-- ===== src/BigEndian.antt =====
-- `binary.BigEndian` of Go's standard library: an unsigned integer of `k` bytes, highest first.
-- The sources use it at 4 and 8 bytes (storage/record.go, storage/index.go).
use native.Mathlib.Nat.{
  mod-lt, mod-eq_of_lt, div-add-mod', mul-add-div_right, mul-add-mod_self_right, div-lt_iff_lt-mul,
  pow-suc, div-eq_of_lt, add-zero,
}
use marchiq.Base.{ℕ, zero, suc, ◌+◌, ◌*◌, ◌/◌, ◌%◌, ◌^◌, ◌<◌, ◌≡◌, refl, ap}
use marchiq.Base.{List, [], ◌∷◌, length, All, arith}

abbrev pub IsByte : ℕ → Type 0
IsByte b = b < 256

-- `PutUint32` and `PutUint64` are `put_uint 4` and `put_uint 8`.
unfoldable pub put_uint : ℕ → ℕ → List ℕ
put_uint zero v = []
put_uint (suc k) v = (v / 256 ^ k % 256) ∷ put_uint k (v % 256 ^ k)

-- `Uint32` and `Uint64`.
unfoldable pub uint : List ℕ → ℕ
uint [] = 0
uint (b ∷ bs) = b * 256 ^ length bs + uint bs

pub length-put_uint : (k v : ℕ) → length (put_uint k v) ≡ k
unfolding put_uint
length-put_uint zero v = refl
length-put_uint (suc k) v = ap suc (length-put_uint k (v % 256 ^ k))

pub put_uint-IsByte : (k v : ℕ) → All IsByte (put_uint k v)
unfolding put_uint
put_uint-IsByte zero v = tt
put_uint-IsByte (suc k) v = (omega arith, put_uint-IsByte k (v % 256 ^ k))

pow_pos : (k : ℕ) → 0 < 256 ^ k
pow_pos zero = omega arith
pow_pos (suc k) = rw pow-suc (omega (arith, pow_pos k))

pub uint-put_uint : (k v : ℕ) → v < 256 ^ k → uint (put_uint k v) ≡ v
unfolding uint put_uint
uint-put_uint zero v h = omega arith
uint-put_uint (suc k) v h =
    rw (length-put_uint k (v % 256 ^ k), uint-put_uint k (v % 256 ^ k) (mod-lt v (pow_pos k)))
      (rw (mod-eq_of_lt top) (div-add-mod' v (256 ^ k)))
  where
    top : v / 256 ^ k < 256
    top = (div-lt_iff_lt-mul (pow_pos k)).1 (let g = rw pow-suc at h in omega arith)

digit_fits : (b p u : ℕ) → b < 256 → u < p → b * p + u < p * 256
digit_fits b p u hb hu = grind arith

pub uint_lt : (bs : List ℕ) → All IsByte bs → uint bs < 256 ^ length bs
unfolding uint
uint_lt [] h = omega arith
uint_lt (b ∷ bs) h = rw pow-suc (digit_fits b (256 ^ length bs) (uint bs) h.0 (uint_lt bs h.1))

pub put_uint-uint : (bs : List ℕ) → All IsByte bs → put_uint (length bs) (uint bs) ≡ bs
unfolding uint put_uint
put_uint-uint [] h = refl
put_uint-uint (b ∷ bs) h =
    let low = uint_lt bs h.1 in
    rw (
      mul-add-mod_self_right b (256 ^ length bs) (uint bs),
      mod-eq_of_lt low,
      put_uint-uint bs h.1,
      mul-add-div_right (pow_pos (length bs)) b (uint bs),
      div-eq_of_lt low,
      add-zero b,
      mod-eq_of_lt h.0,
    )
