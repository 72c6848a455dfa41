-- ===== src/Codec/Body.antt =====
-- The fields of a frame's body, by position: a timestamp, a key behind its length and a value
-- behind its length.
use native.Mathlib.Nat.{add_assoc}
use marchiq.Base.{
  ℕ, ◌+◌, ◌≡◌, ◌∙◌, List, ◌++◌, length, take, drop, take-append_length, drop-append_length,
  drop-append_add, arith,
}

abbrev pub layout : List ℕ → List ℕ → List ℕ → List ℕ → List ℕ → List ℕ
layout t k4 key v4 value = t ++ (k4 ++ (key ++ (v4 ++ value)))

module _ (t k4 key v4 value : List ℕ) (ht : 8 ≡ length t) (hk : 4 ≡ length k4)
    (hv : 4 ≡ length v4) where
  pub layout_timestamp : take 8 (layout t k4 key v4 value) ≡ t
  layout_timestamp = take-append_length t _ 8 ht

  pub layout_key_len : take 4 (drop 8 (layout t k4 key v4 value)) ≡ k4
  layout_key_len = rw (drop-append_length t _ 8 ht) (take-append_length k4 _ 4 hk)

  drop_lengths : (m : ℕ) → drop (12 + m) (layout t k4 key v4 value) ≡ drop m (key ++ (v4 ++ value))
  drop_lengths m =
      drop-append_add t _ (12 + m) (4 + m) (omega arith)
      ∙ drop-append_add k4 _ (4 + m) m (omega arith)

  pub layout_key : take (length key) (drop 12 (layout t k4 key v4 value)) ≡ key
  layout_key = rw (drop_lengths 0) (take-append_length key _ (length key) (omega arith))

  pub layout_value_len : take 4 (drop (12 + length key) (layout t k4 key v4 value)) ≡ v4
  layout_value_len =
      rw
        (drop_lengths (length key), drop-append_length key (v4 ++ value) (length key) (omega arith))
        (take-append_length v4 value 4 hv)

  pub layout_value : drop (12 + length key + 4) (layout t k4 key v4 value) ≡ value
  layout_value = rw (add_assoc 12 (length key) 4) (
      drop_lengths (length key + 4)
      ∙ drop-append_add key (v4 ++ value) (length key + 4) 4 (omega arith)
      ∙ drop-append_length v4 value 4 hv)
