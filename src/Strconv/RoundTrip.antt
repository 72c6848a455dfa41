-- ===== src/Strconv/RoundTrip.antt =====
-- Printing a number and reading it back.
use marchiq.Base.{
  ℕ, zero, suc, ◌+◌, ◌*◌, ◌/◌, ◌%◌, ◌≤◌, ◌<◌, ◌≡◌, refl, ap, ◌∙◌, ℤ, pos, negsuc, IsInt64, true,
  false, [], ◌∷◌, some, Bool-cases, inl, inr, ltb, ◌-◌, ◌==◌, length, arith,
}
use mathlib.Core.Path.{subst}
use marchiq.Names.{Name, decimal, decimal_loop, is_digit}
use marchiq.Strconv.{parse_digits, parse_uint, signed, parse_int, format_int}

-- One digit.
parse_digits_step :
    (m d n : ℕ) (acc : Name)
    → d < 10
    → m * 10 + d ≡ n
    → parse_digits m ((b'0' + d) ∷ acc) ≡ parse_digits n acc
parse_digits_step m d n acc lt e = ground (arith, same)
  where
    same : parse_digits (m * 10 + (b'0' + d - b'0')) acc ≡ parse_digits n acc
    same = ap (λ x. parse_digits x acc) (omega (arith, e))

-- The digits of a number put it before what follows.
parse_digits-decimal_loop :
    (fuel n : ℕ) (acc : Name)
    → n ≤ fuel
    → parse_digits 0 (decimal_loop fuel n acc) ≡ parse_digits n acc
parse_digits-decimal_loop zero n acc le =
    parse_digits_step 0 (n % 10) n acc (omega arith) (omega (arith, le))
parse_digits-decimal_loop (suc fuel) n acc le = elim (Bool-cases (ltb n 10)) [
  | inl small ↦ rw (small) (parse_digits_step 0 n n acc (ground (arith, small)) (omega arith))
  | inr large ↦ rw (large) (
      parse_digits-decimal_loop fuel (n / 10) ((b'0' + n % 10) ∷ acc) (omega (arith, le))
      ∙ parse_digits_step (n / 10) (n % 10) n acc (omega arith) (omega arith))
]

-- A list that begins with a digit.
abbrev Leads : Name → Type 0
Leads bs = (b : ℕ) × (rest : Name) × (bs ≡ b ∷ rest) × (is_digit b ≡ true)

decimal_loop-Leads : (fuel n : ℕ) (acc : Name) → Leads (decimal_loop fuel n acc)
decimal_loop-Leads zero n acc = (b'0' + n % 10, acc, refl, ground arith)
decimal_loop-Leads (suc fuel) n acc = elim (Bool-cases (ltb n 10)) [
  | inl small ↦ (b'0' + n, acc, rw (small) refl, ground (arith, small))
  | inr large ↦
      let (b, rest, e, h) = decimal_loop-Leads fuel (n / 10) ((b'0' + n % 10) ∷ acc) in
      (b, rest, rw (large) e, h)
]

-- A number without a sign begins with a digit.
parse_int-Leads :
    (bs : Name) (n : ℕ)
    → Leads bs
    → parse_digits 0 bs ≡ some n
    → (parse_uint bs ≡ some n) × (parse_int bs ≡ signed false (some n))
unfolding parse_int
parse_int-Leads bs n (b, rest, e, h) p = rw (e) (plain (subst (λ x. parse_digits 0 x ≡ some n) e p))
  where
    plain :
        parse_digits 0 (b ∷ rest) ≡ some n
        → (parse_digits 0 (b ∷ rest) ≡ some n) × (parse_int (b ∷ rest) ≡ signed false (some n))
    plain q = (q, ground (arith, h, ap (signed false) q))

pub parse_digits-decimal : (n : ℕ) → parse_digits 0 (decimal n) ≡ some n
unfolding decimal
parse_digits-decimal n = parse_digits-decimal_loop n n [] (omega arith)

decimal_parts :
    (n : ℕ) → (parse_uint (decimal n) ≡ some n) × (parse_int (decimal n) ≡ signed false (some n))
unfolding decimal
decimal_parts n =
    parse_int-Leads (decimal_loop n n []) n (decimal_loop-Leads n n [])
      (parse_digits-decimal_loop n n [] (omega arith))

-- Every `int64` that was printed is read back.
pub parse_int-format_int : (i : ℤ) → IsInt64 i → parse_int (format_int i) ≡ some i
unfolding parse_int
parse_int-format_int (pos n) h = (decimal_parts n).1 ∙ ground (arith, h)
parse_int-format_int (negsuc n) h = ap (signed true) (decimal_parts (suc n)).0 ∙ ground (arith, h)

-- A printed number is not the empty string.
pub length-decimal : (n : ℕ) → (length (decimal n) == 0) ≡ false
unfolding decimal
length-decimal n = let (b, rest, e, h) = decimal_loop-Leads n n [] in rw (e) (nonempty b rest)
  where
    nonempty : (b : ℕ) (rest : Name) → (length (b ∷ rest) == 0) ≡ false
    nonempty b rest = ground arith
