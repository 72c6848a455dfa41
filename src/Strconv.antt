-- ===== src/Strconv.antt =====
-- Go's `strconv`, which storage/ and cmd/marchiq/main.go use: decimal numbers as strings.
pub mod RoundTrip
use marchiq.Base.{
  ℕ, zero, suc, ◌+◌, ◌-◌, ◌*◌, ◌^◌, ℤ, pos, negsuc, Bool, true, false, List, [], ◌∷◌, Option, none,
  some, ltb, ◌==◌, if◌then◌else◌,
}
use marchiq.Names.{Name, is_digit, decimal}

-- `strconv.ParseUint` in base 10, without its bound.
abbrev pub parse_digits : ℕ → Name → Option ℕ
parse_digits n [] = some n
parse_digits n (b ∷ bs) =
    let rest = parse_digits (n * 10 + (b - b'0')) bs in if is_digit b then rest else none

abbrev pub parse_uint : Name → Option ℕ
parse_uint [] = none
parse_uint (b ∷ bs) = parse_digits 0 (b ∷ bs)

-- A number with its sign, if an `int64` holds it. `-0` is 0.
abbrev pub signed : Bool → Option ℕ → Option ℤ
signed negative none = none
signed false (some n) = if ltb n (2 ^ 63) then some (pos n) else none
signed true (some zero) = some (pos 0)
signed true (some (suc n)) = if ltb n (2 ^ 63) then some (negsuc n) else none

-- `strconv.ParseInt(s, 10, 64)`, and `strconv.Atoi` where an `int` has 64 bits.
unfoldable pub parse_int : Name → Option ℤ
parse_int [] = none
parse_int (b ∷ bs) =
    if b == b'-'
    then signed true (parse_uint bs)
    else if b == b'+'
    then signed false (parse_uint bs)
    else signed false (parse_uint (b ∷ bs))

-- `strconv.FormatInt`
abbrev pub format_int : ℤ → Name
format_int (pos n) = decimal n
format_int (negsuc n) = b'-' ∷ decimal (suc n)
