-- ===== src/Names.antt =====
-- Go strings, as their bytes: storage/types.go's `topicName` and `TopicConfig`, and the member ids
-- that storage/group.go generates.
use marchiq.Base.{
  ℕ, zero, suc, ◌+◌, ◌/◌, ◌%◌, ◌≡◌, refl, Bool, true, false, ◌&&◌, ◌||◌, not, List, [], ◌∷◌, length,
  ltb, leb, ◌==◌, if◌then◌else◌, ℤ, pos, negsuc, is_positive, pos_part, other, Result, ok, err,
  arith,
}

abbrev pub Name : Type 0
Name = List ℕ

unfoldable pub eq_name : Name → Name → Bool
eq_name [] [] = true
eq_name [] (y ∷ ys) = false
eq_name (x ∷ xs) [] = false
eq_name (x ∷ xs) (y ∷ ys) = let rest = eq_name xs ys in if x == y then rest else false

pub eq_name_refl : (a : Name) → eq_name a a ≡ true
unfolding eq_name
eq_name_refl [] = refl
eq_name_refl (x ∷ xs) = ground (arith, eq_name_refl xs)

pub eq_name→≡ : (a b : Name) → eq_name a b ≡ true → a ≡ b
unfolding eq_name
eq_name→≡ [] [] h = refl
eq_name→≡ [] (y ∷ ys) h = cc
eq_name→≡ (x ∷ xs) [] h = cc
eq_name→≡ (x ∷ xs) (y ∷ ys) h = ground (arith, eq_name→≡ xs ys)

-- `a < b`, byte by byte.
unfoldable pub name_lt : Name → Name → Bool
name_lt a [] = false
name_lt [] (y ∷ ys) = true
name_lt (x ∷ xs) (y ∷ ys) =
    let rest = name_lt xs ys in if ltb x y then true else if ltb y x then false else rest

pub name_lt_asym : (a b : Name) → name_lt a b ≡ true → name_lt b a ≡ false
unfolding name_lt
name_lt_asym [] [] h = refl
name_lt_asym (x ∷ xs) [] h = cc
name_lt_asym [] (y ∷ ys) h = refl
name_lt_asym (x ∷ xs) (y ∷ ys) h = ground (arith, name_lt_asym xs ys)

pub name_lt_below : (a b c : Name) → name_lt a b ≡ true → name_lt c b ≡ false → name_lt c a ≡ false
unfolding name_lt
name_lt_below a [] c h k = cc
name_lt_below a (y ∷ ys) [] h k = cc
name_lt_below [] (y ∷ ys) (z ∷ zs) h k = refl
name_lt_below (x ∷ xs) (y ∷ ys) (z ∷ zs) h k = ground (arith, name_lt_below xs ys zs)

abbrev pub is_digit : ℕ → Bool
is_digit b = leb b'0' b && leb b b'9'

-- `[a-zA-Z0-9]`
abbrev pub is_alnum : ℕ → Bool
is_alnum b = leb b'0' b && leb b b'9' || (leb b'A' b && leb b b'Z' || (leb b'a' b && leb b b'z'))

-- `[a-zA-Z0-9._-]`
abbrev pub is_name_byte : ℕ → Bool
is_name_byte b = is_alnum b || (b == b'.' || (b == b'_' || b == b'-'))

abbrev pub all_name_bytes : List ℕ → Bool
all_name_bytes [] = true
all_name_bytes (b ∷ bs) = is_name_byte b && all_name_bytes bs

-- `^[a-zA-Z0-9][a-zA-Z0-9._-]{0,248}$`
unfoldable pub is_topic_name : Name → Bool
is_topic_name [] = false
is_topic_name (b ∷ bs) = is_alnum b && (all_name_bytes bs && leb (length bs) 248)

pub record TopicConfig : Type 0 where
  pub name : Name
  pub partitions : ℤ
  pub retention_ms : ℤ
  pub retention_bytes : ℤ

abbrev pub is_negative : ℤ → Bool
is_negative (pos n) = false
is_negative (negsuc n) = true

unfoldable pub validate : TopicConfig → Result (Unit {0})
validate c =
    if not (is_topic_name c.name)
    then err other
    else if not (is_positive c.partitions) || ltb 1024 (pos_part c.partitions)
    then err other
    else if is_negative c.retention_ms || is_negative c.retention_bytes
    then err other
    else ok tt

-- The digits of `n`, before the digits `acc`. Each round divides by ten, so `n` rounds are enough.
abbrev pub decimal_loop : ℕ → ℕ → List ℕ → List ℕ
decimal_loop zero n acc = (b'0' + n % 10) ∷ acc
decimal_loop (suc fuel) n acc =
    let rest = decimal_loop fuel (n / 10) ((b'0' + n % 10) ∷ acc) in
    if ltb n 10 then (b'0' + n) ∷ acc else rest

-- `strconv.FormatInt` of a number that is not negative.
unfoldable pub decimal : ℕ → Name
decimal n = decimal_loop n n []

-- `fmt.Sprintf("member-%d", n)`
unfoldable pub member_name : ℕ → Name
member_name n = b'm' ∷ b'e' ∷ b'm' ∷ b'b' ∷ b'e' ∷ b'r' ∷ b'-' ∷ decimal n
