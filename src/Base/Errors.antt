-- ===== src/Base/Errors.antt =====
-- The sentinel errors of storage/types.go and storage/record.go, and the pair (value, error) that
-- a Go function returns.
use mathlib.Core.Option.{Option, none, some}
use mathlib.Core.Path.{◌≡◌, refl, ap, ◌∙◌}

-- `other` is an error that wraps no sentinel: a message of `fmt.Errorf`, or the operating system's.
pub data Error : Type 0 where
  eof unexpected_eof corrupt_record record_too_large : Error
  topic_exists topic_not_found partition_not_found closed offset_out_of_range : Error
  group_not_found group_conflict member_required partition_fenced result_uncertain : Error
  other : Error
  -- No error of the program: a loop of the model ran out of fuel, or the program would panic.
  stuck : Error

pub data Result {ℓ} (A : Type ℓ) : Type ℓ where
  ok : A → Result A
  err : Error → Result A

infixl 5 ◌>>=◌ ◌>>◌
abbrev pub ◌>>=◌ {ℓ κ} : {A : Type ℓ} {B : Type κ} → Result A → (A → Result B) → Result B
ok a >>= f = f a
err e >>= f = err e

abbrev pub ◌>>◌ {ℓ κ} : {A : Type ℓ} {B : Type κ} → Result A → Result B → Result B
m >> k = m >>= λ _. k

pub ok-injective {ℓ} : {A : Type ℓ} (x y : A) → ok x ≡ ok y → x ≡ y
ok-injective x y e = cc

pub >>=-ok {ℓ κ} :
    {A : Type ℓ} {B : Type κ} (m : Result A) (f : A → Result B) (a : A) (b : B)
    → m ≡ ok a
    → f a ≡ ok b
    → (m >>= f) ≡ ok b
>>=-ok m f a b e h = ap (λ r. r >>= f) e ∙ h

-- How a chain of two steps came to its value.
pub record Passed {ℓ κ} {A : Type ℓ} {B : Type κ} (step : Result A) (last : A → Result B)
    (value : B) : Type (ℓ ⊔ κ) where
  pub between : A
  pub first : step ≡ ok between
  pub second : last between ≡ ok value

pub chain-Passed {ℓ κ} :
    {A : Type ℓ} {B : Type κ} (step : Result A) (last : A → Result B) (value : B)
    → step >>= last ≡ ok value
    → Passed step last value
chain-Passed (err x) last value whole = cc
chain-Passed (ok y) last value whole = record { between = y; first = refl; second = whole }

-- Inversion of a successful lookup.
pub found_inv {ℓ κ} :
    {A : Type ℓ} {B : Type κ} (o : Option A) (e : Error) (f : A → Result B) (y : B)
    → (elim o [ none ↦ err e | some x ↦ f x ]) ≡ ok y
    → (x : A) × (o ≡ some x) × (f x ≡ ok y)
found_inv none e f y h = cc
found_inv (some x) e f y h = (x, refl, h)

-- A property of both branches, each with its equation.
pub option_rule {ℓ κ μ} :
    {A : Type ℓ} {B : Type κ} (P : B → Type μ) (o : Option A) (x : B) (f : A → B)
    → (o ≡ none → P x)
    → ((a : A) → o ≡ some a → P (f a))
    → P (elim o [ none ↦ x | some a ↦ f a ])
option_rule P none x f h k = h refl
option_rule P (some a) x f h k = k a refl

pub result_rule {ℓ κ μ} :
    {A : Type ℓ} {B : Type κ} (P : B → Type μ) (r : Result A) (f : Error → B) (g : A → B)
    → ((e : Error) → r ≡ err e → P (f e))
    → ((a : A) → r ≡ ok a → P (g a))
    → P (elim r [ err e ↦ f e | ok a ↦ g a ])
result_rule P (err e) f g h k = h e refl
result_rule P (ok a) f g h k = k a refl
