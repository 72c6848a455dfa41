-- ===== src/Maps.antt =====
-- Go maps as association lists, with the test on keys as an argument.
use marchiq.Base.{
  All, if_rule, false, ◌++◌, ◌≡◌, refl, ap, Bool, true, List, [], ◌∷◌, Option, none, some,
  if◌then◌else◌, arith, Bool-cases, inl, inr,
}
use mathlib.Core.Path.{subst}

module _ {ℓ κ} {K : Type ℓ} {V : Type κ} (eq : K → K → Bool) where
  abbrev pub get : K → List (K × V) → Option V
  get k [] = none
  get k ((j, v) ∷ m) = let rest = get k m in if eq k j then some v else rest

  -- `m[k] = v`, in place where the key is there already.
  abbrev pub set : K → V → List (K × V) → List (K × V)
  set k v [] = (k, v) ∷ []
  set k v ((j, w) ∷ m) = let rest = set k v m in if eq k j then (j, v) ∷ m else (j, w) ∷ rest

  -- `delete(m, k)`
  abbrev pub delete : K → List (K × V) → List (K × V)
  delete k [] = []
  delete k ((j, v) ∷ m) = let rest = delete k m in if eq k j then m else (j, v) ∷ rest

  -- An assignment that puts back what was there changes nothing.
  pub set_back : (k : K) (v : V) (m : List (K × V)) → get k m ≡ some v → set k v m ≡ m
  set_back k v [] h = cc
  set_back k v ((j, w) ∷ m) h = elim (Bool-cases (eq k j)) [
    | inl same ↦ ground (arith, same)
    | inr other ↦ ground (arith, other, set_back k v m)
  ]

  pub set-set :
      (k : K) (v w : V) (m : List (K × V)) → eq k k ≡ true → set k v (set k w m) ≡ set k v m
  set-set k v w [] e = rw (e) refl
  set-set k v w ((j, u) ∷ m) e = elim (Bool-cases (eq k j)) [
    | inl same ↦ rw (same) (rw (same) refl)
    | inr other ↦ rw (other) (rw (other) (ap (λ l. (j, u) ∷ l) (set-set k v w m e)))
  ]

  pub delete-set :
      (k : K) (w : V) (m : List (K × V)) → eq k k ≡ true → get k m ≡ none → delete k (set k w m) ≡ m
  delete-set k w [] e h = rw (e) refl
  delete-set k w ((j, u) ∷ m) e h = elim (Bool-cases (eq k j)) [
    | inl same ↦ ground (arith, same)
    | inr other ↦ ground (arith, other, delete-set k w m e)
  ]

  pub get-set : (k : K) (w : V) (m : List (K × V)) → eq k k ≡ true → get k (set k w m) ≡ some w
  get-set k w [] e = rw (e) refl
  get-set k w ((j, u) ∷ m) e = elim (Bool-cases (eq k j)) [
    | inl same ↦ rw (same) (rw (same) refl)
    | inr other ↦ rw (other) (rw (other) (get-set k w m e))
  ]

  pub set-append :
      (k : K) (w : V) (m : List (K × V)) → get k m ≡ none → set k w m ≡ m ++ ((k, w) ∷ [])
  set-append k w [] h = refl
  set-append k w ((j, u) ∷ m) h = elim (Bool-cases (eq k j)) [
    | inl same ↦ ground (arith, same)
    | inr other ↦ ground (arith, other, set-append k w m)
  ]

  -- Another key keeps its value.
  pub get-set_ne :
      (i k : K) (w : V) (m : List (K × V))
      → ((j : K) → eq i j ≡ true → eq k j ≡ false)
      → eq i k ≡ false
      → get i (set k w m) ≡ get i m
  get-set_ne i k w [] h n = rw n refl
  get-set_ne i k w ((j, u) ∷ m) h n = elim (Bool-cases (eq k j)) [
    | inl same ↦ elim (Bool-cases (eq i j)) [
      | inl e ↦ cc (same, h j e)
      | inr e ↦ rw (same) (rw (e) refl)
    ]
    | inr other ↦ ground (arith, other, get-set_ne i k w m h n)
  ]

  -- What holds of all values, holds after an assignment, and of the value that is found.
  pub set-All {μ} :
      (P : V → Type μ) (k : K) (w : V) (m : List (K × V))
      → P w
      → All (λ e. P e.1) m
      → All (λ e. P e.1) (set k w m)
  set-All P k w [] p h = (p, tt)
  set-All P k w ((j, u) ∷ m) p h =
      if_rule (All (λ e. P e.1)) (eq k j) ((j, w) ∷ m) ((j, u) ∷ set k w m) (λ _. (p, h.1))
        (λ _. (h.0, set-All P k w m p h.1))

  pub get-All {μ} :
      (P : V → Type μ) (k : K) (w : V) (m : List (K × V))
      → get k m ≡ some w
      → All (λ e. P e.1) m
      → P w
  get-All P k w [] e h = cc
  get-All P k w ((j, u) ∷ m) e h = elim (Bool-cases (eq k j)) [
    | inl same ↦ subst P (ground (arith, same)) h.0
    | inr other ↦ get-All P k w m (ground (arith, other)) h.1
  ]
