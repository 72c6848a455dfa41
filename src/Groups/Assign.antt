-- ===== src/Groups/Assign.antt =====
-- The static assignment gives each partition to exactly one ordinal.
use marchiq.Base.{
  ℕ, zero, suc, ◌+◌, ◌%◌, ◌≤◌, ◌<◌, ◌≡◌, refl, sym, ap, ◌∙◌, ◌↔◌, Bool, true, false, ◌&&◌, ◌||◌,
  List, [], ◌∷◌, ◌==◌, if◌then◌else◌, arith, Bool-cases, inl, inr, ◌⊎◌,
}
use marchiq.Groups.{assigned, assigned_from}

-- Whether a number is in the list.
abbrev pub elem : ℕ → List ℕ → Bool
elem x [] = false
elem x (y ∷ ys) = x == y || elem x ys

-- The first number of the loop.
elem-first :
    (b : Bool) (p x : ℕ) (ys : List ℕ)
    → elem x (if b then p ∷ ys else ys) ≡ ((b && x == p) || elem x ys)
elem-first true p x ys = refl
elem-first false p x ys = refl

or-step : (b c d : Bool) → ((b && c) || d) ≡ true → ((b ≡ true) × (c ≡ true)) ⊎ (d ≡ true)
or-step b c d h = ground arith

elem-assigned_from :
    (rounds p size ordinal x : ℕ)
    → (elem x (assigned_from rounds p size ordinal) ≡ true)
      ↔ ((p ≤ x) × ((x < p + rounds) × (x % size ≡ ordinal)))
elem-assigned_from zero p size ordinal x = (λ h. cc, λ h. absurd (omega (arith, h)))
elem-assigned_from (suc rounds) p size ordinal x =
    let ih = elem-assigned_from rounds (suc p) size ordinal x in
    let ys = assigned_from rounds (suc p) size ordinal in
    let first = elem-first (p % size == ordinal) p x ys in
    (
      λ h. elim (or-step (p % size == ordinal) (x == p) (elem x ys) (sym first ∙ h)) [
        | inl (mine, same) ↦ here mine (is_same x p same)
        | inr later ↦ (omega (arith, (ih.0 later)), (omega (arith, (ih.0 later)), (ih.0 later).1.1))
      ],
      λ k. first ∙ elim (Bool-cases (x == p)) [
        | inl same ↦ ground (arith, same, mine_too (is_same x p same) k.1.1)
        | inr other ↦
            ground (arith, ih.1 (ground (arith, other, k.0), (omega (arith, k.1.0), k.1.1)))
      ],
    )
  where
    is_same : (x p : ℕ) → (x == p) ≡ true → x ≡ p
    is_same x p h = ground arith

    here :
        (p % size == ordinal) ≡ true
        → x ≡ p
        → (p ≤ x) × ((x < p + suc rounds) × (x % size ≡ ordinal))
    here mine e = (
      omega (arith, e),
      (omega (arith, e), ap (λ y. y % size) e ∙ is_same (p % size) ordinal mine),
    )

    mine_too : x ≡ p → x % size ≡ ordinal → (p % size == ordinal) ≡ true
    mine_too e h = is_eq (p % size) ordinal (ap (λ y. y % size) (sym e) ∙ h)
      where
        is_eq : (a c : ℕ) → a ≡ c → (a == c) ≡ true
        is_eq a c h = ground arith

-- A member of ordinal `ordinal` gets exactly the partitions whose number leaves that remainder: so
-- every partition goes to one ordinal below the size, and to no other.
pub assigned-elem :
    (n size ordinal x : ℕ)
    → (elem x (assigned n size ordinal) ≡ true) ↔ ((x < n) × (x % size ≡ ordinal))
unfolding assigned
assigned-elem n size ordinal x =
    let h = elem-assigned_from n 0 size ordinal x in
    (
      λ e. (omega (arith, (h.0 e).1.0), (h.0 e).1.1),
      λ k. h.1 (omega arith, (omega (arith, k.0), k.1)),
    )
