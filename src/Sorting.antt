-- ===== src/Sorting.antt =====
-- `sort.Slice` by a key, which the catalogs and the lag report use: a stable insertion sort. The
-- order among equal keys, which Go leaves open, plays no part where keys differ.
use mathlib.Core.Path.{subst}
use marchiq.Base.{
  ◌≡◌, refl, ap, ◌∙◌, sym, Bool, true, false, List, [], ◌∷◌, ◌++◌, All, if◌then◌else◌, if_rule,
  arith, append_assoc, append-nil,
}

module _ {ℓ} {A : Type ℓ} (lt : A → A → Bool) where
  -- Behind all elements that are not greater.
  abbrev pub insert : A → List A → List A
  insert x [] = x ∷ []
  insert x (y ∷ ys) = let rest = insert x ys in if lt x y then x ∷ y ∷ ys else y ∷ rest

  abbrev pub sort_from : List A → List A → List A
  sort_from acc [] = acc
  sort_from acc (x ∷ xs) = sort_from (insert x acc) xs

  abbrev pub sort : List A → List A
  sort xs = sort_from [] xs

  -- No element is less than one before it.
  abbrev pub Ordered : List A → Type 0
  Ordered [] = Unit
  Ordered (x ∷ xs) = All (λ y. lt y x ≡ false) xs × Ordered xs

  pub sort_from-append :
      (acc xs : List A) (x : A) → sort_from acc (xs ++ (x ∷ [])) ≡ insert x (sort_from acc xs)
  sort_from-append acc [] x = refl
  sort_from-append acc (y ∷ ys) x = sort_from-append (insert y acc) ys x

  insert-All : (P : A → Type 0) (x : A) (ys : List A) → P x → All P ys → All P (insert x ys)
  insert-All P x [] px h = (px, tt)
  insert-All P x (y ∷ ys) px h =
      if_rule (All P) (lt x y) (x ∷ y ∷ ys) (y ∷ insert x ys) (λ _. (px, h))
        (λ _. (h.0, insert-All P x ys px h.1))

  -- An element that is not less than any goes to the end.
  insert_last :
      (x : A) (acc : List A) → All (λ y. lt x y ≡ false) acc → insert x acc ≡ acc ++ (x ∷ [])
  insert_last x [] h = refl
  insert_last x (y ∷ ys) h = ground (arith, insert_last x ys h.1)

  before :
      (acc : List A) (x : A) (ys : List A)
      → Ordered (acc ++ (x ∷ ys))
      → All (λ y. lt x y ≡ false) acc
  before [] x ys h = tt
  before (a ∷ acc) x ys h = (All-middle acc h.0, before acc x ys h.1)
    where
      All-middle : (acc : List A) → All (λ y. lt y a ≡ false) (acc ++ (x ∷ ys)) → lt x a ≡ false
      All-middle [] k = k.0
      All-middle (b ∷ bs) k = All-middle bs k.1

  -- A list that is in order stays as it is.
  pub sort_from_sorted : (acc xs : List A) → Ordered (acc ++ xs) → sort_from acc xs ≡ acc ++ xs
  sort_from_sorted acc [] h = sym (append-nil acc)
  sort_from_sorted acc (x ∷ xs) h =
      ap (λ l. sort_from l xs) (insert_last x acc (before acc x xs h))
      ∙ sort_from_sorted (acc ++ (x ∷ [])) xs (subst Ordered (sym (append_assoc acc (x ∷ []) xs)) h)
      ∙ append_assoc acc (x ∷ []) xs

  module _ (asym : (x y : A) → lt x y ≡ true → lt y x ≡ false)
      (below : (x y z : A) → lt x y ≡ true → lt z y ≡ false → lt z x ≡ false) where
    All-below :
        (x y : A)
        → lt x y ≡ true
        → (ys : List A) → All (λ z. lt z y ≡ false) ys
        → All (λ z. lt z x ≡ false) ys
    All-below x y e [] h = tt
    All-below x y e (z ∷ zs) h = (below x y z e h.0, All-below x y e zs h.1)

    insert-Ordered : (x : A) (ys : List A) → Ordered ys → Ordered (insert x ys)
    insert-Ordered x [] h = (tt, tt)
    insert-Ordered x (y ∷ ys) h =
        if_rule Ordered (lt x y) (x ∷ y ∷ ys) (y ∷ insert x ys)
          (λ e. ((asym x y e, All-below x y e ys h.0), h))
          (λ e. (insert-All (λ z. lt z y ≡ false) x ys e h.0, insert-Ordered x ys h.1))

    pub sort_from-Ordered : (acc xs : List A) → Ordered acc → Ordered (sort_from acc xs)
    sort_from-Ordered acc [] h = h
    sort_from-Ordered acc (x ∷ xs) h = sort_from-Ordered (insert x acc) xs (insert-Ordered x acc h)

    -- One more element for a list that was sorted before.
    pub sort_again : (xs : List A) (x : A) → sort (sort xs ++ (x ∷ [])) ≡ sort (xs ++ (x ∷ []))
    sort_again xs x =
        sort_from-append [] (sort xs) x
        ∙ ap (insert x) (sort_from_sorted [] (sort xs) (sort_from-Ordered [] xs tt))
        ∙ sym (sort_from-append [] xs x)
