-- ===== src/GroupsFile/Sorted.antt =====
-- Sorting a list by a key that differs does not change what is found under a key.
use marchiq.Base.{
  ◌≡◌, refl, ap, ◌∙◌, sym, Bool, false, List, [], ◌∷◌, ◌++◌, All, Option, none, some, if◌then◌else◌,
  if_rule, Bool-cases, inl, inr,
}
use marchiq.Names.{Name, eq_name, eq_name_refl, eq_name→≡}
use marchiq.Sorting.{insert, sort_from, sort}

pub eq_name_sym : (a b : Name) → eq_name a b ≡ false → eq_name b a ≡ false
eq_name_sym a b h = elim (Bool-cases (eq_name b a)) [
  | inl e ↦ cc (h, eq_name→≡ b a e, eq_name_refl a)
  | inr e ↦ e
]

module _ {A : Type 0} (key : A → Name) where
  -- The first element of a key.
  abbrev pub find : Name → List A → Option A
  find k [] = none
  find k (x ∷ xs) = let rest = find k xs in if eq_name k (key x) then some x else rest

  -- No element has the key of another.
  abbrev pub Differs : A → List A → Type 0
  Differs x xs = All (λ y. eq_name (key x) (key y) ≡ false) xs

  abbrev pub Distinct : List A → Type 0
  Distinct [] = Unit
  Distinct (x ∷ xs) = Differs x xs × Distinct xs

  -- An element may pass another.
  pass :
      (k : Name) (x y : A) (xs : List A)
      → eq_name (key x) (key y) ≡ false
      → find k (x ∷ y ∷ xs) ≡ find k (y ∷ x ∷ xs)
  pass k x y xs h = elim (Bool-cases (eq_name k (key x))) [
    | inl ex ↦ elim (Bool-cases (eq_name k (key y))) [
      | inl ey ↦ cc (h, eq_name→≡ k (key x) ex, ey)
      | inr ey ↦ rw (ex) (rw (ey) refl)
    ]
    | inr ex ↦ rw (ex) refl
  ]

  -- All of `acc` differ from all of `xs`.
  abbrev Apart : List A → List A → Type 0
  Apart acc xs = All (λ x. Differs x acc) xs

  pub record Sorts (acc xs out : List A) : Type 0 where
    pub distinct : Distinct out
    pub same : (k : Name) → find k out ≡ find k (xs ++ acc)

  find-append :
      (k : Name) (xs ys zs : List A) → find k ys ≡ find k zs → find k (xs ++ ys) ≡ find k (xs ++ zs)
  find-append k [] ys zs e = e
  find-append k (x ∷ xs) ys zs e =
      ap (λ r. if eq_name k (key x) then some x else r) (find-append k xs ys zs e)

  find_middle :
      (k : Name) (x : A) (xs acc : List A)
      → Differs x xs
      → find k (xs ++ (x ∷ acc)) ≡ find k (x ∷ xs ++ acc)
  find_middle k x [] acc h = refl
  find_middle k x (y ∷ xs) acc h =
      ap (λ r. if eq_name k (key y) then some y else r) (find_middle k x xs acc h.1)
      ∙ sym (pass k x y (xs ++ acc) h.0)

module _ {A : Type 0} (lt : A → A → Bool) (key : A → Name) where
  find-insert :
      (k : Name) (x : A) (ys : List A)
      → Differs key x ys
      → find key k (insert lt x ys) ≡ find key k (x ∷ ys)
  find-insert k x [] h = refl
  find-insert k x (y ∷ ys) h =
      if_rule (λ l. find key k l ≡ find key k (x ∷ y ∷ ys)) (lt x y) (x ∷ y ∷ ys)
        (y ∷ insert lt x ys) (λ _. refl)
        λ _.
          ap (λ r. if eq_name k (key y) then some y else r) (find-insert k x ys h.1)
          ∙ sym (pass key k x y ys h.0)

  insert-All : (P : A → Type 0) (x : A) (ys : List A) → P x → All P ys → All P (insert lt x ys)
  insert-All P x [] px h = (px, tt)
  insert-All P x (y ∷ ys) px h =
      if_rule (All P) (lt x y) (x ∷ y ∷ ys) (y ∷ insert lt x ys) (λ _. (px, h))
        (λ _. (h.0, insert-All P x ys px h.1))

  insert-Distinct :
      (x : A) (ys : List A) → Differs key x ys → Distinct key ys → Distinct key (insert lt x ys)
  insert-Distinct x [] h d = (tt, tt)
  insert-Distinct x (y ∷ ys) h d =
      if_rule (Distinct key) (lt x y) (x ∷ y ∷ ys) (y ∷ insert lt x ys) (λ _. (h, d))
        λ _. (
          insert-All (λ z. eq_name (key y) (key z) ≡ false) x ys (eq_name_sym (key x) (key y) h.0)
              d.0,
          insert-Distinct x ys h.1 d.1,
        )

  Apart-insert :
      (x : A) (acc xs : List A)
      → Differs key x xs
      → Apart key acc xs
      → Apart key (insert lt x acc) xs
  Apart-insert x acc [] h a = tt
  Apart-insert x acc (z ∷ xs) h a = (
    insert-All (λ y. eq_name (key z) (key y) ≡ false) x acc (eq_name_sym (key x) (key z) h.0) a.0,
    Apart-insert x acc xs h.1 a.1,
  )

  sort_from-Sorts :
      (acc xs : List A)
      → Distinct key acc
      → Distinct key xs
      → Apart key acc xs
      → Sorts key acc xs (sort_from lt acc xs)
  sort_from-Sorts acc [] da dx a = record { distinct = da; same = λ k. refl }
  sort_from-Sorts acc (x ∷ xs) da dx a =
      let t =
        sort_from-Sorts (insert lt x acc) xs (insert-Distinct x acc a.0 da) dx.1
          (Apart-insert x acc xs dx.0 a.1) in
      record {
        distinct = t.distinct;
        same = λ k.
            t.same k
            ∙ find-append key k xs (insert lt x acc) (x ∷ acc) (find-insert k x acc a.0)
            ∙ find_middle key k x xs acc dx.0;
      }

  pub sort-Sorts : (xs : List A) → Distinct key xs → Sorts key [] xs (sort lt xs)
  sort-Sorts xs d = sort_from-Sorts [] xs tt d (none_before xs)
    where
      none_before : (ys : List A) → Apart key [] ys
      none_before [] = tt
      none_before (y ∷ ys) = (tt, none_before ys)

  -- What holds of all elements, holds of the sorted ones.
  sort_from-All :
      (P : A → Type 0) (acc xs : List A) → All P acc → All P xs → All P (sort_from lt acc xs)
  sort_from-All P acc [] ha hx = ha
  sort_from-All P acc (x ∷ xs) ha hx =
      sort_from-All P (insert lt x acc) xs (insert-All P x acc hx.0 ha) hx.1

  pub sort-All : (P : A → Type 0) (xs : List A) → All P xs → All P (sort lt xs)
  sort-All P xs h = sort_from-All P [] xs tt h
