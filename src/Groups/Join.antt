-- ===== src/Groups/Join.antt =====
-- Seats are kept: a member that joins again gets the seat it has, and no group grows too large.
use marchiq.Base.{
  ok-injective, ℕ, suc, ◌+◌, ◌≤◌, ◌<◌, ◌≡◌, refl, sym, ap, ◌≢◌, group_conflict, ◌∙◌, Bool, true,
  false, List, [], ◌∷◌, ◌++◌, length, length-append, leb, ◌==◌, not, if◌then◌else◌, arith,
  Bool-cases, inl, inr, Option, some, none, ok, err,
}
use mathlib.Core.Path.{subst}
use marchiq.Names.{Name, eq_name, eq_name_refl}
use marchiq.Groups.{GroupTopic, Seat, seat, seat_at, find_from, ordinal_of, add_member}

find_from-append :
    (i : ℕ) (m : Name) (ms : List Name)
    → find_from i m ms ≡ none
    → find_from i m (ms ++ (m ∷ [])) ≡ some (i + length ms)
find_from-append i m [] e = ground (arith, eq_name_refl m)
find_from-append i m (x ∷ xs) e = ground (arith, find_from-append (suc i) m xs)

-- The seat `s` of a member is the one that its next join finds, and the group has room for it.
pub record IsKept (member : Name) (size : ℕ) (s : Seat) : Type 0 where
  pub again : seat s.2 member size ≡ ok s
  pub room : length s.2.members ≤ s.2.size
  pub below : s.1 < length s.2.members

find_from-lt : (i k : ℕ) (m : Name) (ms : List Name) → find_from i m ms ≡ some k → k < i + length ms
find_from-lt i k m [] e = cc
find_from-lt i k m (x ∷ xs) e = elim (Bool-cases (eq_name x m)) [
  | inl same ↦ ground (arith, same)
  | inr other ↦ ground (arith, other, find_from-lt (suc i) k m xs)
]

seat-at :
    (gt : GroupTopic) (m : Name) (size : ℕ) (o : Option ℕ)
    → gt.size == size ≡ true
    → ordinal_of m gt.members ≡ o
    → seat gt m size ≡ seat_at gt m o
unfolding seat
seat-at gt m size o c e =
    ap (λ t. if not t then err group_conflict else seat_at gt m (ordinal_of m gt.members)) c
    ∙ ap (seat_at gt m) e

module _ (gt : GroupTopic) (x : ℕ) (xs : List ℕ) (size : ℕ) (c : gt.size == size ≡ true)
    (le : length gt.members ≤ gt.size) where
  abbrev m : Name
  m = x ∷ xs

  found-IsKept : (i : ℕ) → ordinal_of m gt.members ≡ some i → IsKept m size (m, i, gt)
  found-IsKept i e = record {
    again = seat-at gt m size (some i) c e;
    room = le;
    below = omega (arith, find_from-lt 0 i m gt.members e);
  }

  added-IsKept :
      ordinal_of m gt.members ≡ none
      → leb gt.size (length gt.members) ≡ false
      → IsKept m size (m, length gt.members, add_member gt m)
  added-IsKept e f = record {
    again =
        seat-at (add_member gt m) m size (some (0 + length gt.members)) c
          (find_from-append 0 m gt.members e)
        ∙ ap (λ k. ok (m, k, add_member gt m)) (omega arith);
    room = ground (arith, f, length-append gt.members (m ∷ []));
    below = omega (arith, length-append gt.members (m ∷ []));
  }

  seat_at-IsKept :
      (o : Option ℕ) (s : Seat)
      → ordinal_of m gt.members ≡ o
      → seat_at gt m o ≡ ok s
      → IsKept m size s
  seat_at-IsKept (some i) s e h = subst (IsKept m size) (ok-injective _ s h) (found-IsKept i e)
  seat_at-IsKept none s e h = elim (Bool-cases (leb gt.size (length gt.members))) [
    | inl full ↦ absurd (refused (leb gt.size (length gt.members)) full h)
    | inr room ↦
        subst (IsKept m size)
          (ok-injective _ s (sym (taken (leb gt.size (length gt.members)) room) ∙ h))
          (added-IsKept e room)
  ]
    where
      next : Seat
      next = (m, length gt.members, add_member gt m)

      refused : (b : Bool) → b ≡ true → (if b then err group_conflict else ok next) ≢ ok s
      refused true e h = cc
      refused false e h = cc

      taken : (b : Bool) → b ≡ false → (if b then err group_conflict else ok next) ≡ ok next
      taken true e = cc
      taken false e = refl

-- Where a member that names itself is given a seat, in a binding of at most as many members as its
-- size, then the same join again gives the same seat and changes nothing. The binding still has at
-- most as many members as its size, and the seat's ordinal is one of theirs.
pub seat-IsKept :
    (gt : GroupTopic) (x : ℕ) (xs : List ℕ) (size : ℕ) (s : Seat)
    → length gt.members ≤ gt.size
    → seat gt (x ∷ xs) size ≡ ok s
    → IsKept (x ∷ xs) size s
unfolding seat
seat-IsKept gt x xs size s le h = elim (Bool-cases (gt.size == size)) [
  | inl c ↦
      seat_at-IsKept gt x xs size c le (ordinal_of (x ∷ xs) gt.members) s refl
        (sym (seat-at gt (x ∷ xs) size (ordinal_of (x ∷ xs) gt.members) c refl) ∙ h)
  | inr d ↦ absurd (mismatch (gt.size == size) d h)
]
  where
    mismatch :
        (b : Bool)
        → b ≡ false
        → (if not b
            then err group_conflict
            else seat_at gt (x ∷ xs) (ordinal_of (x ∷ xs) gt.members))
          ≢ ok s
    mismatch true e h = cc
    mismatch false e h = cc
