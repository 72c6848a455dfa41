-- ===== src/Http/Status.antt =====
-- An explicit fetch from an open broker of valid partitions is no server error.
use marchiq.Base.{
  ℕ, zero, suc, ◌<◌, ◌≡◌, refl, ap, ◌∙◌, sym, ℤ, pos, negsuc, true, false, ◌||◌, not, List, [], ◌∷◌,
  length, get_elem?, ◌==◌, All, Option, none, some, Error, partition_not_found, offset_out_of_range,
  Result, ok, err, ◌>>=◌, if_rule, option_rule, arith,
}
use mathlib.Core.Path.{subst}
use marchiq.Names.{Name, eq_name}
use marchiq.Maps.{get, get-All}
use marchiq.Codec.{Record}
use marchiq.Strconv.{parse_int}
use marchiq.Log.{PartitionLog}
use marchiq.Log.View.{IsValid}
use marchiq.Log.Read.{Offsets, offsets, read_from}
use marchiq.Log.Read.Range.{read_from_range}
use marchiq.Broker.{Broker, Topic, get_partition, fetch}
use marchiq.Http.{Query, Response, limit_param, positive, natural}
use marchiq.Http.Records.{
  fetch_status, fetch_answer, fetch_offset, fetch_explicit, both, parse_fetch_budget, get_fetch,
}
use marchiq.Invariant.{AreSound, get_elem?-All}
use marchiq.Invariant.Producing.{get_partition-At, get_partition-IsSound}

-- Every partition of every topic is open.
abbrev pub AllOpen : List (Name × Topic) → Type 0
AllOpen ts = All (λ e. All (λ p. p.closed ≡ false) e.1.partitions) ts

-- An error, if there is one, is the client's.
abbrev Fine : {A : Type 0} → Result A → Type 0
Fine (ok a) = Unit
Fine (err e) = fetch_status e < 500

>>=-Fine :
    {A B : Type 0} (m : Result A) (f : A → Result B)
    → Fine m
    → ((a : A) → m ≡ ok a → Fine (f a))
    → Fine (m >>= f)
>>=-Fine (ok a) f h k = k a refl
>>=-Fine (err e) f h k = h

get_partition-Fine :
    (b : Broker) (topic : Name) (n : ℕ) → b.closed ≡ false → Fine (get_partition b topic (pos n))
unfolding get_partition
get_partition-Fine b topic n op =
    if_rule Fine b.closed _ _ (λ c. absurd (never c))
      λ _.
        option_rule Fine (get eq_name topic b.topics) _ _ (λ _. omega arith)
          λ t _. option_rule Fine (get_elem? t.partitions n) _ _ (λ _. omega arith) (λ p _. tt)
  where
    never : b.closed ≡ true → ⊥
    never c = cc (op, c)

open_of :
    (b : Broker) (topic : Name) (n : ℕ) (p : PartitionLog)
    → AllOpen b.topics
    → get_partition b topic (pos n) ≡ ok p
    → p.closed ≡ false
open_of b topic n p h e =
    let (c, (t, found, at)) = get_partition-At b topic (pos n) p e in
    let opens =
      get-All eq_name (λ t. All (λ p. p.closed ≡ false) t.partitions) topic t b.topics found h in
    at_open t (get_elem? t.partitions n) refl opens at
  where
    at_open :
        (t : Topic) (o : Option PartitionLog)
        → get_elem? t.partitions n ≡ o
        → All (λ p. p.closed ≡ false) t.partitions
        → (elim o [ none ↦ err partition_not_found | some q ↦ ok q ]) ≡ ok p
        → p.closed ≡ false
    at_open t none same k at = cc
    at_open t (some q) same k at =
        get_elem?-All (λ p. p.closed ≡ false) t.partitions n p k (same ∙ cc)

read_from-Fine :
    (p : PartitionLog) (all : List Record) (o mr mb : ℕ)
    → IsValid p all
    → p.closed ≡ false
    → 0 < mr
    → 0 < mb
    → Fine (read_from p (pos o) (pos mr) (pos mb))
read_from-Fine p all o mr mb v op hr hb =
    answer (read_from p (pos o) (pos mr) (pos mb))
      (λ e same. ((read_from_range p all (pos o) mr mb e v op hr hb).0 same).0)
  where
    answer :
        (r : Result (List Record)) → ((e : Error) → r ≡ err e → e ≡ offset_out_of_range) → Fine r
    answer (ok rs) h = tt
    answer (err e) h = subst (λ x. fetch_status x < 500) (sym (h e refl)) (omega arith)

fetch-Fine :
    (b : Broker) (topic : Name) (n o mr mb : ℕ)
    → AreSound b.topics
    → AllOpen b.topics
    → b.closed ≡ false
    → 0 < mr
    → 0 < mb
    → Fine (fetch b topic (pos n) (pos o) (pos mr) (pos mb)).0
unfolding fetch offsets
fetch-Fine b topic n o mr mb s op c hr hb =
    >>=-Fine (get_partition b topic (pos n)) _ (get_partition-Fine b topic n c) λ p at.
      let ((all, v), _) = get_partition-IsSound b topic (pos n) p s at in
      let is_open = open_of b topic n p op at in
      >>=-Fine (read_from p (pos o) (pos mr) (pos mb)) _
        (read_from-Fine p all o mr mb v is_open hr hb) (λ rs _. rw (is_open) tt)

-- A limit that was parsed is above zero.
abbrev Above : ℤ → Type 0
Above i = (n : ℕ) × (i ≡ pos n) × (0 < n)

limit_param-Above : (d : ℕ) (s : Name) (i : ℤ) → 0 < d → limit_param (pos d) s ≡ some i → Above i
limit_param-Above d [] i h e = (d, cc, h)
limit_param-Above d (x ∷ xs) i h e = of (parse_int (x ∷ xs)) e
  where
    of : (o : Option ℤ) → positive o ≡ some i → Above i
    of none k = cc
    of (some (pos zero)) k = absurd (ground arith)
    of (some (pos (suc n))) k = (suc n, ground arith, omega arith)
    of (some (negsuc n)) k = cc

budget-Above : (q : Query) (l : ℤ × ℤ) → parse_fetch_budget q ≡ some l → Above l.0 × Above l.1
unfolding parse_fetch_budget
budget-Above q l e =
    of (limit_param (pos 1048576) q.max_bytes) (limit_param (pos 1000) q.max_records)
      (λ i h. limit_param-Above 1048576 q.max_bytes i (omega arith) h)
      (λ i h. limit_param-Above 1000 q.max_records i (omega arith) h) e
  where
    of :
        (x y : Option ℤ)
        → ((i : ℤ) → x ≡ some i → Above i)
        → ((i : ℤ) → y ≡ some i → Above i)
        → both x y ≡ some l
        → Above l.0 × Above l.1
    of none y h k e = cc
    of (some x) none h k e = cc
    of (some x) (some y) h k e =
        subst (λ m. Above m.0 × Above m.1) (pair x y e) (h x refl, k y refl)
      where
        pair : (x y : ℤ) → both (some x) (some y) ≡ some l → (x, y) ≡ l
        pair x y e = cc

abbrev ClientStatus : Response × Broker → Type 0
ClientStatus x = x.0.status < 500

fetch_answer-ClientStatus :
    (topic : Name) (n o : ℕ) (x : Result (List Record × Offsets) × Broker)
    → Fine x.0
    → ClientStatus (fetch_answer topic n o x)
fetch_answer-ClientStatus topic n o (ok rs, c) h = omega arith
fetch_answer-ClientStatus topic n o (err e, c) h = h

-- On an open broker of valid partitions that are open, and whose files are read without I/O errors,
-- `GET /fetch` without a group never answers with a server error, whatever its parameters are.
pub get_fetch-ClientStatus :
    (b : Broker) (q : Query)
    → AreSound b.topics
    → AllOpen b.topics
    → b.closed ≡ false
    → q.group ≡ []
    → (get_fetch b q).0.status < 500
unfolding get_fetch
get_fetch-ClientStatus b q s op c none_asked =
    option_rule ClientStatus (parse_fetch_budget q) _ _ (λ _. omega arith)
      λ l e.
        if_rule ClientStatus (not (length q.group == 0)) _ _ (λ h. absurd (no_group h))
          λ _. explicit l (budget-Above q l e)
  where
    no_group : not (length q.group == 0) ≡ true → ⊥
    no_group h = ground (arith, ap length none_asked)

    from :
        (mr mb n o : ℕ)
        → 0 < mr
        → 0 < mb
        → ClientStatus (fetch_offset b q (pos mr) (pos mb) n (some o))
    from mr mb n o hr hb =
        fetch_answer-ClientStatus q.topic n o (fetch b q.topic (pos n) (pos o) (pos mr) (pos mb))
          (fetch-Fine b q.topic n o mr mb s op c hr hb)

    at :
        (mr mb n : ℕ) (o : Option ℕ)
        → 0 < mr
        → 0 < mb
        → ClientStatus (fetch_offset b q (pos mr) (pos mb) n o)
    at mr mb n none hr hb = omega arith
    at mr mb n (some o) hr hb = from mr mb n o hr hb

    positive_limits :
        (mr mb : ℕ) → 0 < mr → 0 < mb → ClientStatus (fetch_explicit b q (pos mr) (pos mb))
    positive_limits mr mb hr hb =
        if_rule ClientStatus
          (length q.topic == 0 || (length q.partition == 0 || length q.offset == 0)) _ _
          (λ _. omega arith)
          λ _.
            option_rule ClientStatus (natural (parse_int q.partition)) _ _ (λ _. omega arith)
              λ n _. at mr mb n (natural (parse_int q.offset)) hr hb

    explicit : (l : ℤ × ℤ) → Above l.0 × Above l.1 → ClientStatus (fetch_explicit b q l.1 l.0)
    explicit l ((mb, eb, hb), (mr, er, hr)) =
        subst (λ x. ClientStatus (fetch_explicit b q x l.0)) (sym er)
          (subst (λ y. ClientStatus (fetch_explicit b q (pos mr) y)) (sym eb)
            (positive_limits mr mb hr hb))
