-- ===== src/Log/Append/ReadBack.antt =====
-- A record that was appended can be read at once.
use marchiq.Base.{
  ℕ, zero, suc, ◌+◌, ◌≤◌, ◌<◌, ◌≡◌, refl, ap, ◌∙◌, sym, ℤ, pos, Bool, true, false, ◌&&◌, not, List,
  [], ◌∷◌, ◌++◌, All, All-append, IsInt64, get_or, Result, ok, err, max_int64, eq_int, ◌==◌,
  if_rule, arith,
}
use mathlib.Core.Path.{subst}
use marchiq.Codec.{Record, encode_record}
use marchiq.Log.{Segment, PartitionLog, segments}
use marchiq.Log.View.{Numbered, Ascending, Holds, flatten, contents, IsLog, IsValid}
use marchiq.Log.Append.{
  AppendIo, append, append_encoded, append_frame, settle, publish, Outcome, acks_none, acks_leader,
}
use marchiq.Log.Append.Stages.{Holds-append, flatten-append}
use marchiq.Log.Append.Written.{SameHead, append_frame-SameHead}
use marchiq.Log.Append.Refines.{append-refines, append_outcome, published, Done}
use marchiq.Log.Read.{read_from, earliest_of}
use marchiq.Log.Read.Limits.{from_offset, from_offset-append, within_budget, within_budget_nil}
use marchiq.Log.Read.Range.{contents-below, from_offset_none, read_from-contents}

Numbered-above :
    (base low : ℕ) (rs : List Record) → Numbered base rs → low ≤ base → All (λ r. low ≤ r.offset) rs
Numbered-above base low [] h le = tt
Numbered-above base low (r ∷ rs) h le =
    (omega (arith, h.0), Numbered-above (suc base) low rs h.1 (omega arith))

Holds-above :
    (ss : List Segment) (rss : List (List Record)) (low bound : ℕ)
    → Ascending low ss
    → Holds ss rss
    → bound ≤ low
    → All (λ r. bound ≤ r.offset) (flatten rss)
Holds-above [] [] low bound h g le = tt
Holds-above [] (rs ∷ rss) low bound h g le = absurd g
Holds-above (s ∷ ss) [] low bound h g le = absurd g
Holds-above (s ∷ ss) (rs ∷ rss) low bound h g le =
    All-append (λ r. bound ≤ r.offset) rs (flatten rss)
      (Numbered-above s.base_offset bound rs g.0.numbered (omega (arith, h.0)))
      (Holds-above ss rss (s.base_offset + s.records) bound h.1 g.1 (omega (arith, h.0)))

-- Every record is at or above the base of the first segment.
first-above :
    (ss : List Segment) (rss : List (List Record)) (a : Segment)
    → Ascending 0 ss
    → Holds ss rss
    → All (λ r. (get_or ss 0 a).base_offset ≤ r.offset) (flatten rss)
first-above [] [] a h g = tt
first-above [] (rs ∷ rss) a h g = absurd g
first-above (s ∷ ss) rss a h g =
    Holds-above (s ∷ ss) rss s.base_offset s.base_offset (omega arith, h.1) g (omega arith)

contents-above :
    (p : PartitionLog) (rss : List (List Record)) (rs : List Record)
    → IsLog p rss rs
    → All (λ r. earliest_of p ≤ r.offset) (contents rss rs)
contents-above p rss rs h = subst (All (λ r. earliest_of p ≤ r.offset)) (flatten-append rss rs) (
    first-above (segments p) (rss ++ (rs ∷ [])) p.active h.ascending
      (Holds-append p.sealed rss p.active rs h.old h.current))

All-last : {A : Type 0} (P : A → Type 0) (xs : List A) (x : A) → All P (xs ++ (x ∷ [])) → P x
All-last P [] x h = h.0
All-last P (y ∷ ys) x h = All-last P ys x h.1

-- What the append leaves open or closed.
abbrev SameClosed : Bool → Result Record × PartitionLog → Type 0
SameClosed c x = x.1.closed ≡ c

append_encoded-SameClosed :
    (io : AppendIo) (acks : ℤ) (r : Record) (p : PartitionLog) (e : Result (List ℕ))
    → SameClosed p.closed (append_encoded io acks r p e)
unfolding append_encoded publish
append_encoded-SameClosed io acks r p (err x) = refl
append_encoded-SameClosed io acks r p (ok frame) =
    settled (append_frame io acks frame p) (append_frame-SameHead io acks frame p)
  where
    settled : (o : Outcome) → SameHead p o.1 → SameClosed p.closed (settle r frame o)
    settled (true, q) h = h.closed
    settled (false, q) h = h.closed

append-SameClosed :
    (io : AppendIo) (p : PartitionLog) (key value : List ℕ) (acks : ℤ)
    → SameClosed p.closed (append io p key value acks)
unfolding append
append-SameClosed io p key value acks =
    let P = SameClosed p.closed in
    if_rule P p.closed _ _ (λ _. refl)
      λ _.
        if_rule P p.failed _ _ (λ _. refl)
          λ _.
            if_rule P (not (eq_int acks acks_none) && not (eq_int acks acks_leader)) _ _ (λ _. refl)
              λ _.
                if_rule P (p.next_offset == max_int64) _ _ (λ _. refl)
                  λ _. append_encoded-SameClosed io acks _ p (encode_record _)

within_budget_one : (mr mb : ℕ) (r : Record) → 0 < mr → within_budget mr mb true (r ∷ []) ≡ r ∷ []
within_budget_one zero mb r h = absurd (omega arith)
within_budget_one (suc mr) mb r h = ap (λ l. r ∷ l) (within_budget_nil mr _ false)

from_offset_last :
    (all : List Record) (r : Record)
    → All (λ x. x.offset < r.offset) all
    → from_offset r.offset (all ++ (r ∷ [])) ≡ r ∷ []
from_offset_last all r below =
    from_offset-append r.offset all (r ∷ [])
    ∙ ap (λ l. l ++ from_offset r.offset (r ∷ [])) (from_offset_none r.offset all below)
    ∙ (ground arith)

-- What an append that returned `r` has done, as a reader sees it.
pub record Readable (io : AppendIo) (p : PartitionLog) (key value : List ℕ) (r : Record)
    (q : PartitionLog) (mr mb : ℕ) : Type 0 where
  pub is : r ≡ record { offset = p.next_offset; timestamp_ns = io.now; key = key; value = value }
  pub read : read_from q (pos r.offset) (pos mr) (pos mb) ≡ ok (r ∷ [])
  pub next : q.next_offset ≡ r.offset + 1
  pub is_open : q.closed ≡ false

-- A record that `Append` returned, on a valid partition, has the partition's next offset, the time,
-- the key and the value; and a read from its offset on, with positive limits, returns this record
-- and no other.
pub append-Readable :
    (io : AppendIo) (p : PartitionLog) (key value : List ℕ) (acks : ℤ) (all : List Record)
    (r : Record) (max_records max_bytes : ℕ)
    → IsValid p all
    → IsInt64 io.now
    → 0 < max_records
    → 0 < max_bytes
    → (append io p key value acks).0 ≡ ok r
    → Readable io p key value r (append io p key value acks).1 max_records max_bytes
append-Readable io p key value acks all r mr mb v hi hr hb e =
    let q = (append io p key value acks).1 in
    let (is, next, nf, op) =
      subst (λ x. Done io p key value x q) e (append_outcome io p key value acks) in
    let w =
      subst (λ x. IsValid q (all ++ published x)) e (append-refines io p key value acks all v hi) in
    let at : r.offset ≡ p.next_offset = ap (λ x. x.offset) is in
    let (rss, rs, l, same) = w.holds in
    let (rss', rs', l', same') = v.holds in
    let below : All (λ x. x.offset < r.offset) all =
      subst (λ n. All (λ x. x.offset < n) all) (sym at)
        (subst (All (λ x. x.offset < p.next_offset)) same' (contents-below p rss' rs' l')) in
    let lo =
      All-last _ all r
        (subst (All (λ x. earliest_of q ≤ x.offset)) same (contents-above q rss rs l)) in
    let is_open = append-SameClosed io p key value acks ∙ op in
    record {
      is = is;
      read =
          read_from-contents q (all ++ (r ∷ [])) r.offset mr mb w is_open hr hb lo
            (omega (arith, at, next))
          ∙ ap (λ l. ok (within_budget mr mb true l)) (from_offset_last all r below)
          ∙ ap ok (within_budget_one mr mb r hr);
      next = omega (arith, at, next);
      is_open = is_open;
    }
