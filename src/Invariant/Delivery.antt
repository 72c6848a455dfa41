-- ===== src/Invariant/Delivery.antt =====
-- What `Produce` returned, `Fetch` finds.
use marchiq.Base.{
  ℕ, zero, suc, ◌+◌, ◌<◌, ◌≡◌, refl, ap, ◌∙◌, ℤ, pos, List, [], ◌∷◌, get_elem?, some, IsInt64,
  Result, ok, ok-injective, >>=-ok, found_inv, partition_not_found, option_rule, result_rule,
}
use mathlib.Core.Path.{subst}
use marchiq.Names.{Name, eq_name, eq_name_refl}
use marchiq.Maps.{get, set, get-set}
use marchiq.Codec.{Record}
use marchiq.Log.{PartitionLog}
use marchiq.Log.Append.{AppendIo, append}
use marchiq.Log.Append.ReadBack.{append-Readable}
use marchiq.Log.Read.{Offsets, offsets, earliest_of}
use marchiq.Broker.{
  Broker, Topic, get_partition, at_partition, set_partition, replace, resolve_partition,
  count_produce, produce_to, produce, fetch,
}
use marchiq.Invariant.{AreSound}
use marchiq.Invariant.Producing.{
  get_partition-At, get_partition-IsSound, resolve_partition-AreSound,
}

get_elem?-replace :
    {A : Type 0} (xs : List A) (n : ℕ) (x y : A)
    → get_elem? xs n ≡ some x
    → get_elem? (replace n y xs) n ≡ some y
get_elem?-replace [] n x y e = cc
get_elem?-replace (z ∷ xs) zero x y e = refl
get_elem?-replace (z ∷ xs) (suc n) x y e = get_elem?-replace xs n x y e

-- The partition that was put in the place of another is found there.
get_partition-set_partition :
    (b c : Broker) (topic : Name) (n : ℕ) (p q : PartitionLog)
    → get_partition b topic (pos n) ≡ ok p
    → c.closed ≡ b.closed
    → c.topics ≡ (set_partition b topic n q).topics
    → get_partition c topic (pos n) ≡ ok q
unfolding get_partition
get_partition-set_partition b c topic n p q e same_closed same_topics =
    let (cl, (t, found, at)) = get_partition-At b topic (pos n) p e in
    let (x, at_n, is_p) = found_inv (get_elem? t.partitions n) partition_not_found ok p at in
    let t' : Topic = record t { partitions = replace n q t.partitions } in
    let topics : (set_partition b topic n q).topics ≡ set eq_name topic t' b.topics =
      rw (found, set_partition) refl in
    let found' : get eq_name topic c.topics ≡ some t' =
      ap (get eq_name topic) (same_topics ∙ topics)
      ∙ get-set eq_name topic t' b.topics (eq_name_refl topic) in
    rw (same_closed ∙ cl)
      (rw (found') (rw (get_elem?-replace t.partitions n x q at_n, at_partition) refl))

-- How a record came into a partition.
record Wrote (io : AppendIo) (b : Broker) (topic : Name) (key value : List ℕ) (acks : ℤ)
    (y : Record × ℕ) (c : Broker) : Type 0 where
  p : PartitionLog
  found : get_partition b topic (pos y.1) ≡ ok p
  appended : (append io p key value acks).0 ≡ ok y.0
  after : get_partition c topic (pos y.1) ≡ ok (append io p key value acks).1

abbrev WroteTo :
    AppendIo → Broker → Name → List ℕ → List ℕ → ℤ → Result (Record × ℕ) × Broker → Type 0
WroteTo io b topic key value acks x =
    (y : Record × ℕ) → x.0 ≡ ok y → Wrote io b topic key value acks y x.1

produce_to-WroteTo :
    (io : AppendIo) (b : Broker) (topic : Name) (n : ℕ) (key value : List ℕ) (acks : ℤ)
    → WroteTo io b topic key value acks (produce_to io b topic n key value acks)
unfolding produce_to
produce_to-WroteTo io b topic n key value acks =
    let P = WroteTo io b topic key value acks in
    result_rule P (get_partition b topic (pos n)) _ _ (λ e _ y h. cc)
      λ p found.
        let x = append io p key value acks in
        let written = set_partition b topic n x.1 in
        let c : Broker = record written { stats = count_produce key value b.stats } in
        result_rule P x.0 _ _ (λ e _ y h. cc)
          λ r at y h.
            subst (λ z. Wrote io b topic key value acks z c) (ok-injective (r, n) y h)
              (record {
                p = p;
                found = found;
                appended = at;
                after =
                    get_partition-set_partition b c topic n p x.1 found (closed_same b topic n x.1)
                      refl;
              })
  where
    closed_same :
        (b : Broker) (topic : Name) (n : ℕ) (q : PartitionLog)
        → (set_partition b topic n q).closed ≡ b.closed
    closed_same b topic n q =
        option_rule (λ (c : Broker). c.closed ≡ b.closed) (get eq_name topic b.topics) _ _
          (λ _. refl) (λ t _. refl)

-- What a producer was told, and what a reader finds then.
pub record Delivered (b c : Broker) (topic : Name) (key value : List ℕ) (r : Record) (n mr mb : ℕ)
    : Type 0 where
  pub key_is : r.key ≡ key
  pub value_is : r.value ≡ value
  pub earliest : ℕ
  pub fetched :
      (fetch c topic (pos n) (pos r.offset) (pos mr) (pos mb)).0
      ≡ ok (r ∷ [], record { earliest = earliest; latest = r.offset + 1 })

-- On a broker of valid partitions, where `Produce` returns a record and the number of a partition:
-- the record has the key and the value that were sent, and a fetch of that partition from the
-- record's offset on, with positive limits, returns this record and no other, and as the high
-- watermark the offset behind it.
pub produce-Delivered :
    (io : AppendIo) (b : Broker) (topic : Name) (partition : ℤ) (key value : List ℕ) (acks : ℤ)
    (r : Record) (n max_records max_bytes : ℕ)
    → AreSound b.topics
    → IsInt64 io.now
    → 0 < max_records
    → 0 < max_bytes
    → (produce io b topic partition key value acks).0 ≡ ok (r, n)
    → Delivered b
        (produce io b topic partition key value acks).1
        topic
        key
        value
        r
        n
        max_records
        max_bytes
unfolding produce fetch offsets
produce-Delivered io b topic partition key value acks r n mr mb s hi hr hb e =
    result_rule P (resolve_partition b topic partition key).0 _ _ (λ x _ h. cc)
      (λ m _ h. delivered (produce_to-WroteTo io picked topic m key value acks (r, n) h)) e
  where
    picked : Broker
    picked = (resolve_partition b topic partition key).1

    P : Result (Record × ℕ) × Broker → Type 0
    P x = x.0 ≡ ok (r, n) → Delivered b x.1 topic key value r n mr mb

    delivered :
        {c : Broker}
        → Wrote io picked topic key value acks (r, n) c
        → Delivered b c topic key value r n mr mb
    delivered w =
        let ((all, v), _) =
          get_partition-IsSound picked topic (pos n) w.p
            (resolve_partition-AreSound b topic partition key s) w.found in
        let q = (append io w.p key value acks).1 in
        let d = append-Readable io w.p key value acks all r mr mb v hi hr hb w.appended in
        let o : Offsets = record { earliest = earliest_of q; latest = r.offset + 1 } in
        record {
          key_is = ap (λ x. x.key) d.is;
          value_is = ap (λ x. x.value) d.is;
          earliest = earliest_of q;
          fetched = >>=-ok _ _ q _ w.after (
              >>=-ok _ _ (r ∷ []) _ d.read (
                >>=-ok (offsets q) _ o _
                  (rw (d.is_open)
                    (ap (λ l. ok (record { earliest = earliest_of q; latest = l })) d.next))
                  refl));
        }
