-- ===== src/Invariant/Producing.antt =====
-- `Produce` and `CreateTopic` keep the broker's partitions sound.
use marchiq.Base.{
  ℕ, zero, suc, ◌≡◌, refl, ap, ◌∙◌, sym, ◌++◌, partition_not_found, found_inv, ok-injective, Bool,
  ◌||◌, not, ltb, other, option_rule, result_rule, if◌then◌else◌, ℤ, pos, negsuc, pos_part,
  is_positive, true, false, List, [], length, get_elem?, some, All, All-append, IsInt64, Result, ok,
  err, Error, closed, topic_not_found,
}
use mathlib.Core.Path.{subst}
use marchiq.Names.{Name, eq_name, is_topic_name, TopicConfig, validate}
use marchiq.Maps.{get, get-All, set-All}
use marchiq.Log.{PartitionLog}
use marchiq.Log.Append.{AppendIo, append}
use marchiq.Log.Append.Refines.{append-refines, published, new_partition-IsValid}
use marchiq.Log.Append.Sealing.{append-IsSealed}
use marchiq.Broker.{
  Broker, Topic, get_topic, get_partition, at_partition, set_partition, set_topic, replace,
  resolve_partition, pick_partition, produce_to, produce,
}
use marchiq.Catalog.{
  CreateIo, TopicsMetadata, Created, create_topic, create_checked, new_topic, empty_partitions,
}
use marchiq.Catalog.Create.{Outcome, create_topic-Outcome}
use marchiq.Invariant.{
  IsSound, IsTopicSound, AreSound, SoundAfter, get_elem?-All, replace-All, length-replace,
}

-- Inversion of a successful call on what may be closed.
open_inv {ℓ} :
    {A : Type ℓ} (c : Bool) (e : Error) (r : Result A) (x : A)
    → (if c then err e else r) ≡ ok x
    → (c ≡ false) × (r ≡ ok x)
open_inv true e r x h = cc
open_inv false e r x h = (refl, h)

count_pos :
    (a : Bool) (n : ℤ) (r : Result (Unit {0}))
    → (if a
        then err other
        else if not (is_positive n) || ltb 1024 (pos_part n)
        then err other
        else r)
      ≡ ok tt
    → n ≡ pos (pos_part n)
count_pos true n r e = cc
count_pos false (pos n) r e = refl
count_pos false (negsuc n) r e = cc

-- A valid configuration has a positive number of partitions.
validate-pos : (c : TopicConfig) → validate c ≡ ok tt → c.partitions ≡ pos (pos_part c.partitions)
unfolding validate
validate-pos c e = count_pos (not (is_topic_name c.name)) c.partitions _ e

create_topic-valid :
    (io : CreateIo) (b : Broker) (live : TopicsMetadata) (cfg : TopicConfig)
    → (create_topic io b live cfg).0 ≡ ok tt
    → validate cfg ≡ ok tt
unfolding create_topic
create_topic-valid io b live cfg e = valid (validate cfg) e
  where
    valid : (r : Result (Unit {0})) → (create_checked io b live cfg r).0 ≡ ok tt → r ≡ ok tt
    valid (err x) h = cc
    valid (ok u) h = refl

pub append-IsSound :
    (io : AppendIo) (p : PartitionLog) (key value : List ℕ) (acks : ℤ)
    → IsInt64 io.now
    → IsSound p
    → IsSound (append io p key value acks).1
append-IsSound io p key value acks hi ((all, v), r) = (
  (all ++ published (append io p key value acks).0, append-refines io p key value acks all v hi),
  append-IsSealed io p key value acks all v r,
)

at_partition-IsSound :
    (t : Topic) (n : ℤ) (p : PartitionLog) → IsTopicSound t → at_partition t n ≡ ok p → IsSound p
at_partition-IsSound t (negsuc n) p h e = cc
at_partition-IsSound t (pos n) p h e =
    let (q, found, same) = found_inv (get_elem? t.partitions n) partition_not_found ok p e in
    get_elem?-All IsSound t.partitions n p h.partitions (found ∙ ap some (ok-injective q p same))

-- A partition of the broker belongs to a topic of it.
pub get_partition-At :
    (b : Broker) (topic : Name) (n : ℤ) (p : PartitionLog)
    → get_partition b topic n ≡ ok p
    → (b.closed ≡ false)
      × ((t : Topic) × (get eq_name topic b.topics ≡ some t) × (at_partition t n ≡ ok p))
unfolding get_partition
get_partition-At b topic n p e =
    let (c, rest) = open_inv b.closed closed _ p e in
    (c, found_inv (get eq_name topic b.topics) topic_not_found _ p rest)

pub get_partition-IsSound :
    (b : Broker) (topic : Name) (n : ℤ) (p : PartitionLog)
    → AreSound b.topics
    → get_partition b topic n ≡ ok p
    → IsSound p
get_partition-IsSound b topic n p h e =
    let (c, (t, found, at)) = get_partition-At b topic n p e in
    at_partition-IsSound t n p (get-All eq_name IsTopicSound topic t b.topics found h) at

pub get_topic-At :
    (b : Broker) (topic : Name) (t : Topic)
    → get_topic b topic ≡ ok t
    → get eq_name topic b.topics ≡ some t
unfolding get_topic
get_topic-At b topic t e =
    let (u, found, same) =
      found_inv (get eq_name topic b.topics) topic_not_found ok t
        (open_inv b.closed closed _ t e).1 in
    found ∙ ap some (ok-injective u t same)

-- A sound partition in the place of another.
set_partition-AreSound :
    (b : Broker) (topic : Name) (n : ℕ) (p : PartitionLog)
    → AreSound b.topics
    → IsSound p
    → AreSound (set_partition b topic n p).topics
set_partition-AreSound b topic n p h s =
    option_rule (λ c. AreSound c.topics) (get eq_name topic b.topics) b
      (λ t. set_topic b topic (record t { partitions = replace n p t.partitions })) (λ _. h)
      λ t e.
        set-All eq_name IsTopicSound topic (record t { partitions = replace n p t.partitions })
          b.topics (replaced t (get-All eq_name IsTopicSound topic t b.topics e h)) h
  where
    replaced :
        (t : Topic)
        → IsTopicSound t
        → IsTopicSound (record t { partitions = replace n p t.partitions })
    replaced t k = record {
      partitions = replace-All IsSound n p t.partitions s k.partitions;
      counted = k.counted ∙ ap pos (sym (length-replace n p t.partitions));
    }

produce_to-AreSound :
    (io : AppendIo) (b : Broker) (topic : Name) (n : ℕ) (key value : List ℕ) (acks : ℤ)
    → IsInt64 io.now
    → AreSound b.topics
    → AreSound (produce_to io b topic n key value acks).1.topics
unfolding produce_to
produce_to-AreSound io b topic n key value acks hi h =
    result_rule SoundAfter (get_partition b topic (pos n)) _ _ (λ e _. h)
      λ p e.
        let s =
          append-IsSound io p key value acks hi (get_partition-IsSound b topic (pos n) p h e) in
        let k = set_partition-AreSound b topic n (append io p key value acks).1 h s in
        result_rule SoundAfter (append io p key value acks).0 _ _ (λ x _. k) (λ r _. k)

-- The broker picks a partition: only the round-robin cursor may change.
pub resolve_partition-AreSound :
    (b : Broker) (topic : Name) (n : ℤ) (key : List ℕ)
    → AreSound b.topics
    → AreSound (resolve_partition b topic n key).1.topics
unfolding resolve_partition
resolve_partition-AreSound b topic (pos n) key h = h
resolve_partition-AreSound b topic (negsuc (suc n)) key h = h
resolve_partition-AreSound b topic (negsuc zero) key h =
    result_rule SoundAfter (get_topic b topic) _ _ (λ e _. h)
      λ t e.
        set-All eq_name IsTopicSound topic (record t { rr = (pick_partition t key).1 }) b.topics
          (cursor t (get-All eq_name IsTopicSound topic t b.topics (get_topic-At b topic t e) h)) h
  where
    cursor :
        (t : Topic) → IsTopicSound t → IsTopicSound (record t { rr = (pick_partition t key).1 })
    cursor t k = record { partitions = k.partitions; counted = k.counted }

pub produce-AreSound :
    (io : AppendIo) (b : Broker) (topic : Name) (n : ℤ) (key value : List ℕ) (acks : ℤ)
    → IsInt64 io.now
    → AreSound b.topics
    → AreSound (produce io b topic n key value acks).1.topics
unfolding produce
produce-AreSound io b topic n key value acks hi h =
    let k = resolve_partition-AreSound b topic n key h in
    result_rule SoundAfter (resolve_partition b topic n key).0 _ _ (λ e _. k)
      λ m _. produce_to-AreSound io (resolve_partition b topic n key).1 topic m key value acks hi k

-- A topic that was just created.
empty_partitions-IsSound :
    (b : Broker) (n : ℕ) → All IsSound (empty_partitions b n) × (length (empty_partitions b n) ≡ n)
empty_partitions-IsSound b zero = (tt, refl)
empty_partitions-IsSound b (suc n) = (
  (
    (([], new_partition-IsValid b.max_segment_bytes b.index_interval_bytes), tt),
    (empty_partitions-IsSound b n).0,
  ),
  ap suc (empty_partitions-IsSound b n).1,
)

new_topic-IsTopicSound :
    (b : Broker) (cfg : TopicConfig) → validate cfg ≡ ok tt → IsTopicSound (new_topic b cfg)
new_topic-IsTopicSound b cfg e =
    let (sound, n) = empty_partitions-IsSound b (pos_part cfg.partitions) in
    record { partitions = sound; counted = validate-pos cfg e ∙ ap pos (sym n) }

pub create_topic-AreSound :
    (io : CreateIo) (b : Broker) (live : TopicsMetadata) (cfg : TopicConfig)
    → AreSound b.topics
    → AreSound (create_topic io b live cfg).1.topics
create_topic-AreSound io b live cfg h =
    created (create_topic io b live cfg) refl (create_topic-Outcome io b live cfg)
  where
    created :
        (x : Created)
        → create_topic io b live cfg ≡ x
        → Outcome io b live cfg x
        → AreSound x.1.topics
    created (err e, after, file) same o = subst (λ c. AreSound c.topics) (sym o.0) h
    created (ok u, after, file) same (absent, found, added, saved) = subst AreSound (sym added) (
        All-append (λ e. IsTopicSound e.1) b.topics _ h
          (
            new_topic-IsTopicSound b cfg (create_topic-valid io b live cfg (ap (λ x. x.0) same)),
            tt,
          ))
