-- ===== src/Invariant/Sweeping.antt =====
-- Retention passes and `Close` keep the broker's partitions sound.
use marchiq.Base.{
  ℕ, suc, ◌≡◌, refl, ap, ◌∙◌, sym, ℤ, pos, Bool, true, not, List, [], ◌∷◌, length, get_or, All, inr,
  if_rule, arith,
}
use marchiq.Names.{Name, TopicConfig}
use marchiq.Codec.{Record}
use marchiq.Log.{Segment, PartitionLog}
use marchiq.Log.View.{IsValid, IsSealed, Full}
use marchiq.Broker.{Broker, Group, Topic}
use marchiq.Retention.{RetentionIo, enforce_retention, retention_clamps}
use marchiq.Retention.Keeps.{enforce_retention-TrimmedBy}
use marchiq.Retention.Janitor.{
  Tally, sweep_partitions, sweep_topic, sweep_topics, sweep, has_policy,
}
use marchiq.Closing.{CloseIo, close_partition, close_partitions, close_topics, close}
use marchiq.Invariant.{IsSound, IsTopicSound, AreSound, SoundAfter}

Full-IsSealed : (ss : List Segment) → All IsSealed ss → Full ss
Full-IsSealed [] h = tt
Full-IsSealed (s ∷ ss) h = (h.0.0, Full-IsSealed ss h.1)

enforce_retention-IsSound :
    (io : RetentionIo) (now : ℤ) (cfg : TopicConfig) (clamp : ℕ) (clamped : Bool) (p : PartitionLog)
    → IsSound p
    → IsSound (enforce_retention io now cfg clamp clamped p).1
enforce_retention-IsSound io now cfg clamp clamped p ((all, v), r) =
    let t =
      enforce_retention-TrimmedBy IsSealed (λ s b h. h) io now cfg clamp clamped p all
        p.active.base_offset v (Full-IsSealed p.sealed r) r (inr (omega arith)) in
    ((t.remaining, t.valid), t.full)

sweep_partitions-IsSound :
    (io : ℕ → RetentionIo) (now : ℤ) (cfg : TopicConfig) (clamps : List ℕ × Bool) (i : ℕ)
    (ps : List PartitionLog)
    → All IsSound ps
    → All IsSound (sweep_partitions io now cfg clamps i ps).1
      × (length (sweep_partitions io now cfg clamps i ps).1 ≡ length ps)
unfolding sweep_partitions
sweep_partitions-IsSound io now cfg clamps i [] h = (tt, refl)
sweep_partitions-IsSound io now cfg clamps i (p ∷ ps) h =
    let (rest, n) = sweep_partitions-IsSound io now cfg clamps (suc i) ps h.1 in
    (
      (enforce_retention-IsSound (io i) now cfg (get_or clamps.0 i 0) clamps.1 p h.0, rest),
      ap suc n,
    )

sweep_topic-IsTopicSound :
    (io : ℕ → RetentionIo) (now : ℤ) (groups : List (Name × Group)) (t : Topic)
    → IsTopicSound t
    → IsTopicSound (sweep_topic io now groups t).1
unfolding sweep_topic
sweep_topic-IsTopicSound io now groups t h =
    if_rule {A = Tally × Topic} (λ x. IsTopicSound x.1) (not (has_policy t.config)) _ _ (λ _. h)
      λ _.
        let (sound, n) =
          sweep_partitions-IsSound io now t.config
            (retention_clamps groups t.config.name (length t.partitions)) 0 t.partitions
            h.partitions in
        record { partitions = sound; counted = h.counted ∙ ap pos (sym n) }

sweep_topics-AreSound :
    (io : Name → ℕ → RetentionIo) (now : ℤ) (groups : List (Name × Group))
    (ts : List (Name × Topic))
    → AreSound ts
    → AreSound (sweep_topics io now groups ts).1
unfolding sweep_topics
sweep_topics-AreSound io now groups [] h = tt
sweep_topics-AreSound io now groups ((name, t) ∷ ts) h = (
  sweep_topic-IsTopicSound (io name) now groups t h.0,
  sweep_topics-AreSound io now groups ts h.1,
)

pub sweep-AreSound :
    (io : Name → ℕ → RetentionIo) (now : ℤ) (b : Broker)
    → AreSound b.topics
    → AreSound (sweep io now b).1.topics
unfolding sweep
sweep-AreSound io now b h =
    if_rule SoundAfter b.closed _ _ (λ _. h) λ _. sweep_topics-AreSound io now b.groups b.topics h

closed-IsValid :
    (p : PartitionLog) (all : List Record)
    → IsValid p all
    → IsValid (record p { closed = true }) all
closed-IsValid p all v =
    let (rss, rs, l, e) = v.holds in
    record {
      holds = (
        rss,
        rs,
        record { old = l.old; current = l.current; ascending = l.ascending; next = l.next },
        e,
      );
      clean = v.clean;
    }

close_partition-IsSound :
    (io : CloseIo) (p : PartitionLog) → IsSound p → IsSound (close_partition io p).1
unfolding close_partition
close_partition-IsSound io p h =
    if_rule {A = Bool × PartitionLog} (λ x. IsSound x.1) p.closed _ _ (λ _. h)
      λ _. ((h.0.0, closed-IsValid p h.0.0 h.0.1), h.1)

close_partitions-IsSound :
    (io : ℕ → CloseIo) (i : ℕ) (ps : List PartitionLog)
    → All IsSound ps
    → All IsSound (close_partitions io i ps).1 × (length (close_partitions io i ps).1 ≡ length ps)
close_partitions-IsSound io i [] h = (tt, refl)
close_partitions-IsSound io i (p ∷ ps) h =
    let (rest, n) = close_partitions-IsSound io (suc i) ps h.1 in
    ((close_partition-IsSound (io i) p h.0, rest), ap suc n)

close_topics-AreSound :
    (io : Name → ℕ → CloseIo) (ts : List (Name × Topic))
    → AreSound ts
    → AreSound (close_topics io ts).1
close_topics-AreSound io [] h = tt
close_topics-AreSound io ((name, t) ∷ ts) h =
    let (sound, n) = close_partitions-IsSound (io name) 0 t.partitions h.0.partitions in
    (
      record { partitions = sound; counted = h.0.counted ∙ ap pos (sym n) },
      close_topics-AreSound io ts h.1,
    )

pub close-AreSound :
    (io : Name → ℕ → CloseIo) (b : Broker) → AreSound b.topics → AreSound (close io b).1.topics
unfolding close
close-AreSound io b h =
    if_rule SoundAfter b.closed _ _ (λ _. h) λ _. close_topics-AreSound io b.topics h
