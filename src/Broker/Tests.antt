-- ===== src/Broker/Tests.antt =====
-- Three records without a key, for a topic of two partitions.
use marchiq.Base.{◌≡◌, refl, [], ◌∷◌, pos, ok, arith}
use marchiq.Log.{new_partition}
use marchiq.Broker.{Topic, pick_partition}
use marchiq.Broker.Produce.{deal, round, pick_partition-round}

abbrev topic_b : Topic
topic_b = record {
  config = record {
    name = b'b' ∷ [];
    partitions = pos 2;
    retention_ms = pos 0;
    retention_bytes = pos 0;
  };
  partitions = new_partition 30 4096 ∷ new_partition 30 4096 ∷ [];
  rr = 0;
}

dealt : deal 3 topic_b ≡ ok 0 ∷ ok 1 ∷ ok 0 ∷ []
unfolding pick_partition
dealt = refl

pick_partition-round_example : deal 3 topic_b ≡ round 3 0 2
pick_partition-round_example = pick_partition-round 3 topic_b (omega arith)
