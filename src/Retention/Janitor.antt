-- ===== src/Retention/Janitor.antt =====
-- storage/retention.go: `EnforceRetention`, one pass over all topics that have a policy.
use marchiq.Base.{
  ℕ, suc, ◌+◌, ℤ, is_positive, Bool, true, false, ◌||◌, not, List, [], ◌∷◌, length, get_or,
  if◌then◌else◌, closed, Result, ok, err,
}
use marchiq.Names.{Name, TopicConfig}
use marchiq.Log.{PartitionLog}
use marchiq.Broker.{Broker, Group, Topic}
use marchiq.Retention.{RetentionIo, retention_clamps, enforce_retention}

-- How many segments were deleted, and whether there was an error: that of one partition does not
-- stop the pass.
abbrev pub Tally : Type 0
Tally = ℕ × Bool

abbrev pub tally : Result Tally → Tally → Tally
tally (ok (n, e)) (m, f) = (n + m, e || f)
tally (err e) (m, f) = (m, true)

-- The loop over the partitions, from number `i` on. There are as many clamps as partitions.
unfoldable pub sweep_partitions :
    (ℕ → RetentionIo)
    → ℤ
    → TopicConfig
    → List ℕ × Bool
    → ℕ
    → List PartitionLog
    → Tally × List PartitionLog
sweep_partitions io now cfg clamps i [] = ((0, false), [])
sweep_partitions io now cfg clamps i (p ∷ ps) =
    let (res, q) = enforce_retention (io i) now cfg (get_or clamps.0 i 0) clamps.1 p in
    let (rest, qs) = sweep_partitions io now cfg clamps (suc i) ps in (tally res rest, q ∷ qs)

abbrev pub has_policy : TopicConfig → Bool
has_policy cfg = is_positive cfg.retention_ms || is_positive cfg.retention_bytes

unfoldable pub sweep_topic : (ℕ → RetentionIo) → ℤ → List (Name × Group) → Topic → Tally × Topic
sweep_topic io now groups t =
    if not (has_policy t.config)
    then ((0, false), t)
    else (let clamps = retention_clamps groups t.config.name (length t.partitions) in
        let (n, ps) = sweep_partitions io now t.config clamps 0 t.partitions in
        (n, record t { partitions = ps }))

unfoldable pub sweep_topics :
    (Name → ℕ → RetentionIo)
    → ℤ
    → List (Name × Group)
    → List (Name × Topic)
    → Tally × List (Name × Topic)
sweep_topics io now groups [] = ((0, false), [])
sweep_topics io now groups ((name, t) ∷ ts) =
    let (n, u) = sweep_topic (io name) now groups t in
    let (m, us) = sweep_topics io now groups ts in (tally (ok n) m, (name, u) ∷ us)

unfoldable pub sweep : (Name → ℕ → RetentionIo) → ℤ → Broker → Result Tally × Broker
sweep io now b =
    if b.closed
    then (err closed, b)
    else (let (n, ts) = sweep_topics io now b.groups b.topics in (ok n, record b { topics = ts }))
