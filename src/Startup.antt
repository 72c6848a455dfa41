-- ===== src/Startup.antt =====
-- storage/topic.go: `OpenWithConfig` and `openTopic`; storage/types.go: `InitDirs`. The retention loop
-- that the broker starts is not modelled.
pub mod Restart
mod Tests
use marchiq.Base.{
  ℕ, zero, suc, ℤ, is_positive, pos_part, Bool, ◌&&◌, not, List, [], ◌∷◌, if◌then◌else◌, false,
  other, Result, ok, err, ◌>>=◌,
}
use marchiq.Names.{Name, eq_name, TopicConfig}
use marchiq.Maps.{set}
use marchiq.Log.{PartitionLog}
use marchiq.Log.Open.{OpenIo, DiskSegment, open_partition}
use marchiq.Broker.{Broker, Topic}
use marchiq.Catalog.{CatalogFile, load_catalog}
use marchiq.GroupsFile.{GroupsRead, load_groups}

-- What a broker finds in its directory, and whether the calls succeed. A partition that the catalog
-- names has at least one segment.
pub record StartIo : Type 0 where
  pub make_meta : Bool
  pub make_topics : Bool
  pub catalog : CatalogFile
  pub groups : GroupsRead
  pub disk : Name → ℕ → List DiskSegment
  pub calls : Name → ℕ → ℕ → OpenIo

abbrev pub init_dirs : StartIo → Bool
init_dirs io = io.make_meta && io.make_topics

-- The loop over the partitions of a topic, from number `i` on.
unfoldable pub open_partitions : StartIo → ℕ → ℕ → Name → ℕ → ℕ → Result (List PartitionLog)
open_partitions io max interval name zero i = ok []
open_partitions io max interval name (suc rounds) i = do
  p ← open_partition (io.calls name i) (io.disk name i) max interval
  rest ← open_partitions io max interval name rounds (suc i)
  ok (p ∷ rest)

unfoldable pub open_topic : StartIo → ℕ → ℕ → TopicConfig → Result Topic
open_topic io max interval cfg = do
  ps ← open_partitions io max interval cfg.name (pos_part cfg.partitions) 0
  ok (record { config = cfg; partitions = ps; rr = 0 })

unfoldable pub open_topics :
    StartIo → ℕ → ℕ → List TopicConfig → List (Name × Topic) → Result (List (Name × Topic))
open_topics io max interval [] out = ok out
open_topics io max interval (c ∷ cs) out = do
  t ← open_topic io max interval c
  open_topics io max interval cs (set eq_name c.name t out)

-- The counters begin at zero.
unfoldable pub open_with_config : StartIo → ℤ → ℤ → Result Broker
open_with_config io max interval =
    if not (is_positive max && is_positive interval)
    then err other
    else if not (init_dirs io)
    then err other
    else do
      meta ← load_catalog io.catalog
      groups ← load_groups io.groups
      topics ← open_topics io (pos_part max) (pos_part interval) meta.topics []
      ok (record {
        topics = topics;
        closed = false;
        groups = groups;
        max_segment_bytes = pos_part max;
        index_interval_bytes = pos_part interval;
        stats = record {
          produce_records = 0;
          produce_bytes = 0;
          fetch_records = 0;
          fetch_bytes = 0;
        };
      })
