-- ===== src/Catalog.antt =====
-- storage/topic.go: the catalog of topics, `CreateTopic`, `ListTopics` and `loadCatalog`. What the
-- file system answers is an argument; so is what the JSON decoder makes of the catalog's file.
pub mod Create
pub mod Tests
use marchiq.Base.{
  ℕ, zero, suc, ◌+◌, ◌≡◌, Bool, true, false, ◌&&◌, not, List, [], ◌∷◌, ◌++◌, map, Option, none,
  some, ◌==◌, if◌then◌else◌, pos_part, Error, closed, topic_exists, other, Result, ok, err, ◌>>=◌,
  ◌>>◌,
}
use marchiq.Names.{Name, eq_name, name_lt, TopicConfig, validate}
use marchiq.Maps.{get, set}
use marchiq.Sorting.{sort}
use marchiq.Saving.{SaveIo, save}
use marchiq.Log.{PartitionLog, new_partition}
use marchiq.Broker.{Broker, Topic}

-- The envelope of meta/topics.json.
pub record TopicsMetadata : Type 0 where
  pub version : ℕ
  pub topics : List TopicConfig

abbrev pub catalog_version : ℕ
catalog_version = 1

abbrev pub config_lt : TopicConfig → TopicConfig → Bool
config_lt a b = name_lt a.name b.name

abbrev pub configs : List (Name × Topic) → List TopicConfig
configs [] = []
configs ((name, t) ∷ ts) = t.config ∷ configs ts

unfoldable pub list_topics : Broker → List TopicConfig
list_topics b = sort config_lt (configs b.topics)

-- What reading the catalog's file gives.
pub data CatalogFile : Type 0 where
  missing unreadable unparsable : CatalogFile
  parsed : TopicsMetadata → CatalogFile

abbrev pub is_listed : Name → List Name → Bool
is_listed name [] = false
is_listed name (x ∷ xs) = let rest = is_listed name xs in if eq_name name x then true else rest

-- Every topic is valid, and no name comes twice. `seen` are the names before.
unfoldable pub check_topics : List Name → List TopicConfig → Result (Unit {0})
check_topics seen [] = ok tt
check_topics seen (c ∷ cs) = do
  validate c
  if is_listed c.name seen then err other else check_topics (c.name ∷ seen) cs

unfoldable pub load_catalog : CatalogFile → Result TopicsMetadata
load_catalog missing = ok (record { version = catalog_version; topics = [] })
load_catalog unreadable = err other
load_catalog unparsable = err other
load_catalog (parsed meta) =
    if not (meta.version == catalog_version)
    then err other
    else do check_topics [] meta.topics; ok meta

-- Whether each call of `CreateTopic` succeeds; those for a partition by its number.
pub record CreateIo : Type 0 where
  pub dir_missing : Bool
  pub mkdir : ℕ → Bool
  pub create_log : ℕ → Bool
  pub create_index : ℕ → Bool
  pub sync_log : ℕ → Bool
  pub sync_index : ℕ → Bool
  pub sync_partition : ℕ → Bool
  pub sync_topic : Bool
  pub sync_topics : Bool
  pub catalog : SaveIo

-- The files of `rounds` partitions, from number `i` on.
abbrev pub make_files : CreateIo → ℕ → ℕ → Bool
make_files io zero i = true
make_files io (suc rounds) i =
    io.mkdir i
    && (io.create_log i
        && (io.create_index i
            && (io.sync_log i
                && (io.sync_index i && (io.sync_partition i && make_files io rounds (suc i))))))

abbrev pub empty_partitions : Broker → ℕ → List PartitionLog
empty_partitions b zero = []
empty_partitions b (suc n) =
    new_partition b.max_segment_bytes b.index_interval_bytes ∷ empty_partitions b n

abbrev pub new_topic : Broker → TopicConfig → Topic
new_topic b cfg = record {
  config = cfg;
  partitions = empty_partitions b (pos_part cfg.partitions);
  rr = 0;
}

-- The catalog that `saveCatalog` writes: sorted once more.
abbrev pub catalog_with : Broker → TopicConfig → TopicsMetadata
catalog_with b cfg = record {
  version = catalog_version;
  topics = sort config_lt (list_topics b ++ (cfg ∷ []));
}

-- The error or success, the broker, and the catalog's file after it.
abbrev pub Created : Type 0
Created = Result (Unit {0}) × Broker × TopicsMetadata

abbrev pub publish_topic : Broker → TopicConfig → Bool × TopicsMetadata → Created
publish_topic b cfg (false, live) = (err other, b, live)
publish_topic b cfg (true, live) =
    (ok tt, record b { topics = set eq_name cfg.name (new_topic b cfg) b.topics }, live)

abbrev pub is_some : {A : Type 0} → Option A → Bool
is_some none = false
is_some (some x) = true

unfoldable pub create_valid : CreateIo → Broker → TopicsMetadata → TopicConfig → Created
create_valid io b live cfg =
    if b.closed
    then (err closed, b, live)
    else if is_some (get eq_name cfg.name b.topics)
    then (err topic_exists, b, live)
    else if not io.dir_missing
    then (err other, b, live)
    else if not (make_files io (pos_part cfg.partitions) 0)
    then (err other, b, live)
    else if not io.sync_topic
    then (err other, b, live)
    else if not io.sync_topics
    then (err other, b, live)
    else publish_topic b cfg (save io.catalog live (catalog_with b cfg))

abbrev pub create_checked :
    CreateIo → Broker → TopicsMetadata → TopicConfig → Result (Unit {0}) → Created
create_checked io b live cfg (err e) = (err e, b, live)
create_checked io b live cfg (ok u) = create_valid io b live cfg

unfoldable pub create_topic : CreateIo → Broker → TopicsMetadata → TopicConfig → Created
create_topic io b live cfg = create_checked io b live cfg (validate cfg)
