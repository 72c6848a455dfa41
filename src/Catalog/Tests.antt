-- ===== src/Catalog/Tests.antt =====
-- A topic is created.
use marchiq.Base.{◌≡◌, refl, true, false, [], ◌∷◌, ok, pos}
use marchiq.Names.{TopicConfig, validate, is_topic_name, eq_name}
use marchiq.Saving.{SaveIo, save}
use marchiq.Broker.{Broker}
use marchiq.Catalog.{
  TopicsMetadata, CreateIo, create_topic, create_valid, list_topics, check_topics, load_catalog,
  parsed,
}
use marchiq.Catalog.Create.{Outcome, create_topic-Outcome}

abbrev pub fine_save : SaveIo
fine_save = record {
  encode = true;
  open_tmp = true;
  write = true;
  sync = true;
  close = true;
  rename = true;
  sync_dir = true;
}

abbrev pub fine : CreateIo
fine = record {
  dir_missing = true;
  mkdir = λ _. true;
  create_log = λ _. true;
  create_index = λ _. true;
  sync_log = λ _. true;
  sync_index = λ _. true;
  sync_partition = λ _. true;
  sync_topic = true;
  sync_topics = true;
  catalog = fine_save;
}

abbrev pub none_yet : Broker
none_yet = record {
  topics = [];
  closed = false;
  groups = [];
  max_segment_bytes = 30;
  index_interval_bytes = 4096;
  stats = record { produce_records = 0; produce_bytes = 0; fetch_records = 0; fetch_bytes = 0 };
}

abbrev pub empty_catalog : TopicsMetadata
empty_catalog = record { version = 1; topics = [] }

abbrev pub orders : TopicConfig
orders = record {
  name = b'o' ∷ [];
  partitions = pos 2;
  retention_ms = pos 0;
  retention_bytes = pos 0;
}

created : (create_topic fine none_yet empty_catalog orders).0 ≡ ok tt
unfolding create_topic create_valid validate is_topic_name eq_name save list_topics
created = refl

loaded :
    load_catalog (parsed (record { version = 1; topics = orders ∷ [] }))
    ≡ ok (record { version = 1; topics = orders ∷ [] })
unfolding load_catalog check_topics validate is_topic_name eq_name
loaded = refl

create_topic-Outcome_example :
    Outcome fine none_yet empty_catalog orders (create_topic fine none_yet empty_catalog orders)
create_topic-Outcome_example = create_topic-Outcome fine none_yet empty_catalog orders
