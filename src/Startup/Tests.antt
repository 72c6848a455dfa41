-- ===== src/Startup/Tests.antt =====
-- A topic of two partitions after a crash that leaves 30 bytes of each active segment.
use marchiq.Base.{◌≡◌, refl, true, ok}
use marchiq.Log.Tests.{two_records, well_io, well_io-AllWell}
use marchiq.Log.Append.{
  append, append_encoded, append_frame, make_room, roll_locked, index_next, write_frame, sync_frame,
  publish,
}
use marchiq.BigEndian.{put_uint}
use marchiq.Codec.{encode_record}
use marchiq.Index.{encode_index_entry}
use marchiq.Log.Open.Reopen.{image}
use marchiq.Broker.{Topic}
use marchiq.Catalog.{CatalogFile}
use marchiq.GroupsFile.{GroupsRead}
use marchiq.Groups.Tests.{topic_a}
use marchiq.Invariant.{IsTopicSound}
use marchiq.Invariant.Tests.{topic_a-IsTopicSound}
use marchiq.Startup.{StartIo, open_topic}
use marchiq.Startup.Restart.{AllRestarted, Unfenced, open_topic_crash}

abbrev cut_disk : StartIo
cut_disk = record {
  make_meta = true;
  make_topics = true;
  catalog = CatalogFile.missing;
  groups = GroupsRead.missing;
  disk = λ _ _. image two_records 30;
  calls = λ _ _ _. well_io;
}

topic_a-Unfenced : Unfenced topic_a.partitions
unfolding append append_encoded append_frame make_room roll_locked index_next write_frame sync_frame
    publish encode_record encode_index_entry put_uint
topic_a-Unfenced = (refl, (refl, tt))

open_topic_crash_example :
    (u : Topic) × (open_topic cut_disk 30 4096 topic_a.config ≡ ok u)
    × AllRestarted (λ _. 30) 0 topic_a.partitions u.partitions
    × IsTopicSound u
    × (u.config ≡ topic_a.config)
open_topic_crash_example =
    open_topic_crash cut_disk topic_a (λ _. 30) 30 4096 (λ _ _. well_io-AllWell)
      topic_a-IsTopicSound topic_a-Unfenced (refl, (refl, tt))
