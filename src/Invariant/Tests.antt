-- ===== src/Invariant/Tests.antt =====
-- A broker of one topic, before and after a record.
use marchiq.Base.{ℕ, ◌≡◌, refl, true, false, [], ◌∷◌, pos, ok, some, All, arith}
use marchiq.BigEndian.{put_uint}
use marchiq.Names.{Name, eq_name}
use marchiq.Codec.{Record, encode_record}
use marchiq.Index.{encode_index_entry}
use marchiq.Log.{PartitionLog, new_partition}
use marchiq.Log.View.{IsSealed}
use marchiq.Log.Append.{
  append, append_encoded, append_frame, make_room, roll_locked, index_next, write_frame, sync_frame,
  publish, acks_leader,
}
use marchiq.Log.Tests.{good_io, two_records, stored_records, two_records-IsValid}
use marchiq.Broker.{Broker, Topic, get_partition, produce, produce_to, resolve_partition}
use marchiq.Catalog.{create_topic}
use marchiq.Catalog.Tests.{fine, fine_save, none_yet, empty_catalog, orders}
use marchiq.Groups.Tests.{fresh, topic_a}
use marchiq.Http.Delivery.{fetch_query}
use marchiq.Http.Router.{Request, RequestIo, handle}
use marchiq.Invariant.{IsSound, IsTopicSound, AreSound}
use marchiq.Invariant.Delivery.{Delivered, produce-Delivered}
use marchiq.Invariant.Reach.{Reach, here, next, serve, Reach-AreSound}
use marchiq.Closing.{CloseIo, close}
use marchiq.Groups.Tests.{no_groups}

two_records-IsSealed : All IsSealed two_records.sealed
unfolding append append_encoded append_frame make_room roll_locked index_next write_frame sync_frame
    publish encode_record encode_index_entry put_uint
two_records-IsSealed = ((omega arith, refl, refl), tt)

two_records-IsSound : IsSound two_records
two_records-IsSound = ((stored_records, two_records-IsValid), two_records-IsSealed)

pub topic_a-IsTopicSound : IsTopicSound topic_a
topic_a-IsTopicSound = record {
  partitions = (two_records-IsSound, (two_records-IsSound, tt));
  counted = refl;
}

pub fresh-AreSound : AreSound fresh.topics
fresh-AreSound = (topic_a-IsTopicSound, tt)

abbrev third : Record
third = record { offset = 2; timestamp_ns = pos 5; key = 1 ∷ []; value = 9 ∷ [] }

third_produced :
    (produce (good_io 23) fresh (b'a' ∷ []) (pos 1) (1 ∷ []) (9 ∷ []) acks_leader).0 ≡ ok (third, 1)
unfolding produce produce_to resolve_partition get_partition eq_name append append_encoded
    append_frame make_room roll_locked index_next write_frame sync_frame publish encode_record
    encode_index_entry put_uint
third_produced = refl

produce-Delivered_example :
    Delivered fresh
      (produce (good_io 23) fresh (b'a' ∷ []) (pos 1) (1 ∷ []) (9 ∷ []) acks_leader).1
      (b'a' ∷ [])
      (1 ∷ [])
      (9 ∷ [])
      third
      1
      10
      100
produce-Delivered_example =
    produce-Delivered (good_io 23) fresh (b'a' ∷ []) (pos 1) (1 ∷ []) (9 ∷ []) acks_leader third 1
      10 100 fresh-AreSound (omega arith) (omega arith) (omega arith) third_produced

-- A topic is created, and a record of 22 bytes is posted to it.
abbrev request_io : RequestIo
request_io = record { create = fine; append = good_io 22; saved = true; save_groups = fine_save }

abbrev posted : Request
posted =
    Request.produce (record (fetch_query (b'o' ∷ []) 0 0) { acks = b'1' ∷ [] })
      (record { avail = 9 ∷ []; faulty = false })

abbrev after_create : Broker
after_create =
    (handle request_io (none_yet, empty_catalog, no_groups)
      (Request.create_topic (some orders))).1.0

abbrev after_post : Broker
after_post = (handle request_io (after_create, empty_catalog, no_groups) posted).1.0

steps : Reach none_yet after_post
steps =
    next
      (next here (
        serve request_io empty_catalog no_groups (Request.create_topic (some orders)) none_yet
          (omega arith)))
      (serve request_io empty_catalog no_groups posted after_create (omega arith))

Reach-AreSound_example : AreSound after_post.topics
Reach-AreSound_example = Reach-AreSound {start = none_yet} {b = after_post} tt steps

-- The broker is closed, and then it crashes.
abbrev closes : Name → ℕ → CloseIo
closes _ _ = record { close_log = λ _. true; close_index = λ _. false }

abbrev at_last : Broker
at_last = (close closes after_post).1

abbrev written : PartitionLog
written = record (append (good_io 22) (new_partition 30 4096) [] (9 ∷ []) acks_leader).1 {
  closed = true;
}

abbrev its_topic : Topic
its_topic = record {
  config = orders;
  partitions = written ∷ record (new_partition 30 4096) { closed = true } ∷ [];
  rr = 0;
}
