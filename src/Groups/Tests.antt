-- ===== src/Groups/Tests.antt =====
-- Joins, commits and fetches of a small group.
use marchiq.Base.{◌≡◌, ◌↔◌, ◌<◌, ◌%◌, refl, true, false, [], ◌∷◌, some, pos, length, ok, arith}
use marchiq.Names.{eq_name, is_topic_name, member_name, decimal}
use marchiq.Broker.{GroupTopic, Broker, Topic, get_topic}
use marchiq.Log.Tests.{two_records, stored_records, two_records-IsValid, two_records_range}
use marchiq.BigEndian.{put_uint}
use marchiq.Codec.{encode_record}
use marchiq.Index.{encode_index_entry}
use marchiq.Log.Append.{
  append, append_encoded, append_frame, make_room, roll_locked, index_next, write_frame, sync_frame,
  publish,
}
use marchiq.Log.Read.Limits.{from_offset}
use marchiq.Groups.Drain.{drain, drain_all}
use marchiq.Groups.{
  clamp_start, add_member, assigned, join_group, join_topic, seat, commit_offset, fetch_partition,
}
use marchiq.Groups.Join.{IsKept, seat-IsKept}
use marchiq.Groups.Fetch.{range_of, delivery, fetch_partition-delivery}
use marchiq.GroupsFile.{GroupsFile, groups_version}
use marchiq.Catalog.Tests.{fine_save}
use marchiq.Groups.Commit.{Settled, commit_offset-Settled}
use marchiq.Groups.Assign.{elem, assigned-elem}

abbrev pub topic_a : Topic
topic_a = record {
  config = record {
    name = b'a' ∷ [];
    partitions = pos 2;
    retention_ms = pos 0;
    retention_bytes = pos 0;
  };
  partitions = two_records ∷ two_records ∷ [];
  rr = 0;
}

abbrev pub fresh : Broker
fresh = record {
  topics = ((b'a' ∷ []), topic_a) ∷ [];
  closed = false;
  groups = [];
  max_segment_bytes = 30;
  index_interval_bytes = 4096;
  stats = record { produce_records = 0; produce_bytes = 0; fetch_records = 0; fetch_bytes = 0 };
}

abbrev pub joined : Broker
joined = (join_group true fresh (b'g' ∷ []) (b'a' ∷ []) [] (pos 2)).1

-- A group of two in which `member-2` came first: the generated name is taken already.
abbrev named_first : Broker
named_first = (join_group true fresh (b'g' ∷ []) (b'a' ∷ []) (member_name 2) (pos 2)).1

same_name_twice :
    (join_group true named_first (b'g' ∷ []) (b'a' ∷ []) [] (pos 2)).0
    ≡ ok (record {
      group = b'g' ∷ [];
      member = member_name 2;
      topic = b'a' ∷ [];
      partitions = 1 ∷ [];
    })
unfolding join_group join_topic seat get_topic assigned eq_name is_topic_name member_name decimal
same_name_twice = refl

assigned-elem_example : (elem 3 (assigned 5 2 1) ≡ true) ↔ ((3 < 5) × (3 % 2 ≡ 1))
assigned-elem_example = assigned-elem 5 2 1 3

abbrev pub no_groups : GroupsFile
no_groups = record { version = groups_version; groups = [] }

commit_offset-Settled_example :
    Settled joined
      (b'g' ∷ [])
      (b'a' ∷ [])
      (pos 0)
      (pos 1)
      (commit_offset fine_save no_groups joined (b'g' ∷ []) (b'a' ∷ []) (pos 0) (pos 1))
commit_offset-Settled_example =
    commit_offset-Settled fine_save no_groups joined (b'g' ∷ []) (b'a' ∷ []) (pos 0) (pos 1)

fetch_partition-delivery_example :
    fetch_partition two_records 0 (some 0) (pos 10) (pos 100)
    ≡ ok (delivery two_records stored_records 0 (some 0) 10 100)
fetch_partition-delivery_example =
    fetch_partition-delivery two_records stored_records 0 (some 0) 10 100 two_records-IsValid
      two_records_range.0 (omega arith) (omega arith)

stored_length : length stored_records ≡ 2
unfolding append append_encoded append_frame make_room roll_locked index_next write_frame sync_frame
    publish encode_record encode_index_entry put_uint
stored_length = refl

drain_all_example :
    drain 3 two_records 0 (some 0) (pos 1) (pos 100)
    ≡ from_offset (clamp_start (range_of two_records) (some 0)) stored_records
drain_all_example =
    drain_all two_records stored_records 0 1 100 3 (some 0) two_records-IsValid two_records_range.0
      (omega arith) (omega arith) (omega (arith, stored_length))

abbrev empty_binding : GroupTopic
empty_binding = record { size = 2; members = []; offsets = [] }

seat-IsKept_example : IsKept (b'm' ∷ []) 2 ((b'm' ∷ []), 0, add_member empty_binding (b'm' ∷ []))
unfolding seat
seat-IsKept_example =
    seat-IsKept empty_binding b'm' [] 2 ((b'm' ∷ []), 0, add_member empty_binding (b'm' ∷ []))
      (omega arith) refl
