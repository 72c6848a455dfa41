-- ===== src/Http/Tests.antt =====
-- Requests to a broker of one topic.
use marchiq.Base.{◌<◌, ◌≡◌, refl, false, [], ◌∷◌, pos, some, none, arith}
use marchiq.BigEndian.{put_uint}
use marchiq.Names.{eq_name, decimal}
use marchiq.Codec.{Reader, encode_record}
use marchiq.Index.{encode_index_entry}
use marchiq.Log.Append.{
  append, append_encoded, append_frame, make_room, roll_locked, index_next, write_frame, sync_frame,
  publish,
}
use marchiq.Log.Tests.{good_io, two_records_range}
use marchiq.Http.Status.{get_fetch-ClientStatus}
use marchiq.Broker.{
  get_partition, get_topic, produce, produce_to, resolve_partition, pick_partition,
}
use marchiq.Groups.Tests.{fresh}
use marchiq.Strconv.{parse_int}
use marchiq.Http.{Query, parse_acks, produced}
use marchiq.Http.Records.{post_produce, get_fetch}
use marchiq.Http.Delivery.{fetch_query, one_record_answer, post_produce-get_fetch}
use marchiq.Invariant.Tests.{fresh-AreSound}

-- The least `int64`, and numbers that are none.
parsed :
    (parse_int (b'+' ∷ b'0' ∷ b'7' ∷ []) ≡ some (pos 7))
    × (parse_int (b'-' ∷ b'0' ∷ []) ≡ some (pos 0))
    × (parse_int (b'-' ∷ []) ≡ none)
    × (parse_int (b'1' ∷ b'_' ∷ b'0' ∷ []) ≡ none)
unfolding parse_int
parsed = (refl, refl, refl, refl)

abbrev body : Reader
body = record { avail = 9 ∷ []; faulty = false }

-- `partition=-1` without a key.
abbrev posted : Query
posted = record (fetch_query (b'a' ∷ []) 0 0) { partition = b'-' ∷ b'1' ∷ [] }

answered : (post_produce (good_io 22) fresh posted body).0.body ≡ produced (b'a' ∷ []) 0 2 (pos 5)
unfolding post_produce parse_int parse_acks decimal produce produce_to resolve_partition
    pick_partition get_topic get_partition eq_name append append_encoded append_frame make_room
    roll_locked index_next write_frame sync_frame publish encode_record encode_index_entry put_uint
answered = refl

post_produce-get_fetch_example :
    (get_fetch (post_produce (good_io 22) fresh posted body).1 (fetch_query (b'a' ∷ []) 0 2)).0
    ≡ one_record_answer
        (b'a' ∷ [])
        0
        (record { offset = 2; timestamp_ns = pos 5; key = []; value = 9 ∷ [] })
post_produce-get_fetch_example =
    post_produce-get_fetch (good_io 22) fresh posted body 0 2 (pos 5) fresh-AreSound (omega arith)
      (omega arith) (omega arith) answered

-- The offset 99 lies behind the end.
get_fetch-ClientStatus_example : (get_fetch fresh (fetch_query (b'a' ∷ []) 0 99)).0.status < 500
get_fetch-ClientStatus_example =
    get_fetch-ClientStatus fresh (fetch_query (b'a' ∷ []) 0 99) fresh-AreSound
      ((two_records_range.0, (two_records_range.0, tt)), tt) refl refl
