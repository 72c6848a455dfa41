-- ===== src/Http/Topics.antt =====
-- cmd/marchiq/main.go: `createTopic`, `listTopics`, `topicOffsets`, `debugSegments`, `debugLag` and
-- `debugStats`. What the JSON decoder makes of a body is an argument.
use marchiq.Base.{
  ℕ, zero, suc, pos, pos_part, ◌||◌, List, [], ◌∷◌, length, Option, none, some, ◌==◌, if◌then◌else◌,
  Error, topic_exists, topic_not_found, partition_not_found, group_not_found, Result, ok, err,
  ◌>>=◌,
}
use marchiq.Names.{Name, eq_name, TopicConfig}
use marchiq.Log.Read.{SegmentInfo}
use marchiq.Broker.{Broker, get_offsets, describe}
use marchiq.Catalog.{TopicsMetadata, CreateIo, create_topic, Created, list_topics}
use marchiq.Lag.{GroupLag, group_lag}
use marchiq.Strconv.{parse_int}
use marchiq.Http.{
  Query, natural, PartitionOffsets, Response, write_json, bad_request, message, failure, created,
  topic_list, offset_list, segment_list, lag_list, counters,
}

abbrev pub create_status : Error → ℕ
create_status topic_exists = 409
create_status e = 400

abbrev pub create_answer : TopicConfig → Created → Response × Broker × TopicsMetadata
create_answer cfg (ok u, b, live) = (write_json 201 (created cfg), b, live)
create_answer cfg (err e, b, live) = (write_json (create_status e) (failure e), b, live)

-- `none` is a body that is no JSON of a topic.
unfoldable pub post_topics :
    CreateIo → Broker → TopicsMetadata → Option TopicConfig → Response × Broker × TopicsMetadata
post_topics io b live none = (bad_request, b, live)
post_topics io b live (some cfg) = create_answer cfg (create_topic io b live cfg)

unfoldable pub get_topics : Broker → Response
get_topics b = write_json 200 (topic_list (list_topics b))

abbrev pub find_config : Name → List TopicConfig → Option TopicConfig
find_config topic [] = none
find_config topic (c ∷ cs) =
    let rest = find_config topic cs in if eq_name c.name topic then some c else rest

-- The loop over the partitions, from number `i` on.
unfoldable pub offsets_loop : Broker → Name → ℕ → ℕ → Result (List PartitionOffsets)
offsets_loop b topic zero i = ok []
offsets_loop b topic (suc rounds) i = do
  o ← get_offsets b topic (pos i)
  rest ← offsets_loop b topic rounds (suc i)
  ok (record { partition = i; earliest = o.earliest; latest = o.latest } ∷ rest)

abbrev pub offsets_answer : Name → Result (List PartitionOffsets) → Response
offsets_answer topic (ok os) = write_json 200 (offset_list topic os)
offsets_answer topic (err e) = write_json 500 (failure e)

unfoldable pub topic_offsets : Broker → Name → Response
topic_offsets b topic = elim (find_config topic (list_topics b)) [
  | none ↦ write_json 404 message
  | some cfg ↦ offsets_answer topic (offsets_loop b topic (pos_part cfg.partitions) 0)
]

abbrev pub segments_answer : Name → ℕ → Result (List SegmentInfo) → Response
segments_answer topic n (ok ss) = write_json 200 (segment_list topic n ss)
segments_answer topic n (err topic_not_found) = write_json 404 (failure topic_not_found)
segments_answer topic n (err partition_not_found) = write_json 404 (failure partition_not_found)
segments_answer topic n (err e) = write_json 500 (failure e)

unfoldable pub debug_segments : Broker → Query → Response
debug_segments b q =
    if length q.topic == 0 || length q.partition == 0
    then bad_request
    else elim (natural (parse_int q.partition)) [
      | none ↦ bad_request
      | some n ↦ segments_answer q.topic n (describe b q.topic (pos n))
    ]

abbrev pub lag_answer : Result (List GroupLag) → Response
lag_answer (ok ls) = write_json 200 (lag_list ls)
lag_answer (err group_not_found) = write_json 404 (failure group_not_found)
lag_answer (err e) = write_json 500 (failure e)

unfoldable pub debug_lag : Broker → Query → Response
debug_lag b q = lag_answer (group_lag b q.group)

unfoldable pub debug_stats : Broker → Response
debug_stats b = write_json 200 (counters b.stats)
