-- ===== src/Http/Router.antt =====
-- cmd/marchiq/main.go: `handler`, which hands a request to the function of its route.
use marchiq.Base.{Bool, Option}
use marchiq.Names.{Name, TopicConfig}
use marchiq.Codec.{Reader}
use marchiq.Log.Append.{AppendIo}
use marchiq.Broker.{Broker}
use marchiq.Catalog.{TopicsMetadata, CreateIo}
use marchiq.Http.{Query, Response, write_json, plain_text}
use marchiq.Http.Topics.{
  post_topics, get_topics, topic_offsets, debug_segments, debug_lag, debug_stats,
}
use marchiq.Http.Records.{post_produce, get_fetch}
use marchiq.Saving.{SaveIo}
use marchiq.GroupsFile.{GroupsFile}
use marchiq.Http.Members.{post_join, CommitRequest, post_commit}

-- A request that matches a route, with the parts of its path, its parameters and its body.
pub data Request : Type 0 where
  healthz home list_topics stats : Request
  create_topic : Option TopicConfig → Request
  offsets : Name → Request
  produce : Query → Reader → Request
  fetch segments lag : Query → Request
  join : Name → Query → Request
  commit : Option CommitRequest → Request

-- What the operating system answers while a request is served.
pub record RequestIo : Type 0 where
  pub create : CreateIo
  pub append : AppendIo
  pub saved : Bool
  pub save_groups : SaveIo

-- The broker, the file of its catalog and that of its groups. (Joins do not track the last one.)
abbrev pub World : Type 0
World = Broker × TopicsMetadata × GroupsFile

abbrev pub unchanged : World → Response → Response × World
unchanged w r = (r, w)

abbrev pub with_broker : World → Response × Broker → Response × World
with_broker w (r, b) = (r, (b, w.1, w.2))

unfoldable pub handle : RequestIo → World → Request → Response × World
handle io w healthz = unchanged w (write_json 200 plain_text)
handle io w home = unchanged w (write_json 200 plain_text)
handle io w list_topics = unchanged w (get_topics w.0)
handle io w stats = unchanged w (debug_stats w.0)
handle io w (create_topic cfg) =
    let (r, b, live) = post_topics io.create w.0 w.1 cfg in (r, (b, live, w.2))
handle io w (offsets topic) = unchanged w (topic_offsets w.0 topic)
handle io w (produce q body) = with_broker w (post_produce io.append w.0 q body)
handle io w (fetch q) = with_broker w (get_fetch w.0 q)
handle io w (segments q) = unchanged w (debug_segments w.0 q)
handle io w (lag q) = unchanged w (debug_lag w.0 q)
handle io w (join group q) = with_broker w (post_join io.saved w.0 group q)
handle io w (commit r) =
    let (r, b, groups) = post_commit io.save_groups w.2 w.0 r in (r, (b, w.1, groups))
