-- ===== src/Invariant/Reach.antt =====
-- All that a broker goes through: requests, retention passes and `Close`, in any order.
use marchiq.Base.{
  ℕ, ◌+◌, ◌≡◌, refl, sym, ℤ, pos, Bool, ◌||◌, not, List, length, ◌==◌, Option, none, some, IsInt64,
  Result, ok, err, if_rule, option_rule,
}
use mathlib.Core.Path.{subst}
use marchiq.Names.{Name, TopicConfig}
use marchiq.Codec.{Record, Reader, max_record_bytes}
use marchiq.Log.Append.{AppendIo}
use marchiq.Broker.{Broker, produce, fetch}
use marchiq.Catalog.{TopicsMetadata, CreateIo, Created, create_topic}
use marchiq.Log.Read.{Offsets}
use marchiq.Saving.{SaveIo}
use marchiq.GroupsFile.{GroupsFile}
use marchiq.Groups.{Committed, Assignment, PartitionFetch, join_group, commit_offset, fetch_group}
use marchiq.Retention.{RetentionIo}
use marchiq.Retention.Janitor.{sweep}
use marchiq.Closing.{CloseIo, close}
use marchiq.Strconv.{parse_int}
use marchiq.Http.{Response, Query, limit_param, natural}
use marchiq.Http.Topics.{post_topics, create_answer}
use marchiq.Http.Records.{
  post_produce, produce_acks, produce_body, produce_answer, chosen, acks_param, read_all, get_fetch,
  parse_fetch_budget, fetch_explicit, fetch_offset, fetch_answer, fetch_group_answer,
}
use marchiq.Http.Members.{post_join, join_answer, CommitRequest, post_commit, commit_answer}
use marchiq.Http.Router.{Request, RequestIo, handle}
use marchiq.Invariant.{AreSound, SoundAfter}
use marchiq.Invariant.Producing.{produce-AreSound, create_topic-AreSound}
use marchiq.Invariant.Sweeping.{sweep-AreSound, close-AreSound}
use marchiq.Invariant.Reading.{
  SameTopics, fetch-SameTopics, fetch_group-SameTopics, join_group-SameTopics,
  commit_offset-SameTopics, StaysTopics,
}

-- An answer carries the broker of the operation.
join_answer_topics :
    (b : Broker) (x : Result Assignment × Broker) → SameTopics b x → SameTopics b (join_answer x)
join_answer_topics b (ok a, c) h = h
join_answer_topics b (err e, c) h = h

commit_answer_topics :
    (b : Broker) (r : CommitRequest) (x : Committed)
    → StaysTopics b x
    → (commit_answer r x).1.topics ≡ b.topics
commit_answer_topics b r (ok u, c, file) h = h
commit_answer_topics b r (err e, c, file) h = h

fetch_answer_topics :
    (b : Broker) (topic : Name) (n offset : ℕ) (x : Result (List Record × Offsets) × Broker)
    → SameTopics b x
    → SameTopics b (fetch_answer topic n offset x)
fetch_answer_topics b topic n offset (ok rs, c) h = h
fetch_answer_topics b topic n offset (err e, c) h = h

fetch_group_answer_topics :
    (b : Broker) (q : Query) (x : Result (List PartitionFetch) × Broker)
    → SameTopics b x
    → SameTopics b (fetch_group_answer q x)
fetch_group_answer_topics b q (ok fs, c) h = h
fetch_group_answer_topics b q (err e, c) h = h

post_topics-AreSound :
    (io : CreateIo) (b : Broker) (live : TopicsMetadata) (cfg : Option TopicConfig)
    → AreSound b.topics
    → AreSound (post_topics io b live cfg).1.topics
unfolding post_topics
post_topics-AreSound io b live none h = h
post_topics-AreSound io b live (some cfg) h =
    answered (create_topic io b live cfg) (create_topic-AreSound io b live cfg h)
  where
    answered : (x : Created) → AreSound x.1.topics → AreSound (create_answer cfg x).1.topics
    answered (ok u, c, file) k = k
    answered (err e, c, file) k = k

post_produce-AreSound :
    (io : AppendIo) (b : Broker) (q : Query) (body : Reader)
    → IsInt64 io.now
    → AreSound b.topics
    → AreSound (post_produce io b q body).1.topics
unfolding post_produce
post_produce-AreSound io b q body hi h =
    if_rule SoundAfter (length q.topic == 0 || length q.partition == 0) _ _ (λ _. h)
      λ _.
        option_rule SoundAfter (chosen (parse_int q.partition)) _ _ (λ _. h)
          λ n _. with_acks n (acks_param q.acks)
  where
    answered :
        (x : Result (Record × ℕ) × Broker) → SoundAfter x → SoundAfter (produce_answer q.topic x)
    answered (err e, c) k = k
    answered (ok r, c) k = k

    with_body : (n acks : ℤ) (o : Option (List ℕ)) → SoundAfter (produce_body io b q n acks o)
    with_body n acks none = h
    with_body n acks (some value) =
        answered (produce io b q.topic n q.key value acks)
          (produce-AreSound io b q.topic n q.key value acks hi h)

    with_acks : (n : ℤ) (r : Result ℤ) → SoundAfter (produce_acks io b q body n r)
    with_acks n (err e) = h
    with_acks n (ok acks) = with_body n acks (read_all body (max_record_bytes + 1))

get_fetch-SameTopics : (b : Broker) (q : Query) → SameTopics b (get_fetch b q)
unfolding get_fetch
get_fetch-SameTopics b q =
    option_rule (SameTopics b) (parse_fetch_budget q) _ _ (λ _. refl)
      λ l _.
        if_rule (SameTopics b) (not (length q.group == 0)) _ _
          (λ _.
            if_rule (SameTopics b) (length q.topic == 0) _ _ (λ _. refl)
              λ _.
                fetch_group_answer_topics b q (fetch_group b q.group q.topic q.member l.1 l.0)
                  (fetch_group-SameTopics b q.group q.topic q.member l.1 l.0))
          (λ _. explicit l.1 l.0)
  where
    from : (mr mb : ℤ) (n : ℕ) (o : Option ℕ) → SameTopics b (fetch_offset b q mr mb n o)
    from mr mb n none = refl
    from mr mb n (some o) =
        fetch_answer_topics b q.topic n o (fetch b q.topic (pos n) (pos o) mr mb)
          (fetch-SameTopics b q.topic (pos n) (pos o) mr mb)

    explicit : (mr mb : ℤ) → SameTopics b (fetch_explicit b q mr mb)
    explicit mr mb =
        if_rule (SameTopics b)
          (length q.topic == 0 || (length q.partition == 0 || length q.offset == 0)) _ _ (λ _. refl)
          λ _.
            option_rule (SameTopics b) (natural (parse_int q.partition)) _ _ (λ _. refl)
              λ n _. from mr mb n (natural (parse_int q.offset))

post_join-SameTopics :
    (saved : Bool) (b : Broker) (group : Name) (q : Query)
    → SameTopics b (post_join saved b group q)
unfolding post_join
post_join-SameTopics saved b group q =
    if_rule (SameTopics b) (length q.topic == 0) _ _ (λ _. refl)
      λ _.
        option_rule (SameTopics b) (limit_param (pos 1) q.members) _ _ (λ _. refl)
          λ size _.
            join_answer_topics b (join_group saved b group q.topic q.member size)
              (join_group-SameTopics saved b group q.topic q.member size)

post_commit-SameTopics :
    (io : SaveIo) (live : GroupsFile) (b : Broker) (r : Option CommitRequest)
    → (post_commit io live b r).1.topics ≡ b.topics
unfolding post_commit
post_commit-SameTopics io live b none = refl
post_commit-SameTopics io live b (some r) =
    if_rule {A = Response × Broker × GroupsFile} (λ x. x.1.topics ≡ b.topics)
      (length r.group == 0 || length r.topic == 0) _ _ (λ _. refl)
      λ _.
        commit_answer_topics b r (commit_offset io live b r.group r.topic r.partition r.offset)
          (commit_offset-SameTopics io live b r.group r.topic r.partition r.offset)

handle-AreSound :
    (io : RequestIo) (b : Broker) (live : TopicsMetadata) (groups : GroupsFile) (r : Request)
    → IsInt64 io.append.now
    → AreSound b.topics
    → AreSound (handle io (b, live, groups) r).1.0.topics
unfolding handle
handle-AreSound io b live groups Request.healthz hi h = h
handle-AreSound io b live groups Request.home hi h = h
handle-AreSound io b live groups Request.list_topics hi h = h
handle-AreSound io b live groups Request.stats hi h = h
handle-AreSound io b live groups (Request.create_topic cfg) hi h =
    post_topics-AreSound io.create b live cfg h
handle-AreSound io b live groups (Request.offsets topic) hi h = h
handle-AreSound io b live groups (Request.produce q body) hi h =
    post_produce-AreSound io.append b q body hi h
handle-AreSound io b live groups (Request.fetch q) hi h =
    subst AreSound (sym (get_fetch-SameTopics b q)) h
handle-AreSound io b live groups (Request.segments q) hi h = h
handle-AreSound io b live groups (Request.lag q) hi h = h
handle-AreSound io b live groups (Request.join group q) hi h =
    subst AreSound (sym (post_join-SameTopics io.saved b group q)) h
handle-AreSound io b live groups (Request.commit r) hi h =
    subst AreSound (sym (post_commit-SameTopics io.save_groups groups b r)) h

-- What changes a broker. The clock shows an `int64`.
pub data Step : Broker → Broker → Type 0 where
  serve :
      (io : RequestIo) (live : TopicsMetadata) (groups : GroupsFile) (r : Request) (b : Broker)
      → IsInt64 io.append.now
      → Step b (handle io (b, live, groups) r).1.0
  sweep_pass : (io : Name → ℕ → RetentionIo) (now : ℤ) (b : Broker) → Step b (sweep io now b).1
  shut_down : (io : Name → ℕ → CloseIo) (b : Broker) → Step b (close io b).1

pub data Reach (start : Broker) : Broker → Type 0 where
  here : Reach start start
  next : {b c : Broker} → Reach start b → Step b c → Reach start c

Step-AreSound : {b c : Broker} → Step b c → AreSound b.topics → AreSound c.topics
Step-AreSound (serve io live groups r b hi) h = handle-AreSound io b live groups r hi h
Step-AreSound (sweep_pass io now b) h = sweep-AreSound io now b h
Step-AreSound (shut_down io b) h = close-AreSound io b h

-- Requests, retention passes and `Close`, in any order and whatever the system answers: if every
-- partition of the broker was valid, with sealed segments that are whole and durable, and every
-- topic had as many partitions as its configuration says, then so in every state that is reached.
pub Reach-AreSound : {start b : Broker} → AreSound start.topics → Reach start b → AreSound b.topics
Reach-AreSound h here = h
Reach-AreSound h (next r s) = Step-AreSound s (Reach-AreSound h r)
