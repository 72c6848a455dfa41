-- ===== src/Invariant/Reading.antt =====
-- Joining, committing and fetching leave the topics of the broker as they are.
use marchiq.Base.{
  ℕ, zero, suc, ◌≡◌, refl, ℤ, pos_part, is_positive, ◌==◌, ◌%◌, Bool, not, List, get_elem?, Result,
  ok, err, ◌>>=◌, if_rule, option_rule, result_rule,
}
use marchiq.Names.{Name, is_topic_name}
use marchiq.Maps.{get}
use marchiq.Log.Read.{Offsets, offsets, read_from}
use marchiq.Codec.{Record}
use marchiq.Broker.{
  Broker, Topic, Group, GroupTopic, get_topic, get_partition, fetch, fetched, count_fetch,
}
use marchiq.Saving.{SaveIo, save}
use marchiq.GroupsFile.{GroupsFile}
use marchiq.Groups.{
  Committed, join_group, join_topic, group_of, binding_of, seat, outside, commit_found,
  commit_binding, commit_range, commit_offset, group_topic, fetch_partition, fetch_partitions,
  fetch_group, caller,
}

-- The broker of the pair has the topics of `b`.
abbrev pub SameTopics : {A : Type 0} → Broker → A × Broker → Type 0
SameTopics b x = x.1.topics ≡ b.topics

pub fetch-SameTopics :
    (b : Broker) (topic : Name) (partition offset max_records max_bytes : ℤ)
    → SameTopics b (fetch b topic partition offset max_records max_bytes)
unfolding fetch
fetch-SameTopics b topic partition offset mr mb = counted (do
  p ← get_partition b topic partition
  rs ← read_from p offset mr mb
  o ← offsets p
  ok (rs, o))
  where
    counted : (r : Result (List Record × Offsets)) → (fetched r b).topics ≡ b.topics
    counted (err e) = refl
    counted (ok x) = refl

join_topic-SameTopics :
    (saved : Bool) (b : Broker) (t : Topic) (group topic member : Name) (size : ℕ)
    → SameTopics b (join_topic saved b t group topic member size)
unfolding join_topic
join_topic-SameTopics saved b t group topic member size =
    result_rule (SameTopics b) (seat (binding_of (group_of b group) topic size) member size) _ _
      (λ e _. refl) (λ s _. refl)

pub join_group-SameTopics :
    (saved : Bool) (b : Broker) (group topic member : Name) (size : ℤ)
    → SameTopics b (join_group saved b group topic member size)
unfolding join_group
join_group-SameTopics saved b group topic member size =
    if_rule (SameTopics b) (not (is_topic_name group)) _ _ (λ _. refl)
      λ _.
        if_rule (SameTopics b) (not (is_positive size)) _ _ (λ _. refl)
          λ _.
            result_rule (SameTopics b) (get_topic b topic) _ _ (λ e _. refl)
              λ t _.
                if_rule (SameTopics b) b.closed _ _ (λ _. refl)
                  λ _. join_topic-SameTopics saved b t group topic member (pos_part size)

-- The broker of a commit has the topics of before.
abbrev pub StaysTopics : Broker → Committed → Type 0
StaysTopics b x = SameTopics b (x.0, x.1)

commit_binding-SameTopics :
    (io : SaveIo) (live : GroupsFile) (b : Broker) (group topic : Name) (n o : ℕ)
    (x : Group × GroupTopic)
    → StaysTopics b (commit_binding io live b group topic n o x)
unfolding commit_binding
commit_binding-SameTopics io live b group topic n o x =
    if_rule (StaysTopics b) (save io live _).0 _ _ (λ _. refl) (λ _. refl)

commit_found-SameTopics :
    (io : SaveIo) (live : GroupsFile) (b : Broker) (group topic : Name) (n o : ℕ)
    (r : Result (Group × GroupTopic))
    → StaysTopics b (commit_found io live b group topic n o r)
commit_found-SameTopics io live b group topic n o (err e) = refl
commit_found-SameTopics io live b group topic n o (ok x) =
    commit_binding-SameTopics io live b group topic n o x

commit_range-SameTopics :
    (io : SaveIo) (live : GroupsFile) (b : Broker) (group topic : Name) (n o : ℤ)
    (r : Result Offsets)
    → StaysTopics b (commit_range io live b group topic n o r)
commit_range-SameTopics io live b group topic n o (err e) = refl
commit_range-SameTopics io live b group topic n o (ok x) =
    if_rule (StaysTopics b) (outside o x.latest) _ _ (λ _. refl)
      λ _.
        if_rule (StaysTopics b) b.closed _ _ (λ _. refl)
          λ _.
            commit_found-SameTopics io live b group topic (pos_part n) (pos_part o)
              (group_topic b group topic)

pub commit_offset-SameTopics :
    (io : SaveIo) (live : GroupsFile) (b : Broker) (group topic : Name) (n o : ℤ)
    → StaysTopics b (commit_offset io live b group topic n o)
unfolding commit_offset
commit_offset-SameTopics io live b group topic n o =
    commit_range-SameTopics io live b group topic n o (do p ← get_partition b topic n; offsets p)

fetch_partitions-SameTopics :
    (t : Topic) (gt : GroupTopic) (ordinal : ℕ) (mr mb : ℤ) (rounds n : ℕ) (b : Broker)
    → SameTopics b (fetch_partitions t gt ordinal mr mb rounds n b)
unfolding fetch_partitions
fetch_partitions-SameTopics t gt ordinal mr mb zero n b = refl
fetch_partitions-SameTopics t gt ordinal mr mb (suc rounds) n b =
    if_rule (SameTopics b) (not (n % gt.size == ordinal)) _ _
      (λ _. fetch_partitions-SameTopics t gt ordinal mr mb rounds (suc n) b)
      λ _.
        option_rule (SameTopics b) (get_elem? t.partitions n) _ _ (λ _. refl)
          λ p _.
            result_rule (SameTopics b) (fetch_partition p n (get ◌==◌ n gt.offsets) mr mb) _ _
              (λ e _. refl)
              λ f _.
                fetch_partitions-SameTopics t gt ordinal mr mb rounds (suc n)
                  (record b { stats = count_fetch f.records b.stats })

pub fetch_group-SameTopics :
    (b : Broker) (group topic member : Name) (mr mb : ℤ)
    → SameTopics b (fetch_group b group topic member mr mb)
unfolding fetch_group
fetch_group-SameTopics b group topic member mr mb =
    result_rule (SameTopics b) (get_topic b topic) _ _ (λ e _. refl)
      λ t _.
        if_rule (SameTopics b) b.closed _ _ (λ _. refl)
          λ _.
            result_rule (SameTopics b) (group_topic b group topic) _ _ (λ e _. refl)
              λ x _.
                result_rule (SameTopics b) (caller x.1 member) _ _ (λ e _. refl)
                  λ i _.
                    fetch_partitions-SameTopics t x.1 i mr mb (pos_part t.config.partitions) 0 b
