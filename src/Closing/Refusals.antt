-- ===== src/Closing/Refusals.antt =====
-- A broker that was closed does nothing more.
use marchiq.Base.{
  ℕ, suc, ◌≡◌, refl, ℤ, pos, negsuc, is_positive, Bool, true, false, List, [], ◌∷◌, All, arith,
  closed, ok, err,
}
use marchiq.Names.{Name, is_topic_name, TopicConfig, validate}
use marchiq.Log.{PartitionLog}
use marchiq.Log.Append.{AppendIo}
use marchiq.Broker.{
  Broker, Topic, get_topic, get_partition, produce, resolve_partition, get_offsets, fetch, describe,
}
use marchiq.Catalog.{CreateIo, TopicsMetadata, create_topic, create_valid}
use marchiq.Saving.{SaveIo}
use marchiq.GroupsFile.{GroupsFile}
use marchiq.Groups.{join_group, commit_offset, fetch_group}
use marchiq.Lag.{group_lag}
use marchiq.Retention.{RetentionIo}
use marchiq.Retention.Janitor.{sweep}
use marchiq.Closing.{CloseIo, close_partition, close_partitions, close_topics, close}

-- What each operation of the broker answers, and that it leaves the broker as it is.
pub record Refuses (b : Broker) : Type 0 where
  pub produce_to_number :
      (io : AppendIo) (topic : Name) (n : ℕ) (key value : List ℕ) (acks : ℤ)
      → produce io b topic (pos n) key value acks ≡ (err closed, b)
  pub produce_picked :
      (io : AppendIo) (topic : Name) (key value : List ℕ) (acks : ℤ)
      → produce io b topic (negsuc 0) key value acks ≡ (err closed, b)
  pub fetches :
      (topic : Name) (partition offset max_records max_bytes : ℤ)
      → fetch b topic partition offset max_records max_bytes ≡ (err closed, b)
  pub reports :
      (topic : Name) (partition : ℤ)
      → (get_offsets b topic partition ≡ err closed) × (describe b topic partition ≡ err closed)
  pub creates :
      (io : CreateIo) (live : TopicsMetadata) (cfg : TopicConfig)
      → validate cfg ≡ ok tt
      → create_topic io b live cfg ≡ (err closed, b, live)
  pub joins :
      (saved : Bool) (group topic member : Name) (size : ℤ)
      → is_topic_name group ≡ true
      → is_positive size ≡ true
      → join_group saved b group topic member size ≡ (err closed, b)
  pub commits :
      (io : SaveIo) (live : GroupsFile) (group topic : Name) (partition offset : ℤ)
      → commit_offset io live b group topic partition offset ≡ (err closed, b, live)
  pub fetches_group :
      (group topic member : Name) (max_records max_bytes : ℤ)
      → fetch_group b group topic member max_records max_bytes ≡ (err closed, b)
  pub lags : (group : Name) → group_lag b group ≡ err closed
  pub sweeps : (io : Name → ℕ → RetentionIo) (now : ℤ) → sweep io now b ≡ (err closed, b)
  pub closes : (io : Name → ℕ → CloseIo) → close io b ≡ (false, b)

closed-Refuses : (b : Broker) → b.closed ≡ true → Refuses b
unfolding produce resolve_partition get_topic get_partition fetch get_offsets describe create_topic
    create_valid join_group commit_offset fetch_group group_lag sweep close
closed-Refuses b h = record {
  produce_to_number = λ io topic n key value acks. rw (h) refl;
  produce_picked = λ io topic key value acks. rw (h) refl;
  fetches = λ topic partition offset mr mb. rw (h) refl;
  reports = λ topic partition. (rw (h) refl, rw (h) refl);
  creates = λ io live cfg v. rw (v) (rw (h) refl);
  joins = λ saved group topic member size g s. simp (g, s, h);
  commits = λ io live group topic partition offset. rw (h) refl;
  fetches_group = λ group topic member mr mb. rw (h) refl;
  lags = λ group. rw (h) refl;
  sweeps = λ io now. rw (h) refl;
  closes = λ io. rw (h) refl;
}

closed_after : (io : Name → ℕ → CloseIo) (b : Broker) → (close io b).1.closed ≡ true
unfolding close
closed_after io b = ground arith

-- Every partition of every topic is closed.
abbrev pub AllClosed : List (Name × Topic) → Type 0
AllClosed ts = All (λ e. All (λ p. p.closed ≡ true) e.1.partitions) ts

close_partition_closed : (io : CloseIo) (p : PartitionLog) → (close_partition io p).1.closed ≡ true
unfolding close_partition
close_partition_closed io p = ground arith

close_partitions_closed :
    (io : ℕ → CloseIo) (i : ℕ) (ps : List PartitionLog)
    → All (λ p. p.closed ≡ true) (close_partitions io i ps).1
close_partitions_closed io i [] = tt
close_partitions_closed io i (p ∷ ps) =
    (close_partition_closed (io i) p, close_partitions_closed io (suc i) ps)

close_topics-AllClosed :
    (io : Name → ℕ → CloseIo) (ts : List (Name × Topic)) → AllClosed (close_topics io ts).1
close_topics-AllClosed io [] = tt
close_topics-AllClosed io ((name, t) ∷ ts) =
    (close_partitions_closed (io name) 0 t.partitions, close_topics-AllClosed io ts)

-- Closing an open broker closes every partition, whichever files the system fails to close. After
-- that, every operation on it answers ErrClosed and changes nothing: Produce to a numbered partition
-- or to one that the broker picks, Fetch, GetOffsets, DescribeSegments, CreateTopic of a valid
-- topic, JoinGroup with a valid name and size, CommitOffset, FetchGroup, GroupLag and
-- EnforceRetention. Closing again succeeds and changes nothing.
pub close-Refuses :
    (io : Name → ℕ → CloseIo) (b : Broker)
    → b.closed ≡ false
    → AllClosed (close io b).1.topics × Refuses (close io b).1
unfolding close
close-Refuses io b h = (
  simp (h) (close_topics-AllClosed io b.topics),
  closed-Refuses (close io b).1 (closed_after io b),
)
