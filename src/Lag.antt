-- ===== src/Lag.antt =====
-- storage/group.go: `GroupLag`, the distance of each group from the end of its partitions.
pub mod Laws
mod Tests
use marchiq.Base.{
  ℕ, zero, suc, ◌+◌, ℤ, sub_nat, Bool, ◌&&◌, ◌||◌, not, List, [], ◌∷◌, ◌++◌, length, Option, none,
  some, ◌==◌, if◌then◌else◌, Error, closed, group_not_found, Result, ok, err, ◌>>=◌,
}
use marchiq.Names.{Name, eq_name, name_lt}
use marchiq.Maps.{get}
use marchiq.Sorting.{sort}
use marchiq.Log.{PartitionLog}
use marchiq.Log.Read.{Offsets, offsets}
use marchiq.Broker.{Broker, Topic, Group, GroupTopic, get_topic}

pub record PartitionLag : Type 0 where
  pub partition : ℕ
  pub committed : Option ℕ
  pub next_fetch : ℕ
  pub latest : ℕ
  pub lag : ℤ

pub record GroupLag : Type 0 where
  pub group : Name
  pub topic : Name
  pub members : List Name
  pub partitions : List PartitionLag

-- A copy of one group's binding to one topic.
pub record Snap : Type 0 where
  pub group : Name
  pub topic : Name
  pub members : List Name
  pub offsets : List (ℕ × ℕ)

abbrev pub snap_topics : Name → List (Name × GroupTopic) → List Snap
snap_topics group [] = []
snap_topics group ((topic, gt) ∷ gts) =
    record { group = group; topic = topic; members = gt.members; offsets = gt.offsets }
    ∷ snap_topics group gts

-- Whether a group is asked for; no name asks for all.
abbrev pub is_asked : Name → Name → Bool
is_asked asked name = length asked == 0 || eq_name name asked

abbrev pub snaps : Name → List (Name × Group) → List Snap
snaps asked [] = []
snaps asked ((key, g) ∷ gs) =
    let rest = snaps asked gs in
    if not (is_asked asked g.name) then rest else snap_topics g.name g.topics ++ rest

abbrev pub lag_at : ℕ → Option ℕ → Offsets → PartitionLag
lag_at n none o = record {
  partition = n;
  committed = none;
  next_fetch = 0;
  latest = o.latest;
  lag = sub_nat o.latest 0;
}
lag_at n (some c) o = record {
  partition = n;
  committed = some c;
  next_fetch = c + 1;
  latest = o.latest;
  lag = sub_nat o.latest (c + 1);
}

-- The loop over the partitions, from number `n` on.
unfoldable pub partition_lags : List (ℕ × ℕ) → ℕ → List PartitionLog → Result (List PartitionLag)
partition_lags committed n [] = ok []
partition_lags committed n (p ∷ ps) = do
  o ← offsets p
  rest ← partition_lags committed (suc n) ps
  ok (lag_at n (get ◌==◌ n committed) o ∷ rest)

unfoldable pub snap_lag : Broker → Snap → Result GroupLag
snap_lag b s = do
  t ← get_topic b s.topic
  ps ← partition_lags s.offsets 0 t.partitions
  ok (record { group = s.group; topic = s.topic; members = s.members; partitions = ps })

unfoldable pub snap_lags : Broker → List Snap → Result (List GroupLag)
snap_lags b [] = ok []
snap_lags b (s ∷ ss) = do l ← snap_lag b s; rest ← snap_lags b ss; ok (l ∷ rest)

-- By group, and then by topic.
abbrev pub lag_lt : GroupLag → GroupLag → Bool
lag_lt a b =
    if not (eq_name a.group b.group) then name_lt a.group b.group else name_lt a.topic b.topic

unfoldable pub group_lag : Broker → Name → Result (List GroupLag)
group_lag b asked =
    if b.closed
    then err closed
    else if not (length asked == 0) && length (snaps asked b.groups) == 0
    then err group_not_found
    else do ls ← snap_lags b (snaps asked b.groups); ok (sort lag_lt ls)
