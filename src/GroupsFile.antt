-- ===== src/GroupsFile.antt =====
-- storage/group.go: the envelope of meta/groups.json, what `saveGroupsLocked` writes and what
-- `loadGroups` makes of it. What the JSON decoder makes of the file's bytes is an argument.
pub mod Sorted
pub mod RoundTrip
pub mod Kept
mod Tests
use marchiq.Base.{
  ℕ, ℤ, pos, is_positive, pos_part, Bool, not, List, [], ◌∷◌, ◌++◌, Option, none, some, ◌==◌,
  if◌then◌else◌, other, Result, ok, err, ◌>>=◌,
}
use marchiq.Names.{Name, eq_name, name_lt, is_topic_name}
use marchiq.Maps.{get, set}
use marchiq.Sorting.{sort}
use marchiq.Broker.{Group, GroupTopic}
use marchiq.Catalog.{is_some}

-- Offsets that are saved are not negative, and neither are their partitions.
pub record GroupTopicState : Type 0 where
  pub topic : Name
  pub size : ℤ
  pub members : List Name
  pub offsets : List (ℕ × ℕ)

pub record GroupState : Type 0 where
  pub name : Name
  pub topics : List GroupTopicState

pub record GroupsFile : Type 0 where
  pub version : ℕ
  pub groups : List GroupState

abbrev pub groups_version : ℕ
groups_version = 1

-- What reading the file gives.
pub data GroupsRead : Type 0 where
  missing unreadable unparsable : GroupsRead
  parsed : GroupsFile → GroupsRead

abbrev pub topic_states : List (Name × GroupTopic) → List GroupTopicState
topic_states [] = []
topic_states ((topic, gt) ∷ ts) =
    record { topic = topic; size = pos gt.size; members = gt.members; offsets = gt.offsets }
    ∷ topic_states ts

abbrev pub topic_lt : GroupTopicState → GroupTopicState → Bool
topic_lt a b = name_lt a.topic b.topic

abbrev pub group_states : List (Name × Group) → List GroupState
group_states [] = []
group_states ((key, g) ∷ gs) =
    record { name = g.name; topics = sort topic_lt (topic_states g.topics) } ∷ group_states gs

abbrev pub group_lt : GroupState → GroupState → Bool
group_lt a b = name_lt a.name b.name

unfoldable pub groups_file : List (Name × Group) → GroupsFile
groups_file groups = record {
  version = groups_version;
  groups = sort group_lt (group_states groups);
}

abbrev pub binding_in : GroupTopicState → GroupTopic
binding_in s = record { size = pos_part s.size; members = s.members; offsets = s.offsets }

-- The topics of one group. A topic that comes twice has its last state.
unfoldable pub load_topics :
    List (Name × GroupTopic) → List GroupTopicState → Result (List (Name × GroupTopic))
load_topics out [] = ok out
load_topics out (s ∷ ss) =
    if not (is_positive s.size)
    then err other
    else load_topics (set eq_name s.topic (binding_in s) out) ss

unfoldable pub load_loop : List (Name × Group) → List GroupState → Result (List (Name × Group))
load_loop out [] = ok out
load_loop out (s ∷ ss) =
    if not (is_topic_name s.name)
    then err other
    else if is_some (get eq_name s.name out)
    then err other
    else do
      ts ← load_topics [] s.topics
      load_loop (set eq_name s.name (record { name = s.name; topics = ts }) out) ss

unfoldable pub load_groups : GroupsRead → Result (List (Name × Group))
load_groups missing = ok []
load_groups unreadable = err other
load_groups unparsable = err other
load_groups (parsed f) =
    if not (f.version == groups_version) then err other else load_loop [] f.groups
