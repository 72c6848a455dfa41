-- ===== src/Groups.antt =====
-- storage/group.go: joining a group, committing an offset, and fetching for a member.
-- What each call of a commit's `saveGroupsLocked` answers is an argument, and the file that it leaves
-- a result. Of a join's it is an argument only whether it succeeds.
pub mod Fetch
pub mod Drain
pub mod Commit
pub mod Assign
pub mod Join
pub mod Tests
use marchiq.Base.{
  ℕ, zero, suc, ◌+◌, ◌-◌, ◌%◌, ℤ, pos, negsuc, is_positive, pos_part, Bool, true, false, ◌&&◌, ◌||◌,
  not, List, [], ◌∷◌, ◌++◌, length, get_elem?, Option, none, some, ltb, leb, ◌==◌, if◌then◌else◌,
  Error, closed, offset_out_of_range, group_not_found, group_conflict, member_required, other,
  stuck, Result, ok, err, ◌>>=◌,
}
use marchiq.Names.{Name, eq_name, is_topic_name, member_name, TopicConfig}
use marchiq.Maps.{get, set, delete}
use marchiq.Codec.{Record}
use marchiq.Log.{PartitionLog}
use marchiq.Log.Read.{Offsets, offsets, read_from}
use marchiq.Saving.{SaveIo, save}
use marchiq.GroupsFile.{GroupsFile, groups_file}
use marchiq.Broker.{Broker, Topic, Group, GroupTopic, get_topic, get_partition, count_fetch}

pub record Assignment : Type 0 where
  pub group : Name
  pub member : Name
  pub topic : Name
  pub partitions : List ℕ

abbrev pub find_from : ℕ → Name → List Name → Option ℕ
find_from i member [] = none
find_from i member (m ∷ ms) =
    let rest = find_from (suc i) member ms in if eq_name m member then some i else rest

-- The position of a member in the join order.
abbrev pub ordinal_of : Name → List Name → Option ℕ
ordinal_of member members = find_from 0 member members

-- The loop over `partitions` numbers from `p` on.
abbrev pub assigned_from : ℕ → ℕ → ℕ → ℕ → List ℕ
assigned_from zero p size ordinal = []
assigned_from (suc rounds) p size ordinal =
    let rest = assigned_from rounds (suc p) size ordinal in
    if p % size == ordinal then p ∷ rest else rest

unfoldable pub assigned : ℕ → ℕ → ℕ → List ℕ
assigned partitions size ordinal = assigned_from partitions 0 size ordinal

-- The group and its binding to the topic; new ones where they do not exist.
abbrev pub group_of : Broker → Name → Group
group_of b group = elim (get eq_name group b.groups) [
  | none ↦ record { name = group; topics = [] }
  | some g ↦ g
]

abbrev pub binding_of : Group → Name → ℕ → GroupTopic
binding_of g topic size = elim (get eq_name topic g.topics) [
  | none ↦ record { size = size; members = []; offsets = [] }
  | some gt ↦ gt
]

abbrev pub set_binding : Broker → Group → Name → Name → GroupTopic → Broker
set_binding b g group topic gt = record b {
  groups = set eq_name group (record g { topics = set eq_name topic gt g.topics }) b.groups;
}

-- The member that joins, and the binding after it.
abbrev pub new_member : GroupTopic → Name → Name
new_member gt [] = member_name (length gt.members + 1)
new_member gt (x ∷ xs) = x ∷ xs

abbrev pub add_member : GroupTopic → Name → GroupTopic
add_member gt member = record gt { members = gt.members ++ (member ∷ []) }

abbrev pub Seat : Type 0
Seat = Name × ℕ × GroupTopic

abbrev pub seat_at : GroupTopic → Name → Option ℕ → Result Seat
seat_at gt member (some i) = ok (member, i, gt)
seat_at gt member none =
    if leb gt.size (length gt.members)
    then err group_conflict
    else ok (new_member gt member, length gt.members, add_member gt (new_member gt member))

-- The seat of a member: the one it has, or the next one unless the group is full.
unfoldable pub seat : GroupTopic → Name → ℕ → Result Seat
seat gt member size =
    if not (gt.size == size)
    then err group_conflict
    else seat_at gt member (ordinal_of member gt.members)

abbrev pub assignment : Topic → Name → Name → Seat → Assignment
assignment t group topic (member, i, gt) = record {
  group = group;
  member = member;
  topic = topic;
  partitions = assigned (pos_part t.config.partitions) gt.size i;
}

unfoldable pub join_topic :
    Bool → Broker → Topic → Name → Name → Name → ℕ → Result Assignment × Broker
join_topic saved b t group topic member size =
    let g = group_of b group in
    let gt = binding_of g topic size in
    elim (seat gt member size) [
      | err e ↦ (err e, set_binding b g group topic gt)
      | ok s ↦ (
        if saved then ok (assignment t group topic s) else err other,
        set_binding b g group topic s.2,
      )
    ]

unfoldable pub join_group : Bool → Broker → Name → Name → Name → ℤ → Result Assignment × Broker
join_group saved b group topic member size =
    if not (is_topic_name group)
    then (err other, b)
    else if not (is_positive size)
    then (err other, b)
    else elim (get_topic b topic) [
      | err e ↦ (err e, b)
      | ok t ↦
          if b.closed
          then (err closed, b)
          else join_topic saved b t group topic member (pos_part size)
    ]

abbrev pub from_topic : Group → Option GroupTopic → Result (Group × GroupTopic)
from_topic g none = err group_not_found
from_topic g (some gt) = ok (g, gt)

abbrev pub from_group : Name → Option Group → Result (Group × GroupTopic)
from_group topic none = err group_not_found
from_group topic (some g) = from_topic g (get eq_name topic g.topics)

unfoldable pub group_topic : Broker → Name → Name → Result (Group × GroupTopic)
group_topic b group topic = from_group topic (get eq_name group b.groups)

-- The offsets after a failed save: what was there before, or nothing.
abbrev pub roll_back : ℕ → Option ℕ → List (ℕ × ℕ) → List (ℕ × ℕ)
roll_back partition (some old) offsets = set ◌==◌ partition old offsets
roll_back partition none offsets = delete ◌==◌ partition offsets

-- The answer, the broker, and what the groups' file holds then.
abbrev pub Committed : Type 0
Committed = Result (Unit {0}) × Broker × GroupsFile

-- The map is changed, then saved with the change, and changed back where saving failed.
unfoldable pub commit_binding :
    SaveIo → GroupsFile → Broker → Name → Name → ℕ → ℕ → Group × GroupTopic → Committed
commit_binding io live b group topic partition offset (g, gt) =
    let old = get ◌==◌ partition gt.offsets in
    let changed = set ◌==◌ partition offset gt.offsets in
    let after = set_binding b g group topic (record gt { offsets = changed }) in
    let (saved, file) = save io live (groups_file after.groups) in
    if saved then (ok tt, after, file) else (
      err other,
      set_binding b g group topic (record gt { offsets = roll_back partition old changed }),
      file,
    )

-- `offset < 0 || offset >= latest`
abbrev pub outside : ℤ → ℕ → Bool
outside (negsuc n) latest = true
outside (pos n) latest = leb latest n

abbrev pub commit_found :
    SaveIo → GroupsFile → Broker → Name → Name → ℕ → ℕ → Result (Group × GroupTopic) → Committed
commit_found io live b group topic partition offset (err e) = (err e, b, live)
commit_found io live b group topic partition offset (ok x) =
    commit_binding io live b group topic partition offset x

abbrev pub commit_range :
    SaveIo → GroupsFile → Broker → Name → Name → ℤ → ℤ → Result Offsets → Committed
commit_range io live b group topic partition offset (err e) = (err e, b, live)
commit_range io live b group topic partition offset (ok o) =
    if outside offset o.latest
    then (err offset_out_of_range, b, live)
    else if b.closed
    then (err closed, b, live)
    else commit_found io live b group topic (pos_part partition) (pos_part offset)
        (group_topic b group topic)

-- A negative partition does not get past `get_partition`.
unfoldable pub commit_offset : SaveIo → GroupsFile → Broker → Name → Name → ℤ → ℤ → Committed
commit_offset io live b group topic partition offset =
    commit_range io live b group topic partition offset
      (do p ← get_partition b topic partition; offsets p)

pub record PartitionFetch : Type 0 where
  pub partition : ℕ
  pub records : List Record
  pub next_offset : ℕ
  pub high_watermark : ℕ

-- Where a fetch starts: behind the committed offset, moved into the readable range.
abbrev pub next_of : Option ℕ → ℕ
next_of none = 0
next_of (some c) = c + 1

abbrev pub clamp_start : Offsets → Option ℕ → ℕ
clamp_start o committed =
    let start = next_of committed in
    let raised = if ltb start o.earliest then o.earliest else start in
    if ltb o.latest raised then o.latest else raised

-- The offset behind the last record.
abbrev pub next_after : ℕ → List Record → ℕ
next_after start [] = start
next_after start (r ∷ rs) = next_after (r.offset + 1) rs

abbrev pub fetched_from : ℕ → Offsets → ℕ → List Record → PartitionFetch
fetched_from n o start rs = record {
  partition = n;
  records = rs;
  next_offset = next_after start rs;
  high_watermark = o.latest;
}

abbrev pub fetch_range : PartitionLog → ℕ → Option ℕ → ℤ → ℤ → Offsets → Result PartitionFetch
fetch_range p n committed max_records max_bytes o =
    let start = clamp_start o committed in
    do
      rs ← if ltb start o.latest then read_from p (pos start) max_records max_bytes else ok []
      ok (fetched_from n o start rs)

unfoldable pub fetch_partition : PartitionLog → ℕ → Option ℕ → ℤ → ℤ → Result PartitionFetch
fetch_partition p n committed max_records max_bytes = do
  o ← offsets p
  fetch_range p n committed max_records max_bytes o

-- The only member may leave out its name.
abbrev pub is_sole : List Name → Name → Bool
is_sole (m ∷ []) name = length name == 0 || eq_name name m
is_sole ms name = false

-- The ordinal of the member that calls.
unfoldable pub caller : GroupTopic → Name → Result ℕ
caller gt member =
    if is_sole gt.members member
    then ok 0
    else if length member == 0
    then err member_required
    else elim (ordinal_of member gt.members) [ none ↦ err group_not_found | some i ↦ ok i ]

-- The loop over the topic's partitions. The records of a partition are counted as soon as they are
-- read, also where a later partition fails. Without the partition the source would panic.
unfoldable pub fetch_partitions :
    Topic → GroupTopic → ℕ → ℤ → ℤ → ℕ → ℕ → Broker → Result (List PartitionFetch) × Broker
fetch_partitions t gt ordinal max_records max_bytes zero n b = (ok [], b)
fetch_partitions t gt ordinal max_records max_bytes (suc rounds) n b =
    let skip = fetch_partitions t gt ordinal max_records max_bytes rounds (suc n) b in
    let read : Result (List PartitionFetch) × Broker = (elim (get_elem? t.partitions n) [
      | none ↦ (err stuck, b)
      | some p ↦ elim (fetch_partition p n (get ◌==◌ n gt.offsets) max_records max_bytes) [
        | err e ↦ (err e, b)
        | ok f ↦
            let counted = record b { stats = count_fetch f.records b.stats } in
            let (rest, after) =
              fetch_partitions t gt ordinal max_records max_bytes rounds (suc n) counted in
            (do fs ← rest; ok (f ∷ fs), after)
      ]
    ]) in
    if not (n % gt.size == ordinal) then skip else read

unfoldable pub fetch_group :
    Broker → Name → Name → Name → ℤ → ℤ → Result (List PartitionFetch) × Broker
fetch_group b group topic member max_records max_bytes = elim (get_topic b topic) [
  | err e ↦ (err e, b)
  | ok t ↦ if b.closed then (err closed, b) else elim (group_topic b group topic) [
    | err e ↦ (err e, b)
    | ok (g, gt) ↦ elim (caller gt member) [
      | err e ↦ (err e, b)
      | ok ordinal ↦
          fetch_partitions t gt ordinal max_records max_bytes (pos_part t.config.partitions) 0 b
    ]
  ]
]
