-- ===== src/GroupsFile/Tests.antt =====
-- Two groups, which were not made in the order of their names.
use marchiq.Base.{◌≡◌, refl, true, pos, List, [], ◌∷◌, ok, arith}
use marchiq.Names.{Name, eq_name, is_topic_name, member_name, decimal}
use marchiq.Broker.{Group, GroupTopic, get_topic, get_partition}
use marchiq.GroupsFile.{parsed, groups_file, load_groups}
use marchiq.BigEndian.{put_uint}
use marchiq.Codec.{encode_record}
use marchiq.Log.Append.{append, append_encoded}
use marchiq.Log.Read.{offsets}
use marchiq.Groups.{join_group, join_topic, seat, commit_offset, commit_binding, group_topic}
use marchiq.Groups.Tests.{no_groups, fresh, joined}
use marchiq.Saving.{save}
use marchiq.Catalog.Tests.{fine_save}
use marchiq.GroupsFile.Kept.{Survives, join_group-AreGroups, commit_offset-Survives}
use marchiq.GroupsFile.RoundTrip.{AreGroups, binding, load_groups-groups_file}

abbrev bound : GroupTopic
bound = record { size = 1; members = (b'm' ∷ []) ∷ []; offsets = (0, 7) ∷ [] }

abbrev two_groups : List (Name × Group)
two_groups =
    (
      (b'z' ∷ []),
      record { name = b'z' ∷ []; topics = ((b't' ∷ []), bound) ∷ ((b'a' ∷ []), bound) ∷ [] },
    )
    ∷ ((b'b' ∷ []), record { name = b'b' ∷ []; topics = [] })
    ∷ []

two_groups-AreGroups : AreGroups two_groups
unfolding eq_name is_topic_name
two_groups-AreGroups = (
  ((refl, tt), (tt, tt)),
  (
    (refl, refl, ((refl, tt), (tt, tt)), (omega arith, (omega arith, tt))),
    ((refl, refl, tt, tt), tt),
  ),
)

load_groups-groups_file_example :
    (loaded : List (Name × Group)) × (load_groups (parsed (groups_file two_groups)) ≡ ok loaded)
    × ((group topic : Name) → binding loaded group topic ≡ binding two_groups group topic)
load_groups-groups_file_example = load_groups-groups_file two_groups two_groups-AreGroups

committed_one :
    (commit_offset fine_save no_groups joined (b'g' ∷ []) (b'a' ∷ []) (pos 0) (pos 1)).0 ≡ ok tt
unfolding save groups_file commit_offset commit_binding group_topic join_group join_topic seat
    get_topic get_partition eq_name is_topic_name member_name decimal offsets append append_encoded
    encode_record put_uint
committed_one = refl

commit_offset-Survives_example :
    Survives
      (commit_offset fine_save no_groups joined (b'g' ∷ []) (b'a' ∷ []) (pos 0) (pos 1)).2
      (b'g' ∷ [])
      (b'a' ∷ [])
      0
      1
commit_offset-Survives_example =
    commit_offset-Survives fine_save no_groups joined (b'g' ∷ []) (b'a' ∷ []) 0 1
      (join_group-AreGroups true fresh (b'g' ∷ []) (b'a' ∷ []) [] (pos 2) (tt, tt)) committed_one
