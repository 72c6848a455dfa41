-- ===== src/Lag/Laws.antt =====
-- What the lag report says.
use marchiq.Base.{
  ◌++◌, Option, some, sub_nat, ◌>>=◌, suc, ℕ, ◌≡◌, List, [], ◌∷◌, ◌==◌, if◌then◌else◌,
}
use mathlib.Core.List.{Permᴰ}
use mathlib.Core.List.Permᴰ
use marchiq.Names.{Name, eq_name}
use marchiq.Maps.{get}
use marchiq.Log.{PartitionLog}
use marchiq.Log.Read.{offsets}
use marchiq.Groups.Fetch.{resume}
use marchiq.Broker.{Broker, Topic, Group, GroupTopic}
use marchiq.Lag.{GroupLag, PartitionLag, Snap}

-- A group, a topic that it is bound to, and the binding.
abbrev pub Binding : Type 0
Binding = Group × Name × GroupTopic

abbrev pub bindings_of : Group → List (Name × GroupTopic) → List Binding
bindings_of g [] = []
bindings_of g ((topic, gt) ∷ gts) = (g, topic, gt) ∷ bindings_of g gts

-- The bindings of the group of the name `asked`, or of all groups where that is empty.
abbrev pub bindings : Name → List (Name × Group) → List Binding
bindings asked [] = []
bindings [] ((key, g) ∷ gs) = bindings_of g g.topics ++ bindings [] gs
bindings (x ∷ asked) ((key, g) ∷ gs) =
    let rest = bindings (x ∷ asked) gs in
    if eq_name g.name (x ∷ asked) then bindings_of g g.topics ++ rest else rest

-- What the report says of partition `n`, of which the group has committed `committed`.
abbrev pub ReportsPartition : ℕ → Option ℕ → PartitionLog → PartitionLag → Type 0
ReportsPartition n committed p l =
    (l.partition ≡ n)
    × (l.committed ≡ committed)
    × (l.latest ≡ p.next_offset)
    × (l.next_fetch ≡ resume committed)
    × (l.lag ≡ sub_nat p.next_offset (resume committed))

-- One entry for each partition, from number `n` on.
abbrev pub ReportsAll : List (ℕ × ℕ) → ℕ → List PartitionLog → List PartitionLag → Type 0
ReportsAll offsets n [] [] = Unit
ReportsAll offsets n [] (l ∷ ls) = ⊥
ReportsAll offsets n (p ∷ ps) [] = ⊥
ReportsAll offsets n (p ∷ ps) (l ∷ ls) =
    ReportsPartition n (get ◌==◌ n offsets) p l × ReportsAll offsets (suc n) ps ls

-- What the report says of a binding.
abbrev pub Reports : Broker → Binding → GroupLag → Type 0
Reports b (g, topic, gt) l =
    (l.group ≡ g.name)
    × (l.topic ≡ topic)
    × (l.members ≡ gt.members)
    × ((t : Topic) × (get eq_name topic b.topics ≡ some t)
        × ReportsAll gt.offsets 0 t.partitions l.partitions)

-- One entry for each of the bindings, in their order.
abbrev pub ReportsEach : Broker → List Binding → List GroupLag → Type 0
ReportsEach b [] [] = Unit
ReportsEach b [] (l ∷ ls) = ⊥
ReportsEach b (x ∷ xs) [] = ⊥
ReportsEach b (x ∷ xs) (l ∷ ls) = Reports b x l × ReportsEach b xs ls

abbrev snap_of : Binding → Snap
snap_of (g, topic, gt) = record {
  group = g.name;
  topic = topic;
  members = gt.members;
  offsets = gt.offsets;
}
