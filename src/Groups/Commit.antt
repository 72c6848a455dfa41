-- ===== src/Groups/Commit.antt =====
-- `CommitOffset`: kept when it was saved, and undone when it was not.
use marchiq.Base.{
  ok-injective, ℕ, ◌≡◌, refl, ap, ◌∙◌, true, List, ◌==◌, if_rule, arith, Option, option_rule, some,
  none, pos, Result, ok, err, ◌>>=◌, ℤ, negsuc,
}
use mathlib.Core.Path.{subst}
use marchiq.Names.{Name, eq_name, eq_name_refl}
use marchiq.Maps.{get, set, set_back, set-set, delete-set, get-set}
use marchiq.Log.{PartitionLog}
use marchiq.Log.Read.{Offsets, offsets}
use marchiq.Saving.{SaveIo, save, saved_file}
use marchiq.GroupsFile.{GroupsFile, groups_file}
use marchiq.Broker.{Broker, Group, GroupTopic, get_partition}
use marchiq.Groups.{
  Committed, from_topic, from_group, commit_found, commit_range, group_topic, set_binding,
  roll_back, commit_binding, commit_offset, outside,
}

==-refl : (n : ℕ) → (n == n) ≡ true
==-refl n = ground arith

roll_back-set :
    (p o : ℕ) (m : List (ℕ × ℕ)) (old : Option ℕ)
    → get ◌==◌ p m ≡ old
    → roll_back p old (set ◌==◌ p o m) ≡ m
roll_back-set p o m (some c) e = set-set ◌==◌ p c o m (==-refl p) ∙ set_back ◌==◌ p c m e
roll_back-set p o m none e = delete-set ◌==◌ p o m (==-refl p) e

-- `x` is the group and its binding to the topic, as they stand in the broker.
abbrev pub Found : Broker → Name → Name → Group × GroupTopic → Type 0
Found b group topic x =
    (get eq_name group b.groups ≡ some x.0) × (get eq_name topic x.0.topics ≡ some x.1)

from_topic-Found :
    (b : Broker) (group topic : Name) (g : Group) (t : Option GroupTopic) (x : Group × GroupTopic)
    → get eq_name group b.groups ≡ some g
    → get eq_name topic g.topics ≡ t
    → from_topic g t ≡ ok x
    → Found b group topic x
from_topic-Found b group topic g none x eg et e = cc
from_topic-Found b group topic g (some gt) x eg et e =
    subst (Found b group topic) (ok-injective (g, gt) x e) (eg, et)

from_group-Found :
    (b : Broker) (group topic : Name) (g : Option Group) (x : Group × GroupTopic)
    → get eq_name group b.groups ≡ g
    → from_group topic g ≡ ok x
    → Found b group topic x
from_group-Found b group topic none x eg e = cc
from_group-Found b group topic (some g) x eg e =
    from_topic-Found b group topic g (get eq_name topic g.topics) x eg refl e

pub group_topic-Found :
    (b : Broker) (group topic : Name) (x : Group × GroupTopic)
    → group_topic b group topic ≡ ok x
    → Found b group topic x
unfolding group_topic
group_topic-Found b group topic x e =
    from_group-Found b group topic (get eq_name group b.groups) x refl e

set_binding-same :
    (b : Broker) (group topic : Name) (x : Group × GroupTopic)
    → Found b group topic x
    → set_binding b x.0 group topic x.1 ≡ b
set_binding-same b group topic x f =
    ap (λ ts. record b { groups = set eq_name group (record x.0 { topics = ts }) b.groups })
      (set_back eq_name topic x.1 x.0.topics f.1)
    ∙ ap (λ gs. record b { groups = gs }) (set_back eq_name group x.0 b.groups f.0)

commit_binding-unsaved :
    (b : Broker) (group topic : Name) (p o : ℕ) (x : Group × GroupTopic)
    → Found b group topic x
    → set_binding b x.0 group topic
        (record x.1 { offsets = roll_back p (get ◌==◌ p x.1.offsets) (set ◌==◌ p o x.1.offsets) })
      ≡ b
commit_binding-unsaved b group topic p o x f =
    ap (λ os. set_binding b x.0 group topic (record x.1 { offsets = os }))
      (roll_back-set p o x.1.offsets (get ◌==◌ p x.1.offsets) refl)
    ∙ set_binding-same b group topic x f

-- The committed offset of a group in a partition.
abbrev pub committed_at : ℕ → Option GroupTopic → Option ℕ
committed_at p none = none
committed_at p (some gt) = get ◌==◌ p gt.offsets

abbrev pub committed_in : Name → ℕ → Option Group → Option ℕ
committed_in topic p none = none
committed_in topic p (some g) = committed_at p (get eq_name topic g.topics)

abbrev pub committed : Broker → Name → Name → ℕ → Option ℕ
committed b group topic p = committed_in topic p (get eq_name group b.groups)

-- What a commit may do. It succeeds with the offset in force and in the saved file, for a partition
-- and an offset that are no negative numbers; or it fails and the broker is as it was.
abbrev pub Settled : Broker → Name → Name → ℤ → ℤ → Committed → Type 0
Settled b group topic partition offset (ok u, after, file) =
    (p : ℕ) × (o : ℕ) × (partition ≡ pos p)
    × (offset ≡ pos o)
    × (committed after group topic p ≡ some o)
    × (file ≡ groups_file after.groups)
Settled b group topic partition offset (err e, after, file) = after ≡ b

commit_binding-saved :
    (b : Broker) (group topic : Name) (p o : ℕ) (x : Group × GroupTopic)
    → committed
        (set_binding b x.0 group topic (record x.1 { offsets = set ◌==◌ p o x.1.offsets }))
        group
        topic
        p
      ≡ some o
commit_binding-saved b group topic p o x =
    let gt = record x.1 { offsets = set ◌==◌ p o x.1.offsets } in
    let g = record x.0 { topics = set eq_name topic gt x.0.topics } in
    ap (committed_in topic p) (get-set eq_name group g b.groups (eq_name_refl group))
    ∙ ap (committed_at p) (get-set eq_name topic gt x.0.topics (eq_name_refl topic))
    ∙ get-set ◌==◌ p o x.1.offsets (==-refl p)

commit_binding-Settled :
    (io : SaveIo) (live : GroupsFile) (b : Broker) (group topic : Name) (p o : ℕ)
    (x : Group × GroupTopic)
    → Found b group topic x
    → Settled b group topic (pos p) (pos o) (commit_binding io live b group topic p o x)
unfolding commit_binding
commit_binding-Settled io live b group topic p o x f =
    let after = set_binding b x.0 group topic (record x.1 { offsets = set ◌==◌ p o x.1.offsets }) in
    if_rule (Settled b group topic (pos p) (pos o)) (save io live (groups_file after.groups)).0 _ _
      (λ saved. (
        p,
        o,
        refl,
        refl,
        commit_binding-saved b group topic p o x,
        saved_file io live (groups_file after.groups) saved,
      ))
      (λ _. commit_binding-unsaved b group topic p o x f)

commit_found-Settled :
    (io : SaveIo) (live : GroupsFile) (b : Broker) (group topic : Name) (p o : ℕ)
    (r : Result (Group × GroupTopic))
    → group_topic b group topic ≡ r
    → Settled b group topic (pos p) (pos o) (commit_found io live b group topic p o r)
commit_found-Settled io live b group topic p o (err e) h = refl
commit_found-Settled io live b group topic p o (ok x) h =
    commit_binding-Settled io live b group topic p o x (group_topic-Found b group topic x h)

-- A negative offset is outside, whatever the range.
commit_range-Settled :
    (io : SaveIo) (live : GroupsFile) (b : Broker) (group topic : Name) (p : ℕ) (offset : ℤ)
    (r : Result Offsets)
    → Settled b group topic (pos p) offset (commit_range io live b group topic (pos p) offset r)
commit_range-Settled io live b group topic p offset (err e) = refl
commit_range-Settled io live b group topic p (negsuc n) (ok r) = refl
commit_range-Settled io live b group topic p (pos o) (ok r) =
    if_rule (Settled b group topic (pos p) (pos o)) (outside (pos o) r.latest) _ _ (λ _. refl)
      λ _.
        if_rule (Settled b group topic (pos p) (pos o)) b.closed _ _ (λ _. refl)
          (λ _. commit_found-Settled io live b group topic p o (group_topic b group topic) refl)

-- Whatever partition and offset are asked for, negative ones too. After a commit that succeeds,
-- they are no negative numbers, the group's committed offset in that partition is the given one,
-- and the file holds the groups of the broker after it. After a commit that fails, whatever the
-- reason, the broker is as it was before: also where saving failed and the change was made in
-- memory already.
pub commit_offset-Settled :
    (io : SaveIo) (live : GroupsFile) (b : Broker) (group topic : Name) (partition offset : ℤ)
    → Settled b group topic partition offset (commit_offset io live b group topic partition offset)
unfolding commit_offset get_partition
commit_offset-Settled io live b group topic (pos p) offset =
    commit_range-Settled io live b group topic p offset
      (do q ← get_partition b topic (pos p); offsets q)
commit_offset-Settled io live b group topic (negsuc n) offset =
    let P = λ (r : Result PartitionLog).
      Settled b group topic (negsuc n) offset
        (commit_range io live b group topic (negsuc n) offset (do q ← r; offsets q)) in
    if_rule P b.closed _ _ (λ _. refl)
      (λ _. option_rule P (get eq_name topic b.topics) _ _ (λ _. refl) (λ t _. refl))
