-- ===== src/GroupsFile/RoundTrip.antt =====
-- What a broker saved about its groups, it finds after a restart.
use marchiq.Base.{
  ◌<◌, ◌≡◌, refl, ap, ◌∙◌, sym, is_positive, Bool, true, false, List, [], ◌∷◌, ◌++◌, append-nil,
  append_assoc, All, Option, none, some, Bool-cases, inl, inr, ok, >>=-ok, arith,
}
use mathlib.Core.Path.{subst}
use marchiq.Names.{Name, eq_name, is_topic_name}
use marchiq.Maps.{get, set-append}
use marchiq.Sorting.{sort}
use marchiq.Broker.{Group, GroupTopic}
use marchiq.GroupsFile.{
  GroupTopicState, GroupState, parsed, topic_states, topic_lt, group_states, group_lt, groups_file,
  binding_in, load_topics, load_loop, load_groups,
}
use marchiq.GroupsFile.Sorted.{find, Differs, Distinct, eq_name_sym, sort-Sorts, sort-All}

-- A map from the states that a file lists.
module _ {S V : Type 0} (key : S → Name) (val : S → V) where
  abbrev entries : List S → List (Name × V)
  entries [] = []
  entries (s ∷ ss) = (key s, val s) ∷ entries ss

  abbrev found : Option S → Option V
  found none = none
  found (some s) = some (val s)

  get-entries : (k : Name) (ss : List S) → get eq_name k (entries ss) ≡ found (find key k ss)
  get-entries k [] = refl
  get-entries k (s ∷ ss) = elim (Bool-cases (eq_name k (key s))) [
    | inl e ↦ rw (e) refl
    | inr e ↦ rw (e) (get-entries k ss)
  ]

  -- Sorting the states does not change what the map holds.
  get-sort :
      (lt : S → S → Bool) (k : Name) (ss : List S)
      → Distinct key ss
      → get eq_name k (entries (sort lt ss)) ≡ get eq_name k (entries ss)
  get-sort lt k ss d =
      get-entries k (sort lt ss)
      ∙ ap found ((sort-Sorts lt key ss d).same k ∙ ap (find key k) (append-nil ss))
      ∙ sym (get-entries k ss)

  -- None of the keys of the states is in the map yet.
  abbrev Absent : List (Name × V) → List S → Type 0
  Absent out ss = All (λ s. get eq_name (key s) out ≡ none) ss

  get-append :
      (k : Name) (out : List (Name × V)) (j : Name) (v : V)
      → get eq_name k out ≡ none
      → eq_name k j ≡ false
      → get eq_name k (out ++ ((j, v) ∷ [])) ≡ none
  get-append k [] j v e h = rw (h) refl
  get-append k ((i, w) ∷ out) j v e h = elim (Bool-cases (eq_name k i)) [
    | inl same ↦ ground (arith, same)
    | inr other ↦ rw (other) (get-append k out j v (ground (arith, other)) h)
  ]

  Absent-append :
      (s : S) (out : List (Name × V)) (ss : List S)
      → Differs key s ss
      → Absent out ss
      → Absent (out ++ ((key s, val s) ∷ [])) ss
  Absent-append s out [] h a = tt
  Absent-append s out (x ∷ ss) h a = (
    get-append (key x) out (key s) (val s) a.0 (eq_name_sym (key s) (key x) h.0),
    Absent-append s out ss h.1 a.1,
  )

  nothing-Absent : (ss : List S) → Absent [] ss
  nothing-Absent [] = tt
  nothing-Absent (s ∷ ss) = (refl, nothing-Absent ss)

load_topics-entries :
    (out : List (Name × GroupTopic)) (ss : List GroupTopicState)
    → Distinct (λ s. s.topic) ss
    → All (λ s. is_positive s.size ≡ true) ss
    → Absent (λ s. s.topic) binding_in out ss
    → load_topics out ss ≡ ok (out ++ entries (λ s. s.topic) binding_in ss)
unfolding load_topics
load_topics-entries out [] d h a = ap ok (sym (append-nil out))
load_topics-entries out (s ∷ ss) d h a =
    rw (h.0, set-append eq_name s.topic (binding_in s) out a.0)
      (load_topics-entries (out ++ ((s.topic, binding_in s) ∷ [])) ss d.1 h.1
          (Absent-append (λ s. s.topic) binding_in s out ss d.0 a.1)
        ∙ ap ok (
            append_assoc out ((s.topic, binding_in s) ∷ []) (entries (λ s. s.topic) binding_in ss)))

-- The state of a broker's groups that a file can hold.
abbrev pub IsGroup : Name × Group → Type 0
IsGroup e =
    (e.0 ≡ e.1.name)
    × (is_topic_name e.1.name ≡ true)
    × Distinct (λ t. t.0) e.1.topics
    × All (λ t. 0 < t.1.size) e.1.topics

abbrev pub AreGroups : List (Name × Group) → Type 0
AreGroups groups = Distinct (λ e. e.0) groups × All IsGroup groups

Distinct-topic_states :
    (ts : List (Name × GroupTopic))
    → Distinct (λ t. t.0) ts
    → Distinct (λ s. s.topic) (topic_states ts)
Distinct-topic_states [] d = tt
Distinct-topic_states ((topic, gt) ∷ ts) d = (differs ts d.0, Distinct-topic_states ts d.1)
  where
    differs :
        (us : List (Name × GroupTopic))
        → All (λ t. eq_name topic t.0 ≡ false) us
        → All (λ s. eq_name topic s.topic ≡ false) (topic_states us)
    differs [] h = tt
    differs ((u, g) ∷ us) h = (h.0, differs us h.1)

positive_sizes :
    (ts : List (Name × GroupTopic))
    → All (λ t. 0 < t.1.size) ts
    → All (λ s. is_positive s.size ≡ true) (topic_states ts)
positive_sizes [] h = tt
positive_sizes ((topic, gt) ∷ ts) h = (ground (arith, h.0), positive_sizes ts h.1)

entries-topic_states :
    (ts : List (Name × GroupTopic)) → entries (λ s. s.topic) binding_in (topic_states ts) ≡ ts
entries-topic_states [] = refl
entries-topic_states ((topic, gt) ∷ ts) = ap (λ l. (topic, gt) ∷ l) (entries-topic_states ts)

-- The group that the state of one makes.
abbrev group_in : GroupState → Group
group_in s = record { name = s.name; topics = entries (λ t. t.topic) binding_in s.topics }

abbrev IsState : GroupState → Type 0
IsState s =
    (is_topic_name s.name ≡ true)
    × Distinct (λ t. t.topic) s.topics
    × All (λ t. is_positive t.size ≡ true) s.topics

load_loop-entries :
    (out : List (Name × Group)) (ss : List GroupState)
    → Distinct (λ s. s.name) ss
    → All IsState ss
    → Absent (λ s. s.name) group_in out ss
    → load_loop out ss ≡ ok (out ++ entries (λ s. s.name) group_in ss)
unfolding load_loop
load_loop-entries out [] d h a = ap ok (sym (append-nil out))
load_loop-entries out (s ∷ ss) d h a =
    let topics =
      load_topics-entries [] s.topics h.0.1 h.0.2
        (nothing-Absent (λ t. t.topic) binding_in s.topics) in
    rw (h.0.0) (
      rw (a.0) (
        >>=-ok (load_topics [] s.topics) _ _ _ topics (
          rw (set-append eq_name s.name (group_in s) out a.0) (
            load_loop-entries (out ++ ((s.name, group_in s) ∷ [])) ss d.1 h.1
              (Absent-append (λ t. t.name) group_in s out ss d.0 a.1)
            ∙ ap ok (
                append_assoc out ((s.name, group_in s) ∷ [])
                  (entries (λ t. t.name) group_in ss))))))

Distinct-group_states :
    (gs : List (Name × Group))
    → Distinct (λ e. e.0) gs
    → All IsGroup gs
    → Distinct (λ s. s.name) (group_states gs)
Distinct-group_states [] d h = tt
Distinct-group_states ((k, g) ∷ gs) d h = (differs gs d.0 h.1, Distinct-group_states gs d.1 h.1)
  where
    differs :
        (es : List (Name × Group))
        → All (λ e. eq_name k e.0 ≡ false) es
        → All IsGroup es
        → All (λ s. eq_name g.name s.name ≡ false) (group_states es)
    differs [] a b = tt
    differs ((j, e) ∷ es) a b = (
      subst (λ x. eq_name x e.name ≡ false) h.0.0 (subst (λ x. eq_name k x ≡ false) b.0.0 a.0),
      differs es a.1 b.1,
    )

group_states-IsState : (gs : List (Name × Group)) → All IsGroup gs → All IsState (group_states gs)
group_states-IsState [] h = tt
group_states-IsState ((k, g) ∷ gs) h =
    let (same, valid, distinct, sizes) = h.0 in
    (
      (
        valid,
        (sort-Sorts topic_lt (λ s. s.topic) (topic_states g.topics)
            (Distinct-topic_states g.topics distinct)).distinct,
        sort-All topic_lt (λ s. s.topic) (λ s. is_positive s.size ≡ true) (topic_states g.topics)
            (positive_sizes g.topics sizes),
      ),
      group_states-IsState gs h.1,
    )

-- What a group has in a topic: the abstract view of the groups, which forgets their order.
abbrev pub bound_in : Name → Option Group → Option GroupTopic
bound_in topic none = none
bound_in topic (some g) = get eq_name topic g.topics

abbrev pub binding : List (Name × Group) → Name → Name → Option GroupTopic
binding groups group topic = bound_in topic (get eq_name group groups)

binding-group_states :
    (gs : List (Name × Group)) (group topic : Name)
    → All IsGroup gs
    → binding (entries (λ s. s.name) group_in (group_states gs)) group topic
      ≡ binding gs group topic
binding-group_states [] group topic h = refl
binding-group_states ((k, g) ∷ gs) group topic h =
    let (same, valid, distinct, sizes) = h.0 in
    let inside =
      get-sort (λ s. s.topic) binding_in topic_lt topic (topic_states g.topics)
        (Distinct-topic_states g.topics distinct)
      ∙ ap (get eq_name topic) (entries-topic_states g.topics) in
    elim (Bool-cases (eq_name group k)) [
      | inl e ↦ rw (subst (λ x. eq_name group x ≡ true) same e, e) inside
      | inr e ↦
          rw (subst (λ x. eq_name group x ≡ false) same e, e)
            (binding-group_states gs group topic h.1)
    ]

-- The broker starts with the groups that it saved: `loadGroups` accepts the envelope that
-- `saveGroupsLocked` makes of groups with valid names and positive sizes, no group or topic twice,
-- and every group then has in every topic the size, the members in their order and the committed
-- offsets that it had.
pub load_groups-groups_file :
    (groups : List (Name × Group))
    → AreGroups groups
    → (loaded : List (Name × Group)) × (load_groups (parsed (groups_file groups)) ≡ ok loaded)
      × ((group topic : Name) → binding loaded group topic ≡ binding groups group topic)
unfolding load_groups groups_file
load_groups-groups_file groups (d, h) =
    let states = group_states groups in
    let ds = Distinct-group_states groups d h in
    let ss = sort group_lt states in
    (
      entries (λ s. s.name) group_in ss,
      load_loop-entries [] ss (sort-Sorts group_lt (λ s. s.name) states ds).distinct
          (sort-All group_lt (λ s. s.name) IsState states (group_states-IsState groups h))
          (nothing-Absent (λ s. s.name) group_in ss),
      λ group topic.
          ap (bound_in topic) (get-sort (λ s. s.name) group_in group_lt group states ds)
          ∙ binding-group_states groups group topic h,
    )
