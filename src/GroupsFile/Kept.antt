-- ===== src/GroupsFile/Kept.antt =====
-- Joining and committing keep the groups such that a file can hold them, and what was committed
-- survives a restart.
use marchiq.Base.{
  ℕ, ◌<◌, ◌≡◌, refl, ap, ◌∙◌, sym, ℤ, pos, negsuc, pos_part, is_positive, Bool, true, false, not,
  List, [], ◌∷◌, length, All, Option, none, some, leb, ◌==◌, if_rule, option_rule, result_rule,
  Bool-cases, inl, inr, Result, ok, err, ◌>>=◌, arith,
}
use mathlib.Core.Path.{subst}
use marchiq.Names.{Name, eq_name, eq_name→≡, is_topic_name}
use marchiq.Maps.{get, set, set-All, get-All}
use marchiq.Log.Read.{Offsets, offsets}
use marchiq.Broker.{Broker, Topic, Group, GroupTopic, get_topic, get_partition}
use marchiq.Saving.{SaveIo, save}
use marchiq.Groups.{
  Committed, group_of, binding_of, set_binding, Seat, seat, seat_at, join_topic, join_group,
  group_topic, commit_binding, commit_found, commit_range, commit_offset, outside, ordinal_of,
}
use marchiq.Groups.Commit.{
  group_topic-Found, committed_at, committed_in, committed, commit_offset-Settled, Settled,
}
use marchiq.GroupsFile.{GroupsFile, parsed, groups_file, load_groups}
use marchiq.GroupsFile.Sorted.{Distinct, Differs, eq_name_sym}
use marchiq.GroupsFile.RoundTrip.{IsGroup, AreGroups, binding, bound_in, load_groups-groups_file}

module _ {V : Type 0} (k : Name) (v : V) where
  -- What holds of the key and the value holds of the pair in which it is set.
  set-AllPairs :
      (P : Name × V → Type 0) (m : List (Name × V)) → P (k, v) → All P m → All P (set eq_name k v m)
  set-AllPairs P [] p h = (p, tt)
  set-AllPairs P ((j, w) ∷ m) p h =
      if_rule (All P) (eq_name k j) ((j, v) ∷ m) ((j, w) ∷ set eq_name k v m)
        (λ e. (subst (λ i. P (i, v)) (eq_name→≡ k j e) p, h.1)) (λ _. (h.0, set-AllPairs P m p h.1))

  get-AllPairs :
      (P : Name × V → Type 0) (m : List (Name × V)) → get eq_name k m ≡ some v → All P m → P (k, v)
  get-AllPairs P [] e h = cc
  get-AllPairs P ((j, w) ∷ m) e h = elim (Bool-cases (eq_name k j)) [
    | inl same ↦
        subst (λ i. P (i, v)) (sym (eq_name→≡ k j same))
          (subst (λ u. P (j, u)) (ground (arith, same)) h.0)
    | inr other ↦ get-AllPairs P m (ground (arith, other)) h.1
  ]

  set-Differs :
      (j : Name) (w : V) (m : List (Name × V))
      → eq_name j k ≡ false
      → Differs (λ e. e.0) (j, w) m
      → Differs (λ e. e.0) (j, w) (set eq_name k v m)
  set-Differs j w m n h = set-AllPairs (λ e. eq_name j e.0 ≡ false) m n h

  pub set-Distinct :
      (m : List (Name × V)) → Distinct (λ e. e.0) m → Distinct (λ e. e.0) (set eq_name k v m)
  set-Distinct [] d = (tt, tt)
  set-Distinct ((j, w) ∷ m) d =
      if_rule (Distinct (λ e. e.0)) (eq_name k j) ((j, v) ∷ m) ((j, w) ∷ set eq_name k v m) (λ _. d)
        λ n. (set-Differs j w m (eq_name_sym k j n) d.0, set-Distinct m d.1)

-- A group with a binding that has room for a member.
set_binding-AreGroups :
    (b : Broker) (g : Group) (group topic : Name) (gt : GroupTopic)
    → AreGroups b.groups
    → IsGroup (group, g)
    → 0 < gt.size
    → AreGroups (set_binding b g group topic gt).groups
set_binding-AreGroups b g group topic gt (d, h) (same, valid, distinct, sizes) size =
    let g' : Group = record g { topics = set eq_name topic gt g.topics } in
    (
      set-Distinct group g' b.groups d,
      set-AllPairs group g' IsGroup b.groups
          (
            same,
            valid,
            set-Distinct topic gt g.topics distinct,
            set-All eq_name (λ t. 0 < t.size) topic gt g.topics size sizes,
          )
          h,
    )

group_of-IsGroup :
    (b : Broker) (group : Name)
    → is_topic_name group ≡ true
    → AreGroups b.groups
    → IsGroup (group, group_of b group)
group_of-IsGroup b group valid (d, h) =
    option_rule (λ (g : Group). IsGroup (group, g)) (get eq_name group b.groups) _ _
      (λ _. (refl, valid, tt, tt)) (λ g e. get-AllPairs group g IsGroup b.groups e h)

binding_of_size :
    (g : Group) (group topic : Name) (size : ℕ)
    → 0 < size
    → IsGroup (group, g)
    → 0 < (binding_of g topic size).size
binding_of_size g group topic size pos_size (same, valid, distinct, sizes) =
    option_rule (λ (gt : GroupTopic). 0 < gt.size) (get eq_name topic g.topics) _ _ (λ _. pos_size)
      (λ gt e. get-All eq_name (λ t. 0 < t.size) topic gt g.topics e sizes)

-- Taking a seat does not change the size of the binding.
abbrev SameSize : ℕ → Result Seat → Type 0
SameSize size r = (s : Seat) → r ≡ ok s → s.2.size ≡ size

seat-SameSize :
    (gt : GroupTopic) (member : Name) (size : ℕ) → SameSize gt.size (seat gt member size)
unfolding seat
seat-SameSize gt member size =
    if_rule (SameSize gt.size) (not (gt.size == size)) _ _ (λ _ s e. cc)
      (λ _. at (ordinal_of member gt.members))
  where
    at : (o : Option ℕ) → SameSize gt.size (seat_at gt member o)
    at none =
        if_rule (SameSize gt.size) (leb gt.size (length gt.members)) _ _ (λ _ s e. cc) (λ _ s e. cc)
    at (some i) = λ s e. cc

abbrev GroupsAfter : {A : Type 0} → A × Broker → Type 0
GroupsAfter x = AreGroups x.1.groups

join_topic-AreGroups :
    (saved : Bool) (b : Broker) (t : Topic) (group topic member : Name) (size : ℕ)
    → is_topic_name group ≡ true
    → 0 < size
    → AreGroups b.groups
    → AreGroups (join_topic saved b t group topic member size).1.groups
unfolding join_topic
join_topic-AreGroups saved b t group topic member size valid pos_size h =
    let g = group_of b group in
    let gt = binding_of g topic size in
    let is = group_of-IsGroup b group valid h in
    let room = binding_of_size g group topic size pos_size is in
    result_rule GroupsAfter (seat gt member size) _ _
      (λ e _. set_binding-AreGroups b g group topic gt h is room)
      λ s e.
        set_binding-AreGroups b g group topic s.2 h is
          (omega (arith, room, seat-SameSize gt member size s e))

pub join_group-AreGroups :
    (saved : Bool) (b : Broker) (group topic member : Name) (size : ℤ)
    → AreGroups b.groups
    → AreGroups (join_group saved b group topic member size).1.groups
unfolding join_group
join_group-AreGroups saved b group topic member size h =
    if_rule GroupsAfter (not (is_topic_name group)) _ _ (λ _. h)
      λ valid.
        if_rule GroupsAfter (not (is_positive size)) _ _ (λ _. h)
          λ positive.
            result_rule GroupsAfter (get_topic b topic) _ _ (λ e _. h)
              λ t _.
                if_rule GroupsAfter b.closed _ _ (λ _. h)
                  λ _.
                    join_topic-AreGroups saved b t group topic member (pos_part size)
                      (ground (arith, valid)) (above size positive) h
  where
    above : (i : ℤ) → not (is_positive i) ≡ false → 0 < pos_part i
    above (pos n) e = ground arith
    above (negsuc n) e = cc

abbrev KeptGroups : Committed → Type 0
KeptGroups x = AreGroups x.1.groups

commit_found-AreGroups :
    (io : SaveIo) (live : GroupsFile) (b : Broker) (group topic : Name) (p o : ℕ)
    (r : Result (Group × GroupTopic))
    → group_topic b group topic ≡ r
    → AreGroups b.groups
    → AreGroups (commit_found io live b group topic p o r).1.groups
unfolding commit_binding
commit_found-AreGroups io live b group topic p o (err e) same h = h
commit_found-AreGroups io live b group topic p o (ok x) same h =
    let f = group_topic-Found b group topic x same in
    let is = get-AllPairs group x.0 IsGroup b.groups f.0 h.1 in
    let size = get-All eq_name (λ t. 0 < t.size) topic x.1 x.0.topics f.1 is.3 in
    if_rule KeptGroups (save io live _).0 _ _
      (λ _. set_binding-AreGroups b x.0 group topic _ h is size)
      (λ _. set_binding-AreGroups b x.0 group topic _ h is size)

commit_range-AreGroups :
    (io : SaveIo) (live : GroupsFile) (b : Broker) (group topic : Name) (p o : ℤ)
    (r : Result Offsets)
    → AreGroups b.groups
    → AreGroups (commit_range io live b group topic p o r).1.groups
commit_range-AreGroups io live b group topic p o (err e) h = h
commit_range-AreGroups io live b group topic p o (ok x) h =
    if_rule KeptGroups (outside o x.latest) _ _ (λ _. h)
      λ _.
        if_rule KeptGroups b.closed _ _ (λ _. h)
          λ _.
            commit_found-AreGroups io live b group topic (pos_part p) (pos_part o)
              (group_topic b group topic) refl h

pub commit_offset-AreGroups :
    (io : SaveIo) (live : GroupsFile) (b : Broker) (group topic : Name) (p o : ℤ)
    → AreGroups b.groups
    → AreGroups (commit_offset io live b group topic p o).1.groups
unfolding commit_offset
commit_offset-AreGroups io live b group topic p o h =
    commit_range-AreGroups io live b group topic p o (do q ← get_partition b topic p; offsets q) h

-- `loadGroups` accepts the file, and finds the committed offset.
abbrev pub Survives : GroupsFile → Name → Name → ℕ → ℕ → Type 0
Survives file group topic p o =
    (loaded : List (Name × Group)) × (load_groups (parsed file) ≡ ok loaded)
    × (committed_at p (binding loaded group topic) ≡ some o)

groups_file-Survives :
    (b : Broker) (group topic : Name) (p o : ℕ)
    → AreGroups b.groups
    → committed b group topic p ≡ some o
    → Survives (groups_file b.groups) group topic p o
groups_file-Survives b group topic p o h set =
    let (loaded, ok_load, same) = load_groups-groups_file b.groups h in
    (
      loaded,
      ok_load,
      ap (committed_at p) (same group topic) ∙ bound (get eq_name group b.groups) ∙ set,
    )
  where
    bound : (g : Option Group) → committed_at p (bound_in topic g) ≡ committed_in topic p g
    bound none = refl
    bound (some g) = refl

-- The commit that `Settled` describes, where it succeeded.
Settled-Survives :
    (b : Broker) (group topic : Name) (p o : ℕ) (x : Committed)
    → Settled b group topic (pos p) (pos o) x
    → x.0 ≡ ok tt
    → AreGroups x.1.groups
    → Survives x.2 group topic p o
Settled-Survives b group topic p o (err e, after, file) s h groups = cc
Settled-Survives b group topic p o (ok u, after, file) (q, c, same_q, same_c, found, saved) h
      groups =
    subst (λ f. Survives f group topic p o) (sym saved)
      (groups_file-Survives after group topic p o groups (
        subst (λ n. committed after group topic n ≡ some o) (sym (ap pos_part same_q))
          (found ∙ ap some (sym (ap pos_part same_c)))))

-- An offset whose commit succeeded survives a restart: if the broker's groups had valid names and
-- positive sizes, and none and no topic of one came twice, then `loadGroups` accepts the file that
-- the commit left, whatever that file held before, and the group resumes behind the committed
-- offset.
pub commit_offset-Survives :
    (io : SaveIo) (live : GroupsFile) (b : Broker) (group topic : Name) (p o : ℕ)
    → AreGroups b.groups
    → (commit_offset io live b group topic (pos p) (pos o)).0 ≡ ok tt
    → Survives (commit_offset io live b group topic (pos p) (pos o)).2 group topic p o
commit_offset-Survives io live b group topic p o h e =
    Settled-Survives b group topic p o (commit_offset io live b group topic (pos p) (pos o))
      (commit_offset-Settled io live b group topic (pos p) (pos o)) e
      (commit_offset-AreGroups io live b group topic (pos p) (pos o) h)
