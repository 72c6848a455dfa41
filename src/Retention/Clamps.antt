-- ===== src/Retention/Clamps.antt =====
-- The clamp of a partition is the least offset that a joined group reads next.
use marchiq.Base.{
  ◌==◌, ap, option_rule, ◌∙◌, ℕ, zero, suc, ◌+◌, ◌≤◌, ◌<◌, ◌≡◌, refl, sym, Bool, true, false, List,
  [], ◌∷◌, length, get_or, ltb, if◌then◌else◌, arith, inl, inr, Option, some, none, ◌⊎◌, ℤ,
}
use mathlib.Core.Path.{subst}
use marchiq.Names.{Name, eq_name, TopicConfig}
use marchiq.Maps.{get}
use marchiq.Codec.{Record}
use marchiq.Log.{PartitionLog}
use marchiq.Log.View.{Full, IsValid}
use marchiq.Broker.{Group, GroupTopic}
use marchiq.Retention.{
  RetentionIo, bound_of, lower, lower_by, clamp_loop, unclamped, retention_clamps,
  enforce_retention,
}
use marchiq.Retention.Keeps.{Trimmed, enforce_retention-Trimmed}

-- `gt` is one group's binding to the topic.
abbrev pub Joined : Name → GroupTopic → List (Name × Group) → Type 0
Joined topic gt [] = ⊥
Joined topic gt ((name, g) ∷ gs) = (get eq_name topic g.topics ≡ some gt) ⊎ Joined topic gt gs

-- Where the records that a group has not committed begin.
abbrev pub uncommitted_from : Option ℕ → ℕ
uncommitted_from none = 0
uncommitted_from (some c) = suc c

bound_of-uncommitted :
    (gt : GroupTopic) (i : ℕ) → bound_of gt i ≡ uncommitted_from (get ◌==◌ i gt.offsets)
bound_of-uncommitted gt i =
    option_rule (λ b. b ≡ uncommitted_from (get ◌==◌ i gt.offsets)) (get ◌==◌ i gt.offsets) _ _
      (λ e. sym (ap uncommitted_from e)) (λ c e. omega arith ∙ sym (ap uncommitted_from e))

length-lower :
    (gt : GroupTopic) (k : ℕ) (bounds : List ℕ) → length (lower gt k bounds) ≡ length bounds
length-lower gt k [] = refl
length-lower gt k (b ∷ bs) = omega (arith, length-lower gt (suc k) bs)

lower-le :
    (gt : GroupTopic) (k i j : ℕ) (bounds : List ℕ)
    → i < length bounds
    → j ≡ k + i
    → (get_or (lower gt k bounds) i 0 ≤ bound_of gt j)
      × (get_or (lower gt k bounds) i 0 ≤ get_or bounds i 0)
lower-le gt k i j [] h e = absurd (omega arith)
lower-le gt k zero j (b ∷ bs) h e =
    subst
      (λ x.
        (get_or (lower gt k (b ∷ bs)) 0 0 ≤ bound_of gt x) × (get_or (lower gt k (b ∷ bs)) 0 0 ≤ b))
      (omega (arith, e)) (least (bound_of gt k) b)
  where
    least : (x y : ℕ) → ((if ltb x y then x else y) ≤ x) × ((if ltb x y then x else y) ≤ y)
    least x y = ground arith
lower-le gt k (suc i) j (b ∷ bs) h e = lower-le gt (suc k) i j bs (omega arith) (omega (arith, e))

abbrev pub Bounds : Type 0
Bounds = List ℕ × Bool

lower_by-le :
    (o : Option GroupTopic) (x : Bounds) (i : ℕ)
    → i < length x.0
    → (get_or (lower_by o x).0 i 0 ≤ get_or x.0 i 0) × (length (lower_by o x).0 ≡ length x.0)
lower_by-le none x i h = (omega arith, refl)
lower_by-le (some gt) x i h = ((lower-le gt 0 i i x.0 h (omega arith)).1, length-lower gt 0 x.0)

clamp_loop-le :
    (topic : Name) (gs : List (Name × Group)) (x : Bounds) (i : ℕ)
    → i < length x.0
    → get_or (clamp_loop topic gs x).0 i 0 ≤ get_or x.0 i 0
clamp_loop-le topic [] x i h = omega arith
clamp_loop-le topic ((name, g) ∷ gs) x i h =
    let o = get eq_name topic g.topics in
    let step = lower_by-le o x i h in
    omega (arith, step.0, clamp_loop-le topic gs (lower_by o x) i (omega (arith, h, step.1)))

clamp_loop-clamped :
    (topic : Name) (gs : List (Name × Group)) (x : Bounds)
    → x.1 ≡ true
    → (clamp_loop topic gs x).1 ≡ true
clamp_loop-clamped topic [] x h = h
clamp_loop-clamped topic ((name, g) ∷ gs) x h =
    clamp_loop-clamped topic gs (lower_by (get eq_name topic g.topics) x)
      (stays (get eq_name topic g.topics))
  where
    stays : (o : Option GroupTopic) → (lower_by o x).1 ≡ true
    stays none = h
    stays (some gt) = refl

abbrev Clamped : ℕ → GroupTopic → Name → List (Name × Group) → Bounds → Option GroupTopic → Type 0
Clamped i gt topic gs x o =
    (get_or (clamp_loop topic gs (lower_by o x)).0 i 0 ≤ bound_of gt i)
    × ((clamp_loop topic gs (lower_by o x)).1 ≡ true)

clamp_loop-Joined :
    (topic : Name) (gt : GroupTopic) (gs : List (Name × Group)) (x : Bounds) (i : ℕ)
    → i < length x.0
    → Joined topic gt gs
    → (get_or (clamp_loop topic gs x).0 i 0 ≤ bound_of gt i) × ((clamp_loop topic gs x).1 ≡ true)
clamp_loop-Joined topic gt [] x i h j = absurd j
clamp_loop-Joined topic gt ((name, g) ∷ gs) x i h (inl e) =
    subst (Clamped i gt topic gs x) (sym e) (
      omega (
        arith,
        (lower-le gt 0 i i x.0 h (omega arith)).0,
        clamp_loop-le topic gs (lower gt 0 x.0, true) i (omega (arith, h, length-lower gt 0 x.0)),
      ),
      clamp_loop-clamped topic gs (lower gt 0 x.0, true) refl,
    )
clamp_loop-Joined topic gt ((name, g) ∷ gs) x i h (inr j) =
    let o = get eq_name topic g.topics in
    clamp_loop-Joined topic gt gs (lower_by o x) i (omega (arith, h, (lower_by-le o x i h).1)) j

length-unclamped : (n : ℕ) → length (unclamped n) ≡ n
length-unclamped zero = refl
length-unclamped (suc n) = omega (arith, length-unclamped n)

-- The clamp of a partition is at most the offset that any joined group reads next.
pub retention_clamps-Joined :
    (groups : List (Name × Group)) (topic : Name) (gt : GroupTopic) (n i : ℕ)
    → i < n
    → Joined topic gt groups
    → (get_or (retention_clamps groups topic n).0 i 0 ≤ bound_of gt i)
      × ((retention_clamps groups topic n).1 ≡ true)
unfolding retention_clamps
retention_clamps-Joined groups topic gt n i h j =
    clamp_loop-Joined topic gt groups (unclamped n, false) i (omega (arith, h, length-unclamped n))
      j

-- A retention pass over partition `i` of a topic of `n` partitions, with the clamp that the broker
-- computes from its groups, keeps every record that a joined group has not committed: all from the
-- committed offset plus one on, or all where the group has not committed. What is left is a valid
-- partition. (The partition was valid, and its sealed segments hold records.)
pub enforce_retention-spares_groups :
    (io : RetentionIo) (now : ℤ) (cfg : TopicConfig) (groups : List (Name × Group)) (topic : Name)
    (gt : GroupTopic) (n i : ℕ) (p : PartitionLog) (all : List Record)
    → i < n
    → Joined topic gt groups
    → IsValid p all
    → Full p.sealed
    → Trimmed p all
        (uncommitted_from (get ◌==◌ i gt.offsets))
        (enforce_retention io now cfg
          (get_or (retention_clamps groups topic n).0 i 0)
          (retention_clamps groups topic n).1
          p).1
enforce_retention-spares_groups io now cfg groups topic gt n i p all h j v full =
    let c = retention_clamps-Joined groups topic gt n i h j in
    enforce_retention-Trimmed io now cfg _ _ p all (uncommitted_from (get ◌==◌ i gt.offsets)) v full
      (inl (c.1, omega (arith, c.0, bound_of-uncommitted gt i)))
