-- ===== src/Retention/Choice.antt =====
-- Which segments a retention pass chooses: sealed ones that end at or below the clamp.
use marchiq.Base.{
  ltb_int, ok-injective, ℕ, ◌+◌, ◌-◌, ◌≤◌, ◌<◌, ◌≡◌, refl, Bool, true, false, List, [], ◌∷◌, ◌++◌,
  All, leb, ◌==◌, not, ◌||◌, if_rule, arith, Bool-cases, inl, inr, ◌⊎◌, ℤ, Result, ok, err, ◌>>=◌,
  Option, some, none, is_positive, pos_part,
}
use mathlib.Core.Path.{subst}
use marchiq.Names.{TopicConfig}
use marchiq.Log.{Segment, PartitionLog, segments}
use marchiq.Log.View.{Full, Ascending}
use marchiq.Retention.{
  RetentionIo, is_doomed, below_clamp, take_expired, by_age, by_size, cutoff, expired, oversize,
  total_bytes, doomed,
}
use marchiq.Retention.Deletion.{Spares}

pub low-le_last :
    (ss : List Segment) (a : Segment) (low : ℕ)
    → Ascending low (ss ++ (a ∷ []))
    → low ≤ a.base_offset
low-le_last [] a low h = h.0
low-le_last (s ∷ ss) a low h = omega (arith, h.0, low-le_last ss a (s.base_offset + s.records) h.1)

module _ (clamp : ℕ) (clamped : Bool) where
  -- The base of one of the segments, which is below the clamp.
  abbrev pub Chosen : List Segment → ℕ → Type 0
  Chosen [] x = ⊥
  Chosen (s ∷ ss) x = ((x ≡ s.base_offset) × (below_clamp clamp clamped s ≡ true)) ⊎ Chosen ss x

  -- All bases are of that kind.
  abbrev pub AllChosen : List Segment → List ℕ → Type 0
  AllChosen ss bases = (x : ℕ) → is_doomed x bases ≡ true → Chosen ss x

  AllChosen-nil : (ss : List Segment) → AllChosen ss []
  AllChosen-nil ss x e = cc

  AllChosen-later :
      (s : Segment) (ss : List Segment) (bases : List ℕ)
      → AllChosen ss bases
      → AllChosen (s ∷ ss) bases
  AllChosen-later s ss bases h x e = inr (h x e)

  AllChosen-here :
      (s : Segment) (ss : List Segment) (bases : List ℕ)
      → below_clamp clamp clamped s ≡ true
      → AllChosen ss bases
      → AllChosen (s ∷ ss) (s.base_offset ∷ bases)
  AllChosen-here s ss bases b h x e = elim (Bool-cases (x == s.base_offset)) [
    | inl same ↦ inl (ground (arith, same), b)
    | inr other ↦ inr (h x (ground (arith, other, e)))
  ]

  AllChosen-append :
      (ss : List Segment) (bs cs : List ℕ)
      → AllChosen ss bs
      → AllChosen ss cs
      → AllChosen ss (bs ++ cs)
  AllChosen-append ss [] cs h k x e = k x e
  AllChosen-append ss (b ∷ bs) cs h k x e = elim (Bool-cases (x == b)) [
    | inl same ↦ h x (ground (arith, same))
    | inr other ↦
        AllChosen-append ss bs cs (λ y d. h y (ground (arith, d))) k x (ground (arith, other, e))
  ]

  oversize-AllChosen :
      (budget total : ℕ) (ss : List Segment) → AllChosen ss (oversize budget clamp clamped total ss)
  unfolding oversize
  oversize-AllChosen budget total [] = AllChosen-nil []
  oversize-AllChosen budget total (s ∷ ss) =
      if_rule (AllChosen (s ∷ ss)) (leb total budget || not (below_clamp clamp clamped s)) _ _
        (λ _. AllChosen-nil (s ∷ ss))
        λ h.
          AllChosen-here s ss _ (ground (arith, h))
            (oversize-AllChosen budget (total - s.size_bytes) ss)

  abbrev AllChosenIn : List Segment → Result (List ℕ) → Type 0
  AllChosenIn ss r = (bases : List ℕ) → r ≡ ok bases → AllChosen ss bases

  take_expired-AllChosen :
      (limit : ℤ) (s : Segment) (ss : List Segment) (t : Option ℤ) (rest : Result (List ℕ))
      → below_clamp clamp clamped s ≡ true
      → AllChosenIn ss rest
      → AllChosenIn (s ∷ ss) (take_expired limit s t rest)
  take_expired-AllChosen limit s ss none rest b ih bases e = cc
  take_expired-AllChosen limit s ss (some t) (err x) b ih bases e = cc
  take_expired-AllChosen limit s ss (some t) (ok bs) b ih bases e =
      subst (AllChosen (s ∷ ss)) (ok-injective _ _ e) (
        if_rule (AllChosen (s ∷ ss)) (ltb_int t limit) (s.base_offset ∷ bs) bs
          (λ _. AllChosen-here s ss bs b (ih bs refl)) (λ _. AllChosen-later s ss bs (ih bs refl)))

  expired-AllChosen :
      (io : RetentionIo) (limit : ℤ) (ss : List Segment)
      → AllChosenIn ss (expired io limit clamp clamped ss)
  unfolding expired
  expired-AllChosen io limit [] =
      λ bases e. subst (AllChosen []) (ok-injective [] bases e) (AllChosen-nil [])
  expired-AllChosen io limit (s ∷ ss) =
      if_rule (AllChosenIn (s ∷ ss)) (not (below_clamp clamp clamped s)) (ok [])
        (take_expired limit s (io.mtime s.base_offset) (expired io limit clamp clamped ss))
        (λ _.
          λ bases e. subst (AllChosen (s ∷ ss)) (ok-injective [] bases e) (AllChosen-nil (s ∷ ss)))
        λ h.
          take_expired-AllChosen limit s ss (io.mtime s.base_offset) _ (ground (arith, h))
            (expired-AllChosen io limit ss)

  by_age-AllChosen :
      (io : RetentionIo) (now : ℤ) (cfg : TopicConfig) (ss : List Segment)
      → AllChosenIn ss (by_age io now cfg clamp clamped ss)
  by_age-AllChosen io now cfg ss =
      if_rule (AllChosenIn ss) (is_positive cfg.retention_ms)
        (expired io (cutoff now cfg.retention_ms) clamp clamped ss) (ok [])
        (λ _. expired-AllChosen io (cutoff now cfg.retention_ms) ss)
        (λ _. λ bases e. subst (AllChosen ss) (ok-injective [] bases e) (AllChosen-nil ss))

  by_size-AllChosen :
      (cfg : TopicConfig) (p : PartitionLog) → AllChosen p.sealed (by_size cfg clamp clamped p)
  by_size-AllChosen cfg p =
      if_rule (AllChosen p.sealed) (is_positive cfg.retention_bytes)
        (oversize (pos_part cfg.retention_bytes) clamp clamped (total_bytes (segments p)) p.sealed)
        []
        (λ _. oversize-AllChosen (pos_part cfg.retention_bytes) (total_bytes (segments p)) p.sealed)
        (λ _. AllChosen-nil p.sealed)

  both-AllChosen :
      (ss : List Segment) (old : Result (List ℕ)) (big : List ℕ)
      → AllChosenIn ss old
      → AllChosen ss big
      → AllChosenIn ss (do bs ← old; ok (bs ++ big))
  both-AllChosen ss (err x) big h k bases e = cc
  both-AllChosen ss (ok bs) big h k bases e =
      subst (AllChosen ss) (ok-injective _ _ e) (AllChosen-append ss bs big (h bs refl) k)

  -- Every segment that a pass chooses is a sealed one below the clamp.
  pub doomed-AllChosen :
      (io : RetentionIo) (now : ℤ) (cfg : TopicConfig) (p : PartitionLog)
      → AllChosenIn p.sealed (doomed io now cfg clamp clamped p)
  unfolding doomed
  doomed-AllChosen io now cfg p =
      both-AllChosen p.sealed (by_age io now cfg clamp clamped p.sealed)
        (by_size cfg clamp clamped p) (by_age-AllChosen io now cfg p.sealed)
        (by_size-AllChosen cfg p)

  Chosen-bounds :
      (ss : List Segment) (a : Segment) (low x : ℕ)
      → Ascending low (ss ++ (a ∷ []))
      → Full ss
      → Chosen ss x
      → (low ≤ x) × (x < a.base_offset)
  Chosen-bounds [] a low x h f c = absurd c
  Chosen-bounds (s ∷ ss) a low x h f (inl (e, b)) =
      omega (arith, e, h.0, f.0, low-le_last ss a (s.base_offset + s.records) h.1)
  Chosen-bounds (s ∷ ss) a low x h f (inr c) =
      omega (arith, h.0, f.0, Chosen-bounds ss a (s.base_offset + s.records) x h.1 f.1 c)

  -- The bases of full segments differ, so the chosen bases are the bases of segments below the clamp.
  pub Spares-Chosen :
      (o : ℕ) (bases : List ℕ) (ss : List Segment) (a : Segment) (low : ℕ)
      → Ascending low (ss ++ (a ∷ []))
      → Full ss
      → ((x : ℕ) → low ≤ x → is_doomed x bases ≡ true → Chosen ss x)
      → All (λ s. below_clamp clamp clamped s ≡ true → s.base_offset + s.records ≤ o) ss
      → Spares o bases ss
  Spares-Chosen o bases [] a low h f c le = tt
  Spares-Chosen o bases (s ∷ ss) a low h f c le = (
    λ e. head e (c s.base_offset h.0 e),
    Spares-Chosen o bases ss a (s.base_offset + s.records) h.1 f.1
        (λ x lx e. tail x lx (c x (omega (arith, h.0, lx)) e)) le.1,
  )
    where
      head :
          is_doomed s.base_offset bases ≡ true
          → Chosen (s ∷ ss) s.base_offset
          → s.base_offset + s.records ≤ o
      head e (inl (same, b)) = le.0 b
      head e (inr d) = absurd (
          omega
            (arith, f.0, Chosen-bounds ss a (s.base_offset + s.records) s.base_offset h.1 f.1 d))

      tail : (x : ℕ) → s.base_offset + s.records ≤ x → Chosen (s ∷ ss) x → Chosen ss x
      tail x lx (inl (same, b)) = absurd (omega (arith, f.0, same, lx))
      tail x lx (inr d) = d

  pub active-spared :
      (bases : List ℕ) (ss : List Segment) (a : Segment)
      → Ascending 0 (ss ++ (a ∷ []))
      → Full ss
      → AllChosen ss bases
      → is_doomed a.base_offset bases ≡ false
  active-spared bases ss a h f c = elim (Bool-cases (is_doomed a.base_offset bases)) [
    | inl d ↦ absurd (omega (arith, Chosen-bounds ss a 0 a.base_offset h f (c a.base_offset d)))
    | inr n ↦ n
  ]
