-- ===== src/Startup/Restart.antt =====
-- A topic after a crash and a restart.
use marchiq.Base.{
  ℕ, suc, ◌≡◌, refl, ap, ◌∙◌, sym, pos, pos_part, false, List, [], ◌∷◌, length, All, ok, >>=-ok,
}
use marchiq.Names.{Name}
use marchiq.Codec.{Record}
use marchiq.Log.{PartitionLog}
use marchiq.Log.View.{IsValid, IsLog, contents}
use marchiq.Log.Open.{open_partition}
use marchiq.Log.Open.Surviving.{surviving}
use marchiq.Log.Open.Crash.{AllWell}
use marchiq.Log.Open.Reopen.{image, open_partition_crash}
use marchiq.Broker.{Topic}
use marchiq.Invariant.{IsSound, IsTopicSound}
use marchiq.Startup.{StartIo, open_partitions, open_topic}

-- `q` is what `k` bytes of the active segment and all sealed ones have left of `p`.
abbrev pub Restarted : ℕ → PartitionLog → PartitionLog → Type 0
Restarted k p q =
    (rss : List (List Record)) × (rs : List Record) × IsLog p rss rs
    × IsValid q (contents rss (surviving k rs))
    × (q.failed ≡ false)
    × (q.closed ≡ false)

-- The partitions from number `i` on, where `cut` tells what a crash has left of each.
abbrev pub AllRestarted : (ℕ → ℕ) → ℕ → List PartitionLog → List PartitionLog → Type 0
AllRestarted cut i [] [] = Unit
AllRestarted cut i (p ∷ ps) (q ∷ qs) = Restarted (cut i) p q × AllRestarted cut (suc i) ps qs
AllRestarted cut i [] (q ∷ qs) = ⊥
AllRestarted cut i (p ∷ ps) [] = ⊥

-- The disk holds what the crash has left.
abbrev pub OnDisk : StartIo → Name → (ℕ → ℕ) → ℕ → List PartitionLog → Type 0
OnDisk io name cut i [] = Unit
OnDisk io name cut i (p ∷ ps) = (io.disk name i ≡ image p (cut i)) × OnDisk io name cut (suc i) ps

abbrev pub Unfenced : List PartitionLog → Type 0
Unfenced ps = All (λ p. p.failed ≡ false) ps

module _ (io : StartIo) (name : Name) (cut : ℕ → ℕ) (max interval : ℕ)
    (well : (i base : ℕ) → AllWell (io.calls name i base)) where
  open_partitions-AllRestarted :
      (i : ℕ) (ps : List PartitionLog)
      → All IsSound ps
      → Unfenced ps
      → OnDisk io name cut i ps
      → (qs : List PartitionLog) × (open_partitions io max interval name (length ps) i ≡ ok qs)
        × AllRestarted cut i ps qs
        × All IsSound qs
        × (length qs ≡ length ps)
  unfolding open_partitions
  open_partitions-AllRestarted i [] s u d = ([], refl, tt, tt, refl)
  open_partitions-AllRestarted i (p ∷ ps) (((all, v), sealed), s) u d =
      let (rss, rs, l, same) = v.holds in
      let (q, e, vq, rq, fq, cq) =
        open_partition_crash (io.calls name i) p rss rs (cut i) max interval (well i) l
          (v.clean u.0) sealed in
      let (qs, es, r, ss, n) = open_partitions-AllRestarted (suc i) ps s u.1 d.1 in
      (
        q ∷ qs,
        >>=-ok (open_partition (io.calls name i) (io.disk name i) max interval) _ q _
            (ap (λ x. open_partition (io.calls name i) x max interval) d.0 ∙ e)
            (>>=-ok (open_partitions io max interval name (length ps) (suc i)) _ qs _ es refl),
        ((rss, rs, l, vq, fq, cq), r),
        (((contents rss (surviving (cut i) rs), vq), rq), ss),
        ap suc n,
      )

-- After a crash `openTopic` opens every partition of a topic, in their order, if no partition was
-- fenced and all calls succeed: whatever the crash has left of each active segment, each partition
-- has the records of its sealed segments and those of the active one whose frames are whole. The
-- topic is sound again, and it has the configuration that the catalog has kept.
pub open_topic_crash :
    (io : StartIo) (t : Topic) (cut : ℕ → ℕ) (max_segment_bytes interval : ℕ)
    → ((i base : ℕ) → AllWell (io.calls t.config.name i base))
    → IsTopicSound t
    → Unfenced t.partitions
    → OnDisk io t.config.name cut 0 t.partitions
    → (u : Topic) × (open_topic io max_segment_bytes interval t.config ≡ ok u)
      × AllRestarted cut 0 t.partitions u.partitions
      × IsTopicSound u
      × (u.config ≡ t.config)
unfolding open_topic
open_topic_crash io t cut max interval well s u d =
    let (qs, e, r, ss, n) =
      open_partitions-AllRestarted io t.config.name cut max interval well 0 t.partitions
        s.partitions u d in
    let rounds : pos_part t.config.partitions ≡ length t.partitions = ap pos_part s.counted in
    (
      record { config = t.config; partitions = qs; rr = 0 },
      >>=-ok (open_partitions io max interval t.config.name (pos_part t.config.partitions) 0) _ qs _
          (ap (λ m. open_partitions io max interval t.config.name m 0) rounds ∙ e) refl,
      r,
      record { partitions = ss; counted = s.counted ∙ ap pos (sym n) },
      refl,
    )
