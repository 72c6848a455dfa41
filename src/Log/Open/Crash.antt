-- ===== src/Log/Open/Crash.antt =====
-- Opening the active segment after a crash.
use marchiq.Base.{
  ℕ, zero, suc, ◌≤◌, ◌≡◌, refl, ap, ◌∙◌, sym, true, false, List, [], ◌∷◌, ◌++◌, length, take,
  take-append-drop, take-append_ge, take-append_length, drop, All, All-take, ok, arith, Bool-cases,
  inl, inr, if◌then◌else◌, take_all,
}
use mathlib.Core.Path.{subst}
use marchiq.Codec.{Record}
use marchiq.Log.{File, Segment, sync_file}
use marchiq.Log.View.{frames, frames-append, Fits, Numbered, IndexesInto, IsSegment}
use marchiq.Log.Open.{Scan, scan_segment, OpenIo, DiskSegment, open_segment, repair, segment_of}
use marchiq.Log.Open.Surviving.{surviving, surviving-prefix, surviving-le}
use marchiq.Log.Open.Recovery.{scan_loop-take}

-- Every call of one `openSegment` succeeds.
pub record AllWell (io : OpenIo) : Type 0 where
  pub open_log : io.open_log ≡ true
  pub stat : io.stat ≡ true
  pub read_fault : io.read_fault ≡ false
  pub truncate : io.truncate ≡ true
  pub sync : io.sync ≡ true
  pub open_index : io.open_index ≡ true
  pub rewrite_index : io.rewrite_index ≡ true

Numbered-take : (base n : ℕ) (rs : List Record) → Numbered base rs → Numbered base (take n rs)
Numbered-take base zero rs h = tt
Numbered-take base (suc n) [] h = tt
Numbered-take base (suc n) (r ∷ rs) h = (h.0, Numbered-take (suc base) n rs h.1)

frames-take : (n : ℕ) (rs : List Record) → frames rs ≡ frames (take n rs) ++ frames (drop n rs)
frames-take n rs = ap frames (sym (take-append-drop n rs)) ∙ frames-append (take n rs) (drop n rs)

module _ (k : ℕ) (rs : List Record) where
  abbrev kept : List Record
  kept = surviving k rs

  length-kept : length (frames kept) ≤ k
  length-kept = surviving-le k rs

  -- The bytes up to the last good boundary are the frames of the survivors.
  take-kept :
      (size : ℕ) → size ≡ length (frames kept) → take size (take k (frames rs)) ≡ frames kept
  take-kept size e =
      ap (λ l. take size (take k l)) (frames-take (length kept) rs)
      ∙ ap (λ l. take size (take k (frames l ++ frames (drop (length kept) rs))))
          (sym (surviving-prefix k rs))
      ∙ ap (take size) (take-append_ge k (frames kept) _ length-kept)
      ∙ take-append_length (frames kept) _ size e

pub segment_of-IsSegment :
    (d : DiskSegment) (f : File) (s : Scan) (rs : List Record)
    → f.bytes ≡ frames rs
    → s.size_bytes ≡ length (frames rs)
    → s.records ≡ length rs
    → All (IndexesInto rs) s.index
    → Numbered d.base_offset rs
    → All Fits rs
    → IsSegment (segment_of d f s) rs
segment_of-IsSegment d f s rs eb es er hx hn hf = record {
  counted = er;
  sized = es;
  stored = ap (take s.size_bytes) eb ∙ take_all (frames rs) s.size_bytes (omega arith);
  numbered = hn;
  fits = hf;
  indexed = hx;
  readable = refl;
}

-- The log after the repair: cut if it was torn.
abbrev repaired : DiskSegment → Scan → File
repaired d s =
    if s.torn then sync_file (record d.log { bytes = take s.size_bytes d.log.bytes }) else d.log

repair-repaired :
    (io : OpenIo) (d : DiskSegment) (s : Scan)
    → AllWell io
    → repair io true d.log s ≡ ok (repaired d s)
unfolding repair
repair-repaired io d s w = ground arith

open_segment-eq_ok :
    (io : OpenIo) (d : DiskSegment) (interval : ℕ) (s : Scan)
    → AllWell io
    → scan_segment (record { avail = d.log.bytes; faulty = false }) d.base_offset interval ≡ ok s
    → open_segment io d true interval ≡ ok (segment_of d (repaired d s) s)
unfolding open_segment
open_segment-eq_ok io d interval s w e =
    simp
      (w.open_log, w.stat, w.read_fault, e, repair-repaired io d s w, w.open_index, w.rewrite_index)

repaired-kept :
    (d : DiskSegment) (s : Scan) (k : ℕ) (rs : List Record)
    → d.log.bytes ≡ take k (frames rs)
    → s.size_bytes ≡ length (frames (surviving k rs))
    → (s.torn ≡ false → length d.log.bytes ≡ length (frames (surviving k rs)))
    → (repaired d s).bytes ≡ frames (surviving k rs)
repaired-kept d s k rs eb es whole = elim (Bool-cases s.torn) [
  | inl torn ↦ rw torn (ap (take s.size_bytes) eb ∙ take-kept k rs s.size_bytes es)
  | inr clean ↦ rw clean (
      sym (take_all d.log.bytes s.size_bytes (omega (arith, whole clean)))
      ∙ ap (take s.size_bytes) eb
      ∙ take-kept k rs s.size_bytes es)
]

-- What opening the segment `d` gives when its whole frames are those of `rs`.
pub record Reopened (d : DiskSegment) (rs : List Record) (s : Segment) : Type 0 where
  pub segment : IsSegment s rs
  pub bytes : s.file.bytes ≡ frames rs
  pub base : s.base_offset ≡ d.base_offset
  pub durable : d.log.synced ≡ length d.log.bytes → s.file.synced ≡ length s.file.bytes

repaired-synced :
    (d : DiskSegment) (s : Scan)
    → d.log.synced ≡ length d.log.bytes
    → (repaired d s).synced ≡ length (repaired d s).bytes
repaired-synced d s h = ground arith

pub open_segment-Reopened :
    (io : OpenIo) (d : DiskSegment) (interval k : ℕ) (rs : List Record)
    → AllWell io
    → d.log.bytes ≡ take k (frames rs)
    → Numbered d.base_offset rs
    → All Fits rs
    → (s : Segment) × (open_segment io d true interval ≡ ok s) × Reopened d (surviving k rs) s
unfolding scan_segment
open_segment-Reopened io d interval k rs w eb hn hf =
    let (s, e, es, er, hx, whole) =
      scan_loop-take d.base_offset interval (suc (length d.log.bytes)) k rs d.log.bytes 0 0 [] 0 []
        refl refl tt eb (subst (λ b. Numbered b rs) (omega arith) hn) hf (omega arith) in
    let cut = repaired-kept d s k rs eb (es ∙ omega arith) whole in
    (
      segment_of d (repaired d s) s,
      open_segment-eq_ok io d interval s w e,
      record {
        segment =
            segment_of-IsSegment d (repaired d s) s (surviving k rs) cut (es ∙ omega arith)
              (er ∙ omega arith) hx
              (rw (surviving-prefix k rs) (Numbered-take d.base_offset _ rs hn))
              (rw (surviving-prefix k rs) (All-take Fits _ rs hf));
        bytes = cut;
        base = refl;
        durable = repaired-synced d s;
      },
    )

-- After a crash that left the first `k` bytes of the active segment's frames, and with calls that
-- succeed, `openSegment` finds exactly the records whose frames are whole within those bytes, and
-- cuts the file behind them. (The records fit frames and are numbered from the segment's base.)
pub open_segment_crash :
    (io : OpenIo) (d : DiskSegment) (interval k : ℕ) (rs : List Record)
    → AllWell io
    → d.log.bytes ≡ take k (frames rs)
    → Numbered d.base_offset rs
    → All Fits rs
    → (s : Segment) × (open_segment io d true interval ≡ ok s)
      × IsSegment s (surviving k rs)
      × (s.file.bytes ≡ frames (surviving k rs))
open_segment_crash io d interval k rs w eb hn hf =
    let (s, e, h) = open_segment-Reopened io d interval k rs w eb hn hf in
    (s, e, h.segment, h.bytes)
