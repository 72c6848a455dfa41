-- ===== src/Log/Open/Whole.antt =====
-- Opening a sealed segment: its file is whole, so the scan meets no torn tail.
use marchiq.Base.{
  ℕ, zero, suc, ◌+◌, ◌<◌, ◌≡◌, refl, ap, ◌∙◌, sym, false, List, [], ◌∷◌, length, length-append,
  take_all, All, ok, eof, arith, Result, ok-injective,
}
use mathlib.Core.Path.{subst}
use marchiq.Codec.{Record, frame_of}
use marchiq.Codec.RoundTrip.{frame_length, length-frame_of, decode_record-frame_of}
use marchiq.Codec.Torn.{decode_record-eof}
use marchiq.Index.{IndexEntry}
use marchiq.Log.{Segment}
use marchiq.Log.View.{frames, Fits, Numbered, IndexesInto}
use marchiq.Log.Open.{
  Scan, scan_loop, scan_segment, OpenIo, DiskSegment, open_segment, repair, segment_of,
}
use marchiq.Log.Open.Surviving.{surviving_all}
use marchiq.Log.Open.Recovery.{scan_loop_next, scan_loop_end, same_record, scan_loop-take}
use marchiq.Log.Open.Crash.{AllWell, Reopened, segment_of-IsSegment}

abbrev Untorn : Result Scan → Type 0
Untorn res = (s : Scan) → res ≡ ok s → s.torn ≡ false

module _ (base interval : ℕ) where
  scan_loop-Untorn :
      (fuel : ℕ) (rs : List Record) (size records : ℕ) (index : List IndexEntry) (last : ℕ)
      → Numbered (base + records) rs
      → All Fits rs
      → length (frames rs) < fuel
      → Untorn (
          scan_loop fuel base interval
            (record { avail = frames rs; faulty = false })
            size
            records
            index
            last)
  scan_loop-Untorn zero rs size records index last hn hf lt = absurd (omega arith)
  scan_loop-Untorn (suc fuel) [] size records index last hn hf lt =
      subst Untorn
        (sym (
          scan_loop_end fuel base interval (record { avail = []; faulty = false }) size records
            index last eof (ap (λ d. d.0) (decode_record-eof (base + records)))))
        (λ s e. rw (sym (ok-injective _ s e)) refl)
  scan_loop-Untorn (suc fuel) (r ∷ rs) size records index last hn hf lt =
      subst Untorn
        (sym (
          scan_loop_next fuel base interval (record { avail = frames (r ∷ rs); faulty = false })
            size records index last r (frame_length r)
            (record { avail = frames rs; faulty = false })
            (decode_record-frame_of r (frames rs) false (base + records) hf.0.1 hf.0.0
              ∙ ap (λ x. (ok x, frame_length r, record { avail = frames rs; faulty = false }))
                  (same_record r hn.0))))
        (scan_loop-Untorn fuel rs (size + frame_length r) (records + 1) _ _
          (subst (λ b. Numbered b rs) (omega arith) hn.1) hf.1
          (omega (arith, length-append (frame_of r) (frames rs), length-frame_of r)))

open_segment-untorn :
    (io : OpenIo) (d : DiskSegment) (interval : ℕ) (s : Scan)
    → AllWell io
    → scan_segment (record { avail = d.log.bytes; faulty = false }) d.base_offset interval ≡ ok s
    → s.torn ≡ false
    → open_segment io d false interval ≡ ok (segment_of d d.log s)
unfolding open_segment repair
open_segment-untorn io d interval s w e t =
    simp (w.open_log, w.stat, w.read_fault, e, t, w.open_index, w.rewrite_index)

-- A sealed segment whose file holds the frames of `rs` is opened as it is.
pub open_segment_whole :
    (io : OpenIo) (d : DiskSegment) (interval : ℕ) (rs : List Record)
    → AllWell io
    → d.log.bytes ≡ frames rs
    → Numbered d.base_offset rs
    → All Fits rs
    → (s : Segment) × (open_segment io d false interval ≡ ok s) × Reopened d rs s
unfolding scan_segment
open_segment_whole io d interval rs w eb hn hf =
    let k = length (frames rs) in
    let all = surviving_all k rs (omega arith) in
    let (s, e, es, er, hx, whole) =
      scan_loop-take d.base_offset interval (suc (length d.log.bytes)) k rs d.log.bytes 0 0 [] 0 []
        refl refl tt (eb ∙ sym (take_all (frames rs) k (omega arith)))
        (subst (λ b. Numbered b rs) (omega arith) hn) hf (omega arith) in
    (
      segment_of d d.log s,
      open_segment-untorn io d interval s w e (
          scan_loop-Untorn d.base_offset interval (suc (length d.log.bytes)) rs 0 0 [] 0
            (subst (λ b. Numbered b rs) (omega arith) hn) hf (omega (arith, ap length eb)) s
            (ap
                (λ l.
                  scan_loop (suc (length d.log.bytes)) d.base_offset interval
                    (record { avail = l; faulty = false }) 0 0 [] 0)
                (sym eb)
              ∙ e)),
      record {
        segment =
            segment_of-IsSegment d d.log s rs eb (es ∙ omega (arith, ap length (ap frames all)))
              (er ∙ omega (arith, ap length all)) (subst (λ l. All (IndexesInto l) s.index) all hx)
              hn hf;
        bytes = eb;
        base = refl;
        durable = λ h. h;
      },
    )
