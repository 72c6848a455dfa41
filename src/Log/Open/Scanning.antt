-- ===== src/Log/Open/Scanning.antt =====
-- `scanSegment` on any bytes: it ends, and what it accepts is a run of whole frames.
use marchiq.Base.{
  ℕ, zero, suc, ◌+◌, ◌≤◌, ◌<◌, ◌≡◌, ◌≢◌, ◌⊎◌, refl, ap, ◌∙◌, List, [], ◌∷◌, ◌++◌, length,
  length-drop, Result, ok, err, Error, eof, stuck, if◌then◌else◌, arith, inl, inr,
}
use marchiq.Codec.{Record, Reader, decode_record}
use marchiq.Codec.Decode.{decode_record-Consumes}
use marchiq.Index.{IndexEntry}
use marchiq.Log.Open.{scan_end, is_due, scan_loop, scan_segment}

-- A decoded record has taken its header at least, and no error of the decoder is `stuck`.
decode_record-progress :
    (src : Reader) (off : ℕ) (r : Record) (n : ℕ) (after : Reader)
    → decode_record src off ≡ (ok r, n, after)
    → 5 ≤ n
unfolding decode_record
decode_record-progress src off r n after e = ground arith

decode_record-ne-stuck : (src : Reader) (off : ℕ) → (decode_record src off).0 ≢ err stuck
unfolding decode_record
decode_record-ne-stuck src off e = ground arith

scan_end-ne-stuck :
    (e : Error) (size records : ℕ) (index : List IndexEntry)
    → e ≢ stuck
    → scan_end e size records index ≢ err stuck
scan_end-ne-stuck eof size records index h = λ x. cc
scan_end-ne-stuck stuck size records index h = absurd (h refl)
scan_end-ne-stuck _ size records index h = λ x. cc

pub Result-cases {ℓ} :
    {A : Type ℓ} (r : Result A) → ((a : A) × (r ≡ ok a)) ⊎ ((e : Error) × (r ≡ err e))
Result-cases (ok a) = inl (a, refl)
Result-cases (err e) = inr (e, refl)

scan_loop-ne-stuck :
    (fuel base interval : ℕ) (reader : Reader) (size records : ℕ) (index : List IndexEntry)
    (last : ℕ)
    → length reader.avail < fuel
    → scan_loop fuel base interval reader size records index last ≢ err stuck
unfolding scan_loop
scan_loop-ne-stuck zero base interval reader size records index last h = absurd (omega arith)
scan_loop-ne-stuck (suc fuel) base interval reader size records index last h =
    let d = decode_record reader (base + records) in
    let due = is_due interval size records last in
    let entry : IndexEntry = record { rel_offset = records; position = size } in
    elim (Result-cases d.0) [
      | inl (r, e) ↦
          rw (e, scan_loop)
            (scan_loop-ne-stuck fuel base interval d.2 (size + d.1) (records + 1)
              (if due then index ++ (entry ∷ []) else index) (if due then size else last)
              (shorter r e))
      | inr (x, e) ↦
          rw (e, scan_loop)
            (scan_end-ne-stuck x size records index
              (λ p. decode_record-ne-stuck reader (base + records) (e ∙ ap err p)))
    ]
  where
    shorter :
        (r : Record)
        → (decode_record reader (base + records)).0 ≡ ok r
        → length (decode_record reader (base + records)).2.avail < fuel
    shorter r e =
        let (count, left, same) = decode_record-Consumes reader (base + records) in
        let some_ : 5 ≤ (decode_record reader (base + records)).1 =
          decode_record-progress reader (base + records) r _ _ (
            ap
              (λ x. (
                x,
                (decode_record reader (base + records)).1,
                (decode_record reader (base + records)).2,
              ))
              e) in
        omega (
          arith,
          ap length left,
          length-drop (decode_record reader (base + records)).1 reader.avail,
        )

-- The scan ends on every input: its loop does not run out of fuel.
pub scan_segment-ne-stuck :
    (reader : Reader) (base interval : ℕ) → scan_segment reader base interval ≢ err stuck
unfolding scan_segment
scan_segment-ne-stuck reader base interval =
    scan_loop-ne-stuck (suc (length reader.avail)) base interval reader 0 0 [] 0 (omega arith)
