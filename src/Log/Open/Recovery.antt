-- ===== src/Log/Open/Recovery.antt =====
-- The active segment after a crash that has cut its file at any byte.
use mathlib.Core.Path.{subst}
use marchiq.Base.{
  ℕ, zero, suc, ◌+◌, ◌-◌, ◌≤◌, ◌<◌, ◌≡◌, refl, ap, ◌∙◌, sym, Bool, true, false, List, [], ◌∷◌, ◌++◌,
  append_assoc, append-nil, length, length-append, length-take, length-drop, take, drop,
  take-append-drop, take-append_ge, take-append_le, All, Result, ok, err, Error, eof,
  unexpected_eof, leb, leb→le, cut_nil, if◌then◌else◌, arith, Bool-cases, inl, inr,
}
use marchiq.Codec.{Record, Reader, decode_record, frame_of, max_record_bytes}
use marchiq.Codec.RoundTrip.{frame_length, length-frame_of, decode_record-frame_of}
use marchiq.Codec.Torn.{decode_record_torn, decode_record-eof}
use marchiq.Index.{IndexEntry}
use marchiq.Log.View.{frames, Fits, Numbered, IndexesInto}
use marchiq.Log.Open.{Scan, scan_end, is_due, scan_loop}
use marchiq.Log.Append.Refines.{All-IndexesInto-append, frames_last}
use marchiq.Log.Open.Accepted.{index_step}
use marchiq.Log.Open.Surviving.{surviving}

pub same_record : (r : Record) {n : ℕ} → r.offset ≡ n → record r { offset = n } ≡ r
same_record r e = λ i. record r { offset = sym e i }

abbrev end_error : Bool → Error
end_error torn = if torn then unexpected_eof else eof

-- A frame of which `k` bytes are left, and too few.
decode_record-cut :
    (r : Record) (k off : ℕ)
    → frame_length r ≤ max_record_bytes
    → k < frame_length r
    → (torn : Bool) × ((decode_record
          (record { avail = take k (frame_of r); faulty = false })
          off).0
        ≡ err (end_error torn))
      × (torn ≡ false → k ≡ 0)
decode_record-cut r zero off fits lt = (false, ap (λ d. d.0) (decode_record-eof off), λ _. refl)
decode_record-cut r (suc k) off fits lt = (
  true,
  ap (λ d. d.0)
      (decode_record_torn r (take (suc k) (frame_of r)) (drop (suc k) (frame_of r)) off fits
        (sym (take-append-drop (suc k) (frame_of r)))
        (λ e.
          absurd (omega (arith, ap length e, length-take (suc k) (frame_of r), length-frame_of r)))
        (λ e.
          absurd
            (omega (arith, ap length e, length-drop (suc k) (frame_of r), length-frame_of r)))),
  λ e. cc,
)

-- What is left of the frames behind a first one that is whole, and of the first one else.
cut_behind :
    (k : ℕ) (r : Record) (rs : List Record)
    → frame_length r ≤ k
    → take k (frames (r ∷ rs)) ≡ frame_of r ++ take (k - frame_length r) (frames rs)
cut_behind k r rs h =
    take-append_ge k (frame_of r) (frames rs) (rw length-frame_of h)
    ∙ ap (λ n. frame_of r ++ take (k - n) (frames rs)) (length-frame_of r)

cut_within :
    (k : ℕ) (r : Record) (rs : List Record)
    → k < frame_length r
    → take k (frames (r ∷ rs)) ≡ take k (frame_of r)
cut_within k r rs h = take-append_le k (frame_of r) (frames rs) (rw length-frame_of (omega arith))

-- What the scan has found when it ends: its size and count, an index into `all`,
-- and `Whole` unless it reports a torn tail.
abbrev pub Finds : Result Scan → ℕ → ℕ → List Record → Type 0 → Type 0
Finds res size records all Whole =
    (s : Scan) × (res ≡ ok s)
    × (s.size_bytes ≡ size)
    × (s.records ≡ records)
    × All (IndexesInto all) s.index
    × (s.torn ≡ false → Whole)

scan_end-Finds :
    (torn : Bool) (size records : ℕ) (index : List IndexEntry) (all : List Record) (Whole : Type 0)
    → All (IndexesInto all) index
    → (torn ≡ false → Whole)
    → Finds (scan_end (end_error torn) size records index) size records (all ++ []) Whole
scan_end-Finds true size records index all Whole h w = (_, refl, refl, refl, rw append-nil h, w)
scan_end-Finds false size records index all Whole h w = (_, refl, refl, refl, rw append-nil h, w)

Finds-eq :
    (res res' : Result Scan) (size size' records records' : ℕ) (all all' : List Record)
    (Whole Whole' : Type 0)
    → res ≡ res'
    → size' ≡ size
    → records' ≡ records
    → all' ≡ all
    → (Whole' → Whole)
    → Finds res' size' records' all' Whole'
    → Finds res size records all Whole
Finds-eq res res' size size' records records' all all' Whole Whole' e es er ea ew
      (s, f, fs, fr, fi, fw) =
    (s, e ∙ f, fs ∙ es, fr ∙ er, subst (λ l. All (IndexesInto l) s.index) ea fi, λ t. ew (fw t))

module _ (fuel base interval : ℕ) (reader : Reader) (size records : ℕ) (index : List IndexEntry)
    (last : ℕ) where
  pub scan_loop_next :
      (r : Record) (n : ℕ) (after : Reader)
      → decode_record reader (base + records) ≡ (ok r, n, after)
      → (let due = is_due interval size records last in
          scan_loop (suc fuel) base interval reader size records index last
          ≡ scan_loop fuel base interval after
              (size + n)
              (records + 1)
              (if due
                then index ++ (record { rel_offset = records; position = size } ∷ [])
                else index)
              (if due then size else last))
  unfolding scan_loop
  scan_loop_next r n after e =
      let due = is_due interval size records last in
      let ok_ : (decode_record reader (base + records)).0 ≡ ok r = ap (λ d. d.0) e in
      rw (ok_, scan_loop)
        (ap
          (λ d.
            scan_loop fuel base interval d.2 (size + d.1) (records + 1)
              (if due
                then index ++ (record { rel_offset = records; position = size } ∷ [])
                else index)
              (if due then size else last))
          e)

  pub scan_loop_end :
      (x : Error)
      → (decode_record reader (base + records)).0 ≡ err x
      → scan_loop (suc fuel) base interval reader size records index last
        ≡ scan_end x size records index
  unfolding scan_loop
  scan_loop_end x e = rw (e, scan_loop) refl

module _ (base interval : ℕ) where
  pub scan_loop-take :
      (fuel k : ℕ) (rs : List Record) (avail : List ℕ) (size records : ℕ) (index : List IndexEntry)
      (last : ℕ) (front : List Record)
      → records ≡ length front
      → size ≡ length (frames front)
      → All (IndexesInto front) index
      → avail ≡ take k (frames rs)
      → Numbered (base + records) rs
      → All Fits rs
      → length avail < fuel
      → Finds
          (scan_loop fuel base interval
            (record { avail = avail; faulty = false })
            size
            records
            index
            last)
          (size + length (frames (surviving k rs)))
          (records + length (surviving k rs))
          (front ++ surviving k rs)
          (length avail ≡ length (frames (surviving k rs)))
  scan_loop-take zero k rs avail size records index last front hr hs hx ea hn hf lt =
      absurd (omega arith)
  scan_loop-take (suc fuel) k [] avail size records index last front hr hs hx ea hn hf lt =
      Finds-eq _ _ _ _ _ _ _ _ _ _
        (scan_loop_end fuel base interval (record { avail = avail; faulty = false }) size records
          index last eof
          (ap (λ l. (decode_record (record { avail = l; faulty = false }) (base + records)).0)
              (ea ∙ cut_nil k)
            ∙ ap (λ d. d.0) (decode_record-eof (base + records))))
        (omega arith) (omega arith) refl (λ w. w)
        (scan_end-Finds false size records index front _ hx (λ _. ap length (ea ∙ cut_nil k)))
  scan_loop-take (suc fuel) k (r ∷ rs) avail size records index last front hr hs hx ea hn hf lt =
      elim (Bool-cases (leb (frame_length r) k)) [
        | inl full ↦
            Finds-eq _ _ _ _ _ _ _ _ _ _
              (scan_loop_next fuel base interval (record { avail = avail; faulty = false }) size
                records index last r (frame_length r)
                (record { avail = take (k - frame_length r) (frames rs); faulty = false })
                (whole full))
              (rw full (
                omega (
                  arith,
                  length-append (frame_of r) (frames (surviving (k - frame_length r) rs)),
                  length-frame_of r,
                )))
              (rw full (omega arith))
              (rw full (append_assoc front (r ∷ []) (surviving (k - frame_length r) rs)))
              (λ e. rw full (
                omega (
                  arith,
                  e,
                  ap length (behind full),
                  length-append (frame_of r) (take (k - frame_length r) (frames rs)),
                  length-append (frame_of r) (frames (surviving (k - frame_length r) rs)),
                )))
              (scan_loop-take fuel (k - frame_length r) rs (take (k - frame_length r) (frames rs))
                (size + frame_length r) (records + 1) _ _ (front ++ (r ∷ []))
                (omega (arith, length-append front (r ∷ [])))
                (rw (frames_last front r)
                  (omega (arith, length-append (frames front) (frame_of r), length-frame_of r)))
                (All-IndexesInto-append front r _ (
                  index_step (is_due interval size records last) front size records index hr hs hx))
                refl (later hn) hf.1 (shorter full))
        | inr short ↦
            let (torn, cut, zero_left) =
              decode_record-cut r k (base + records) hf.0.0 (ground arith) in
            Finds-eq _ _ _ _ _ _ _ _ _ _
              (scan_loop_end fuel base interval (record { avail = avail; faulty = false }) size
                records index last (end_error torn)
                (ap (λ l. (decode_record (record { avail = l; faulty = false }) (base + records)).0)
                    (ea ∙ cut_within k r rs (ground arith))
                  ∙ cut))
              (rw short (omega arith)) (rw short (omega arith)) (rw short refl) (λ e. rw short e)
              (scan_end-Finds torn size records index front _ hx
                (λ t. ap length ea ∙ ap (λ n. length (take n (frames (r ∷ rs)))) (zero_left t)))
      ]
    where
      later : Numbered (base + records) (r ∷ rs) → Numbered (base + (records + 1)) rs
      later h = subst (λ b. Numbered b rs) (omega arith) h.1

      behind :
          leb (frame_length r) k ≡ true
          → avail ≡ frame_of r ++ take (k - frame_length r) (frames rs)
      behind full = ea ∙ cut_behind k r rs (leb→le _ _ full)

      whole :
          leb (frame_length r) k ≡ true
          → decode_record (record { avail = avail; faulty = false }) (base + records) ≡ (
            ok r,
            frame_length r,
            record { avail = take (k - frame_length r) (frames rs); faulty = false },
          )
      whole full =
          ap (λ l. decode_record (record { avail = l; faulty = false }) (base + records))
            (behind full)
          ∙ decode_record-frame_of r _ false (base + records) hf.0.1 hf.0.0
          ∙ ap
              (λ x. (
                ok x,
                frame_length r,
                record { avail = take (k - frame_length r) (frames rs); faulty = false },
              ))
              (same_record r hn.0)

      shorter :
          leb (frame_length r) k ≡ true → length (take (k - frame_length r) (frames rs)) < fuel
      shorter full = omega (
        arith,
        ap length (behind full),
        length-append (frame_of r) (take (k - frame_length r) (frames rs)),
        length-frame_of r,
      )
