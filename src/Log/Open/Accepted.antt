-- ===== src/Log/Open/Accepted.antt =====
-- What a file holds whose scan succeeds, whatever its bytes.
use mathlib.Core.Path.{subst}
use marchiq.Base.{
  ℕ, zero, suc, ◌+◌, ◌≡◌, refl, ap, ◌∙◌, sym, Bool, true, false, List, [], ◌∷◌, ◌++◌, append_assoc,
  length, length-append, take, drop, take-append_length, All, All-append, All-drop, ok, err, Error,
  eof, unexpected_eof, if◌then◌else◌, arith, inl, inr,
}
use marchiq.BigEndian.{IsByte}
use marchiq.Codec.{Record, Reader, decode_record, frame_of}
use marchiq.Codec.RoundTrip.{encode_record-inv, length-frame_of}
use marchiq.Codec.Decode.{decode_record-Consumes}
use marchiq.Codec.Sound.{decode_record_sound}
use marchiq.Index.{IndexEntry}
use marchiq.Log.View.{frames, Fits, Numbered, IndexesInto}
use marchiq.Log.Append.Stages.{end_position}
use marchiq.Log.Append.Refines.{All-IndexesInto-append, frames_last, Numbered-append}
use marchiq.Log.Open.{Scan, scan_end, is_due, scan_loop, scan_segment}
use marchiq.Log.Open.Scanning.{Result-cases}

-- The scan `s` of `bytes` has found the frames of `rs`, and all there is of them.
pub record Scanned (base : ℕ) (bytes : List ℕ) (rs : List Record) (s : Scan) : Type 0 where
  pub counted : s.records ≡ length rs
  pub sized : s.size_bytes ≡ length (frames rs)
  pub stored : take s.size_bytes bytes ≡ frames rs
  pub numbered : Numbered base rs
  pub fits : All Fits rs
  pub indexed : All (IndexesInto rs) s.index
  pub whole : s.torn ≡ false → length bytes ≡ s.size_bytes

-- The loop has the records `rs` behind it, and the reader's bytes before it.
record Scanning (base : ℕ) (bytes : List ℕ) (rs : List Record) (reader : Reader) (size records : ℕ)
    (index : List IndexEntry) : Type 0 where
  counted : records ≡ length rs
  sized : size ≡ length (frames rs)
  split : bytes ≡ frames rs ++ reader.avail
  numbered : Numbered base rs
  fits : All Fits rs
  indexed : All (IndexesInto rs) index

decode_record_eof-inv :
    (src : Reader) (off : ℕ) → (decode_record src off).0 ≡ err eof → src.avail ≡ []
unfolding decode_record
decode_record_eof-inv src off e = ground arith

pub index_step :
    (due : Bool) (rs : List Record) (size records : ℕ) (index : List IndexEntry)
    → records ≡ length rs
    → size ≡ length (frames rs)
    → All (IndexesInto rs) index
    → All
        (IndexesInto rs)
        (if due then index ++ (record { rel_offset = records; position = size } ∷ []) else index)
index_step false rs size records index ec es h = h
index_step true rs size records index ec es h =
    All-append (IndexesInto rs) index _ h ((omega arith, end_position rs ec es), tt)

module _ (base : ℕ) (bytes : List ℕ) where
  scan_end-Scanned :
      (rs : List Record) (reader : Reader) (size records : ℕ) (index : List IndexEntry) (e : Error)
      (s : Scan)
      → Scanning base bytes rs reader size records index
      → (e ≡ eof → reader.avail ≡ [])
      → scan_end e size records index ≡ ok s
      → Scanned base bytes rs s
  scan_end-Scanned rs reader size records index eof s h k eq =
      subst (Scanned base bytes rs) same (record {
        counted = h.counted;
        sized = h.sized;
        stored = ap (take size) h.split ∙ take-append_length (frames rs) reader.avail size h.sized;
        numbered = h.numbered;
        fits = h.fits;
        indexed = h.indexed;
        whole = λ _. omega (
          arith,
          ap length h.split,
          length-append (frames rs) reader.avail,
          ap length (k refl),
          h.sized,
        );
      })
    where
      same : record { size_bytes = size; records = records; index = index; torn = false } ≡ s
      same = cc
  scan_end-Scanned rs reader size records index unexpected_eof s h k eq =
      subst (Scanned base bytes rs) same (record {
        counted = h.counted;
        sized = h.sized;
        stored = ap (take size) h.split ∙ take-append_length (frames rs) reader.avail size h.sized;
        numbered = h.numbered;
        fits = h.fits;
        indexed = h.indexed;
        whole = λ p. cc;
      })
    where
      same : record { size_bytes = size; records = records; index = index; torn = true } ≡ s
      same = cc
  scan_end-Scanned rs reader size records index _ s h k eq = cc

  step-Scanning :
      (rs : List Record) (reader after : Reader) (size records n : ℕ) (index : List IndexEntry)
      (r : Record) (due : Bool)
      → Scanning base bytes rs reader size records index
      → All IsByte reader.avail
      → decode_record reader (base + records) ≡ (ok r, n, after)
      → Scanning base bytes
          (rs ++ (r ∷ []))
          after
          (size + n)
          (records + 1)
          (if due then index ++ (record { rel_offset = records; position = size } ∷ []) else index)
        × All IsByte after.avail
  step-Scanning rs reader after size records n index r due h bs e =
      let (enc, len, cut, at, ts) = decode_record_sound reader (base + records) r n after bs e in
      let (same, fit) = encode_record-inv r (take n reader.avail) enc in
      (
        record {
          counted = omega (arith, h.counted, length-append rs (r ∷ []));
          sized =
              rw (frames_last rs r, len)
                (omega (arith, h.sized, length-append (frames rs) (frame_of r), length-frame_of r));
          split =
              h.split
              ∙ ap (λ l. frames rs ++ l) (cut ∙ ap (λ l. l ++ after.avail) same)
              ∙ sym (append_assoc (frames rs) (frame_of r) after.avail)
              ∙ ap (λ l. l ++ after.avail) (sym (frames_last rs r));
          numbered = Numbered-append base rs r h.numbered (at ∙ ap (λ k. base + k) h.counted);
          fits = All-append Fits rs (r ∷ []) h.fits ((fit, ts), tt);
          indexed =
              All-IndexesInto-append rs r _
                (index_step due rs size records index h.counted h.sized h.indexed);
        },
        subst (All IsByte) (sym (left e)) (All-drop IsByte n reader.avail bs),
      )
    where
      left :
          decode_record reader (base + records) ≡ (ok r, n, after)
          → after.avail ≡ drop n reader.avail
      left e = let c = decode_record-Consumes reader (base + records) in (rw e at c).1

  scan_loop-Scanned :
      (fuel interval : ℕ) (rs : List Record) (reader : Reader) (size records : ℕ)
      (index : List IndexEntry) (last : ℕ) (s : Scan)
      → Scanning base bytes rs reader size records index
      → All IsByte reader.avail
      → scan_loop fuel base interval reader size records index last ≡ ok s
      → (qs : List Record) × Scanned base bytes qs s
  unfolding scan_loop
  scan_loop-Scanned zero interval rs reader size records index last s h bs e = cc
  scan_loop-Scanned (suc fuel) interval rs reader size records index last s h bs e =
      let d = decode_record reader (base + records) in
      let due = is_due interval size records last in
      let entry : IndexEntry = record { rel_offset = records; position = size } in
      elim (Result-cases d.0) [
        | inl (r, p) ↦
            let (h', bs') =
              step-Scanning rs reader d.2 size records d.1 index r due h bs
                (ap (λ x. (x, d.1, d.2)) p) in
            scan_loop-Scanned fuel interval (rs ++ (r ∷ [])) d.2 (size + d.1) (records + 1)
              (if due then index ++ (entry ∷ []) else index) (if due then size else last) s h' bs'
              (rw (p, scan_loop) at e)
        | inr (x, p) ↦ (
          rs,
          scan_end-Scanned rs reader size records index x s h
              (λ q. decode_record_eof-inv reader (base + records) (p ∙ ap err q))
              (rw (p, scan_loop) at e),
        )
      ]

-- Whatever bytes a segment's file holds: if its scan succeeds, then the bytes up to the reported
-- size are the frames of a list of records, numbered from the base offset, of the reported number;
-- every index entry points at the beginning of its record's frame; and unless the scan reports a
-- torn tail, no byte follows.
pub scan_segment-Scanned :
    (base interval : ℕ) (reader : Reader) (s : Scan)
    → All IsByte reader.avail
    → scan_segment reader base interval ≡ ok s
    → (rs : List Record) × Scanned base reader.avail rs s
unfolding scan_segment
scan_segment-Scanned base interval reader s bs e =
    scan_loop-Scanned base reader.avail (suc (length reader.avail)) interval [] reader 0 0 [] 0 s
      (record {
        counted = refl;
        sized = refl;
        split = refl;
        numbered = tt;
        fits = tt;
        indexed = tt;
      })
      bs e
