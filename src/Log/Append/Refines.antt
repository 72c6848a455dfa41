-- ===== src/Log/Append/Refines.antt =====
-- `Append` adds one record at the end of the abstract log, or none; and it says which.
use marchiq.Base.{
  ℕ, suc, ◌+◌, ◌≡◌, ◌⊎◌, refl, ap, ◌∙◌, sym, true, false, List, [], ◌∷◌, ◌++◌, append_assoc,
  append-nil, length, length-append, take, take_all, take-append_le, take-append_length, All,
  All-append, IsInt64, arith, ℤ, result_uncertain, ok, err, Result, inl, inr, if_rule, eq_int,
  max_int64, not, ◌&&◌, ◌==◌,
}
use marchiq.Codec.{Record, frame_of, encode_record}
use marchiq.Codec.RoundTrip.{encode_record-inv}
use marchiq.Index.{IndexEntry}
use marchiq.Log.{new_partition, Segment, PartitionLog}
use marchiq.Log.View.{
  frames, frames-append, Fits, Numbered, IndexesInto, Ascending, flatten, IsLog, Contains, IsClean,
  IsValid,
}
use marchiq.Log.Append.{
  AppendIo, append, append_encoded, append_frame, publish, Outcome, settle, fence, acks_none,
  acks_leader,
}
use marchiq.Log.Append.Stages.{new_segment-IsSegment, append_frame-Contains}
use marchiq.Log.Append.Written.{Written, append_frame-Written, append_frame-SameHead, SameHead}

pub Numbered-append :
    (base : ℕ) (rs : List Record) (r : Record)
    → Numbered base rs
    → r.offset ≡ base + length rs
    → Numbered base (rs ++ (r ∷ []))
Numbered-append base [] r h e = (omega arith, tt)
Numbered-append base (x ∷ rs) r h e = (h.0, Numbered-append (suc base) rs r h.1 (omega arith))

pub IndexesInto-append :
    (rs : List Record) (r : Record) (e : IndexEntry)
    → IndexesInto rs e
    → IndexesInto (rs ++ (r ∷ [])) e
IndexesInto-append rs r e h =
    (omega (arith, length-append rs (r ∷ [])), rw (take-append_le e.rel_offset rs (r ∷ []) h.0) h.1)

pub All-IndexesInto-append :
    (rs : List Record) (r : Record) (es : List IndexEntry)
    → All (IndexesInto rs) es
    → All (IndexesInto (rs ++ (r ∷ []))) es
All-IndexesInto-append rs r [] h = tt
All-IndexesInto-append rs r (e ∷ es) h =
    (IndexesInto-append rs r e h.0, All-IndexesInto-append rs r es h.1)

Ascending-grow :
    (ss : List Segment) (s t : Segment) (low : ℕ)
    → t.base_offset ≡ s.base_offset
    → Ascending low (ss ++ (s ∷ []))
    → Ascending low (ss ++ (t ∷ []))
Ascending-grow [] s t low eb h = omega arith
Ascending-grow (x ∷ ss) s t low eb h =
    (h.0, Ascending-grow ss s t (x.base_offset + x.records) eb h.1)

pub frames_last :
    (rs : List Record) (r : Record) → frames (rs ++ (r ∷ [])) ≡ frames rs ++ frame_of r
frames_last rs r = frames-append rs (r ∷ []) ∙ ap (λ l. frames rs ++ l) (append-nil (frame_of r))

-- To publish a frame that is written adds its record to the active segment.
publish-IsLog :
    (p : PartitionLog) (rss : List (List Record)) (rs : List Record) (r : Record)
    → IsLog p rss rs
    → Written (frame_of r) p
    → r.offset ≡ p.next_offset
    → Fits r
    → IsLog (publish (frame_of r) p) rss (rs ++ (r ∷ []))
unfolding publish
publish-IsLog p rss rs r h (front, eb, ef) eo fits = record {
  old = h.old;
  current = record {
    counted = omega (arith, h.current.counted, length-append rs (r ∷ []));
    sized = sizes;
    stored = bytes;
    numbered = Numbered-append _ rs r h.current.numbered (omega (arith, h.next, h.current.counted));
    fits = All-append Fits rs (r ∷ []) h.current.fits (fits, tt);
    indexed = All-IndexesInto-append rs r p.active.index h.current.indexed;
    readable = h.current.readable;
  };
  ascending = Ascending-grow p.sealed p.active _ 0 refl h.ascending;
  next = omega (arith, h.next);
}
  where
    sizes : p.active.size_bytes + length (frame_of r) ≡ length (frames (rs ++ (r ∷ [])))
    sizes = rw frames_last (omega (arith, h.current.sized, length-append (frames rs) (frame_of r)))

    behind : frames rs ≡ front
    behind =
        sym h.current.stored
        ∙ ap (take p.active.size_bytes) eb
        ∙ take-append_length front (frame_of r) p.active.size_bytes (sym ef)

    bytes :
        take (p.active.size_bytes + length (frame_of r)) p.active.file.bytes
        ≡ frames (rs ++ (r ∷ []))
    bytes =
        ap (take (p.active.size_bytes + length (frame_of r))) eb
        ∙ take_all (front ++ frame_of r) _ (omega (arith, length-append front (frame_of r)))
        ∙ ap (λ l. l ++ frame_of r) (sym behind)
        ∙ sym (frames_last rs r)

abbrev pub published : Result Record → List Record
published (ok r) = r ∷ []
published (err e) = []

-- A partition with the same segments holds the same records.
fence-Contains :
    (p : PartitionLog) (all : List Record) → Contains p all → Contains (fence p) (all ++ [])
fence-Contains p all (rss, rs, h, e) = (
  rss,
  rs,
  record { old = h.old; current = h.current; ascending = h.ascending; next = h.next },
  e ∙ sym (append-nil all),
)

settle-IsValid :
    (all : List Record) (r : Record) (o : Outcome)
    → Contains o.1 all
    → (o.0 ≡ true → Written (frame_of r) o.1)
    → r.offset ≡ o.1.next_offset
    → Fits r
    → IsValid (settle r (frame_of r) o).1 (all ++ published (settle r (frame_of r) o).0)
unfolding publish
settle-IsValid all r (false, q) h w eo fits = record {
  holds = fence-Contains q all h;
  clean = λ e. cc;
}
settle-IsValid all r (true, q) (rss, rs, h, e) w eo fits = record {
  holds = (
    rss,
    rs ++ (r ∷ []),
    publish-IsLog q rss rs r h (w refl) eo fits,
    sym (append_assoc (flatten rss) rs (r ∷ [])) ∙ ap (λ l. l ++ (r ∷ [])) e,
  );
  clean = λ _. written_clean (w refl);
}
  where
    written_clean : Written (frame_of r) q → IsClean (publish (frame_of r) q)
    written_clean (front, eb, ef) = omega (arith, ap length eb, length-append front (frame_of r))

append_encoded-IsValid :
    (io : AppendIo) (acks : ℤ) (r : Record) (p : PartitionLog) (all : List Record)
    (enc : Result (List ℕ))
    → encode_record r ≡ enc
    → IsValid p all
    → p.failed ≡ false
    → r.offset ≡ p.next_offset
    → IsInt64 r.timestamp_ns
    → IsValid
        (append_encoded io acks r p enc).1
        (all ++ published (append_encoded io acks r p enc).0)
unfolding append_encoded
append_encoded-IsValid io acks r p all (err e) enc h nf eo hi = rw (append-nil all) h
append_encoded-IsValid io acks r p all (ok frame) enc h nf eo hi =
    let (same, fits) = encode_record-inv r frame enc in
    rw same (
      settle-IsValid all r (append_frame io acks (frame_of r) p)
        (append_frame-Contains io acks (frame_of r) p all h.holds)
        (append_frame-Written io acks (frame_of r) p (h.clean nf))
        (eo ∙ sym (append_frame-SameHead io acks (frame_of r) p).next) (fits, hi))

abbrev Refines : List Record → Result Record × PartitionLog → Type 0
Refines all x = IsValid x.1 (all ++ published x.0)

-- `Append` implements the abstract log. Whatever the system answers to its calls: if it returns a
-- record, the log has that record at its end and is otherwise unchanged, and if it returns an
-- error, the log is unchanged. The invariant is kept either way. (The clock's time is an `int64`.)
pub append-refines :
    (io : AppendIo) (p : PartitionLog) (key value : List ℕ) (acks : ℤ) (all : List Record)
    → IsValid p all
    → IsInt64 io.now
    → IsValid (append io p key value acks).1 (all ++ published (append io p key value acks).0)
unfolding append
append-refines io p key value acks all h hi =
    if_rule (Refines all) p.closed _ _ (λ _. same)
      λ _.
        if_rule (Refines all) p.failed _ _ (λ _. same)
          λ nf.
            if_rule (Refines all) (not (eq_int acks acks_none) && not (eq_int acks acks_leader)) _ _
              (λ _. same)
              λ _.
                if_rule (Refines all) (p.next_offset == max_int64) _ _ (λ _. same)
                  λ _. append_encoded-IsValid io acks _ p all _ refl h nf refl hi
  where
    same : IsValid p (all ++ [])
    same = rw append-nil h

-- What an `Append` has done, by its result.
abbrev pub Done : AppendIo → PartitionLog → List ℕ → List ℕ → Result Record → PartitionLog → Type 0
Done io p key value (ok r) p' =
    (r ≡ record { offset = p.next_offset; timestamp_ns = io.now; key = key; value = value })
    × (p'.next_offset ≡ p.next_offset + 1)
    × (p.failed ≡ false)
    × (p.closed ≡ false)
Done io p key value (err e) p' =
    (p' ≡ p) ⊎ ((e ≡ result_uncertain) × (p'.failed ≡ true) × (p'.next_offset ≡ p.next_offset))

settle-Done :
    (io : AppendIo) (p : PartitionLog) (key value frame : List ℕ) (o : Outcome)
    → p.failed ≡ false
    → p.closed ≡ false
    → SameHead p o.1
    → (let r : Record = record {
      offset = p.next_offset;
      timestamp_ns = io.now;
      key = key;
      value = value;
    } in
        Done io p key value (settle r frame o).0 (settle r frame o).1)
unfolding publish
settle-Done io p key value frame (true, q) hf hc h = (refl, ap (λ n. n + 1) h.next, hf, hc)
settle-Done io p key value frame (false, q) hf hc h = inr (refl, refl, h.next)

append_encoded-Done :
    (io : AppendIo) (acks : ℤ) (p : PartitionLog) (key value : List ℕ) (enc : Result (List ℕ))
    → p.failed ≡ false
    → p.closed ≡ false
    → (let r : Record = record {
      offset = p.next_offset;
      timestamp_ns = io.now;
      key = key;
      value = value;
    } in
        Done io p key value (append_encoded io acks r p enc).0 (append_encoded io acks r p enc).1)
unfolding append_encoded
append_encoded-Done io acks p key value (err e) hf hc = inl refl
append_encoded-Done io acks p key value (ok frame) hf hc =
    settle-Done io p key value frame (append_frame io acks frame p) hf hc
      (append_frame-SameHead io acks frame p)

abbrev DoneAfter : AppendIo → PartitionLog → List ℕ → List ℕ → Result Record × PartitionLog → Type 0
DoneAfter io p key value x = Done io p key value x.0 x.1

-- A record that `Append` returns has the next offset, which then is one further, the given key and
-- value, and the clock's time; the partition was neither closed nor fenced. An error has either
-- changed nothing, or it is `ErrResultUncertain`, the partition is fenced, and the next offset is
-- what it was.
pub append_outcome :
    (io : AppendIo) (p : PartitionLog) (key value : List ℕ) (acks : ℤ)
    → Done io p key value (append io p key value acks).0 (append io p key value acks).1
unfolding append
append_outcome io p key value acks =
    let P = DoneAfter io p key value in
    if_rule P p.closed _ _ (λ _. inl refl)
      λ hc.
        if_rule P p.failed _ _ (λ _. inl refl)
          λ hf.
            if_rule P (not (eq_int acks acks_none) && not (eq_int acks acks_leader)) _ _
              (λ _. inl refl)
              λ _.
                if_rule P (p.next_offset == max_int64) _ _ (λ _. inl refl)
                  λ _. append_encoded-Done io acks p key value _ hf hc

-- The partition of a topic that was just created holds no record.
pub new_partition-IsValid :
    (max_segment_bytes interval : ℕ) → IsValid (new_partition max_segment_bytes interval) []
new_partition-IsValid max_segment_bytes interval = record {
  holds = (
    [],
    [],
    record { old = tt; current = new_segment-IsSegment 0; ascending = omega arith; next = refl },
    refl,
  );
  clean = λ _. refl;
}
