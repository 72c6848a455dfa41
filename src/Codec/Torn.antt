-- ===== src/Codec/Torn.antt =====
-- `DecodeRecord` at the end of a file: nothing there, or a frame that was cut short.
use marchiq.Base.{
  ℕ, ◌+◌, ◌≤◌, ◌<◌, ◌≡◌, ◌≢◌, ◌∙◌, refl, sym, Bool, false, List, [], ◌∷◌, ◌++◌, length,
  length-append, append-split, eof, unexpected_eof, err, arith, leb, inl, inr, Bool-cases, ◌^◌, ◌%◌,
  uint64_of, ap,
}
use marchiq.BigEndian.{put_uint, uint, length-put_uint}
use marchiq.Codec.{
  Record, frame_of, body_of, max_record_bytes, read_full, decode_record, torn, short_read,
}
use marchiq.Codec.RoundTrip.{frame_length, read_full-append, length_back, length-body_of}

-- An empty reader is at a clean end.
pub decode_record-eof :
    (off : ℕ)
    → decode_record (record { avail = []; faulty = false }) off
      ≡ (err eof, 0, record { avail = []; faulty = false })
unfolding decode_record
decode_record-eof off = refl

read_full_short :
    (n : ℕ) (xs : List ℕ) (f : Bool)
    → length xs < n
    → read_full n (record { avail = xs; faulty = f })
      ≡ (err (short_read (length xs) f), length xs, record { avail = []; faulty = f })
unfolding read_full
read_full_short n xs f h = ground arith

torn_short : (n : ℕ) → torn (short_read n false) ≡ unexpected_eof
torn_short n = ground arith

-- The header is complete, and `b` of the body's bytes follow it.
decode_record-cut_body :
    (h4 b : List ℕ) (off n : ℕ)
    → 4 ≡ length h4
    → uint h4 ≡ n
    → 16 ≤ n
    → n + 5 ≤ max_record_bytes
    → length b < n
    → decode_record (record { avail = (1 ∷ h4) ++ b; faulty = false }) off
      ≡ (err unexpected_eof, 5 + length b, record { avail = []; faulty = false })
unfolding decode_record
decode_record-cut_body h4 b off n hh hu lo hi short =
    rw (read_full-append 5 (1 ∷ h4) b false (omega arith), hu, read_full_short n b false short)
      (ground (arith, torn_short (length b)))

decode_record-cut_header :
    (front : List ℕ) (off : ℕ)
    → front ≢ []
    → length front < 5
    → decode_record (record { avail = front; faulty = false }) off
      ≡ (err unexpected_eof, length front, record { avail = []; faulty = false })
unfolding decode_record
decode_record-cut_header [] off ne h = absurd (ne refl)
decode_record-cut_header (x ∷ front) off ne h =
    rw (read_full_short 5 (x ∷ front) false h) (ground arith)

nonempty : (xs : List ℕ) → xs ≢ [] → 0 < length xs
nonempty [] h = absurd (h refl)
nonempty (x ∷ xs) h = omega arith

-- A frame that lost one byte or more at its end, but not all, is a partial frame: all that is left
-- of it is consumed, and it is neither a clean end nor a corrupt record.
pub decode_record_torn :
    (r : Record) (front lost : List ℕ) (off : ℕ)
    → frame_length r ≤ max_record_bytes
    → frame_of r ≡ front ++ lost
    → front ≢ []
    → lost ≢ []
    → decode_record (record { avail = front; faulty = false }) off
      ≡ (err unexpected_eof, length front, record { avail = []; faulty = false })
decode_record_torn r front lost off fits e nf nl = elim (Bool-cases (leb 5 (length front))) [
  | inl full ↦ cut_body (append-split (1 ∷ h4) body front lost e (ground (arith, four)))
  | inr short ↦ decode_record-cut_header front off nf (ground arith)
]
  where
    h4 : List ℕ
    h4 = put_uint 4 ((16 + length r.key + length r.value) % 2 ^ 32)

    body : List ℕ
    body = body_of (uint64_of r.timestamp_ns) r

    four : length h4 ≡ 4
    four = length-put_uint 4 _

    sized : length body ≡ 16 + length r.key + length r.value
    sized = length-body_of _ r

    cut_body :
        (b : List ℕ) × (front ≡ (1 ∷ h4) ++ b) × (body ≡ b ++ lost)
        → decode_record (record { avail = front; faulty = false }) off
          ≡ (err unexpected_eof, length front, record { avail = []; faulty = false })
    cut_body (b, p, q) = rw p (
        decode_record-cut_body h4 b off (16 + length r.key + length r.value) (sym four)
          (length_back _ (omega arith)) (omega arith) (omega arith)
          (omega (arith, nonempty lost nl, sized, ap length q, length-append b lost))
        ∙ ap (λ k. (err unexpected_eof, k, record { avail = []; faulty = false }))
            {x = 5 + length b} (omega (arith, four, length-append h4 b)))
