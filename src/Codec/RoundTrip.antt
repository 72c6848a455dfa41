-- ===== src/Codec/RoundTrip.antt =====
-- `DecodeRecord` after `EncodeRecord`.
use native.Mathlib.Nat.{mod-eq_of_lt}
use marchiq.Base.{
  ℕ, ◌+◌, ◌%◌, ◌^◌, ◌≤◌, ◌<◌, ◌≡◌, ap, ◌∙◌, refl, sym, ◌↔◌, uint64_of, int64_of, IsInt64,
  int64_of-uint64_of, uint64_of_lt, List, ◌∷◌, ◌++◌, append_assoc, length, length-append,
  take-append_length, drop-append_length, record_too_large, ok, err, arith, Bool,
}
use marchiq.BigEndian.{put_uint, uint, length-put_uint, uint-put_uint}
use marchiq.Codec.Body.{
  layout, layout_key, layout_key_len, layout_timestamp, layout_value, layout_value_len,
}
use marchiq.Codec.{
  Record, Reader, encode_record, decode_record, decode_fields, read_full, frame_of, body_of,
  max_record_bytes,
}

-- The length of a frame: 21 bytes beside the key and the value.
abbrev pub frame_length : Record → ℕ
frame_length r = 21 + length r.key + length r.value

pub length-frame_of : (r : Record) → length (frame_of r) ≡ frame_length r
length-frame_of r = simp (length-append, length-put_uint) (omega arith)

-- `encode_record` refuses a record exactly when its frame would be over 1 MiB.
pub encode_record-eq_ok :
    (r : Record) → (encode_record r ≡ ok (frame_of r)) ↔ (frame_length r ≤ max_record_bytes)
unfolding encode_record
encode_record-eq_ok r = (λ h. ground arith, λ h. ground arith)

pub encode_record-eq_err :
    (r : Record) → (encode_record r ≡ err record_too_large) ↔ (max_record_bytes < frame_length r)
unfolding encode_record
encode_record-eq_err r = (λ h. ground arith, λ h. ground arith)

pub read_full-append :
    (n : ℕ) (xs ys : List ℕ) (f : Bool)
    → n ≡ length xs
    → read_full n (record { avail = xs ++ ys; faulty = f })
      ≡ (ok xs, n, record { avail = ys; faulty = f })
unfolding read_full
read_full-append n xs ys f h =
    ground (arith, take-append_length xs ys n h, drop-append_length xs ys n h, length-append xs ys)

-- The checks pass on a body that is laid out as `EncodeRecord` does, and give its fields back.
pub decode_fields-layout :
    (t k4 key v4 value : List ℕ) (off n : ℕ) (src : Reader)
    → 8 ≡ length t
    → 4 ≡ length k4
    → 4 ≡ length v4
    → uint k4 ≡ length key
    → uint v4 ≡ length value
    → 21 + length key + length value ≤ max_record_bytes
    → decode_fields (16 + length key + length value) (layout t k4 key v4 value) n src off ≡ (
      ok (record { offset = off; timestamp_ns = int64_of (uint t); key = key; value = value }),
      n,
      src,
    )
unfolding decode_fields
decode_fields-layout t k4 key v4 value off n src ht hk hv ek ev fits =
    rw
      (
        layout_key_len t k4 key v4 value ht hk hv,
        ek,
        layout_key t k4 key v4 value ht hk hv,
        layout_value_len t k4 key v4 value ht hk hv,
        layout_value t k4 key v4 value ht hk hv,
        layout_timestamp t k4 key v4 value ht hk hv,
        ev,
      )
      (ground arith)

-- The header of a frame of that length is accepted, and the body is what follows it.
decode_record-header :
    (h4 body rest : List ℕ) (f : Bool) (off : ℕ)
    → 4 ≡ length h4
    → uint h4 ≡ length body
    → 16 ≤ length body
    → length body + 5 ≤ max_record_bytes
    → decode_record (record { avail = (1 ∷ h4) ++ (body ++ rest); faulty = f }) off
      ≡ decode_fields (length body) body (5 + length body) (record { avail = rest; faulty = f }) off
unfolding decode_record
decode_record-header h4 body rest f off hh hu lo hi =
    rw
      (
        read_full-append 5 (1 ∷ h4) (body ++ rest) f (omega arith),
        hu,
        read_full-append (length body) body rest f refl,
      )
      (ground arith)

pub frame_of-split :
    (r : Record) (rest : List ℕ)
    → frame_of r ++ rest
      ≡ (1 ∷ put_uint 4 ((16 + length r.key + length r.value) % 2 ^ 32))
        ++ (body_of (uint64_of r.timestamp_ns) r ++ rest)
frame_of-split r rest =
    append_assoc (1 ∷ put_uint 4 ((16 + length r.key + length r.value) % 2 ^ 32))
      (body_of (uint64_of r.timestamp_ns) r) rest

pub length-body_of :
    (ts : ℕ) (r : Record) → length (body_of ts r) ≡ 16 + length r.key + length r.value
length-body_of ts r = simp (length-append, length-put_uint) (omega arith)

pub encode_record-inv :
    (r : Record) (frame : List ℕ)
    → encode_record r ≡ ok frame
    → (frame ≡ frame_of r) × (frame_length r ≤ max_record_bytes)
unfolding encode_record
encode_record-inv r frame e = (ground arith, ground arith)

pub length_back : (n : ℕ) → n < 2 ^ 32 → uint (put_uint 4 (n % 2 ^ 32)) ≡ n
length_back n h = rw (mod-eq_of_lt h) (uint-put_uint 4 n (omega arith))

decode_body_of :
    (r : Record) (off m n : ℕ) (src : Reader)
    → m ≡ 16 + length r.key + length r.value
    → IsInt64 r.timestamp_ns
    → frame_length r ≤ max_record_bytes
    → decode_fields m (body_of (uint64_of r.timestamp_ns) r) n src off
      ≡ (ok (record r { offset = off }), n, src)
decode_body_of r off m n src hm hi fits =
    rw
      (
        hm,
        decode_fields-layout _ _ r.key _ r.value off n src (sym (length-put_uint 8 _))
            (sym (length-put_uint 4 _)) (sym (length-put_uint 4 _))
            (length_back (length r.key) (omega arith)) (length_back (length r.value) (omega arith))
            fits,
        uint-put_uint 8 _ (uint64_of_lt r.timestamp_ns hi),
        int64_of-uint64_of r.timestamp_ns hi,
      )
      refl

pub decode_record-frame_of :
    (r : Record) (rest : List ℕ) (f : Bool) (off : ℕ)
    → IsInt64 r.timestamp_ns
    → frame_length r ≤ max_record_bytes
    → decode_record (record { avail = frame_of r ++ rest; faulty = f }) off
      ≡ (ok (record r { offset = off }), frame_length r, record { avail = rest; faulty = f })
decode_record-frame_of r rest f off hi fits = rw (frame_of-split r rest) (
    decode_record-header (put_uint 4 ((16 + length r.key + length r.value) % 2 ^ 32))
      (body_of (uint64_of r.timestamp_ns) r) rest f off (sym (length-put_uint 4 _))
      (length_back (16 + length r.key + length r.value) (omega arith) ∙ sym (length-body_of _ r))
      (rw length-body_of (omega arith)) (rw length-body_of (omega arith))
    ∙ decode_body_of r off _ _ _ (length-body_of _ r) hi fits
    ∙ ap (λ k. (ok (record r { offset = off }), k, record { avail = rest; faulty = f }))
        (omega (arith, length-body_of (uint64_of r.timestamp_ns) r)))

-- The frame of a record that fits 1 MiB, with any bytes behind it, decodes to that record at the
-- offset which the caller gives. The whole frame is consumed, and the bytes behind it are left.
pub decode_record-encode_record :
    (r : Record) (frame rest : List ℕ) (f : Bool) (off : ℕ)
    → IsInt64 r.timestamp_ns
    → encode_record r ≡ ok frame
    → decode_record (record { avail = frame ++ rest; faulty = f }) off
      ≡ (ok (record r { offset = off }), length frame, record { avail = rest; faulty = f })
decode_record-encode_record r frame rest f off hi e =
    let (same, fits) = encode_record-inv r frame e in
    rw (same, length-frame_of r) (decode_record-frame_of r rest f off hi fits)
