-- ===== src/Codec/Sound.antt =====
-- What an input that `DecodeRecord` accepts holds: the format has one encoding for each record.
use native.Mathlib.Nat.{mod-eq_of_lt}
use mathlib.Core.Path.{subst, ap₂}
use marchiq.Base.{
  ℕ, ◌+◌, ◌%◌, ◌^◌, ◌≤◌, ◌<◌, ◌≡◌, refl, sym, ap, ◌∙◌, List, [], ◌∷◌, ◌++◌, length, take, drop,
  drop-add, take-append-drop, take-add, length-take, length-drop, All, All-take, All-drop, IsInt64,
  int64_of, uint64_of, uint64_of-int64_of, int64_of-IsInt64, ok, arith, get_or, append_assoc,
}
use marchiq.BigEndian.{IsByte, put_uint, uint, put_uint-uint, uint_lt}
use marchiq.Codec.{
  Record, Reader, frame_of, body_of, max_record_bytes, encode_record, decode_record, decode_fields,
}
use marchiq.Codec.Body.{layout}
use marchiq.Codec.RoundTrip.{frame_length, encode_record-eq_ok}
use marchiq.Codec.Decode.{decode_fields_rest}

body_split :
    (body : List ℕ) (k : ℕ)
    → body
      ≡ layout
          (take 8 body)
          (take 4 (drop 8 body))
          (take k (drop 12 body))
          (take 4 (drop (12 + k) body))
          (drop (12 + k + 4) body)
body_split body k = sym (
    rw
      (
        drop-add (12 + k) 4 body,
        take-append-drop 4 (drop (12 + k) body),
        drop-add 12 k body,
        take-append-drop k (drop 12 body),
        drop-add 8 4 body,
        take-append-drop 4 (drop 8 body),
      )
      (take-append-drop 8 body))

-- An integer of `k` bytes that was read is what would be written.
put_uint-slice :
    (k : ℕ) (xs : List ℕ)
    → All IsByte xs
    → k ≤ length xs
    → put_uint k (uint (take k xs)) ≡ take k xs
put_uint-slice k xs h fits =
    subst (λ j. put_uint j (uint (take k xs)) ≡ take k xs) cut
      (put_uint-uint (take k xs) (All-take IsByte k xs h))
  where
    cut : length (take k xs) ≡ k
    cut = omega (arith, length-take k xs)

uint-slice_lt : (k : ℕ) (xs : List ℕ) → All IsByte xs → k ≤ length xs → uint (take k xs) < 256 ^ k
uint-slice_lt k xs h fits =
    subst (λ j. uint (take k xs) < 256 ^ j) cut (uint_lt (take k xs) (All-take IsByte k xs h))
  where
    cut : length (take k xs) ≡ k
    cut = omega (arith, length-take k xs)

abbrev key_size : List ℕ → ℕ
key_size body = uint (take 4 (drop 8 body))

abbrev value_size : List ℕ → ℕ
value_size body = uint (take 4 (drop (12 + key_size body) body))

abbrev fields_of : List ℕ → ℕ → Record
fields_of body off = record {
  offset = off;
  timestamp_ns = int64_of (uint (take 8 body));
  key = take (key_size body) (drop 12 body);
  value = drop (12 + key_size body + 4) body;
}

-- The two checks: the sizes that the body states fill it.
decode_fields_checks :
    (body_len : ℕ) (body : List ℕ) (n : ℕ) (src : Reader) (off : ℕ) (r : Record) (n' : ℕ)
    (src' : Reader)
    → decode_fields body_len body n src off ≡ (ok r, n', src')
    → 16 ≤ body_len
    → body_len < 2 ^ 32
    → (key_size body + 16 + value_size body ≡ body_len) × (r ≡ fields_of body off)
unfolding decode_fields
decode_fields_checks body_len body n src off r n' src' e lo hi = (ground arith, ground arith)

module _ (body : List ℕ) (off : ℕ) (bytes : All IsByte body) (small : length body < 2 ^ 32)
    (fills : key_size body + 16 + value_size body ≡ length body) where
  length-key : length (fields_of body off).key ≡ key_size body
  length-key = omega (arith, length-take (key_size body) (drop 12 body), length-drop 12 body)

  length-value : length (fields_of body off).value ≡ value_size body
  length-value = omega (arith, length-drop (12 + key_size body + 4) body)

  pub body_of-fields_of :
      body_of (uint64_of (fields_of body off).timestamp_ns) (fields_of body off) ≡ body
  body_of-fields_of =
      rw (length-key, length-value, mod-eq_of_lt key_small, mod-eq_of_lt value_small, ts, ks, vs)
        (sym (body_split body (key_size body)))
    where
      key_small : key_size body < 2 ^ 32
      key_small = omega arith

      value_small : value_size body < 2 ^ 32
      value_small = omega arith

      ts : put_uint 8 (uint64_of (int64_of (uint (take 8 body)))) ≡ take 8 body
      ts =
          rw (uint64_of-int64_of _ (uint-slice_lt 8 body bytes (omega arith)))
            (put_uint-slice 8 body bytes (omega arith))

      ks : put_uint 4 (key_size body) ≡ take 4 (drop 8 body)
      ks =
          put_uint-slice 4 (drop 8 body) (All-drop IsByte 8 body bytes)
            (omega (arith, length-drop 8 body))

      vs : put_uint 4 (value_size body) ≡ take 4 (drop (12 + key_size body) body)
      vs =
          put_uint-slice 4 _ (All-drop IsByte (12 + key_size body) body bytes)
            (omega (arith, length-drop (12 + key_size body) body))

  frame_length-fields_of : frame_length (fields_of body off) ≡ 5 + length body
  frame_length-fields_of = omega (arith, length-key, length-value)

  frame_of-fields_of : frame_of (fields_of body off) ≡ (1 ∷ put_uint 4 (length body)) ++ body
  frame_of-fields_of = ap₂ (λ h b. (1 ∷ h) ++ b) (ap (put_uint 4) sized) body_of-fields_of
    where
      sized :
          (16 + length (fields_of body off).key + length (fields_of body off).value) % 2 ^ 32
          ≡ length body
      sized = omega (arith, length-key, length-value)

abbrev stated_size : List ℕ → ℕ
stated_size xs = uint (drop 1 (take 5 xs))

-- The checks that an accepted input has passed before its body is looked at.
decode_record_checks :
    (src : Reader) (off : ℕ) (r : Record) (n : ℕ) (src' : Reader)
    → decode_record src off ≡ (ok r, n, src')
    → (5 ≤ length src.avail)
      × (get_or (take 5 src.avail) 0 0 ≡ 1)
      × (16 ≤ stated_size src.avail)
      × (stated_size src.avail + 5 ≤ max_record_bytes)
      × (stated_size src.avail ≤ length (drop 5 src.avail))
      × (decode_fields
            (stated_size src.avail)
            (take (stated_size src.avail) (drop 5 src.avail))
            (5 + stated_size src.avail)
            (record src { avail = drop (stated_size src.avail) (drop 5 src.avail) })
            off
          ≡ (ok r, n, src'))
unfolding decode_record
decode_record_checks src off r n src' e =
    (ground arith, ground arith, ground arith, ground arith, ground arith, ground arith)

header_back :
    (xs : List ℕ) (m : ℕ)
    → All IsByte xs
    → 5 ≤ length xs
    → get_or (take 5 xs) 0 0 ≡ 1
    → stated_size xs ≡ m
    → 1 ∷ put_uint 4 m ≡ take 5 xs
header_back [] m h five one e = absurd (omega arith)
header_back (x ∷ xs) m h five one e = cc (one, e, put_uint-slice 4 xs h.1 (omega arith))

-- What `DecodeRecord` accepts is exactly what `EncodeRecord` writes for the record that comes back:
-- the consumed bytes are that record's one frame, and the reader stands right behind it. The record
-- has the offset that was given, and its timestamp is an `int64`.
pub decode_record_sound :
    (src : Reader) (off : ℕ) (r : Record) (n : ℕ) (src' : Reader)
    → All IsByte src.avail
    → decode_record src off ≡ (ok r, n, src')
    → (encode_record r ≡ ok (take n src.avail))
      × (n ≡ frame_length r)
      × (src.avail ≡ take n src.avail ++ src'.avail)
      × (r.offset ≡ off)
      × IsInt64 r.timestamp_ns
decode_record_sound src off r n src' bytes e =
    let (five, one, lo, hi, there, inner) = decode_record_checks src off r n src' e in
    accepted (stated_size src.avail) refl five one lo hi there inner
  where
    rest : List ℕ
    rest = drop 5 src.avail

    accepted :
        (m : ℕ)
        → stated_size src.avail ≡ m
        → 5 ≤ length src.avail
        → get_or (take 5 src.avail) 0 0 ≡ 1
        → 16 ≤ m
        → m + 5 ≤ max_record_bytes
        → m ≤ length rest
        → decode_fields m (take m rest) (5 + m) (record src { avail = drop m rest }) off
          ≡ (ok r, n, src')
        → (encode_record r ≡ ok (take n src.avail))
          × (n ≡ frame_length r)
          × (src.avail ≡ take n src.avail ++ src'.avail)
          × (r.offset ≡ off)
          × IsInt64 r.timestamp_ns
    accepted m em five one lo hi there inner =
        let (fills, same) =
          decode_fields_checks m (take m rest) (5 + m) _ off r n src' inner lo (omega arith) in
        let (count, left) =
          decode_fields_rest m (take m rest) (5 + m) (record src { avail = drop m rest }) off in
        finish (cc (inner, count)) (cc (inner, left)) fills same
      where
        body : List ℕ
        body = take m rest

        sized : length body ≡ m
        sized = omega (arith, length-take m rest)

        small : length body < 2 ^ 32
        small = omega (arith, sized)

        body_bytes : All IsByte body
        body_bytes = All-take IsByte m rest (All-drop IsByte 5 src.avail bytes)

        framed :
            (fills : key_size body + 16 + value_size body ≡ m)
            → frame_of (fields_of body off) ≡ take (5 + m) src.avail
        framed fills =
            frame_of-fields_of body off body_bytes small (fills ∙ sym sized)
            ∙ ap₂ (λ (h l : List ℕ). h ++ l)
                (ap (λ k. 1 ∷ put_uint 4 k) sized ∙ header_back src.avail m bytes five one em) refl
            ∙ sym (take-add 5 m src.avail)

        finish :
            n ≡ 5 + m
            → src' ≡ record src { avail = drop m rest }
            → key_size body + 16 + value_size body ≡ m
            → r ≡ fields_of body off
            → (encode_record r ≡ ok (take n src.avail))
              × (n ≡ frame_length r)
              × (src.avail ≡ take n src.avail ++ src'.avail)
              × (r.offset ≡ off)
              × IsInt64 r.timestamp_ns
        finish hn hs fills same =
            let sizes = frame_length-fields_of body off body_bytes small (fills ∙ sym sized) in
            let fits : frame_length r ≤ max_record_bytes = rw same (omega (arith, sizes, sized)) in
            (
              (encode_record-eq_ok r).1 fits
                  ∙ ap ok (ap frame_of same ∙ framed fills ∙ ap (λ k. take k src.avail) (sym hn)),
              rw same (omega (arith, sizes, sized)),
              rw
                  (
                    hs,
                    hn,
                    take-add 5 m src.avail,
                    append_assoc (take 5 src.avail) (take m rest) (drop m rest),
                    take-append-drop m rest,
                  )
                  (sym (take-append-drop 5 src.avail)),
              rw same refl,
              rw same (int64_of-IsInt64 _ (uint-slice_lt 8 body body_bytes (omega (arith, sized)))),
            )
