-- ===== src/Codec.antt =====
-- storage/record.go: the v1 frame of one record, written by `EncodeRecord` and read back by
-- `DecodeRecord`. Bytes are numbers below 256. `io.Reader` and `io.ReadFull` are Go's library.
mod Body
pub mod RoundTrip
pub mod Decode
pub mod Sound
pub mod Torn
pub mod Tests
use marchiq.Base.{
  ℕ, zero, suc, ◌+◌, ◌-◌, ◌%◌, ◌^◌, ℤ, uint64_of, int64_of, Bool, ◌||◌, not, List, [], ◌∷◌, ◌++◌,
  length, take, drop, get_or, ltb, leb, ◌==◌, if◌then◌else◌, Error, eof, unexpected_eof,
  corrupt_record, record_too_large, other, Result, ok, err,
}
use marchiq.BigEndian.{put_uint, uint}

-- A record's offset is given by its place in the log, and is not in its frame.
pub record Record : Type 0 where
  pub offset : ℕ
  pub timestamp_ns : ℤ
  pub key : List ℕ
  pub value : List ℕ

abbrev pub record_magic : ℕ
record_magic = 1

-- magic (1) and body length (4)
abbrev pub frame_prefix : ℕ
frame_prefix = 5

-- timestamp (8), key length (4) and value length (4)
abbrev pub min_body_bytes : ℕ
min_body_bytes = 16

abbrev pub max_record_bytes : ℕ
max_record_bytes = 2 ^ 20

abbrev pub body_of : ℕ → Record → List ℕ
body_of ts r =
    put_uint 8 ts
    ++ (put_uint 4 (length r.key % 2 ^ 32)
        ++ (r.key ++ (put_uint 4 (length r.value % 2 ^ 32) ++ r.value)))

abbrev pub frame_of : Record → List ℕ
frame_of r =
    let body_len = min_body_bytes + length r.key + length r.value in
    (record_magic ∷ put_uint 4 (body_len % 2 ^ 32)) ++ body_of (uint64_of r.timestamp_ns) r

unfoldable pub encode_record : Record → Result (List ℕ)
encode_record r =
    if ltb max_record_bytes (length r.key)
      || (ltb max_record_bytes (length r.value)
          || ltb (max_record_bytes - frame_prefix - min_body_bytes) (length r.key + length r.value))
    then err record_too_large
    else ok (frame_of r)

-- What a reader still holds, and whether an I/O error rather than the end of the file comes next.
pub record Reader : Type 0 where
  pub avail : List ℕ
  pub faulty : Bool

-- `io.ReadFull` that got `n` bytes and too few: the reader's own error, or one of the two EOFs.
abbrev pub short_read : ℕ → Bool → Error
short_read n faulty = if faulty then other else if n == 0 then eof else unexpected_eof

-- The bytes, or the error; how many bytes were read; the reader after it.
unfoldable pub read_full : ℕ → Reader → Result (List ℕ) × ℕ × Reader
read_full n src =
    if leb n (length src.avail)
    then (ok (take n src.avail), n, record src { avail = drop n src.avail })
    else (
      err (short_read (length src.avail) src.faulty),
      length src.avail,
      record src { avail = [] },
    )

-- A subtraction of `uint32` values.
abbrev pub sub32 : ℕ → ℕ → ℕ
sub32 a b = (a + 2 ^ 32 - b) % 2 ^ 32

abbrev pub Decoded : Type 0
Decoded = Result Record × ℕ × Reader

-- The checks on a complete body of `body_len` bytes, after which `n` bytes are consumed.
unfoldable pub decode_fields : ℕ → List ℕ → ℕ → Reader → ℕ → Decoded
decode_fields body_len body n src offset =
    let key_len = uint (take 4 (drop 8 body)) in
    let value_pos = 12 + key_len in
    let value_len = uint (take 4 (drop value_pos body)) in
    if ltb (sub32 body_len min_body_bytes) key_len
    then (err corrupt_record, n, src)
    else if not (value_len == sub32 (sub32 body_len (value_pos % 2 ^ 32)) 4)
    then (err corrupt_record, n, src)
    else (
      ok (record {
        offset = offset;
        timestamp_ns = int64_of (uint (take 8 body));
        key = take key_len (drop 12 body);
        value = drop (value_pos + 4) body;
      }),
      n,
      src,
    )

-- Even no byte of the body is a partial frame, not a clean end.
abbrev pub torn : Error → Error
torn eof = unexpected_eof
torn e = e

unfoldable pub decode_body : ℕ → ℕ → Result (List ℕ) × ℕ × Reader → ℕ → Decoded
unfolding decode_fields
decode_body body_len n (err e, read, src) offset = (err (torn e), n + read, src)
decode_body body_len n (ok body, read, src) offset =
    decode_fields body_len body (n + read) src offset

unfoldable pub decode_header : Result (List ℕ) × ℕ × Reader → ℕ → Decoded
unfolding decode_body read_full
decode_header (err e, n, src) offset = (err e, n, src)
decode_header (ok header, n, src) offset =
    let body_len = uint (drop 1 header) in
    if not (get_or header 0 0 == record_magic)
    then (err corrupt_record, n, src)
    else if ltb body_len min_body_bytes
    then (err corrupt_record, n, src)
    else if ltb (max_record_bytes - frame_prefix) body_len
    then (err record_too_large, n, src)
    else decode_body body_len n (read_full body_len src) offset

unfoldable pub decode_record : Reader → ℕ → Decoded
unfolding decode_header
decode_record src offset = decode_header (read_full frame_prefix src) offset
