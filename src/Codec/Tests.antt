-- ===== src/Codec/Tests.antt =====
-- Runs of the codec on the golden bytes of storage/FORMAT.md, and its theorems at that record.
use marchiq.Base.{
  ℕ, ◌≡◌, refl, pos, IsInt64, List, [], ◌∷◌, ◌++◌, take, false, ok, err, unexpected_eof,
  corrupt_record, arith,
}
use marchiq.BigEndian.{put_uint, uint}
use marchiq.Codec.{
  Record, Reader, encode_record, decode_record, decode_header, decode_body, decode_fields,
  read_full,
}
use marchiq.Codec.RoundTrip.{decode_record-encode_record}
use marchiq.Codec.Sound.{decode_record_sound}
use marchiq.Codec.Torn.{decode_record_torn}
use marchiq.Codec.Decode.{Consumes, decode_record-Consumes}

abbrev pub golden : Record
golden = record { offset = 0; timestamp_ns = pos 1; key = b'k' ∷ []; value = b'v' ∷ [] }

abbrev pub golden_bytes : List ℕ
golden_bytes =
    1 ∷ 0 ∷ 0 ∷ 0 ∷ 18 ∷ 0 ∷ 0 ∷ 0 ∷ 0 ∷ 0 ∷ 0 ∷ 0 ∷ 1 ∷ 0 ∷ 0 ∷ 0 ∷ 1 ∷ 107 ∷ 0 ∷ 0 ∷ 0 ∷ 1 ∷ 118
    ∷ []

golden_encoded : encode_record golden ≡ ok golden_bytes
unfolding encode_record put_uint
golden_encoded = refl

abbrev reader_of : List ℕ → Reader
reader_of bytes = record { avail = bytes; faulty = false }

golden_decoded :
    decode_record (reader_of (golden_bytes ++ (9 ∷ []))) 7
    ≡ (ok (record golden { offset = 7 }), 23, reader_of (9 ∷ []))
unfolding decode_record decode_header decode_body decode_fields read_full uint
golden_decoded = refl

bad_magic :
    decode_record (reader_of (2 ∷ 0 ∷ 0 ∷ 0 ∷ 18 ∷ [])) 0 ≡ (err corrupt_record, 5, reader_of [])
unfolding decode_record decode_header read_full uint
bad_magic = refl

decode_record-encode_record_example :
    decode_record (reader_of (golden_bytes ++ (9 ∷ []))) 7
    ≡ (ok (record golden { offset = 7 }), 23, reader_of (9 ∷ []))
decode_record-encode_record_example =
    decode_record-encode_record golden golden_bytes (9 ∷ []) false 7 (omega arith) golden_encoded

decode_record_sound_example :
    (encode_record (record golden { offset = 7 }) ≡ ok golden_bytes)
    × ◌≡◌ {A = ℕ} 23 23
    × (golden_bytes ++ (9 ∷ []) ≡ golden_bytes ++ (9 ∷ []))
    × ◌≡◌ {A = ℕ} 7 7
    × IsInt64 (pos 1)
decode_record_sound_example =
    decode_record_sound (reader_of (golden_bytes ++ (9 ∷ []))) 7 (record golden { offset = 7 }) 23
      (reader_of (9 ∷ [])) (omega arith) golden_decoded

abbrev front_half : List ℕ
front_half = take 12 golden_bytes

decode_record_torn_example :
    decode_record (reader_of front_half) 0 ≡ (err unexpected_eof, 12, reader_of [])
unfolding put_uint
decode_record_torn_example =
    decode_record_torn golden front_half (1 ∷ 0 ∷ 0 ∷ 0 ∷ 1 ∷ 107 ∷ 0 ∷ 0 ∷ 0 ∷ 1 ∷ 118 ∷ []) 0
      (omega arith) refl (λ e. cc) (λ e. cc)

decode_record-Consumes_example :
    Consumes
      (reader_of front_half)
      (decode_record (reader_of front_half) 3).1
      (decode_record (reader_of front_half) 3).2
decode_record-Consumes_example = decode_record-Consumes (reader_of front_half) 3
