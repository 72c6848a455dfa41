-- ===== src/Codec/Decode.antt =====
-- `DecodeRecord` on any input: what it consumes, and what an input that it accepts holds.
use marchiq.Base.{
  ℕ, ◌+◌, ◌≤◌, ◌≡◌, refl, ap, List, [], ◌∷◌, length, drop, drop-add, length-drop, Result, ok, err,
  arith,
}
use marchiq.BigEndian.{uint}
use marchiq.Codec.{Reader, read_full, decode_record, decode_header, decode_body, decode_fields}

-- `n` bytes of `src` are gone in `after`, which meets the same end.
abbrev pub Consumes : Reader → ℕ → Reader → Type 0
Consumes src n after =
    (n ≤ length src.avail) × (after.avail ≡ drop n src.avail) × (after.faulty ≡ src.faulty)

drop_all : (xs : List ℕ) → [] ≡ drop (length xs) xs
drop_all [] = refl
drop_all (x ∷ xs) = drop_all xs

read_full-Consumes : (n : ℕ) (src : Reader) → Consumes src (read_full n src).1 (read_full n src).2
unfolding read_full
read_full-Consumes n src = ground (arith, drop_all src.avail)

pub decode_fields_rest :
    (body_len : ℕ) (body : List ℕ) (n : ℕ) (src : Reader) (off : ℕ)
    → ((decode_fields body_len body n src off).1 ≡ n)
      × ((decode_fields body_len body n src off).2 ≡ src)
unfolding decode_fields
decode_fields_rest body_len body n src off = ground arith

decode_body_rest :
    (body_len n : ℕ) (q : Result (List ℕ) × ℕ × Reader) (off : ℕ)
    → ((decode_body body_len n q off).1 ≡ n + q.1) × ((decode_body body_len n q off).2 ≡ q.2)
unfolding decode_body
decode_body_rest body_len n (err e, read, src) off = (refl, refl)
decode_body_rest body_len n (ok body, read, src) off =
    decode_fields_rest body_len body (n + read) src off

Consumes-trans : (a b c : Reader) (n m : ℕ) → Consumes a n b → Consumes b m c → Consumes a (n + m) c
Consumes-trans a b c n m h k =
    ground (arith, drop-add n m a.avail, length-drop n a.avail, ap length h.1)

decode_header-Consumes :
    (src : Reader) (q : Result (List ℕ) × ℕ × Reader) (off : ℕ)
    → Consumes src q.1 q.2
    → Consumes src (decode_header q off).1 (decode_header q off).2
unfolding decode_header
decode_header-Consumes src (err e, n, after) off h = h
decode_header-Consumes src (ok header, n, after) off h =
    let len = uint (drop 1 header) in
    ground (
      arith,
      decode_body_rest len n (read_full len after) off,
      Consumes-trans src after (read_full len after).2 n (read_full len after).1 h
          (read_full-Consumes len after),
    )

-- Whatever the input and whatever the outcome, the count that comes back is the number of bytes
-- that were taken off the reader.
pub decode_record-Consumes :
    (src : Reader) (off : ℕ) → Consumes src (decode_record src off).1 (decode_record src off).2
unfolding decode_record
decode_record-Consumes src off =
    decode_header-Consumes src (read_full 5 src) off (read_full-Consumes 5 src)
