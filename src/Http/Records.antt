-- ===== src/Http/Records.antt =====
-- cmd/marchiq/main.go: `produce`, `parseFetchBudget`, `fetch`, `fetchExplicit` and `fetchGroup`.
use marchiq.Base.{
  ℕ, zero, ◌+◌, ℤ, pos, negsuc, ◌||◌, not, List, [], ◌∷◌, length, Option, none, some, ltb, ◌==◌,
  if◌then◌else◌, Error, topic_not_found, partition_not_found, group_not_found, member_required,
  offset_out_of_range, record_too_large, Result, ok, err,
}
use marchiq.Names.{Name, decimal}
use marchiq.Codec.{Record, Reader, max_record_bytes}
use marchiq.Log.Append.{AppendIo, acks_leader}
use marchiq.Log.Read.{Offsets}
use marchiq.Broker.{Broker, produce, fetch}
use marchiq.Groups.{PartitionFetch, fetch_group, next_after}
use marchiq.Strconv.{parse_int}
use marchiq.Http.{
  Query, parse_acks, limit_param, natural, Response, write_json, bad_request, message, failure,
  produced, record_list, group_records,
}

-- A partition number, or -1.
abbrev pub chosen : Option ℤ → Option ℤ
chosen (some (pos n)) = some (pos n)
chosen (some (negsuc zero)) = some (negsuc zero)
chosen x = none

abbrev pub acks_param : Name → Result ℤ
acks_param [] = ok acks_leader
acks_param (b ∷ bs) = parse_acks (b ∷ bs)

-- `io.ReadAll` of a body that `http.MaxBytesReader` limits to `limit` bytes.
abbrev pub read_all : Reader → ℕ → Option (List ℕ)
read_all body limit = if body.faulty || ltb limit (length body.avail) then none else some body.avail

abbrev pub produce_status : Error → ℕ
produce_status topic_not_found = 404
produce_status partition_not_found = 404
produce_status record_too_large = 413
produce_status e = 500

abbrev pub produce_answer : Name → Result (Record × ℕ) × Broker → Response × Broker
produce_answer topic (err e, b) = (write_json (produce_status e) (failure e), b)
produce_answer topic (ok (r, n), b) = (write_json 200 (produced topic n r.offset r.timestamp_ns), b)

abbrev pub produce_body : AppendIo → Broker → Query → ℤ → ℤ → Option (List ℕ) → Response × Broker
produce_body io b q partition acks none = (write_json 413 message, b)
produce_body io b q partition acks (some value) =
    produce_answer q.topic (produce io b q.topic partition q.key value acks)

abbrev pub produce_acks : AppendIo → Broker → Query → Reader → ℤ → Result ℤ → Response × Broker
produce_acks io b q body partition (err e) = (write_json 400 (failure e), b)
produce_acks io b q body partition (ok acks) =
    produce_body io b q partition acks (read_all body (max_record_bytes + 1))

unfoldable pub post_produce : AppendIo → Broker → Query → Reader → Response × Broker
post_produce io b q body =
    if length q.topic == 0 || length q.partition == 0
    then (bad_request, b)
    else elim (chosen (parse_int q.partition)) [
      | none ↦ (bad_request, b)
      | some n ↦ produce_acks io b q body n (acks_param q.acks)
    ]

-- The two limits: bytes, and records.
abbrev pub both : Option ℤ → Option ℤ → Option (ℤ × ℤ)
both (some x) (some y) = some (x, y)
both x y = none

unfoldable pub parse_fetch_budget : Query → Option (ℤ × ℤ)
parse_fetch_budget q =
    both (limit_param (pos 1048576) q.max_bytes) (limit_param (pos 1000) q.max_records)

abbrev pub fetch_status : Error → ℕ
fetch_status topic_not_found = 404
fetch_status partition_not_found = 404
fetch_status offset_out_of_range = 400
fetch_status e = 500

abbrev pub fetch_answer : Name → ℕ → ℕ → Result (List Record × Offsets) × Broker → Response × Broker
fetch_answer topic n offset (err e, b) = (write_json (fetch_status e) (failure e), b)
fetch_answer topic n offset (ok (rs, o), b) = (
  record {
    status = 200;
    records_returned = some (decimal (length rs));
    high_watermark = some (decimal o.latest);
    body = record_list topic n rs (next_after offset rs) o.latest;
  },
  b,
)

abbrev pub fetch_offset : Broker → Query → ℤ → ℤ → ℕ → Option ℕ → Response × Broker
fetch_offset b q max_records max_bytes n none = (bad_request, b)
fetch_offset b q max_records max_bytes n (some offset) =
    fetch_answer q.topic n offset (fetch b q.topic (pos n) (pos offset) max_records max_bytes)

abbrev pub fetch_explicit : Broker → Query → ℤ → ℤ → Response × Broker
fetch_explicit b q max_records max_bytes =
    if length q.topic == 0 || (length q.partition == 0 || length q.offset == 0)
    then (bad_request, b)
    else elim (natural (parse_int q.partition)) [
      | none ↦ (bad_request, b)
      | some n ↦ fetch_offset b q max_records max_bytes n (natural (parse_int q.offset))
    ]

abbrev pub fetch_group_status : Error → ℕ
fetch_group_status group_not_found = 404
fetch_group_status topic_not_found = 404
fetch_group_status member_required = 400
fetch_group_status e = 500

abbrev pub total_records : List PartitionFetch → ℕ
total_records [] = 0
total_records (f ∷ fs) = length f.records + total_records fs

abbrev pub fetch_group_answer : Query → Result (List PartitionFetch) × Broker → Response × Broker
fetch_group_answer q (err e, b) = (write_json (fetch_group_status e) (failure e), b)
fetch_group_answer q (ok fs, b) = (
  record {
    status = 200;
    records_returned = some (decimal (total_records fs));
    high_watermark = none;
    body = group_records q.group q.member q.topic fs;
  },
  b,
)

abbrev pub fetch_members : Broker → Query → ℤ → ℤ → Response × Broker
fetch_members b q max_records max_bytes =
    if length q.topic == 0
    then (bad_request, b)
    else fetch_group_answer q (fetch_group b q.group q.topic q.member max_records max_bytes)

unfoldable pub get_fetch : Broker → Query → Response × Broker
get_fetch b q = elim (parse_fetch_budget q) [
  | none ↦ (bad_request, b)
  | some (max_bytes, max_records) ↦
      if not (length q.group == 0)
      then fetch_members b q max_records max_bytes
      else fetch_explicit b q max_records max_bytes
]
