-- ===== src/Http/Members.antt =====
-- cmd/marchiq/main.go: `joinGroup` and `commitOffset`. What the JSON decoder makes of a body is an
-- argument.
use marchiq.Base.{
  ℕ, ◌+◌, ◌%◌, ◌^◌, ℤ, pos, uint64_of, int64_of, Bool, ◌||◌, length, Option, none, some, ◌==◌,
  if◌then◌else◌, Error, group_conflict, topic_not_found, partition_not_found, group_not_found,
  offset_out_of_range, Result, ok, err,
}
use marchiq.Names.{Name}
use marchiq.Broker.{Broker}
use marchiq.Saving.{SaveIo}
use marchiq.GroupsFile.{GroupsFile}
use marchiq.Groups.{Assignment, join_group, Committed, commit_offset}
use marchiq.Http.{Query, limit_param, Response, write_json, bad_request, failure, joined, committed}

abbrev pub join_status : Error → ℕ
join_status group_conflict = 409
join_status topic_not_found = 404
join_status e = 400

abbrev pub join_answer : Result Assignment × Broker → Response × Broker
join_answer (ok a, b) = (write_json 200 (joined a), b)
join_answer (err e, b) = (write_json (join_status e) (failure e), b)

-- `group` is a part of the path.
unfoldable pub post_join : Bool → Broker → Name → Query → Response × Broker
post_join saved b group q =
    if length q.topic == 0 then (bad_request, b) else elim (limit_param (pos 1) q.members) [
      | none ↦ (bad_request, b)
      | some size ↦ join_answer (join_group saved b group q.topic q.member size)
    ]

pub record CommitRequest : Type 0 where
  pub group : Name
  pub topic : Name
  pub partition : ℤ
  pub offset : ℤ

abbrev pub commit_status : Error → ℕ
commit_status group_not_found = 404
commit_status topic_not_found = 404
commit_status partition_not_found = 404
commit_status offset_out_of_range = 400
commit_status e = 500

-- `req.Offset + 1`, an `int64`.
abbrev pub following : ℤ → ℤ
following i = int64_of ((uint64_of i + 1) % 2 ^ 64)

abbrev pub commit_answer : CommitRequest → Committed → Response × Broker × GroupsFile
commit_answer r (ok u, b, file) =
    (write_json 200 (committed r.group r.topic r.partition r.offset (following r.offset)), b, file)
commit_answer r (err e, b, file) = (write_json (commit_status e) (failure e), b, file)

-- `none` is a body that is no JSON of a request.
unfoldable pub post_commit :
    SaveIo → GroupsFile → Broker → Option CommitRequest → Response × Broker × GroupsFile
post_commit io live b none = (bad_request, b, live)
post_commit io live b (some r) =
    if length r.group == 0 || length r.topic == 0
    then (bad_request, b, live)
    else commit_answer r (commit_offset io live b r.group r.topic r.partition r.offset)
