-- ===== src/Http.antt =====
-- cmd/marchiq/main.go: what the HTTP handlers answer, and how they read the parameters of a request.
-- The text of an error message is not modelled, nor is the JSON that encodes an answer. The
-- children hold the handlers.
pub mod Topics
pub mod Records
pub mod Members
pub mod Router
pub mod Delivery
pub mod Status
mod Tests
use marchiq.Base.{
  ℕ, zero, suc, ◌+◌, ◌-◌, ◌*◌, ◌^◌, ℤ, pos, negsuc, is_positive, Bool, true, false, ◌&&◌, not, List,
  [], ◌∷◌, Option, none, some, ltb, leb, ◌==◌, if◌then◌else◌, Error, other, Result, ok, err,
}
use marchiq.Names.{Name, eq_name, is_digit, decimal, TopicConfig}
use marchiq.Strconv.{parse_int}
use marchiq.Codec.{Record}
use marchiq.Log.Read.{SegmentInfo}
use marchiq.Log.Append.{acks_none, acks_leader}
use marchiq.Broker.{Stats}
use marchiq.Groups.{Assignment, PartitionFetch}
use marchiq.Lag.{GroupLag}

-- What `q.Get` gives for each parameter behind the `?` of a URL: the first value, and the empty
-- string without one.
pub record Query : Type 0 where
  pub topic : Name
  pub partition : Name
  pub key : Name
  pub acks : Name
  pub offset : Name
  pub max_bytes : Name
  pub max_records : Name
  pub group : Name
  pub member : Name
  pub members : Name

unfoldable pub parse_acks : Name → Result ℤ
parse_acks s =
    if eq_name s (b'0' ∷ [])
    then ok acks_none
    else if eq_name s (b'1' ∷ [])
    then ok acks_leader
    else err other

-- An integer above zero.
abbrev pub positive : Option ℤ → Option ℤ
positive none = none
positive (some v) = if is_positive v then some v else none

-- A limit, which has a default value.
abbrev pub limit_param : ℤ → Name → Option ℤ
limit_param default [] = some default
limit_param default (b ∷ bs) = positive (parse_int (b ∷ bs))

-- An integer that is not negative.
abbrev pub natural : Option ℤ → Option ℕ
natural (some (pos n)) = some n
natural x = none

pub record PartitionOffsets : Type 0 where
  pub partition : ℕ
  pub earliest : ℕ
  pub latest : ℕ

-- The bodies of the answers. A `failure` is the text of an error that the broker returned, a
-- `message` the handler's own. `fetchRecord` has the fields of `Record`.
pub data Body : Type 0 where
  plain_text message : Body
  failure : Error → Body
  created : TopicConfig → Body
  topic_list : List TopicConfig → Body
  offset_list : Name → List PartitionOffsets → Body
  produced : Name → ℕ → ℕ → ℤ → Body
  record_list : Name → ℕ → List Record → ℕ → ℕ → Body
  group_records : Name → Name → Name → List PartitionFetch → Body
  joined : Assignment → Body
  committed : Name → Name → ℤ → ℤ → ℤ → Body
  segment_list : Name → ℕ → List SegmentInfo → Body
  lag_list : List GroupLag → Body
  counters : Stats → Body

-- The two headers are `X-Marchiq-Records-Returned` and `X-Marchiq-High-Watermark`.
pub record Response : Type 0 where
  pub status : ℕ
  pub records_returned : Option Name
  pub high_watermark : Option Name
  pub body : Body

abbrev pub write_json : ℕ → Body → Response
write_json status body = record {
  status = status;
  records_returned = none;
  high_watermark = none;
  body = body;
}

-- `writeErr` with a text of the handler.
abbrev pub bad_request : Response
bad_request = write_json 400 message
