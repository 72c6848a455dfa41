-- ===== src/Http/Delivery.antt =====
-- A value that was posted comes back from a fetch.
use marchiq.Base.{
  ℕ, ◌+◌, ◌^◌, ◌<◌, ◌≡◌, refl, ap, ◌∙◌, sym, ℤ, pos, false, ◌||◌, List, [], ◌∷◌, length, ◌==◌,
  Option, none, some, IsInt64, Result, ok, err, ok-injective, if_rule, option_rule, arith,
}
use mathlib.Core.Path.{subst}
use marchiq.Names.{Name, decimal}
use marchiq.Codec.{Record, Reader, max_record_bytes}
use marchiq.Log.Append.{AppendIo}
use marchiq.Log.Read.{Offsets}
use marchiq.Broker.{Broker, produce, fetch}
use marchiq.Strconv.{parse_int}
use marchiq.Http.{Query, Response, produced, record_list}
use marchiq.Strconv.RoundTrip.{parse_int-format_int, length-decimal}
use marchiq.Http.Records.{
  post_produce, produce_acks, produce_body, produce_answer, chosen, acks_param, read_all,
  parse_fetch_budget, get_fetch, fetch_answer,
}
use marchiq.Invariant.{AreSound}
use marchiq.Invariant.Delivery.{produce-Delivered}

-- The request that fetches from an offset on.
abbrev pub fetch_query : Name → ℕ → ℕ → Query
fetch_query topic n offset = record {
  topic = topic;
  partition = decimal n;
  key = [];
  acks = [];
  offset = decimal offset;
  max_bytes = [];
  max_records = [];
  group = [];
  member = [];
  members = [];
}

-- The answer to it when there is one record.
abbrev pub one_record_answer : Name → ℕ → Record → Response
one_record_answer topic n r = record {
  status = 200;
  records_returned = some (decimal 1);
  high_watermark = some (decimal (r.offset + 1));
  body = record_list topic n (r ∷ []) (r.offset + 1) (r.offset + 1);
}

-- The way of a request that was answered with an offset.
record Posted (io : AppendIo) (b : Broker) (q : Query) (value : List ℕ) (n o : ℕ) (ts : ℤ)
    (x : Response × Broker) : Type 0 where
  partition : ℤ
  acks : ℤ
  r : Record
  returned : (produce io b q.topic partition q.key value acks).0 ≡ ok (r, n)
  broker : x.1 ≡ (produce io b q.topic partition q.key value acks).1
  offset : r.offset ≡ o
  time : r.timestamp_ns ≡ ts
  named : (length q.topic == 0) ≡ false

Record_eq :
    (r : Record) (o : ℕ) (ts : ℤ) (key value : List ℕ)
    → r.offset ≡ o
    → r.timestamp_ns ≡ ts
    → r.key ≡ key
    → r.value ≡ value
    → r ≡ record { offset = o; timestamp_ns = ts; key = key; value = value }
Record_eq r o ts key value eo et ek ev = cc

read_all_inv :
    (body : Reader) (limit : ℕ) (xs : List ℕ) → read_all body limit ≡ some xs → xs ≡ body.avail
read_all_inv body limit xs e = ground arith

module _ (io : AppendIo) (b : Broker) (q : Query) (body : Reader) (n o : ℕ) (ts : ℤ) where
  abbrev P : Response × Broker → Type 0
  P x = x.0.body ≡ produced q.topic n o ts → Posted io b q body.avail n o ts x

  answer-Posted :
      (partition acks : ℤ) (x : Result (Record × ℕ) × Broker)
      → produce io b q.topic partition q.key body.avail acks ≡ x
      → (length q.topic == 0) ≡ false
      → P (produce_answer q.topic x)
  answer-Posted partition acks (err e, c) same named h = cc
  answer-Posted partition acks (ok (r, m), c) same named h = record {
    partition = partition;
    acks = acks;
    r = r;
    returned = ap (λ y. y.0) same ∙ cc;
    broker = sym (ap (λ y. y.1) same);
    offset = cc;
    time = cc;
    named = named;
  }

  body-Posted :
      (partition acks : ℤ)
      → (length q.topic == 0) ≡ false
      → P (produce_body io b q partition acks (read_all body (max_record_bytes + 1)))
  body-Posted partition acks named =
      read (read_all body (max_record_bytes + 1)) (read_all_inv body (max_record_bytes + 1))
    where
      read :
          (v : Option (List ℕ))
          → ((xs : List ℕ) → v ≡ some xs → xs ≡ body.avail)
          → P (produce_body io b q partition acks v)
      read none inv = λ h. cc
      read (some xs) inv =
          subst (λ ys. P (produce_body io b q partition acks (some ys))) (sym (inv xs refl))
            (answer-Posted partition acks (produce io b q.topic partition q.key body.avail acks)
              refl named)

  acks-Posted :
      (partition : ℤ) (r : Result ℤ)
      → (length q.topic == 0) ≡ false
      → P (produce_acks io b q body partition r)
  acks-Posted partition (err e) named = λ h. cc
  acks-Posted partition (ok acks) named = body-Posted partition acks named

  post_produce-Posted : P (post_produce io b q body)
  unfolding post_produce
  post_produce-Posted =
      if_rule P (length q.topic == 0 || length q.partition == 0) _ _ (λ _ h. cc)
        λ named.
          option_rule P (chosen (parse_int q.partition)) _ _ (λ _ h. cc)
            λ partition _. acks-Posted partition (acks_param q.acks) (ground (arith, named))

fetch_answer_ok :
    (topic : Name) (n offset : ℕ) (x : Result (List Record × Offsets) × Broker) (r : Record)
    (o : Offsets)
    → x.0 ≡ ok (r ∷ [], o)
    → o.latest ≡ r.offset + 1
    → (fetch_answer topic n offset x).0 ≡ one_record_answer topic n r
fetch_answer_ok topic n offset (err e, c) r o h l = cc
fetch_answer_ok topic n offset (ok (rs, o'), c) r o h l =
    subst (λ y. (fetch_answer topic n offset (ok y, c)).0 ≡ one_record_answer topic n r)
      (sym (ok-injective (rs, o') (r ∷ [], o) h)) (rw (l) refl)

-- The parameters of the query are read back.
get_fetch-fetch_query :
    (c : Broker) (topic : Name) (n o : ℕ)
    → n < 2 ^ 63
    → o < 2 ^ 63
    → (length topic == 0) ≡ false
    → get_fetch c (fetch_query topic n o)
      ≡ fetch_answer topic n o (fetch c topic (pos n) (pos o) (pos 1000) (pos 1048576))
unfolding get_fetch parse_fetch_budget
get_fetch-fetch_query c topic n o hn ho named = rw (named) (
    rw (length-decimal n) (
      rw (length-decimal o)
        (rw (parse_int-format_int (pos n) hn) (rw (parse_int-format_int (pos o) ho) refl))))

-- On a broker of valid partitions, where `POST /produce` answers with partition `n` and offset `o`,
-- the request `GET /fetch` for that topic, partition and offset, without further parameters,
-- answers 200 with one record: its offset is `o`, its time the one that the producer was told, its
-- key and value are those that were posted, and both its next offset and the high watermark are
-- `o + 1`, if `n` and `o` are `int64` values.
pub post_produce-get_fetch :
    (io : AppendIo) (b : Broker) (q : Query) (body : Reader) (n o : ℕ) (ts : ℤ)
    → AreSound b.topics
    → IsInt64 io.now
    → n < 2 ^ 63
    → o < 2 ^ 63
    → (post_produce io b q body).0.body ≡ produced q.topic n o ts
    → (get_fetch (post_produce io b q body).1 (fetch_query q.topic n o)).0
      ≡ one_record_answer q.topic n
          (record { offset = o; timestamp_ns = ts; key = q.key; value = body.avail })
post_produce-get_fetch io b q body n o ts s hi hn ho h =
    let w = post_produce-Posted io b q body n o ts h in
    let d =
      produce-Delivered io b q.topic w.partition q.key body.avail w.acks w.r n 1000 1048576 s hi
        (omega arith) (omega arith) w.returned in
    let r : Record = record { offset = o; timestamp_ns = ts; key = q.key; value = body.avail } in
    let same : w.r ≡ r = Record_eq w.r o ts q.key body.avail w.offset w.time d.key_is d.value_is in
    let c = (produce io b q.topic w.partition q.key body.avail w.acks).1 in
    let found =
      subst
        (λ i.
          (fetch c q.topic (pos n) (pos i) (pos 1000) (pos 1048576)).0
          ≡ ok (w.r ∷ [], record { earliest = d.earliest; latest = w.r.offset + 1 }))
        w.offset d.fetched in
    ap (λ k. (get_fetch k (fetch_query q.topic n o)).0) w.broker
    ∙ ap (λ x. x.0) (get_fetch-fetch_query c q.topic n o hn ho w.named)
    ∙ fetch_answer_ok q.topic n o (fetch c q.topic (pos n) (pos o) (pos 1000) (pos 1048576)) w.r
        (record { earliest = d.earliest; latest = w.r.offset + 1 }) found refl
    ∙ ap (one_record_answer q.topic n) same
