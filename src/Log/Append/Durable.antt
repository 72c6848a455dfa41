-- ===== src/Log/Append/Durable.antt =====
-- With `acks=1` a record is durable when `Append` returns it.
use marchiq.Base.{
  ℕ, ◌≡◌, refl, ◌∙◌, true, false, List, length, ◌==◌, max_int64, if_rule, arith, Result, ok, err,
  Error,
}
use marchiq.Codec.{Record, encode_record}
use marchiq.Log.{PartitionLog}
use marchiq.Log.Append.Written.{append_frame-SameHead}
use marchiq.Log.Append.{
  AppendIo, Outcome, and_then, make_room, index_next, write_frame, sync_frame, append_frame,
  publish, settle, append_encoded, append, acks_leader,
}

-- All bytes of the active segment's log are durable.
abbrev pub Durable : PartitionLog → Type 0
Durable p = p.active.file.synced ≡ length p.active.file.bytes

abbrev DurableIf : Outcome → Type 0
DurableIf o = o.0 ≡ true → Durable o.1

and_then-DurableIf :
    (o : Outcome) (next : PartitionLog → Outcome)
    → ((p : PartitionLog) → DurableIf (next p))
    → DurableIf (and_then o next)
and_then-DurableIf (true, p) next k = k p
and_then-DurableIf (false, p) next k = λ e. cc

sync_frame-DurableIf : (io : AppendIo) (p : PartitionLog) → DurableIf (sync_frame io acks_leader p)
unfolding sync_frame
sync_frame-DurableIf io p e = ground arith

append_frame-DurableIf :
    (io : AppendIo) (frame : List ℕ) (p : PartitionLog)
    → DurableIf (append_frame io acks_leader frame p)
unfolding append_frame
append_frame-DurableIf io frame p = and_then-DurableIf (make_room io frame p) _ λ a.
    and_then-DurableIf (index_next io a) _ λ b.
      and_then-DurableIf (write_frame io frame b) (sync_frame io acks_leader)
        (λ c. sync_frame-DurableIf io c)

-- A record comes back only where all is durable and the partition is not fenced.
abbrev Kept : Result Record × PartitionLog → Type 0
Kept x = (r : Record) → x.0 ≡ ok r → Durable x.1 × (x.1.failed ≡ false)

err-Kept : (e : Error) (p : PartitionLog) → Kept (err e, p)
err-Kept e p r h = cc

settle-Kept :
    (r : Record) (frame : List ℕ) (o : Outcome)
    → DurableIf o
    → o.1.failed ≡ false
    → Kept (settle r frame o)
unfolding publish
settle-Kept r frame (true, p) h nf q e = (h refl, nf)
settle-Kept r frame (false, p) h nf q e = cc

append_encoded-Kept :
    (io : AppendIo) (r : Record) (p : PartitionLog) (e : Result (List ℕ))
    → p.failed ≡ false
    → Kept (append_encoded io acks_leader r p e)
unfolding append_encoded
append_encoded-Kept io r p (err x) nf = err-Kept x p
append_encoded-Kept io r p (ok frame) nf =
    settle-Kept r frame (append_frame io acks_leader frame p) (append_frame-DurableIf io frame p)
      ((append_frame-SameHead io acks_leader frame p).failed ∙ nf)

pub append-Durable :
    (io : AppendIo) (p : PartitionLog) (key value : List ℕ)
    → Kept (append io p key value acks_leader)
unfolding append
append-Durable io p key value =
    if_rule Kept p.closed _ _ (λ _. err-Kept _ p)
      λ _.
        if_rule Kept p.failed _ _ (λ _. err-Kept _ p)
          λ nf.
            if_rule Kept (p.next_offset == max_int64) _ _ (λ _. err-Kept _ p)
              (λ _. append_encoded-Kept io _ p (encode_record _) nf)
