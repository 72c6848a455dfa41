-- ===== src/Log/Append/Sealing.antt =====
-- What `Append` seals: no empty segment, and only what is whole and durable.
use marchiq.Base.{
  ℕ, ◌+◌, ◌<◌, ◌≡◌, refl, true, false, ◌&&◌, not, List, length, All, All-append, ltb, ◌==◌, eq_int,
  max_int64, if_rule, arith, ℤ, Result, ok, err,
}
use marchiq.Codec.{Record, encode_record}
use marchiq.Log.{Segment, PartitionLog, sync_file}
use marchiq.Log.View.{Full, IsSealed, IsValid}
use marchiq.Log.Append.{
  AppendIo, Outcome, and_then, roll_locked, make_room, index_next, write_frame, sync_frame,
  append_frame, publish, settle, append_encoded, append, acks_none, acks_leader,
}

-- The segment with its files synced.
abbrev sealed_of : Segment → Segment
sealed_of s = record s { file = sync_file s.file; index_file = sync_file s.index_file }

index_next-sealed : (io : AppendIo) (p : PartitionLog) → (index_next io p).1.sealed ≡ p.sealed
unfolding index_next
index_next-sealed io p = ground arith

sync_frame-sealed :
    (io : AppendIo) (acks : ℤ) (p : PartitionLog) → (sync_frame io acks p).1.sealed ≡ p.sealed
unfolding sync_frame
sync_frame-sealed io acks p = ground arith

-- A property of the sealed segments, which a segment has when `Append` seals it.
module _ (P : Segment → Type 0) where
  abbrev Sealed : Outcome → Type 0
  Sealed o = All P o.1.sealed

  and_then-Sealed :
      (o : Outcome) (next : PartitionLog → Outcome)
      → Sealed o
      → ((p : PartitionLog) → All P p.sealed → Sealed (next p))
      → Sealed (and_then o next)
  and_then-Sealed (true, p) next h k = k p h
  and_then-Sealed (false, p) next h k = h

  settle-Sealed :
      (r : Record) (frame : List ℕ) (o : Outcome) → Sealed o → All P (settle r frame o).1.sealed
  unfolding publish
  settle-Sealed r frame (true, p) h = h
  settle-Sealed r frame (false, p) h = h

  abbrev SealedResult : Result Record × PartitionLog → Type 0
  SealedResult x = All P x.1.sealed

  module _ (io : AppendIo) (p : PartitionLog) (h : All P p.sealed)
      (fresh : p.failed ≡ false → 0 < p.active.records → P (sealed_of p.active)) where
    roll_locked-Sealed : p.failed ≡ false → 0 < p.active.records → Sealed (roll_locked io p)
    unfolding roll_locked
    roll_locked-Sealed nf lt =
        if_rule Sealed (not io.seal_sync) _ _ (λ _. h)
          λ _.
            if_rule Sealed (not io.seal_index_sync) _ _ (λ _. h)
              λ _.
                if_rule Sealed
                  (not (io.create_segment && (io.create_index && (io.sync_segment && io.sync_dir))))
                  _ _ (λ _. h) (λ _. All-append P p.sealed _ h (fresh nf lt, tt))

    make_room-Sealed : p.failed ≡ false → (frame : List ℕ) → Sealed (make_room io frame p)
    unfolding make_room
    make_room-Sealed nf frame =
        if_rule Sealed
          (ltb 0 p.active.records && ltb p.max_segment_bytes (p.active.size_bytes + length frame)) _
          _ (λ c. roll_locked-Sealed nf (ground (arith, c))) (λ _. h)

    append_frame-Sealed :
        p.failed ≡ false → (acks : ℤ) (frame : List ℕ) → Sealed (append_frame io acks frame p)
    unfolding append_frame write_frame
    append_frame-Sealed nf acks frame =
        and_then-Sealed (make_room io frame p) _ (make_room-Sealed nf frame) λ a ha.
          and_then-Sealed (index_next io a) _ (rw (index_next-sealed io a) ha) λ b hb.
            and_then-Sealed (write_frame io frame b) (sync_frame io acks) hb
              λ c hc. rw (sync_frame-sealed io acks c) hc

    append_encoded-Sealed :
        p.failed ≡ false
        → (acks : ℤ) (r : Record) (e : Result (List ℕ))
        → All P (append_encoded io acks r p e).1.sealed
    unfolding append_encoded
    append_encoded-Sealed nf acks r (err e) = h
    append_encoded-Sealed nf acks r (ok frame) =
        settle-Sealed r frame (append_frame io acks frame p) (append_frame-Sealed nf acks frame)

    pub append-Sealed :
        (key value : List ℕ) (acks : ℤ) → All P (append io p key value acks).1.sealed
    unfolding append
    append-Sealed key value acks =
        if_rule SealedResult p.closed _ _ (λ _. h)
          λ _.
            if_rule SealedResult p.failed _ _ (λ _. h)
              λ nf.
                if_rule SealedResult (not (eq_int acks acks_none) && not (eq_int acks acks_leader))
                  _ _ (λ _. h)
                  λ _.
                    if_rule SealedResult (p.next_offset == max_int64) _ _ (λ _. h)
                      (λ _. append_encoded-Sealed nf acks _ (encode_record _))

-- Whatever the system answers: if every sealed segment held a record before `Append`, then so
-- after it.
pub append-Full :
    (io : AppendIo) (p : PartitionLog) (key value : List ℕ) (acks : ℤ)
    → Full p.sealed
    → Full (append io p key value acks).1.sealed
append-Full io p key value acks h =
    append-Sealed (λ s. 0 < s.records) io p h (λ _ lt. lt) key value acks

-- Whatever the system answers: if every sealed segment of a valid partition was whole and durable
-- before `Append`, then so after it.
pub append-IsSealed :
    (io : AppendIo) (p : PartitionLog) (key value : List ℕ) (acks : ℤ) (all : List Record)
    → IsValid p all
    → All IsSealed p.sealed
    → All IsSealed (append io p key value acks).1.sealed
append-IsSealed io p key value acks all v h =
    append-Sealed IsSealed io p h (λ nf lt. (lt, v.clean nf, refl)) key value acks
