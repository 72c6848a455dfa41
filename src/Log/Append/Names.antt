-- ===== src/Log/Append/Names.antt =====
-- The names of a partition's logs in its directory: which of them a crash cannot lose.
use marchiq.Base.{
  ℕ, ◌+◌, ◌≡◌, true, false, ◌&&◌, not, List, length, All, ltb, ◌==◌, eq_int, max_int64, if_rule,
  arith, ℤ, Result, ok, err,
}
use marchiq.Codec.{Record, encode_record}
use marchiq.Log.{PartitionLog}
use marchiq.Log.Append.{
  AppendIo, Outcome, and_then, roll_locked, make_room, index_next, write_frame, sync_frame,
  append_frame, publish, settle, append_encoded, append, acks_none, acks_leader,
}
use marchiq.Log.Append.Sealing.{append-Sealed}

-- The name of every log of the partition is sure to survive a crash, and none that was deleted can
-- come back.
abbrev pub Named : PartitionLog → Type 0
Named p =
    All (λ s. s.named ≡ true) p.sealed × (p.active.named ≡ true) × (p.unsynced_deletion ≡ false)

-- What of that does not depend on the sealed segments.
abbrev pub Settled : PartitionLog → Type 0
Settled p = (p.active.named ≡ true) × (p.unsynced_deletion ≡ false)

abbrev NamedActive : Outcome → Type 0
NamedActive o = Settled o.1

and_then-NamedActive :
    (o : Outcome) (next : PartitionLog → Outcome)
    → NamedActive o
    → ((p : PartitionLog) → Settled p → NamedActive (next p))
    → NamedActive (and_then o next)
and_then-NamedActive (true, p) next h k = k p h
and_then-NamedActive (false, p) next h k = h

-- A roll goes on only after the sync of the directory.
roll_locked-NamedActive :
    (io : AppendIo) (p : PartitionLog) → Settled p → NamedActive (roll_locked io p)
unfolding roll_locked
roll_locked-NamedActive io p h = ground (arith, h)

make_room-NamedActive :
    (io : AppendIo) (frame : List ℕ) (p : PartitionLog)
    → Settled p
    → NamedActive (make_room io frame p)
unfolding make_room
make_room-NamedActive io frame p h =
    if_rule NamedActive
      (ltb 0 p.active.records && ltb p.max_segment_bytes (p.active.size_bytes + length frame)) _ _
      (λ _. roll_locked-NamedActive io p h) (λ _. h)

index_next-NamedActive :
    (io : AppendIo) (p : PartitionLog) → Settled p → NamedActive (index_next io p)
unfolding index_next
index_next-NamedActive io p h = ground (arith, h)

sync_frame-NamedActive :
    (io : AppendIo) (acks : ℤ) (p : PartitionLog) → Settled p → NamedActive (sync_frame io acks p)
unfolding sync_frame
sync_frame-NamedActive io acks p h = ground (arith, h)

append_frame-NamedActive :
    (io : AppendIo) (acks : ℤ) (frame : List ℕ) (p : PartitionLog)
    → Settled p
    → NamedActive (append_frame io acks frame p)
unfolding append_frame write_frame
append_frame-NamedActive io acks frame p h =
    and_then-NamedActive (make_room io frame p) _ (make_room-NamedActive io frame p h) λ a ha.
      and_then-NamedActive (index_next io a) _ (index_next-NamedActive io a ha) λ b hb.
        and_then-NamedActive (write_frame io frame b) (sync_frame io acks) hb
          λ c hc. sync_frame-NamedActive io acks c hc

abbrev ActiveAfter : Result Record × PartitionLog → Type 0
ActiveAfter x = Settled x.1

settle-ActiveAfter :
    (r : Record) (frame : List ℕ) (o : Outcome) → NamedActive o → ActiveAfter (settle r frame o)
unfolding publish
settle-ActiveAfter r frame (true, p) h = h
settle-ActiveAfter r frame (false, p) h = h

append_encoded-ActiveAfter :
    (io : AppendIo) (acks : ℤ) (r : Record) (p : PartitionLog) (e : Result (List ℕ))
    → Settled p
    → ActiveAfter (append_encoded io acks r p e)
unfolding append_encoded
append_encoded-ActiveAfter io acks r p (err e) h = h
append_encoded-ActiveAfter io acks r p (ok frame) h =
    settle-ActiveAfter r frame (append_frame io acks frame p)
      (append_frame-NamedActive io acks frame p h)

append-ActiveAfter :
    (io : AppendIo) (p : PartitionLog) (key value : List ℕ) (acks : ℤ)
    → Settled p
    → ActiveAfter (append io p key value acks)
unfolding append
append-ActiveAfter io p key value acks h =
    if_rule ActiveAfter p.closed _ _ (λ _. h)
      λ _.
        if_rule ActiveAfter p.failed _ _ (λ _. h)
          λ _.
            if_rule ActiveAfter (not (eq_int acks acks_none) && not (eq_int acks acks_leader)) _ _
              (λ _. h)
              λ _.
                if_rule ActiveAfter (p.next_offset == max_int64) _ _ (λ _. h)
                  (λ _. append_encoded-ActiveAfter io acks _ p (encode_record _) h)

-- Whatever the system answers: if the name of every log was safe before `Append`, then so after it.
pub append-Named :
    (io : AppendIo) (p : PartitionLog) (key value : List ℕ) (acks : ℤ)
    → Named p
    → Named (append io p key value acks).1
append-Named io p key value acks h =
    let (active, settled) = append-ActiveAfter io p key value acks (h.1, h.2) in
    (append-Sealed (λ s. s.named ≡ true) io p h.0 (λ _ _. h.1) key value acks, active, settled)
