-- ===== src/Log/Append/Written.antt =====
-- Where every stage of `Append` went well, the frame stands behind the published bytes.
use marchiq.Base.{ℕ, ◌≡◌, refl, ◌∙◌, true, false, List, ◌++◌, length, take_all, arith, ℤ}
use marchiq.Log.{PartitionLog}
use marchiq.Log.View.{IsClean}
use marchiq.Log.Append.{
  AppendIo, append_frame, make_room, index_next, write_frame, sync_frame, and_then, Outcome,
}

-- The frame stands behind the published bytes of the active segment, and nothing else does.
abbrev pub Written : List ℕ → PartitionLog → Type 0
Written frame p =
    (front : List ℕ) × (p.active.file.bytes ≡ front ++ frame) × (length front ≡ p.active.size_bytes)

-- What no stage before the last changes.
pub record SameHead (p q : PartitionLog) : Type 0 where
  pub next : q.next_offset ≡ p.next_offset
  pub failed : q.failed ≡ p.failed
  pub closed : q.closed ≡ p.closed

make_room-SameHead :
    (io : AppendIo) (frame : List ℕ) (p : PartitionLog) → SameHead p (make_room io frame p).1
unfolding make_room
make_room-SameHead io frame p = ground arith

index_next-SameHead : (io : AppendIo) (p : PartitionLog) → SameHead p (index_next io p).1
unfolding index_next
index_next-SameHead io p = ground arith

write_frame-SameHead :
    (io : AppendIo) (frame : List ℕ) (p : PartitionLog) → SameHead p (write_frame io frame p).1
unfolding write_frame
write_frame-SameHead io frame p = ground arith

sync_frame-SameHead :
    (io : AppendIo) (acks : ℤ) (p : PartitionLog) → SameHead p (sync_frame io acks p).1
unfolding sync_frame
sync_frame-SameHead io acks p = ground arith

SameHead-trans : {p q r : PartitionLog} → SameHead p q → SameHead q r → SameHead p r
SameHead-trans h k = record {
  next = k.next ∙ h.next;
  failed = k.failed ∙ h.failed;
  closed = k.closed ∙ h.closed;
}

and_then-SameHead :
    (p : PartitionLog) (o : Outcome) (next : PartitionLog → Outcome)
    → SameHead p o.1
    → ((q : PartitionLog) → SameHead q (next q).1)
    → SameHead p (and_then o next).1
and_then-SameHead p (true, q) next h k = SameHead-trans h (k q)
and_then-SameHead p (false, q) next h k = h

pub append_frame-SameHead :
    (io : AppendIo) (acks : ℤ) (frame : List ℕ) (p : PartitionLog)
    → SameHead p (append_frame io acks frame p).1
unfolding append_frame
append_frame-SameHead io acks frame p =
    and_then-SameHead p (make_room io frame p)
      (λ a. and_then (index_next io a) λ b. and_then (write_frame io frame b) (sync_frame io acks))
      (make_room-SameHead io frame p)
      λ a.
        and_then-SameHead a (index_next io a)
          (λ b. and_then (write_frame io frame b) (sync_frame io acks)) (index_next-SameHead io a)
          λ b.
            and_then-SameHead b (write_frame io frame b) (sync_frame io acks)
              (write_frame-SameHead io frame b) (sync_frame-SameHead io acks)

make_room-IsClean :
    (io : AppendIo) (frame : List ℕ) (p : PartitionLog)
    → IsClean p
    → (make_room io frame p).0 ≡ true
    → IsClean (make_room io frame p).1
unfolding make_room
make_room-IsClean io frame p h e = ground arith

index_next-IsClean : (io : AppendIo) (p : PartitionLog) → IsClean p → IsClean (index_next io p).1
unfolding index_next
index_next-IsClean io p h = ground arith

write_frame-Written :
    (io : AppendIo) (frame : List ℕ) (p : PartitionLog)
    → IsClean p
    → (write_frame io frame p).0 ≡ true
    → Written frame (write_frame io frame p).1
unfolding write_frame
write_frame-Written io frame p h e =
    (p.active.file.bytes, ground (arith, take_all frame io.frame_written), h)

sync_frame-Written :
    (io : AppendIo) (acks : ℤ) (frame : List ℕ) (p : PartitionLog)
    → Written frame p
    → Written frame (sync_frame io acks p).1
unfolding sync_frame
sync_frame-Written io acks frame p (front, e, h) = (front, ground arith, ground arith)

-- If `P` holds after a first step that went well, and then `Q` after a second one.
and_then_post :
    (P Q : PartitionLog → Type 0) (o : Outcome) (next : PartitionLog → Outcome)
    → (o.0 ≡ true → P o.1)
    → ((q : PartitionLog) → P q → (next q).0 ≡ true → Q (next q).1)
    → (and_then o next).0 ≡ true
    → Q (and_then o next).1
and_then_post P Q (true, p) next h k e = k p (h refl) e
and_then_post P Q (false, p) next h k e = cc

pub append_frame-Written :
    (io : AppendIo) (acks : ℤ) (frame : List ℕ) (p : PartitionLog)
    → IsClean p
    → (append_frame io acks frame p).0 ≡ true
    → Written frame (append_frame io acks frame p).1
unfolding append_frame
append_frame-Written io acks frame p h =
    and_then_post IsClean (Written frame) (make_room io frame p)
      (λ a. and_then (index_next io a) λ b. and_then (write_frame io frame b) (sync_frame io acks))
      (make_room-IsClean io frame p h)
      λ a ha.
        and_then_post IsClean (Written frame) (index_next io a)
          (λ b. and_then (write_frame io frame b) (sync_frame io acks))
          (λ _. index_next-IsClean io a ha)
          λ b hb.
            and_then_post (Written frame) (Written frame) (write_frame io frame b)
              (sync_frame io acks) (write_frame-Written io frame b hb)
              (λ c hc _. sync_frame-Written io acks frame c hc)
