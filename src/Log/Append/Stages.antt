-- ===== src/Log/Append/Stages.antt =====
-- Each stage of `Append` before the last keeps the abstract log, whatever its calls answer.
use marchiq.Base.{
  ℕ, ◌+◌, ◌-◌, ◌≡◌, refl, ap, ◌∙◌, sym, true, false, List, [], ◌∷◌, ◌++◌, append_assoc, append-nil,
  length, take, take_all, All-append, arith, ℤ, if_rule, ltb, not, ◌&&◌, eq_int, ◌||◌, ◌==◌, leb,
}
use marchiq.Codec.{Record}
use marchiq.Log.{File, Segment, PartitionLog, sync_file, new_segment}
use marchiq.Log.View.{
  frames, IndexesInto, IsSegment, IsSegment-named, Holds, Ascending, flatten, IsLog, Contains,
  IsSegment-write,
}
use marchiq.Log.Append.{
  AppendIo, append_frame, make_room, roll_locked, index_next, write_frame, sync_frame, Outcome,
  acks_leader, and_then,
}

Ascending-last :
    (ss : List Segment) (s t : Segment) (low : ℕ)
    → t.base_offset ≡ s.base_offset
    → t.records ≡ s.records
    → Ascending low (ss ++ (s ∷ []))
    → Ascending low (ss ++ (t ∷ []))
Ascending-last [] s t low eb er h = omega arith
Ascending-last (x ∷ ss) s t low eb er h =
    (h.0, Ascending-last ss s t (x.base_offset + x.records) eb er h.1)

-- The active segment is replaced by one with the same range of offsets.
IsLog-active :
    (p : PartitionLog) (rss : List (List Record)) (rs : List Record) (s : Segment)
    → IsLog p rss rs
    → IsSegment s rs
    → s.base_offset ≡ p.active.base_offset
    → s.records ≡ p.active.records
    → IsLog (record p { active = s }) rss rs
IsLog-active p rss rs s h hs eb er = record {
  old = h.old;
  current = hs;
  ascending = Ascending-last p.sealed p.active s 0 eb er h.ascending;
  next = rw (eb, er) h.next;
}

pub Holds-append :
    (ss : List Segment) (rss : List (List Record)) (s : Segment) (rs : List Record)
    → Holds ss rss
    → IsSegment s rs
    → Holds (ss ++ (s ∷ [])) (rss ++ (rs ∷ []))
Holds-append [] [] s rs h k = (k, tt)
Holds-append [] (x ∷ rss) s rs h k = absurd h
Holds-append (x ∷ ss) [] s rs h k = absurd h
Holds-append (x ∷ ss) (y ∷ rss) s rs h k = (h.0, Holds-append ss rss s rs h.1 k)

pub flatten-append :
    (rss : List (List Record)) (rs : List Record) → flatten (rss ++ (rs ∷ [])) ≡ flatten rss ++ rs
flatten-append [] rs = append-nil rs
flatten-append (x ∷ rss) rs =
    ap (λ l. x ++ l) (flatten-append rss rs) ∙ sym (append_assoc x (flatten rss) rs)

pub new_segment-IsSegment : (base : ℕ) → IsSegment (new_segment base) []
new_segment-IsSegment base = record {
  counted = refl;
  sized = refl;
  stored = refl;
  numbered = tt;
  fits = tt;
  indexed = tt;
  readable = refl;
}

-- The new segment begins where the sealed one ends.
Ascending-roll :
    (ss : List Segment) (s t u : Segment) (low : ℕ)
    → t.base_offset ≡ s.base_offset
    → t.records ≡ s.records
    → u.base_offset ≡ s.base_offset + s.records
    → Ascending low (ss ++ (s ∷ []))
    → Ascending low ((ss ++ (t ∷ [])) ++ (u ∷ []))
Ascending-roll [] s t u low eb er eu h = omega arith
Ascending-roll (x ∷ ss) s t u low eb er eu h =
    (h.0, Ascending-roll ss s t u (x.base_offset + x.records) eb er eu h.1)

abbrev ContainsAfter : List Record → Outcome → Type 0
ContainsAfter all o = Contains o.1 all

-- The segment with other files, to which at most something was added.
refile : Segment → File → File → Segment
refile s f x = record s { file = f; index_file = x }

pub end_position :
    (rs : List Record) {n m : ℕ}
    → n ≡ length rs
    → m ≡ length (frames rs)
    → m ≡ length (frames (take n rs))
end_position rs e f = rw (e, take_all rs (length rs) (omega arith)) f

module _ (io : AppendIo) (p : PartitionLog) (all : List Record) where
  Contains-refile :
      Contains p all
      → (f x : File) (more : List ℕ) → f.bytes ≡ p.active.file.bytes ++ more
      → Contains (record p { active = refile p.active f x }) all
  unfolding refile
  Contains-refile (rss, rs, h, e) f x more eq = (
    rss,
    rs,
    IsLog-active p rss rs (refile p.active f x) h
        (IsSegment-write p.active rs h.current f x more eq) refl refl,
    e,
  )

  same_bytes : (f : File) → f.bytes ≡ f.bytes ++ []
  same_bytes f = sym (append-nil f.bytes)

  -- The segment that a roll makes.
  abbrev first_of : ℕ → Segment
  first_of base = record (new_segment base) { named = io.sync_dir }

  roll-Contains :
      (s : Segment)
      → s ≡ refile p.active (sync_file p.active.file) (sync_file p.active.index_file)
      → Contains p all
      → Contains
          (record p {
            sealed = p.sealed ++ (s ∷ []);
            active = first_of p.next_offset;
            unsynced_deletion = p.unsynced_deletion && not io.sync_dir;
          })
          all
  unfolding refile
  roll-Contains s es (rss, rs, h, e) = (
    rss ++ (rs ∷ []),
    [],
    record {
      old =
          Holds-append p.sealed rss s rs h.old
            (rw es (IsSegment-write p.active rs h.current _ _ [] (same_bytes p.active.file)));
      current =
          IsSegment-named (new_segment p.next_offset) [] io.sync_dir
            (new_segment-IsSegment p.next_offset);
      ascending =
          Ascending-roll p.sealed p.active s (first_of p.next_offset) 0 (rw es refl) (rw es refl)
            h.next h.ascending;
      next = omega arith;
    },
    append-nil (flatten (rss ++ (rs ∷ []))) ∙ flatten-append rss rs ∙ e,
  )

  roll_locked-Contains : Contains p all → Contains (roll_locked io p).1 all
  unfolding roll_locked refile
  roll_locked-Contains h =
      if_rule (ContainsAfter all) (not io.seal_sync) _ _ (λ _. h)
        λ _.
          if_rule (ContainsAfter all) (not io.seal_index_sync) _ _
            (λ _. Contains-refile h _ _ [] (same_bytes p.active.file))
            λ _.
              if_rule (ContainsAfter all)
                (not (io.create_segment && (io.create_index && (io.sync_segment && io.sync_dir)))) _
                _ (λ _. Contains-refile h _ _ [] (same_bytes p.active.file))
                (λ _. roll-Contains _ refl h)

  -- The entry for the next frame points at the segment's end.
  Contains-entry :
      Contains p all
      → (x : File) (last : ℕ)
      → Contains
          (record p {
            active = record p.active {
              index_file = x;
              index =
                  p.active.index
                  ++ (record { rel_offset = p.active.records; position = p.active.size_bytes }
                      ∷ []);
              last_indexed_pos = last;
            };
          })
          all
  Contains-entry (rss, rs, h, e) x last = (
    rss,
    rs,
    IsLog-active p rss rs _ h
        (record {
          counted = h.current.counted;
          sized = h.current.sized;
          stored = h.current.stored;
          numbered = h.current.numbered;
          fits = h.current.fits;
          readable = h.current.readable;
          indexed = All-append (IndexesInto rs) p.active.index _ h.current.indexed (
            (omega (arith, h.current.counted), end_position rs h.current.counted h.current.sized),
            tt,
          );
        })
        refl refl,
    e,
  )

  make_room-Contains : (frame : List ℕ) → Contains p all → Contains (make_room io frame p).1 all
  unfolding make_room
  make_room-Contains frame h =
      if_rule (ContainsAfter all)
        (ltb 0 p.active.records && ltb p.max_segment_bytes (p.active.size_bytes + length frame)) _ _
        (λ _. roll_locked-Contains h) (λ _. h)

  write_frame-Contains : (frame : List ℕ) → Contains p all → Contains (write_frame io frame p).1 all
  unfolding write_frame refile
  write_frame-Contains frame h =
      Contains-refile h _ p.active.index_file (take io.frame_written frame) refl

  sync_frame-Contains : (acks : ℤ) → Contains p all → Contains (sync_frame io acks p).1 all
  unfolding sync_frame refile
  sync_frame-Contains acks h =
      if_rule (ContainsAfter all) (not (eq_int acks acks_leader)) _ _ (λ _. h)
        λ _.
          if_rule (ContainsAfter all) (not io.frame_sync) _ _ (λ _. h)
            λ _.
              if_rule (ContainsAfter all) (not io.index_sync) _ _
                (λ _. Contains-refile h _ _ [] (same_bytes p.active.file))
                (λ _. Contains-refile h _ _ [] (same_bytes p.active.file))

  index_next-Contains : Contains p all → Contains (index_next io p).1 all
  unfolding index_next refile
  index_next-Contains h =
      if_rule (ContainsAfter all)
        (p.active.records == 0
          || leb p.index_interval_bytes (p.active.size_bytes - p.active.last_indexed_pos))
        _ _
        (λ _.
          if_rule (ContainsAfter all) (not io.index_write) _ _
            (λ _. Contains-refile h p.active.file _ [] (same_bytes p.active.file))
            (λ _. Contains-entry h _ _))
        (λ _. h)

and_then-Contains :
    (all : List Record) (o : Outcome) (next : PartitionLog → Outcome)
    → Contains o.1 all
    → ((q : PartitionLog) → Contains q all → Contains (next q).1 all)
    → Contains (and_then o next).1 all
and_then-Contains all (true, p) next h k = k p h
and_then-Contains all (false, p) next h k = h

pub append_frame-Contains :
    (io : AppendIo) (acks : ℤ) (frame : List ℕ) (p : PartitionLog) (all : List Record)
    → Contains p all
    → Contains (append_frame io acks frame p).1 all
unfolding append_frame
append_frame-Contains io acks frame p all h =
    and_then-Contains all (make_room io frame p) _ (make_room-Contains io p all frame h) λ a ha.
      and_then-Contains all (index_next io a) _ (index_next-Contains io a all ha) λ b hb.
        and_then-Contains all (write_frame io frame b) _ (write_frame-Contains io b all frame hb)
          (λ c hc. sync_frame-Contains io c all acks hc)
