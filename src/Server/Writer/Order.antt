-- ===== src/Server/Writer/Order.antt =====
-- internal/server/server.go, downstreamWriter.run: the order of a lane's frames.
use t2d.Base.{
  ℕ, ◌≡◌, refl, ap, sym, ◌∙◌, inl, inr, List, [], ◌∷◌, ◌++◌, Bool, ◌&&◌, arith, append_assoc,
  append-nil, Bool-cases, length, ltb,
}
use t2d.Stats.{Stats}
use t2d.Server.Lanes.{enqueue, set_conn, clear_conn, channel_size}
use t2d.Server.Writer.{
  Limits, Place, selecting, delaying, collecting, returned, Flush, WriterLoop, flush_batch, flush,
  add_frame, take_first, take_more, select_first, fire_timer, collect, see_done, enqueue_frame,
  Event, step, run, new_downstream_writer, adaptive_delay, has_room, selects, fires, collects,
  sees_done, enqueues, sets_conn, clears_conn,
}

-- The frames of all batches that were dealt with, in order.
abbrev pub frames_of : List Flush → List (List ℕ)
frames_of [] = []
frames_of (b ∷ bs) = b.frames ++ frames_of bs

pub frames_of-append :
    (bs : List Flush) (b : Flush) → frames_of (bs ++ (b ∷ [])) ≡ frames_of bs ++ b.frames
frames_of-append [] b = append-nil b.frames
frames_of-append (a ∷ bs) b =
    ap (λ (x : List (List ℕ)). a.frames ++ x) (frames_of-append bs b)
    ∙ sym (append_assoc a.frames (frames_of bs) b.frames)

-- What has left the channel.
abbrev pub taken_frames : WriterLoop → List (List ℕ)
taken_frames s = frames_of s.flushed ++ s.batch

-- Nothing has been lost, and no batch waits while the loop is at its head.
pub record InOrder (s : WriterLoop) : Type 0 where
  pub kept : taken_frames s ++ s.writer.ch ≡ s.accepted
  pub at_head : s.place ≡ selecting → s.batch ≡ []

-- What a flush keeps.
record Flushes (s t : WriterLoop) : Type 0 where
  taken : taken_frames t ≡ taken_frames s
  emptied : t.batch ≡ []
  writer : t.writer ≡ s.writer
  accepted : t.accepted ≡ s.accepted

flush_batch-Flushes :
    (taken : Bool) (b : List (List ℕ)) (s : WriterLoop)
    → s.batch ≡ b
    → Flushes s (flush_batch taken b s)
unfolding flush_batch
flush_batch-Flushes taken [] s e = record {
  taken = refl;
  emptied = e;
  writer = refl;
  accepted = refl;
}
flush_batch-Flushes taken (f ∷ fs) s e =
    let b : Flush = record { to = s.writer.conn; frames = f ∷ fs } in
    record {
      taken =
          append-nil (frames_of (s.flushed ++ (b ∷ [])))
          ∙ frames_of-append s.flushed b
          ∙ ap (λ (x : List (List ℕ)). frames_of s.flushed ++ x) (sym e);
      emptied = refl;
      writer = refl;
      accepted = refl;
    }

flush-InOrder :
    (taken : Bool) (next : Place) (s : WriterLoop) → InOrder s → InOrder (flush taken next s)
unfolding flush
flush-InOrder taken next s v =
    let done = flush_batch-Flushes taken s.batch s refl in
    record {
      kept = rw (done.taken, done.writer, done.accepted) v.kept;
      at_head = λ here. done.emptied;
    }

-- A frame moves from the channel to the batch.
add_frame-kept :
    (f : List ℕ) (fs : List (List ℕ)) (s : WriterLoop)
    → s.writer.ch ≡ f ∷ fs
    → taken_frames s ++ s.writer.ch ≡ s.accepted
    → taken_frames (add_frame f fs s) ++ fs ≡ s.accepted
unfolding add_frame
add_frame-kept f fs s e kept =
    ap (λ (x : List (List ℕ)). x ++ fs) (sym (append_assoc (frames_of s.flushed) s.batch (f ∷ [])))
    ∙ append_assoc (taken_frames s) (f ∷ []) fs
    ∙ (rw e at kept)

enqueue_frame-InOrder :
    (l : Limits) (f : List ℕ) (s : WriterLoop) → InOrder s → InOrder (enqueue_frame l f s)
unfolding enqueue_frame enqueue
enqueue_frame-InOrder l f s v = elim (Bool-cases (ltb (length s.writer.ch) channel_size)) [
  | inl room ↦
      rw (room, enqueue)
        (record {
          kept =
              sym (append_assoc (taken_frames s) s.writer.ch (f ∷ []))
              ∙ ap (λ (x : List (List ℕ)). x ++ (f ∷ [])) v.kept;
          at_head = v.at_head;
        })
  | inr refused ↦ rw (refused, enqueue) v
]

take_first-InOrder :
    (l : Limits) (fs : List (List ℕ)) (s : WriterLoop)
    → s.writer.ch ≡ fs
    → InOrder s
    → InOrder (take_first l fs s)
unfolding take_first add_frame
take_first-InOrder l [] s e v = v
take_first-InOrder l (f ∷ fs) s e v =
    let kept = add_frame-kept f fs s e v.kept in
    elim (Bool-cases (has_room l (add_frame f fs s) && ltb 0 (adaptive_delay l (length fs)))) [
      | inl late ↦
          rw (late, take_first) (record { kept = kept; at_head = λ here. ground (arith, here) })
      | inr now ↦
          rw (now, take_first) (record { kept = kept; at_head = λ here. ground (arith, here) })
    ]

take_more-InOrder :
    (l : Limits) (taken : Bool) (fs : List (List ℕ)) (s : WriterLoop)
    → s.writer.ch ≡ fs
    → s.place ≡ collecting
    → InOrder s
    → InOrder (take_more l taken fs s)
unfolding take_more add_frame
take_more-InOrder l taken [] s e p v = flush-InOrder taken selecting s v
take_more-InOrder l taken (f ∷ fs) s e p v = record {
  kept = add_frame-kept f fs s e v.kept;
  at_head = λ here. ground (arith, here, p);
}

select_first-InOrder :
    (l : Limits) (p : Place) (s : WriterLoop) → InOrder s → InOrder (select_first l p s)
unfolding select_first
select_first-InOrder l selecting s v = take_first-InOrder l s.writer.ch s refl v
select_first-InOrder l delaying s v = v
select_first-InOrder l collecting s v = v
select_first-InOrder l returned s v = v

fire_timer-InOrder :
    (l : Limits) (p : Place) (s : WriterLoop) → InOrder s → InOrder (fire_timer l p s)
unfolding fire_timer
fire_timer-InOrder l selecting s v = v
fire_timer-InOrder l delaying s v = record { kept = v.kept; at_head = λ here. ground (arith, here) }
fire_timer-InOrder l collecting s v = v
fire_timer-InOrder l returned s v = v

collect-InOrder :
    (l : Limits) (taken : Bool) (p : Place) (s : WriterLoop)
    → s.place ≡ p
    → InOrder s
    → InOrder (collect l taken p s)
unfolding collect
collect-InOrder l taken selecting s e v = v
collect-InOrder l taken delaying s e v = v
collect-InOrder l taken collecting s e v = elim (Bool-cases (has_room l s)) [
  | inl room ↦ rw (room, collect) (take_more-InOrder l taken s.writer.ch s refl e v)
  | inr full ↦ rw (full, collect) (flush-InOrder taken selecting s v)
]
collect-InOrder l taken returned s e v = v

see_done-InOrder :
    (l : Limits) (taken : Bool) (p : Place) (s : WriterLoop)
    → InOrder s
    → InOrder (see_done l taken p s)
unfolding see_done
see_done-InOrder l taken selecting s v = record {
  kept = v.kept;
  at_head = λ here. ground (arith, here);
}
see_done-InOrder l taken delaying s v = flush-InOrder taken returned s v
see_done-InOrder l taken collecting s v = v
see_done-InOrder l taken returned s v = v

pub step-InOrder : (l : Limits) (e : Event) (s : WriterLoop) → InOrder s → InOrder (step l s e)
unfolding step set_conn clear_conn
step-InOrder l selects s v = select_first-InOrder l s.place s v
step-InOrder l fires s v = fire_timer-InOrder l s.place s v
step-InOrder l (collects taken) s v = collect-InOrder l taken s.place s refl v
step-InOrder l (sees_done taken) s v = see_done-InOrder l taken s.place s v
step-InOrder l (enqueues f) s v = enqueue_frame-InOrder l f s v
step-InOrder l (sets_conn c) s v = record { kept = v.kept; at_head = v.at_head }
step-InOrder l (clears_conn c) s v = ground (arith, v.kept, v.at_head)

pub run-InOrder_lem :
    (l : Limits) (es : List Event) (s : WriterLoop) → InOrder s → InOrder (run l s es)
unfolding run
run-InOrder_lem l [] s v = v
run-InOrder_lem l (e ∷ es) s v = run-InOrder_lem l es (step l s e) (step-InOrder l e s v)

-- After any schedule of a new writer, of the goroutines that add frames and of those that change the
-- connection, whatever AsyncWritev returns: the frames of all batches that were written or, without a
-- connection, dropped, those of the batch at hand and those in the channel are in this order all that
-- enqueue has accepted, and no batch waits while the loop is at its head.
pub run-new_downstream_writer-InOrder :
    (l : Limits) (stats : Stats) (es : List Event)
    → InOrder (run l (new_downstream_writer stats) es)
unfolding new_downstream_writer
run-new_downstream_writer-InOrder l stats es =
    run-InOrder_lem l es (new_downstream_writer stats)
      (record { kept = refl; at_head = λ here. refl })
