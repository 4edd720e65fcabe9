-- ===== src/Server/Writer/Bounds.antt =====
-- internal/server/server.go, downstreamWriter.run: the size of the batches.
use t2d.Base.{
  ℕ, ◌+◌, ◌<◌, ◌≡◌, refl, ap, sym, inl, inr, ◌⊎◌, List, [], ◌∷◌, ◌++◌, Bool, true, ◌&&◌, arith,
  Bool-cases, length, ltb, All,
}
use t2d.Base.Int.{ℤ}
use t2d.Stats.{Stats}
use t2d.Server.Lanes.{enqueue, set_conn, clear_conn, channel_size}
use t2d.Server.Writer.{
  Limits, new_limits, Place, selecting, delaying, collecting, returned, Flush, WriterLoop,
  flush_batch, flush, add_frame, take_first, take_more, select_first, fire_timer, collect, see_done,
  enqueue_frame, Event, step, run, new_downstream_writer, adaptive_delay, has_room, selects, fires,
  collects, sees_done, enqueues, sets_conn, clears_conn,
}
use t2d.Server.Writer.Order.{InOrder, step-InOrder, run-new_downstream_writer-InOrder}

abbrev pub total : List (List ℕ) → ℕ
total [] = 0
total (f ∷ fs) = length f + total fs

total-append : (fs : List (List ℕ)) (f : List ℕ) → total (fs ++ (f ∷ [])) ≡ total fs + length f
total-append [] f = omega arith
total-append (g ∷ fs) f = omega (arith, total-append fs f)

-- At least one frame, and before the last of them both limits were not reached.
pub record IsBatch (l : Limits) (frames : List (List ℕ)) : Type 0 where
  pub before : List (List ℕ)
  pub last : List ℕ
  pub parts : frames ≡ before ++ (last ∷ [])
  pub packets_room : length before < l.max_packets
  pub bytes_room : total before < l.max_bytes

record Sized (l : Limits) (s : WriterLoop) : Type 0 where
  counted : s.batch_bytes ≡ total s.batch
  open_batch : (s.batch ≡ []) ⊎ IsBatch l s.batch
  sent : All (λ (b : Flush). IsBatch l b.frames) s.flushed

All-snoc :
    (P : Flush → Type 0) (xs : List Flush) (x : Flush) → All P xs → P x → All P (xs ++ (x ∷ []))
All-snoc P [] x h p = (p, tt)
All-snoc P (y ∷ xs) x h p = (h.0, All-snoc P xs x h.1 p)

module _ (l : Limits) where
  flush_batch-Sized :
      (taken : Bool) (b : List (List ℕ)) (s : WriterLoop)
      → s.batch ≡ b
      → Sized l s
      → Sized l (flush_batch taken b s)
  unfolding flush_batch
  flush_batch-Sized taken [] s e v = v
  flush_batch-Sized taken (f ∷ fs) s e v = record {
    counted = refl;
    open_batch = inl refl;
    sent =
        All-snoc (λ b. IsBatch l b.frames) s.flushed _ v.sent
          (elim v.open_batch [ inl empty ↦ absurd (cc) | inr good ↦ rw (sym e) good ]);
  }

  flush-Sized :
      (taken : Bool) (next : Place) (s : WriterLoop) → Sized l s → Sized l (flush taken next s)
  unfolding flush
  flush-Sized taken next s v =
      let w = flush_batch-Sized taken s.batch s refl v in
      record { counted = w.counted; open_batch = w.open_batch; sent = w.sent }

  -- A frame that is taken while neither limit is reached.
  add_frame-Sized :
      (f : List ℕ) (fs : List (List ℕ)) (s : WriterLoop)
      → length s.batch < l.max_packets
      → total s.batch < l.max_bytes
      → Sized l s
      → Sized l (add_frame f fs s)
  unfolding add_frame
  add_frame-Sized f fs s few small v = record {
    counted = omega (arith, v.counted, total-append s.batch f);
    open_batch = inr (record {
      before = s.batch;
      last = f;
      parts = refl;
      packets_room = few;
      bytes_room = small;
    });
    sent = v.sent;
  }

  place-Sized : {s : WriterLoop} (p : Place) → Sized l s → Sized l (record s { place = p })
  place-Sized p v = record { counted = v.counted; open_batch = v.open_batch; sent = v.sent }

  take_first-Sized :
      (fs : List (List ℕ)) (s : WriterLoop)
      → 0 < l.max_packets
      → 0 < l.max_bytes
      → s.batch ≡ []
      → Sized l s
      → Sized l (take_first l fs s)
  unfolding take_first
  take_first-Sized [] s hp hb empty v = v
  take_first-Sized (f ∷ fs) s hp hb empty v =
      let w =
        add_frame-Sized f fs s (omega (arith, ap length empty)) (omega (arith, ap total empty)) v in
      elim (Bool-cases (has_room l (add_frame f fs s) && ltb 0 (adaptive_delay l (length fs)))) [
        | inl late ↦ rw (late, take_first) (place-Sized delaying w)
        | inr now ↦ rw (now, take_first) (place-Sized collecting w)
      ]

  take_more-Sized :
      (taken : Bool) (fs : List (List ℕ)) (s : WriterLoop)
      → has_room l s ≡ true
      → Sized l s
      → Sized l (take_more l taken fs s)
  unfolding take_more
  take_more-Sized taken [] s room v = flush-Sized taken selecting s v
  take_more-Sized taken (f ∷ fs) s room v =
      add_frame-Sized f fs s (ground (arith, room)) (ground (arith, room, v.counted)) v

  select_first-Sized :
      (p : Place) (s : WriterLoop)
      → 0 < l.max_packets
      → 0 < l.max_bytes
      → (p ≡ selecting → s.batch ≡ [])
      → Sized l s
      → Sized l (select_first l p s)
  unfolding select_first
  select_first-Sized selecting s hp hb empty v = take_first-Sized s.writer.ch s hp hb (empty refl) v
  select_first-Sized delaying s hp hb empty v = v
  select_first-Sized collecting s hp hb empty v = v
  select_first-Sized returned s hp hb empty v = v

  fire_timer-Sized : (p : Place) (s : WriterLoop) → Sized l s → Sized l (fire_timer l p s)
  unfolding fire_timer
  fire_timer-Sized selecting s v = v
  fire_timer-Sized delaying s v = place-Sized collecting v
  fire_timer-Sized collecting s v = v
  fire_timer-Sized returned s v = v

  collect-Sized :
      (taken : Bool) (p : Place) (s : WriterLoop) → Sized l s → Sized l (collect l taken p s)
  unfolding collect
  collect-Sized taken selecting s v = v
  collect-Sized taken delaying s v = v
  collect-Sized taken collecting s v = elim (Bool-cases (has_room l s)) [
    | inl room ↦ rw (room, collect) (take_more-Sized taken s.writer.ch s room v)
    | inr full ↦ rw (full, collect) (flush-Sized taken selecting s v)
  ]
  collect-Sized taken returned s v = v

  see_done-Sized :
      (taken : Bool) (p : Place) (s : WriterLoop) → Sized l s → Sized l (see_done l taken p s)
  unfolding see_done
  see_done-Sized taken selecting s v = place-Sized returned v
  see_done-Sized taken delaying s v = flush-Sized taken returned s v
  see_done-Sized taken collecting s v = v
  see_done-Sized taken returned s v = v

  enqueue_frame-Sized : (f : List ℕ) (s : WriterLoop) → Sized l s → Sized l (enqueue_frame l f s)
  unfolding enqueue_frame enqueue
  enqueue_frame-Sized f s v = elim (Bool-cases (ltb (length s.writer.ch) channel_size)) [
    | inl room ↦
        rw (room, enqueue)
          (record { counted = v.counted; open_batch = v.open_batch; sent = v.sent })
    | inr refused ↦ rw (refused, enqueue) v
  ]

  step-Sized :
      (e : Event) (s : WriterLoop)
      → 0 < l.max_packets
      → 0 < l.max_bytes
      → InOrder s
      → Sized l s
      → Sized l (step l s e)
  unfolding step set_conn clear_conn
  step-Sized selects s hp hb o v = select_first-Sized s.place s hp hb o.at_head v
  step-Sized fires s hp hb o v = fire_timer-Sized s.place s v
  step-Sized (collects taken) s hp hb o v = collect-Sized taken s.place s v
  step-Sized (sees_done taken) s hp hb o v = see_done-Sized taken s.place s v
  step-Sized (enqueues f) s hp hb o v = enqueue_frame-Sized f s v
  step-Sized (sets_conn c) s hp hb o v = record {
    counted = v.counted;
    open_batch = v.open_batch;
    sent = v.sent;
  }
  step-Sized (clears_conn c) s hp hb o v = record {
    counted = v.counted;
    open_batch = v.open_batch;
    sent = v.sent;
  }

  run-Sized :
      (es : List Event) (s : WriterLoop)
      → 0 < l.max_packets
      → 0 < l.max_bytes
      → InOrder s
      → Sized l s
      → Sized l (run l s es)
  unfolding run
  run-Sized [] s hp hb o v = v
  run-Sized (e ∷ es) s hp hb o v =
      run-Sized es (step l s e) hp hb (step-InOrder l e s o) (step-Sized e s hp hb o v)

-- Whatever batch limits a writer is made with, and after any schedule of it and of the goroutines
-- around it: each batch that was written or dropped has at least one frame, and before its last frame
-- it was below the limit on frames and the limit on bytes, each taken as 1 where it is less.
pub run-new_downstream_writer-IsBatch :
    (packets bytes delay : ℤ) (stats : Stats) (es : List Event)
    → let l = new_limits packets bytes delay in
      All (λ (b : Flush). IsBatch l b.frames) (run l (new_downstream_writer stats) es).flushed
unfolding new_limits new_downstream_writer run
run-new_downstream_writer-IsBatch packets bytes delay stats es =
    let l = new_limits packets bytes delay in
    (run-Sized l es (new_downstream_writer stats) (ground arith) (ground arith)
      (run-new_downstream_writer-InOrder l stats [])
      (record { counted = refl; open_batch = inl refl; sent = tt })).sent
