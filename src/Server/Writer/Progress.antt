-- ===== src/Server/Writer/Progress.antt =====
-- internal/server/server.go, downstreamWriter.run: no frame stays in the channel or in the batch.
use native.Mathlib.Decide.{dec_lt}
use t2d.Base.{
  ℕ, zero, suc, ◌+◌, ◌*◌, ◌≤◌, ◌<◌, ◌≡◌, refl, ap, sym, ◌∙◌, subst, inl, inr, List, [], ◌∷◌, ◌++◌,
  Bool, true, false, ◌&&◌, arith, append-nil, Bool-cases, length, ltb, All,
}
use t2d.Stats.{Stats}
use t2d.Server.Writer.{
  Limits, Place, selecting, delaying, collecting, returned, WriterLoop, flush_batch, flush,
  add_frame, take_first, take_more, select_first, fire_timer, collect, Event, step, run,
  new_downstream_writer, adaptive_delay, has_room, selects, fires, collects,
}
use t2d.Server.Writer.Order.{frames_of, run-InOrder_lem, run-new_downstream_writer-InOrder}

-- The steps of the loop itself in which the context is not done.
abbrev pub is_loop_step : Event → Bool
is_loop_step selects = true
is_loop_step fires = true
is_loop_step (collects taken) = true
is_loop_step e = false

abbrev pub is_returned : Place → Bool
is_returned returned = true
is_returned p = false

-- How many such steps there are at most until all is written.
abbrev pub place_weight : Place → ℕ
place_weight selecting = 0
place_weight delaying = 2
place_weight collecting = 1
place_weight returned = 0

abbrev pub weight : WriterLoop → ℕ
weight s = 3 * length s.writer.ch + place_weight s.place

-- A step has brought the loop forward.
record Nearer (s t : WriterLoop) : Type 0 where
  lighter : weight t < weight s
  runs : is_returned t.place ≡ false
  accepted : t.accepted ≡ s.accepted

take_first-Nearer :
    (l : Limits) (f : List ℕ) (fs : List (List ℕ)) (s : WriterLoop)
    → s.writer.ch ≡ f ∷ fs
    → s.place ≡ selecting
    → Nearer s (take_first l (f ∷ fs) s)
unfolding take_first add_frame
take_first-Nearer l f fs s e p =
    elim (Bool-cases (has_room l (add_frame f fs s) && ltb 0 (adaptive_delay l (length fs)))) [
      | inl late ↦
          rw (late, take_first)
            (record { lighter = rw (e, p) (omega arith); runs = refl; accepted = refl })
      | inr now ↦
          rw (now, take_first)
            (record { lighter = rw (e, p) (omega arith); runs = refl; accepted = refl })
    ]

-- A flush keeps the channel.
flush_batch-kept :
    (taken : Bool) (b : List (List ℕ)) (s : WriterLoop)
    → let t = flush_batch taken b s in (t.writer ≡ s.writer) × (t.accepted ≡ s.accepted)
unfolding flush_batch
flush_batch-kept taken [] s = (refl, refl)
flush_batch-kept taken (f ∷ fs) s = (refl, refl)

flush-Nearer : (s : WriterLoop) → s.place ≡ collecting → Nearer s (flush true selecting s)
unfolding flush
flush-Nearer s p =
    let (writer, accepted) = flush_batch-kept true s.batch s in
    record { lighter = rw (writer, p) (omega arith); runs = refl; accepted = accepted }

take_more-Nearer :
    (l : Limits) (fs : List (List ℕ)) (s : WriterLoop)
    → s.writer.ch ≡ fs
    → s.place ≡ collecting
    → Nearer s (take_more l true fs s)
unfolding take_more add_frame
take_more-Nearer l [] s e p = flush-Nearer s p
take_more-Nearer l (f ∷ fs) s e p = record {
  lighter = rw (e, p) (omega arith);
  runs = rw p refl;
  accepted = refl;
}

collect-Nearer :
    (l : Limits) (s : WriterLoop) → s.place ≡ collecting → Nearer s (collect l true collecting s)
unfolding collect
collect-Nearer l s p = elim (Bool-cases (has_room l s)) [
  | inl room ↦ rw (room, collect) (take_more-Nearer l s.writer.ch s refl p)
  | inr full ↦ rw (full, collect) (flush-Nearer s p)
]

-- The step that the loop can make next.
abbrev next_step : Place → Event
next_step selecting = selects
next_step delaying = fires
next_step collecting = collects true
next_step returned = selects

next_step-is_loop_step : (p : Place) → is_loop_step (next_step p) ≡ true
next_step-is_loop_step selecting = refl
next_step-is_loop_step delaying = refl
next_step-is_loop_step collecting = refl
next_step-is_loop_step returned = refl

-- Where nothing is left to do, or else one step forward.
step-Nearer :
    (l : Limits) (p : Place) (fs : List (List ℕ)) (s : WriterLoop)
    → s.place ≡ p
    → s.writer.ch ≡ fs
    → is_returned p ≡ false
    → 0 < weight s
    → Nearer s (step l s (next_step p))
unfolding step select_first fire_timer
step-Nearer l selecting [] s p e live more = absurd (omega (arith, rw (e, p) at more))
step-Nearer l selecting (f ∷ fs) s p e live more =
    subst (λ (t : WriterLoop). Nearer s t)
      (sym
        (ap (λ (q : Place). select_first l q s) p ∙ ap (λ (u : List (List ℕ)). take_first l u s) e))
      (take_first-Nearer l f fs s e p)
step-Nearer l delaying fs s p e live more =
    subst (λ (t : WriterLoop). Nearer s t) (sym (ap (λ (q : Place). fire_timer l q s) p))
      (record { lighter = rw p (omega arith); runs = refl; accepted = refl })
step-Nearer l collecting fs s p e live more =
    subst (λ (t : WriterLoop). Nearer s t) (sym (ap (λ (q : Place). collect l true q s) p))
      (collect-Nearer l s p)
step-Nearer l returned fs s p e live more = absurd (ground arith)

nothing_left :
    (p : Place) (fs : List (List ℕ)) (s : WriterLoop)
    → s.place ≡ p
    → s.writer.ch ≡ fs
    → is_returned p ≡ false
    → weight s ≡ 0
    → (s.place ≡ selecting) × (s.writer.ch ≡ [])
nothing_left selecting [] s p e live none = (p, e)
nothing_left selecting (f ∷ fs) s p e live none = absurd (omega (arith, ap length e))
nothing_left delaying fs s p e live none = absurd (omega (arith, ap place_weight p))
nothing_left collecting fs s p e live none = absurd (omega (arith, ap place_weight p))
nothing_left returned fs s p e live none = absurd (ground arith)

-- So many steps of the loop take all that the channel has.
record Written (l : Limits) (n : ℕ) (s : WriterLoop) (more : List Event) : Type 0 where
  own : All (λ e. is_loop_step e ≡ true) more
  few : length more ≤ n
  idle : (run l s more).place ≡ selecting
  empty : (run l s more).writer.ch ≡ []
  accepted : (run l s more).accepted ≡ s.accepted

Written-none :
    (l : Limits) (n : ℕ) (s : WriterLoop)
    → is_returned s.place ≡ false
    → weight s ≡ 0
    → Written l n s []
unfolding run
Written-none l n s live none =
    let (idle, empty) = nothing_left s.place s.writer.ch s refl refl live none in
    record { own = tt; few = omega arith; idle = idle; empty = empty; accepted = refl }

loop-Written :
    (l : Limits) (n : ℕ) (s : WriterLoop)
    → weight s ≤ n
    → is_returned s.place ≡ false
    → (more : List Event) × Written l n s more
unfolding run
loop-Written l zero s small live = ([], Written-none l zero s live (omega arith))
loop-Written l (suc n) s small live = elim (dec_lt 0 (weight s)) [
  | yes some_left ↦
      let nearer = step-Nearer l s.place s.writer.ch s refl refl live some_left in
      let (more, w) =
        loop-Written l n (step l s (next_step s.place)) (omega (arith, nearer.lighter))
          nearer.runs in
      (
        next_step s.place ∷ more,
        record {
          own = (next_step-is_loop_step s.place, w.own);
          few = omega (arith, w.few);
          idle = w.idle;
          empty = w.empty;
          accepted = w.accepted ∙ nearer.accepted;
        },
      )
  | no none ↦ ([], Written-none l (suc n) s live (omega arith))
]

-- After any schedule of a new writer and of the goroutines around it, as long as the loop has not
-- returned: at most three steps of the loop for each frame in the channel, and two more, bring it to
-- where every frame that enqueue has accepted was in a batch that was written or, without a
-- connection, dropped, each once and in order, and neither channel nor batch has one left.
pub run-writes_all :
    (l : Limits) (stats : Stats) (es : List Event)
    → let s = run l (new_downstream_writer stats) es in
      is_returned s.place ≡ false
      → (more : List Event) × All (λ e. is_loop_step e ≡ true) more
        × (length more ≤ 3 * length s.writer.ch + 2)
        × (frames_of (run l s more).flushed ≡ s.accepted)
        × ((run l s more).batch ≡ [])
        × ((run l s more).writer.ch ≡ [])
run-writes_all l stats es live =
    let s = run l (new_downstream_writer stats) es in
    let (more, w) = loop-Written l (3 * length s.writer.ch + 2) s (weight_bound s) live in
    let v = run-InOrder_lem l more s (run-new_downstream_writer-InOrder l stats es) in
    let t = run l s more in
    let no_batch = v.at_head w.idle in
    (
      more,
      w.own,
      w.few,
      sym (append-nil (frames_of t.flushed))
          ∙ ap (λ (b : List (List ℕ)). frames_of t.flushed ++ b) (sym no_batch)
          ∙ sym (append-nil (frames_of t.flushed ++ t.batch))
          ∙ ap (λ (c : List (List ℕ)). (frames_of t.flushed ++ t.batch) ++ c) (sym w.empty)
          ∙ v.kept
          ∙ w.accepted,
      no_batch,
      w.empty,
    )
  where
    weight_bound : (s : WriterLoop) → weight s ≤ 3 * length s.writer.ch + 2
    weight_bound s = bound s.place (length s.writer.ch)
      where
        bound : (p : Place) (n : ℕ) → 3 * n + place_weight p ≤ 3 * n + 2
        bound selecting n = omega arith
        bound delaying n = omega arith
        bound collecting n = omega arith
        bound returned n = omega arith
