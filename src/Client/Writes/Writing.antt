-- ===== src/Client/Writes/Writing.antt =====
-- internal/client/client.go, handleUpstreamWrites: a batch is written whole, and once.
use t2d.Base.{
  ℕ, ◌+◌, ◌≤◌, ◌≡◌, refl, suc, sym, ap, ap₂, ◌∙◌, List, [], ◌∷◌, ◌++◌, map, arith, length, take,
  append_assoc, append-nil, length-append, take-append_length, Bool-cases, true, false, inl, inr,
}
use t2d.Client.Ring.{UpstreamRing, pop, try_pop}
use t2d.Client.Ring.Window.{slot_data}
use t2d.Client.Ring.System.{System, acquires, fills, submits, closes}
use t2d.Client.Ring.System.Batch.{acquires-batch, fills-batch, submits-batch, closes-batch}
use t2d.Client.Ring.System.Logs.{acquires-Keeps, fills-Keeps, submits-Keeps, closes-Keeps}
use t2d.Client.Ring.System.Order.{InOrder}
use t2d.Client.Upstream.{WriteResult}
use t2d.Server.Writer.Order.{frames_of, frames_of-append}
use t2d.Client.Writes.{
  Limits, Place, popping, delaying, collecting, flushing, leaving, releasing, withdrawing, returned,
  Writer, WriteEvent, pops_first, times_out, sees_cancel, pops_more, writes_batch, gives_back,
  connects, disconnects, reserves, writes, sends, stops, has_room, append_data, write_batch, flush,
  pop_at, time_out_at, see_cancel_at, pop_more_at, write_at, give_back_at, write_step,
}
use t2d.Client.Writes.Logs.{
  is_written, written_count, Logged, Quiet, Quiet-Logged, moves-Quiet, stays-Quiet, pop_first-Quiet,
  pop_more-Quiet, release_next-Quiet, produce-Quiet,
}

append_data_lem :
    (batch : List ℕ) (r : UpstreamRing) (writev : List (List ℕ))
    → append_data batch r writev ≡ writev ++ map (slot_data r.slots) batch
unfolding append_data
append_data_lem [] r writev = sym (append-nil writev)
append_data_lem (i ∷ batch) r writev =
    append_data_lem batch r (writev ++ (slot_data r.slots i ∷ []))
    ∙ append_assoc writev (slot_data r.slots i ∷ []) (map (slot_data r.slots) batch)

length-map_lem : {A B : Type 0} (f : A → B) (xs : List A) → length (map f xs) ≡ length xs
length-map_lem f [] = refl
length-map_lem f (x ∷ xs) = ap suc (length-map_lem f xs)

-- The ring's order, cut behind what was given back and behind the batch.
pub take-given_back :
    (s : System) → InOrder s → take (length s.given_back) s.submitted ≡ s.given_back
take-given_back s (queued, order, room) =
    ap (take (length s.given_back)) order
    ∙ take-append_length s.given_back (map (slot_data s.ring.slots) s.batch ++ queued)
        (length s.given_back) refl

pub take-batch :
    (s : System)
    → InOrder s
    → take (length s.given_back + length s.batch) s.submitted
      ≡ s.given_back ++ map (slot_data s.ring.slots) s.batch
take-batch s (queued, order, room) =
    let bytes_of = map (slot_data s.ring.slots) s.batch in
    ap (take (length s.given_back + length s.batch))
      (order ∙ sym (append_assoc s.given_back bytes_of queued))
    ∙ take-append_length (s.given_back ++ bytes_of) queued (length s.given_back + length s.batch) (
        omega (
          arith,
          length-append s.given_back bytes_of,
          length-map_lem (slot_data s.ring.slots) s.batch,
        ))

written_count_small : (w : Writer) → InOrder w.system → written_count w ≤ length w.system.submitted
written_count_small w (queued, order, room) =
    let bytes_of = map (slot_data w.system.ring.slots) w.system.batch in
    elim (Bool-cases (is_written w.place)) [
      | inl behind ↦ rw behind (
          omega (
            arith,
            ap length order,
            length-append w.system.given_back (bytes_of ++ queued),
            length-append bytes_of queued,
            length-map_lem (slot_data w.system.ring.slots) w.system.batch,
          ))
      | inr before ↦
          rw before
            (omega (arith, ap length order, length-append w.system.given_back (bytes_of ++ queued)))
    ]

write_batch-Logged :
    (r : WriteResult) (next : Place) (w : Writer)
    → is_written w.place ≡ false
    → is_written next ≡ true
    → InOrder w.system
    → Logged w
    → Logged (write_batch r next w)
unfolding write_batch
write_batch-Logged r next w before behind v g =
    let s = w.system in
    let given : frames_of w.flushes ≡ s.given_back =
      g ∙ rw before (ap (λ (n : ℕ). take n s.submitted) (omega arith) ∙ take-given_back s v) in
    frames_of-append w.flushes _
    ∙ ap₂ ◌++◌ given (append_data_lem s.batch s.ring [])
    ∙ sym (take-batch s v)
    ∙ rw behind refl

flush-Logged :
    (r : WriteResult) (next : Place) (batch : List ℕ) (w : Writer)
    → w.system.batch ≡ batch
    → is_written w.place ≡ false
    → is_written next ≡ true
    → InOrder w.system
    → Logged w
    → Logged (flush r next batch w)
unfolding flush
flush-Logged r next [] w e before behind v g =
    Quiet-Logged (written_count_small w v) (moves-Quiet w next (rw (before, behind) (ap length e)))
      g
flush-Logged r next (i ∷ batch) w e before behind v g =
    write_batch-Logged r next w before behind v g

-- Every step but the write of a batch.
pop_at-Quiet : (l : Limits) (p : Place) (w : Writer) → w.place ≡ p → Quiet w (pop_at l p w)
unfolding pop_at
pop_at-Quiet l popping w e = pop_first-Quiet l (pop w.system.ring).1 w e
pop_at-Quiet l delaying w e = stays-Quiet w
pop_at-Quiet l collecting w e = stays-Quiet w
pop_at-Quiet l flushing w e = stays-Quiet w
pop_at-Quiet l leaving w e = stays-Quiet w
pop_at-Quiet l releasing w e = stays-Quiet w
pop_at-Quiet l withdrawing w e = stays-Quiet w
pop_at-Quiet l returned w e = stays-Quiet w

time_out_at-Quiet : (p : Place) (w : Writer) → w.place ≡ p → Quiet w (time_out_at p w)
unfolding time_out_at
time_out_at-Quiet delaying w e = moves-Quiet w collecting (rw e refl)
time_out_at-Quiet popping w e = stays-Quiet w
time_out_at-Quiet collecting w e = stays-Quiet w
time_out_at-Quiet flushing w e = stays-Quiet w
time_out_at-Quiet leaving w e = stays-Quiet w
time_out_at-Quiet releasing w e = stays-Quiet w
time_out_at-Quiet withdrawing w e = stays-Quiet w
time_out_at-Quiet returned w e = stays-Quiet w

see_cancel_at-Quiet : (p : Place) (w : Writer) → w.place ≡ p → Quiet w (see_cancel_at p w)
unfolding see_cancel_at
see_cancel_at-Quiet delaying w e = moves-Quiet w leaving (rw e refl)
see_cancel_at-Quiet popping w e = stays-Quiet w
see_cancel_at-Quiet collecting w e = stays-Quiet w
see_cancel_at-Quiet flushing w e = stays-Quiet w
see_cancel_at-Quiet leaving w e = stays-Quiet w
see_cancel_at-Quiet releasing w e = stays-Quiet w
see_cancel_at-Quiet withdrawing w e = stays-Quiet w
see_cancel_at-Quiet returned w e = stays-Quiet w

pop_more_at-Quiet :
    (l : Limits) (p : Place) (w : Writer) → w.place ≡ p → Quiet w (pop_more_at l p w)
unfolding pop_more_at
pop_more_at-Quiet l collecting w e = elim (Bool-cases (has_room l w)) [
  | inl room ↦ rw room (pop_more-Quiet (try_pop w.system.ring).1 w e)
  | inr full ↦ rw full (moves-Quiet w flushing (rw e refl))
]
pop_more_at-Quiet l popping w e = stays-Quiet w
pop_more_at-Quiet l delaying w e = stays-Quiet w
pop_more_at-Quiet l flushing w e = stays-Quiet w
pop_more_at-Quiet l leaving w e = stays-Quiet w
pop_more_at-Quiet l releasing w e = stays-Quiet w
pop_more_at-Quiet l withdrawing w e = stays-Quiet w
pop_more_at-Quiet l returned w e = stays-Quiet w

give_back_at-Quiet : (p : Place) (w : Writer) → w.place ≡ p → Quiet w (give_back_at p w)
unfolding give_back_at
give_back_at-Quiet releasing w e = release_next-Quiet w.system.batch popping w refl (rw e refl) refl
give_back_at-Quiet withdrawing w e =
    release_next-Quiet w.system.batch returned w refl (rw e refl) refl
give_back_at-Quiet popping w e = stays-Quiet w
give_back_at-Quiet delaying w e = stays-Quiet w
give_back_at-Quiet collecting w e = stays-Quiet w
give_back_at-Quiet flushing w e = stays-Quiet w
give_back_at-Quiet leaving w e = stays-Quiet w
give_back_at-Quiet returned w e = stays-Quiet w

write_at-Logged :
    (r : WriteResult) (p : Place) (w : Writer)
    → w.place ≡ p
    → InOrder w.system
    → Logged w
    → Logged (write_at r p w)
unfolding write_at
write_at-Logged r flushing w e v g =
    flush-Logged r releasing w.system.batch w refl (rw e refl) refl v g
write_at-Logged r leaving w e v g =
    flush-Logged r withdrawing w.system.batch w refl (rw e refl) refl v g
write_at-Logged r popping w e v g = g
write_at-Logged r delaying w e v g = g
write_at-Logged r collecting w e v g = g
write_at-Logged r releasing w e v g = g
write_at-Logged r withdrawing w e v g = g
write_at-Logged r returned w e v g = g

pub write_step-Logged :
    (l : Limits) (e : WriteEvent) (w : Writer)
    → InOrder w.system
    → Logged w
    → Logged (write_step l w e)
unfolding write_step
write_step-Logged l e w v g = go e
  where
    quiet : {u : Writer} → Quiet w u → Logged u
    quiet q = Quiet-Logged (written_count_small w v) q g

    go : (e : WriteEvent) → Logged (write_step l w e)
    go pops_first = quiet (pop_at-Quiet l w.place w refl)
    go times_out = quiet (time_out_at-Quiet w.place w refl)
    go sees_cancel = quiet (see_cancel_at-Quiet w.place w refl)
    go pops_more = quiet (pop_more_at-Quiet l w.place w refl)
    go (writes_batch r) = write_at-Logged r w.place w refl v g
    go gives_back = quiet (give_back_at-Quiet w.place w refl)
    go (connects c) = g
    go disconnects = g
    go reserves =
        quiet (produce-Quiet acquires w (acquires-Keeps w.system) (acquires-batch w.system))
    go (writes bytes) =
        quiet
          (produce-Quiet (fills bytes) w (fills-Keeps bytes w.system) (fills-batch bytes w.system))
    go sends = quiet (produce-Quiet submits w (submits-Keeps w.system) (submits-batch w.system))
    go stops = quiet (produce-Quiet closes w (closes-Keeps w.system) (closes-batch w.system))
