-- ===== src/Client/Writes/Goes.antt =====
-- internal/client/client.go, handleUpstreamWrites: each step of the loop is steps of the ring.
use t2d.Base.{
  ℕ, ◌≤◌, ◌≡◌, refl, sym, ap, subst, inl, inr, List, [], ◌∷◌, true, Option, none, some, arith,
  length, length-append, Bool-cases, ltb, ◌&&◌,
}
use t2d.Client.Ring.{Poll, retry, done, pop, try_pop, inflight}
use t2d.Client.Ring.System.{
  Event, acquires, fills, submits, closes, pops, tries, releases, step, run,
}
use t2d.Client.Ring.System.Batch.{
  pops-batch, tries-batch, releases-batch, acquires-batch, fills-batch, submits-batch, closes-batch,
}
use t2d.Server.Writer.{max_int}
use t2d.Client.Upstream.{WriteResult}
use t2d.Client.Writes.{
  Limits, Place, popping, delaying, collecting, flushing, leaving, releasing, withdrawing, returned,
  write_batch, flush, write_at, writes_batch, connects, disconnects, Writer, WriteEvent, pops_first,
  times_out, sees_cancel, pops_more, gives_back, reserves, writes, sends, stops, has_room,
  add_packet, wait_or_collect, adaptive_upstream_delay, pop_first, pop_more, release_next, pop_at,
  time_out_at, see_cancel_at, pop_more_at, give_back_at, produce, write_step,
}

-- The most packets that the batch has at a place.
abbrev pub most : Limits → Place → ℕ
most l popping = 0
most l returned = 0
most l p = max_int 1 l.max_packets

one : (l : Limits) → 1 ≤ most l collecting
one l = ground arith

-- What a step of the loop leads to: steps of the ring, and a batch within its bound.
pub record Goes (l : Limits) (w v : Writer) : Type 0 where
  pub trace : List Event
  pub runs : run w.system trace ≡ v.system
  pub bounded : length v.system.batch ≤ most l v.place

abbrev pub IsBounded : Limits → Writer → Type 0
IsBounded l w = length w.system.batch ≤ most l w.place

pub stays : (l : Limits) (w : Writer) → IsBounded l w → Goes l w w
unfolding run
stays l w b = record { trace = []; runs = refl; bounded = b }

wait_or_collect-Goes :
    (l : Limits) (w u : Writer)
    → Goes l w (record u { place = collecting })
    → Goes l w (wait_or_collect l u)
unfolding wait_or_collect
wait_or_collect-Goes l w u g =
    elim (Bool-cases (has_room l u && ltb 0 (adaptive_upstream_delay l (inflight u.system.ring)))) [
      | inl waits ↦ rw waits (record { trace = g.trace; runs = g.runs; bounded = g.bounded })
      | inr at_once ↦ rw at_once g
    ]

pop_first-Goes :
    (l : Limits) (p : Poll) (w : Writer)
    → (pop w.system.ring).1 ≡ p
    → length w.system.batch ≤ 0
    → IsBounded l w
    → Goes l w (pop_first l p w)
unfolding pop_first run add_packet
pop_first-Goes l retry w e empty b = stays l w b
pop_first-Goes l (done none) w e empty b = record { trace = []; runs = refl; bounded = empty }
pop_first-Goes l (done (some i)) w e empty b =
    wait_or_collect-Goes l w (add_packet i pops w) (record {
      trace = pops ∷ [];
      runs = refl;
      bounded = omega (
        arith,
        ap length (pops-batch w.system i e),
        length-append w.system.batch (i ∷ []),
        empty,
        one l,
      );
    })

pop_more-Goes :
    (l : Limits) (p : Option ℕ) (w : Writer)
    → (try_pop w.system.ring).1 ≡ p
    → has_room l w ≡ true
    → w.place ≡ collecting
    → IsBounded l w
    → Goes l w (pop_more p w)
unfolding pop_more run add_packet
pop_more-Goes l none w e room here b = record {
  trace = [];
  runs = refl;
  bounded = subst (λ p. length w.system.batch ≤ most l p) here b;
}
pop_more-Goes l (some i) w e room here b = record {
  trace = tries ∷ [];
  runs = refl;
  bounded = rw here (
      ground
        (arith, ap length (tries-batch w.system i e), length-append w.system.batch (i ∷ []), room));
}

release_next-Goes :
    (l : Limits) (batch : List ℕ) (next : Place) (w : Writer)
    → w.system.batch ≡ batch
    → IsBounded l w
    → Goes l w (release_next batch next w)
unfolding release_next run
release_next-Goes l [] next w e b = record {
  trace = [];
  runs = refl;
  bounded = omega (arith, ap length e);
}
release_next-Goes l (i ∷ rest) next w e b = record {
  trace = releases ∷ [];
  runs = refl;
  bounded = omega (arith, ap length (releases-batch w.system i rest e), ap length e, b);
}

produce-Goes :
    (l : Limits) (e : Event) (w : Writer)
    → (step w.system e).batch ≡ w.system.batch
    → IsBounded l w
    → Goes l w (produce e w)
unfolding run
produce-Goes l e w same b = record {
  trace = e ∷ [];
  runs = refl;
  bounded = omega (arith, ap length same, b);
}

moves :
    (l : Limits) (w : Writer) (p : Place)
    → length w.system.batch ≤ most l p
    → Goes l w (record w { place = p })
unfolding run
moves l w p b = record { trace = []; runs = refl; bounded = b }

pop_at-Goes :
    (l : Limits) (p : Place) (w : Writer) → w.place ≡ p → IsBounded l w → Goes l w (pop_at l p w)
unfolding pop_at
pop_at-Goes l popping w e b =
    pop_first-Goes l (pop w.system.ring).1 w refl
      (subst (λ p. length w.system.batch ≤ most l p) e b) b
pop_at-Goes l delaying w e b = stays l w b
pop_at-Goes l collecting w e b = stays l w b
pop_at-Goes l flushing w e b = stays l w b
pop_at-Goes l leaving w e b = stays l w b
pop_at-Goes l releasing w e b = stays l w b
pop_at-Goes l withdrawing w e b = stays l w b
pop_at-Goes l returned w e b = stays l w b

time_out_at-Goes :
    (l : Limits) (p : Place) (w : Writer) → w.place ≡ p → IsBounded l w → Goes l w (time_out_at p w)
unfolding time_out_at
time_out_at-Goes l popping w e b = stays l w b
time_out_at-Goes l delaying w e b =
    moves l w collecting (subst (λ p. length w.system.batch ≤ most l p) e b)
time_out_at-Goes l collecting w e b = stays l w b
time_out_at-Goes l flushing w e b = stays l w b
time_out_at-Goes l leaving w e b = stays l w b
time_out_at-Goes l releasing w e b = stays l w b
time_out_at-Goes l withdrawing w e b = stays l w b
time_out_at-Goes l returned w e b = stays l w b

see_cancel_at-Goes :
    (l : Limits) (p : Place) (w : Writer)
    → w.place ≡ p
    → IsBounded l w
    → Goes l w (see_cancel_at p w)
unfolding see_cancel_at
see_cancel_at-Goes l popping w e b = stays l w b
see_cancel_at-Goes l delaying w e b =
    moves l w leaving (subst (λ p. length w.system.batch ≤ most l p) e b)
see_cancel_at-Goes l collecting w e b = stays l w b
see_cancel_at-Goes l flushing w e b = stays l w b
see_cancel_at-Goes l leaving w e b = stays l w b
see_cancel_at-Goes l releasing w e b = stays l w b
see_cancel_at-Goes l withdrawing w e b = stays l w b
see_cancel_at-Goes l returned w e b = stays l w b

pop_more_at-Goes :
    (l : Limits) (p : Place) (w : Writer)
    → w.place ≡ p
    → IsBounded l w
    → Goes l w (pop_more_at l p w)
unfolding pop_more_at
pop_more_at-Goes l popping w e b = stays l w b
pop_more_at-Goes l delaying w e b = stays l w b
pop_more_at-Goes l collecting w e b = elim (Bool-cases (has_room l w)) [
  | inl room ↦ rw room (pop_more-Goes l (try_pop w.system.ring).1 w refl room e b)
  | inr full ↦ rw full (moves l w flushing (subst (λ p. length w.system.batch ≤ most l p) e b))
]
pop_more_at-Goes l flushing w e b = stays l w b
pop_more_at-Goes l leaving w e b = stays l w b
pop_more_at-Goes l releasing w e b = stays l w b
pop_more_at-Goes l withdrawing w e b = stays l w b
pop_more_at-Goes l returned w e b = stays l w b

give_back_at-Goes :
    (l : Limits) (p : Place) (w : Writer)
    → w.place ≡ p
    → IsBounded l w
    → Goes l w (give_back_at p w)
unfolding give_back_at
give_back_at-Goes l popping w e b = stays l w b
give_back_at-Goes l delaying w e b = stays l w b
give_back_at-Goes l collecting w e b = stays l w b
give_back_at-Goes l flushing w e b = stays l w b
give_back_at-Goes l leaving w e b = stays l w b
give_back_at-Goes l releasing w e b = release_next-Goes l w.system.batch popping w refl b
give_back_at-Goes l withdrawing w e b = release_next-Goes l w.system.batch returned w refl b
give_back_at-Goes l returned w e b = stays l w b

-- A write leaves the ring and the batch as they are.
flush-system :
    (r : WriteResult) (next : Place) (batch : List ℕ) (w : Writer)
    → ((flush r next batch w).system ≡ w.system) × ((flush r next batch w).place ≡ next)
unfolding flush write_batch
flush-system r next [] w = (refl, refl)
flush-system r next (i ∷ batch) w = (refl, refl)

flush-Goes :
    (l : Limits) (r : WriteResult) (next : Place) (w : Writer)
    → length w.system.batch ≤ most l next
    → Goes l w (flush r next w.system.batch w)
unfolding run
flush-Goes l r next w b =
    let (system, place) = flush-system r next w.system.batch w in
    record { trace = []; runs = sym system; bounded = rw (system, place) b }

write_at-Goes :
    (l : Limits) (r : WriteResult) (p : Place) (w : Writer)
    → w.place ≡ p
    → IsBounded l w
    → Goes l w (write_at r p w)
unfolding write_at
write_at-Goes l r popping w e b = stays l w b
write_at-Goes l r delaying w e b = stays l w b
write_at-Goes l r collecting w e b = stays l w b
write_at-Goes l r flushing w e b =
    flush-Goes l r releasing w (subst (λ p. length w.system.batch ≤ most l p) e b)
write_at-Goes l r leaving w e b =
    flush-Goes l r withdrawing w (subst (λ p. length w.system.batch ≤ most l p) e b)
write_at-Goes l r releasing w e b = stays l w b
write_at-Goes l r withdrawing w e b = stays l w b
write_at-Goes l r returned w e b = stays l w b

pub write_step-Goes :
    (l : Limits) (e : WriteEvent) (w : Writer) → IsBounded l w → Goes l w (write_step l w e)
unfolding write_step run
write_step-Goes l pops_first w b = pop_at-Goes l w.place w refl b
write_step-Goes l times_out w b = time_out_at-Goes l w.place w refl b
write_step-Goes l sees_cancel w b = see_cancel_at-Goes l w.place w refl b
write_step-Goes l pops_more w b = pop_more_at-Goes l w.place w refl b
write_step-Goes l (writes_batch r) w b = write_at-Goes l r w.place w refl b
write_step-Goes l (connects c) w b = record { trace = []; runs = refl; bounded = b }
write_step-Goes l disconnects w b = record { trace = []; runs = refl; bounded = b }
write_step-Goes l gives_back w b = give_back_at-Goes l w.place w refl b
write_step-Goes l reserves w b = produce-Goes l acquires w (acquires-batch w.system) b
write_step-Goes l (writes bytes) w b = produce-Goes l (fills bytes) w (fills-batch bytes w.system) b
write_step-Goes l sends w b = produce-Goes l submits w (submits-batch w.system) b
write_step-Goes l stops w b = produce-Goes l closes w (closes-batch w.system) b
