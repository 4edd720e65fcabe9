-- ===== src/Client/Ring/System/Steps.antt =====
-- internal/client/upstream_ring.go: the invariant through any schedule.
use t2d.Base.{ℕ, ◌≡◌, refl, List, [], ◌∷◌, Option, none, some}
use t2d.Client.Ring.{close}
use t2d.Client.Ring.System.{
  System, Event, acquires, fills, submits, pops, tries, releases, closes, fill, send, reserve,
  with_writing, give_back, step, run,
}
use t2d.Client.Ring.System.Invariant.{Inv}
use t2d.Client.Ring.System.Producer.{reserve-Inv, fill-Inv, send-Inv}
use t2d.Client.Ring.System.Consumer.{pop-Inv, try-Inv, give_back-Inv}

reserve_any-Inv : {k : ℕ} {s : System} (w : Option ℕ) → Inv k s → Inv k (reserve w s)
unfolding reserve
reserve_any-Inv none v = reserve-Inv v
reserve_any-Inv (some i) v = v

with_writing-Inv :
    {k : ℕ} {s : System} (f : ℕ → System → System) (w : Option ℕ)
    → Inv k s
    → ((i : ℕ) → w ≡ some i → Inv k (f i s))
    → Inv k (with_writing f w s)
unfolding with_writing
with_writing-Inv f none v keep = v
with_writing-Inv f (some i) v keep = keep i refl

give_back_any-Inv :
    {k : ℕ} {s : System} (batch : List ℕ) → s.batch ≡ batch → Inv k s → Inv k (give_back batch s)
unfolding give_back
give_back_any-Inv [] e v = v
give_back_any-Inv (i ∷ rest) e v = give_back-Inv v i rest e

close-Inv : {k : ℕ} {s : System} → Inv k s → Inv k (record s { ring = close s.ring })
unfolding close
close-Inv v = record {
  small = v.small;
  capacity = v.capacity;
  mask = v.mask;
  slots = v.slots;
  sent = v.sent;
  popped = v.popped;
  freed = v.freed;
  tail = v.tail;
  read_head = v.read_head;
  free_head = v.free_head;
  freed_le = v.freed_le;
  popped_le = v.popped_le;
  room = v.room;
  writes = v.writes;
  batch = v.batch;
  content = v.content;
}

-- Every step of either thread keeps the invariant.
pub step-Inv : {k : ℕ} {s : System} (e : Event) → Inv k s → Inv k (step s e)
unfolding step
step-Inv {s = s} acquires v = reserve_any-Inv s.writing v
step-Inv {s = s} (fills bytes) v = with_writing-Inv (fill bytes) s.writing v (fill-Inv v bytes)
step-Inv {s = s} submits v = with_writing-Inv send s.writing v (send-Inv v)
step-Inv pops v = pop-Inv v
step-Inv tries v = try-Inv v
step-Inv {s = s} releases v = give_back_any-Inv s.batch refl v
step-Inv closes v = close-Inv v

pub run-Inv : {k : ℕ} (es : List Event) {s : System} → Inv k s → Inv k (run s es)
unfolding run
run-Inv [] v = v
run-Inv (e ∷ es) {s = s} v = run-Inv es {s = step s e} (step-Inv e v)
