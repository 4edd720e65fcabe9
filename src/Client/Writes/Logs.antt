-- ===== src/Client/Writes/Logs.antt =====
-- internal/client/client.go, handleUpstreamWrites: what was given to writeUpstreamBatch, against the ring.
use t2d.Base.{
  ℕ, ◌+◌, ◌≤◌, ◌≡◌, refl, sym, ap, ◌∙◌, inl, inr, List, [], ◌∷◌, ◌++◌, Bool, Option, none, some,
  arith, length, take, append-nil, length-append, Bool-cases, ltb, ◌&&◌, true, false, if◌then◌else◌,
  take-append_le,
}
use t2d.Client.Ring.{Poll, retry, done, inflight}
use t2d.Client.Ring.System.{Event, pops, step}
use t2d.Client.Ring.System.Batch.{releases-batch}
use t2d.Client.Ring.System.Logs.{Keeps, pops-Keeps, tries-Keeps, releases-given_back}
use t2d.Server.Writer.Order.{frames_of}
use t2d.Client.Writes.{
  Limits, Place, popping, collecting, flushing, releasing, withdrawing, returned, Writer, has_room,
  add_packet, wait_or_collect, adaptive_upstream_delay, pop_first, pop_more, release_next, produce,
}

-- Behind the write of a batch, its packets are no longer waiting for it.
abbrev pub is_written : Place → Bool
is_written releasing = true
is_written withdrawing = true
is_written p = false

-- How many packets of the batch were written and are not yet given back.
abbrev pub held : Place → ℕ → ℕ
held p n = if is_written p then n else 0

abbrev pub written_count : Writer → ℕ
written_count w = length w.system.given_back + held w.place (length w.system.batch)

-- What was given to writeUpstreamBatch are the first packets submitted.
abbrev pub Logged : Writer → Type 0
Logged w = frames_of w.flushes ≡ take (written_count w) w.system.submitted

-- A step that does not write.
pub record Quiet (w v : Writer) : Type 0 where
  more : List (List ℕ)
  submitted : v.system.submitted ≡ w.system.submitted ++ more
  flushes : v.flushes ≡ w.flushes
  count : written_count v ≡ written_count w

pub Quiet-Logged :
    {w v : Writer} → written_count w ≤ length w.system.submitted → Quiet w v → Logged w → Logged v
Quiet-Logged {w} {v} small q g =
    ap frames_of q.flushes
    ∙ g
    ∙ sym (
        ap (take (written_count v)) q.submitted
        ∙ ap (λ (n : ℕ). take n (w.system.submitted ++ q.more)) q.count
        ∙ take-append_le w.system.submitted q.more (written_count w) small)

-- A step of the ring at a place behind no write.
Keeps-Quiet :
    {w v : Writer}
    → Keeps w.system v.system
    → v.flushes ≡ w.flushes
    → is_written w.place ≡ false
    → is_written v.place ≡ false
    → Quiet w v
Keeps-Quiet {w} {v} k f p q = record {
  more = k.more;
  submitted = k.submitted;
  flushes = f;
  count = rw (p, q) (omega (arith, ap length k.given_back));
}

-- The loop goes on at another place.
pub moves-Quiet :
    (w : Writer) (p : Place)
    → held p (length w.system.batch) ≡ held w.place (length w.system.batch)
    → Quiet w (record w { place = p })
moves-Quiet w p h = record {
  more = [];
  submitted = sym (append-nil w.system.submitted);
  flushes = refl;
  count = ap (λ (n : ℕ). length w.system.given_back + n) h;
}

pub stays-Quiet : (w : Writer) → Quiet w w
stays-Quiet w = moves-Quiet w w.place refl

wait_or_collect-Quiet :
    (l : Limits) (w u : Writer)
    → Quiet w (record u { place = collecting })
    → Quiet w (wait_or_collect l u)
unfolding wait_or_collect
wait_or_collect-Quiet l w u q =
    elim (Bool-cases (has_room l u && ltb 0 (adaptive_upstream_delay l (inflight u.system.ring)))) [
      | inl waits ↦
          rw waits (record {
            more = q.more;
            submitted = q.submitted;
            flushes = q.flushes;
            count = q.count;
          })
      | inr at_once ↦ rw at_once q
    ]

pub pop_first-Quiet :
    (l : Limits) (p : Poll) (w : Writer) → w.place ≡ popping → Quiet w (pop_first l p w)
unfolding pop_first add_packet
pop_first-Quiet l retry w e = stays-Quiet w
pop_first-Quiet l (done none) w e = moves-Quiet w returned (rw e refl)
pop_first-Quiet l (done (some i)) w e =
    wait_or_collect-Quiet l w (add_packet i pops w)
      (Keeps-Quiet (pops-Keeps w.system) refl (rw e refl) refl)

pub pop_more-Quiet : (p : Option ℕ) (w : Writer) → w.place ≡ collecting → Quiet w (pop_more p w)
unfolding pop_more add_packet
pop_more-Quiet none w e = moves-Quiet w flushing (rw e refl)
pop_more-Quiet (some i) w e = Keeps-Quiet (tries-Keeps w.system) refl (rw e refl) (rw e refl)

pub release_next-Quiet :
    (batch : List ℕ) (next : Place) (w : Writer)
    → w.system.batch ≡ batch
    → is_written w.place ≡ true
    → is_written next ≡ false
    → Quiet w (release_next batch next w)
unfolding release_next
release_next-Quiet [] next w e p q = record {
  more = [];
  submitted = sym (append-nil w.system.submitted);
  flushes = refl;
  count = rw (p, q) (omega (arith, ap length e));
}
release_next-Quiet (i ∷ rest) next w e p q =
    let (submitted, (x, given_back)) = releases-given_back w.system i rest e in
    record {
      more = [];
      submitted = submitted ∙ sym (append-nil w.system.submitted);
      flushes = refl;
      count = rw p (
          omega (
            arith,
            ap length given_back,
            length-append w.system.given_back (x ∷ []),
            ap length (releases-batch w.system i rest e),
            ap length e,
          ));
    }

pub produce-Quiet :
    (e : Event) (w : Writer)
    → Keeps w.system (step w.system e)
    → (step w.system e).batch ≡ w.system.batch
    → Quiet w (produce e w)
produce-Quiet e w k b = record {
  more = k.more;
  submitted = k.submitted;
  flushes = refl;
  count =
      ap (λ (g : List (List ℕ)). length g + held w.place (length (step w.system e).batch))
        k.given_back
      ∙ ap (λ (u : List ℕ). length w.system.given_back + held w.place (length u)) b;
}
