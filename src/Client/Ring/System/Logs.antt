-- ===== src/Client/Ring/System/Logs.antt =====
-- internal/client/upstream_ring.go: what each step adds to what was submitted and given back.
use t2d.Base.{
  ◌≡◌, refl, sym, List, [], ◌∷◌, ◌++◌, Option, none, some, arith, ℕ, append-nil, Bool-cases, inl,
  inr,
}
use t2d.Client.Ring.{UpstreamRing, pop, try_pop, acquire, submit, Poll, retry, done}
use t2d.Client.Ring.System.{
  System, acquires, fills, submits, pops, tries, releases, closes, step, pop_into, collect_poll,
  collect, give_back, reserve, reserve_poll, with_writing, fill, send,
}

-- Packets may have been submitted, none was given back.
pub record Keeps (s t : System) : Type 0 where
  pub more : List (List ℕ)
  pub submitted : t.submitted ≡ s.submitted ++ more
  pub given_back : t.given_back ≡ s.given_back

pub same-Keeps :
    {s t : System} → t.submitted ≡ s.submitted → t.given_back ≡ s.given_back → Keeps s t
same-Keeps {s} e g = record {
  more = [];
  submitted = rw e (sym (append-nil s.submitted));
  given_back = g;
}

collect-Keeps : (p : UpstreamRing × Option ℕ) (s : System) → Keeps s (collect p s)
unfolding collect
collect-Keeps (r, none) s = same-Keeps refl refl
collect-Keeps (r, some i) s = same-Keeps refl refl

collect_poll-Keeps : (p : UpstreamRing × Poll) (s : System) → Keeps s (collect_poll p s)
unfolding collect_poll
collect_poll-Keeps (r, retry) s = same-Keeps refl refl
collect_poll-Keeps (r, done p) s = collect-Keeps (r, p) s

reserve_poll-Keeps : (p : UpstreamRing × Poll) (s : System) → Keeps s (reserve_poll p s)
unfolding reserve_poll
reserve_poll-Keeps (r, retry) s = same-Keeps refl refl
reserve_poll-Keeps (r, done p) s = same-Keeps refl refl

reserve-Keeps : (m : Option ℕ) (s : System) → Keeps s (reserve m s)
unfolding reserve
reserve-Keeps none s = reserve_poll-Keeps (acquire s.ring) s
reserve-Keeps (some i) s = same-Keeps refl refl

with_writing-Keeps :
    (f : ℕ → System → System) (m : Option ℕ) (s : System)
    → ((i : ℕ) → Keeps s (f i s))
    → Keeps s (with_writing f m s)
unfolding with_writing
with_writing-Keeps f none s h = same-Keeps refl refl
with_writing-Keeps f (some i) s h = h i

fill-Keeps : (bytes : List ℕ) (i : ℕ) (s : System) → Keeps s (fill bytes i s)
unfolding fill
fill-Keeps bytes i s = same-Keeps (ground arith) (ground arith)

send-Keeps : (i : ℕ) (s : System) → Keeps s (send i s)
unfolding send
send-Keeps i s = elim (Bool-cases (submit (some i) s.ring).1) [
  | inl sent ↦ rw (sent, send) (record { more = _; submitted = refl; given_back = refl })
  | inr shut ↦ rw (shut, send) (same-Keeps refl refl)
]

pub pops-Keeps : (s : System) → Keeps s (step s pops)
unfolding step pop_into
pops-Keeps s = collect_poll-Keeps (pop s.ring) s

pub tries-Keeps : (s : System) → Keeps s (step s tries)
unfolding step
tries-Keeps s = collect-Keeps (try_pop s.ring) s

pub acquires-Keeps : (s : System) → Keeps s (step s acquires)
unfolding step
acquires-Keeps s = reserve-Keeps s.writing s

pub fills-Keeps : (bytes : List ℕ) (s : System) → Keeps s (step s (fills bytes))
unfolding step
fills-Keeps bytes s = with_writing-Keeps (fill bytes) s.writing s (λ i. fill-Keeps bytes i s)

pub submits-Keeps : (s : System) → Keeps s (step s submits)
unfolding step
submits-Keeps s = with_writing-Keeps send s.writing s (λ i. send-Keeps i s)

pub closes-Keeps : (s : System) → Keeps s (step s closes)
unfolding step
closes-Keeps s = same-Keeps refl refl

-- The oldest packet of a batch is given back.
pub releases-given_back :
    (s : System) (i : ℕ) (rest : List ℕ)
    → s.batch ≡ i ∷ rest
    → ((step s releases).submitted ≡ s.submitted)
      × ((x : List ℕ) × ((step s releases).given_back ≡ s.given_back ++ (x ∷ [])))
unfolding step
releases-given_back s i rest e = rw (e, give_back) (refl, (_, refl))
