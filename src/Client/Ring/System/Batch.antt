-- ===== src/Client/Ring/System/Batch.antt =====
-- internal/client/client.go, handleUpstreamWrites: what each step does to the batch.
use t2d.Base.{◌≡◌, refl, List, [], ◌∷◌, ◌++◌, Option, none, some, arith, ℕ}
use t2d.Client.Ring.{pop, try_pop, acquire, Poll, retry, done, submit}
use t2d.Client.Ring.System.{
  System, acquires, fills, submits, pops, tries, releases, closes, step, pop_into, collect_poll,
  collect, give_back, reserve, reserve_poll, with_writing, fill, send,
}

pub pops-batch :
    (s : System) (i : ℕ)
    → (pop s.ring).1 ≡ done (some i)
    → (step s pops).batch ≡ s.batch ++ (i ∷ [])
unfolding step pop_into
pops-batch s i e = rw (collect_poll, e, collect) refl

pub tries-batch :
    (s : System) (i : ℕ) → (try_pop s.ring).1 ≡ some i → (step s tries).batch ≡ s.batch ++ (i ∷ [])
unfolding step
tries-batch s i e = rw (collect, e) refl

pub releases-batch :
    (s : System) (i : ℕ) (rest : List ℕ) → s.batch ≡ i ∷ rest → (step s releases).batch ≡ rest
unfolding step
releases-batch s i rest e = rw (e, give_back) refl

reserve_poll-batch :
    (r : t2d.Client.Ring.UpstreamRing × Poll) (s : System) → (reserve_poll r s).batch ≡ s.batch
unfolding reserve_poll
reserve_poll-batch (r, retry) s = refl
reserve_poll-batch (r, done p) s = refl

reserve-batch : (m : Option ℕ) (s : System) → (reserve m s).batch ≡ s.batch
unfolding reserve
reserve-batch none s = reserve_poll-batch (acquire s.ring) s
reserve-batch (some i) s = refl

with_writing-batch :
    (f : ℕ → System → System) (m : Option ℕ) (s : System)
    → ((i : ℕ) → (f i s).batch ≡ s.batch)
    → (with_writing f m s).batch ≡ s.batch
unfolding with_writing
with_writing-batch f none s h = refl
with_writing-batch f (some i) s h = h i

fill-batch : (bytes : List ℕ) (i : ℕ) (s : System) → (fill bytes i s).batch ≡ s.batch
unfolding fill
fill-batch bytes i s = ground arith

send-batch : (i : ℕ) (s : System) → (send i s).batch ≡ s.batch
unfolding send
send-batch i s = ground arith

pub acquires-batch : (s : System) → (step s acquires).batch ≡ s.batch
unfolding step
acquires-batch s = reserve-batch s.writing s

pub fills-batch : (bytes : List ℕ) (s : System) → (step s (fills bytes)).batch ≡ s.batch
unfolding step
fills-batch bytes s = with_writing-batch (fill bytes) s.writing s (λ i. fill-batch bytes i s)

pub submits-batch : (s : System) → (step s submits).batch ≡ s.batch
unfolding step
submits-batch s = with_writing-batch send s.writing s (λ i. send-batch i s)

pub closes-batch : (s : System) → (step s closes).batch ≡ s.batch
unfolding step
closes-batch s = refl
