-- ===== src/Client/Ring/System.antt =====
-- internal/client/client.go, sendToUpstream and handleUpstreamWrites: the producer and the consumer
-- of a ring, whose calls interleave in any order. A schedule is a list of their steps.
pub mod Invariant
pub mod Producer
pub mod Consumer
pub mod Steps
pub mod Order
pub mod Batch
pub mod Logs
mod Tests
use t2d.Base.{
  ℕ, ◌≡◌, List, [], ◌∷◌, ◌++◌, Bool, true, false, Option, none, some, length, copy, get_elem?, ltb,
  if◌then◌else◌,
}
use t2d.Client.Ring.{
  UpstreamPacket, UpstreamRing, Poll, retry, done, update_slot, acquire, submit, pop, try_pop,
  release, discard, close,
}
use t2d.Client.Ring.Window.{slot_data}

-- `writing` is the packet that the producer has acquired, `batch` what the consumer has popped and
-- not yet released. The logs are no part of the program: the data of the packets in the order of
-- `submit`, and the data that each packet of a batch holds when it is released. What is written to the
-- connection stands in Client/Writes.
pub record System : Type 0 where
  pub ring : UpstreamRing
  pub writing : Option ℕ
  pub batch : List ℕ
  pub submitted : List (List ℕ)
  pub given_back : List (List ℕ)

pub data Event : Type 0 where
  -- the producer
  acquires : Event
  fills : List ℕ → Event
  submits : Event
  -- the consumer
  pops : Event
  tries : Event
  releases : Event
  -- Client.Stop
  closes : Event

-- `header.MarshalTo(packet.buf[:HeaderSize]); copy(packet.buf[HeaderSize:], encryptedData);
-- packet.data = packet.buf[:packetLen]`, for the bytes of the whole packet.
pub fill_packet : List ℕ → UpstreamPacket → UpstreamPacket
fill_packet bytes p = record { buf = copy p.buf bytes; data_len = length bytes }

-- A packet too large for the slot's buffer is given up.
pub fill : List ℕ → ℕ → System → System
fill bytes i s = elim (get_elem? s.ring.slots i) [
  | none ↦ s
  | some p ↦
      if ltb (length p.buf) (length bytes)
      then record s { ring = discard (some i) s.ring; writing = none }
      else record s { ring = update_slot (fill_packet bytes) i s.ring }
]

-- A submit that fails, since the ring is closed, discards the packet.
pub send : ℕ → System → System
send i s =
    let (r, sent) = submit (some i) s.ring in
    if sent
    then record s {
      ring = r;
      writing = none;
      submitted = s.submitted ++ (slot_data s.ring.slots i ∷ []);
    }
    else record s { ring = discard (some i) r; writing = none }

pub collect : UpstreamRing × Option ℕ → System → System
collect (r, none) s = s
collect (r, some i) s = record s { ring = r; batch = s.batch ++ (i ∷ []) }

pub collect_poll : UpstreamRing × Poll → System → System
unfolding collect
collect_poll (r, retry) s = s
collect_poll (r, done p) s = collect (r, p) s

pub reserve_poll : UpstreamRing × Poll → System → System
reserve_poll (r, retry) s = s
reserve_poll (r, done p) s = record s { ring = r; writing = p }

-- A step that its thread cannot make, since it waits or has nothing in hand, changes nothing.
pub reserve : Option ℕ → System → System
unfolding reserve_poll
reserve (some i) s = s
reserve none s = reserve_poll (acquire s.ring) s

pub with_writing : (ℕ → System → System) → Option ℕ → System → System
with_writing f none s = s
with_writing f (some i) s = f i s

pub pop_into : System → System
unfolding collect_poll
pop_into s = collect_poll (pop s.ring) s

pub give_back : List ℕ → System → System
give_back [] s = s
give_back (i ∷ rest) s = record s {
  ring = release (some i) s.ring;
  batch = rest;
  given_back = s.given_back ++ (slot_data s.ring.slots i ∷ []);
}

pub step : System → Event → System
unfolding reserve with_writing fill send pop_into collect give_back
step s acquires = reserve s.writing s
step s (fills bytes) = with_writing (fill bytes) s.writing s
step s submits = with_writing send s.writing s
step s pops = pop_into s
step s tries = collect (try_pop s.ring) s
step s releases = give_back s.batch s
step s closes = record s { ring = close s.ring }

unfoldable pub run : System → List Event → System
run s [] = s
run s (e ∷ es) = run (step s e) es

unfoldable pub start : UpstreamRing → System
start r = record { ring = r; writing = none; batch = []; submitted = []; given_back = [] }
