-- ===== src/Client/Ring.antt =====
-- internal/client/upstream_ring.go: the ring of packet buffers between the UDP reader (producer)
-- and a lane's writer (consumer).
pub mod Size
pub mod Window
pub mod System
use Prim.Native.Nat.{bit_and}
use t2d.Base.{
  ℕ, zero, suc, ◌+◌, ◌-◌, ◌*◌, ◌%◌, ◌^◌, List, Bool, true, false, not, Option, none, some, length,
  take, get_elem?, set, replicate, ltb, ◌==◌, if◌then◌else◌,
}
use t2d.Base.Int.{ℤ, pos, pos_part, leb_ℤ}

-- `upstreamPacket`. The slice `data` is always a front part of `buf`, so its length is enough.
pub record UpstreamPacket : Type 0 where
  pub buf : List ℕ
  pub data_len : ℕ

-- A packet is named by its place in `slots`, which the program never changes; nil is `none`.
pub record UpstreamRing : Type 0 where
  pub slots : List UpstreamPacket
  pub mask : ℕ
  pub capacity : ℕ
  pub tail : ℕ
  pub free_head : ℕ
  pub closed : Bool
  pub read_head : ℕ

-- `p < n` for a 64-bit word `p` of an int, which is negative from 2⁶³ on, and `n` that is not negative.
abbrev pub is_below : ℕ → ℕ → Bool
is_below p n = if ltb p (2 ^ 63) then ltb p n else true

-- `for p < n { p <<= 1 }` on an int of 64 bits. Beyond 2⁶² the word comes to 0 and the loop does not end:
-- then it runs out of fuel.
pub double_until : ℕ → ℕ → ℕ → ℕ
double_until zero p n = p
double_until (suc fuel) p n =
    let rest = double_until fuel (p * 2 % 2 ^ 64) n in if is_below p n then rest else p

-- `p` doubles from 1, so `n` rounds are enough up to 2⁶².
pub next_power_of_two : ℕ → ℕ
unfolding double_until
next_power_of_two n = double_until n 1 n

unfoldable pub new_upstream_ring : ℤ → ℕ → UpstreamRing
new_upstream_ring capacity packet_size =
    let cap = next_power_of_two (if leb_ℤ capacity (pos 0) then 1 else pos_part capacity) in
    record {
      slots = replicate cap (record { buf = replicate packet_size 0; data_len = 0 });
      mask = cap - 1;
      capacity = cap;
      tail = 0;
      free_head = 0;
      closed = false;
      read_head = 0;
    }

-- `uint64` addition of 1 and subtraction.
abbrev pub next64 : ℕ → ℕ
next64 a = (a + 1) % 2 ^ 64

abbrev pub sub64 : ℕ → ℕ → ℕ
sub64 a b = (a + 2 ^ 64 - b) % 2 ^ 64

-- `p.data = p.data[:0]`
pub clear_data : UpstreamPacket → UpstreamPacket
clear_data p = record p { data_len = 0 }

pub update_slot : (UpstreamPacket → UpstreamPacket) → ℕ → UpstreamRing → UpstreamRing
update_slot f i r = elim (get_elem? r.slots i) [
  | none ↦ r
  | some p ↦ record r { slots = set r.slots i (f p) }
]

-- One round of a waiting loop: `retry` sleeps and goes round again.
pub data Poll : Type 0 where
  retry : Poll
  done : Option ℕ → Poll

-- A round of `acquire`.
pub acquire : UpstreamRing → UpstreamRing × Poll
acquire r =
    if r.closed
    then (r, done none)
    else if ltb (sub64 r.tail r.free_head) r.capacity
    then (update_slot clear_data (bit_and r.tail r.mask) r, done (some (bit_and r.tail r.mask)))
    else (r, retry)

pub submit : Option ℕ → UpstreamRing → UpstreamRing × Bool
submit none r = (r, false)
submit (some p) r = if r.closed then (r, false) else (record r { tail = next64 r.tail }, true)

-- `slots[readHead & mask]`, and `readHead++`.
pub take_next : UpstreamRing → UpstreamRing × ℕ
take_next r = (record r { read_head = next64 r.read_head }, bit_and r.read_head r.mask)

-- A round of `pop`.
pub pop : UpstreamRing → UpstreamRing × Poll
unfolding take_next
pop r =
    if not (r.read_head == r.tail)
    then ((take_next r).0, done (some (take_next r).1))
    else if r.closed
    then (r, done none)
    else (r, retry)

pub try_pop : UpstreamRing → UpstreamRing × Option ℕ
unfolding take_next
try_pop r = if r.read_head == r.tail then (r, none) else ((take_next r).0, some (take_next r).1)

pub release : Option ℕ → UpstreamRing → UpstreamRing
release none r = r
release (some i) r =
    let r' = update_slot clear_data i r in record r' { free_head = next64 r'.free_head }

pub discard : Option ℕ → UpstreamRing → UpstreamRing
discard none r = r
discard (some i) r = update_slot clear_data i r

pub close : UpstreamRing → UpstreamRing
close r = record r { closed = true }

pub inflight : UpstreamRing → ℕ
inflight r = let n = sub64 r.tail r.free_head in if ltb r.capacity n then r.capacity else n
