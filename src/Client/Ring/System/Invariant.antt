-- ===== src/Client/Ring/System/Invariant.antt =====
-- internal/client/upstream_ring.go: what holds of the ring, its producer and its consumer after any
-- schedule. The counters are 64-bit words; the invariant names the numbers that they stand for.
use Prim.Native.Nat.{bit_and}
use t2d.Base.{
  ℕ, ◌+◌, ◌-◌, ◌%◌, ◌^◌, ◌≤◌, ◌<◌, ◌≡◌, ◌∙◌, ◌++◌, Option, none, some, arith, length, get_elem?,
  set, get_elem?-some,
}
use native.Mathlib.Nat.{pow-le-pow_right, mod-lt}
use t2d.Base.Bits.{bit_and_mask, mod-mod_pow, pow_pos}
use t2d.Client.Ring.{UpstreamPacket, UpstreamRing, update_slot, sub64, next64}
use t2d.Client.Ring.Window.{places, window}
use t2d.Client.Ring.System.{System}

-- The producer's packet lies behind all that is in flight.
abbrev pub Writes : ℕ → ℕ → ℕ → Option ℕ → Type 0
Writes cap freed sent none = Unit
Writes cap freed sent (some i) = (sent < freed + cap) × (i ≡ sent % cap)

pub record Inv (k : ℕ) (s : System) : Type 0 where
  pub small : k ≤ 63
  pub capacity : s.ring.capacity ≡ 2 ^ k
  pub mask : s.ring.mask ≡ 2 ^ k - 1
  pub slots : length s.ring.slots ≡ 2 ^ k
  -- packets submitted, popped and released so far
  pub sent : ℕ
  pub popped : ℕ
  pub freed : ℕ
  pub tail : s.ring.tail ≡ sent % 2 ^ 64
  pub read_head : s.ring.read_head ≡ popped % 2 ^ 64
  pub free_head : s.ring.free_head ≡ freed % 2 ^ 64
  pub freed_le : freed ≤ popped
  pub popped_le : popped ≤ sent
  pub room : sent ≤ freed + 2 ^ k
  pub writes : Writes (2 ^ k) freed sent s.writing
  pub batch : s.batch ≡ places (2 ^ k) freed (popped - freed)
  pub content : s.submitted ≡ s.given_back ++ window (2 ^ k) s.ring.slots freed (sent - freed)

pub pow_le : (k : ℕ) → k ≤ 63 → 2 ^ k ≤ 2 ^ 63
pow_le k h = pow-le-pow_right (omega arith) h

-- A counter's place in the table.
pub place : (k n : ℕ) → k ≤ 63 → bit_and (n % 2 ^ 64) (2 ^ k - 1) ≡ n % 2 ^ k
place k n h = bit_and_mask k (n % 2 ^ 64) ∙ mod-mod_pow k 64 n (omega arith)

-- The words' difference is the counters', as long as that is small.
pub sub64_counters :
    (a b c : ℕ) → b ≤ a → a ≤ b + c → c ≤ 2 ^ 63 → sub64 (a % 2 ^ 64) (b % 2 ^ 64) ≡ a - b
sub64_counters a b c h r small = omega arith

pub next64_counter : (a : ℕ) → next64 (a % 2 ^ 64) ≡ (a + 1) % 2 ^ 64
next64_counter a = omega arith

-- A write to a slot that is there.
pub update_slot_lem :
    (f : UpstreamPacket → UpstreamPacket) (i : ℕ) (r : UpstreamRing)
    → i < length r.slots
    → (p : UpstreamPacket) × (get_elem? r.slots i ≡ some p)
      × (update_slot f i r ≡ record r { slots = set r.slots i (f p) })
unfolding update_slot
update_slot_lem f i r h = let (p, e) = get_elem?-some r.slots i h in (p, e, rw (e, update_slot))

module _ {k : ℕ} {s : System} (v : Inv k s) where
  pub place_lt : (n : ℕ) → n % 2 ^ k < length s.ring.slots
  place_lt n = rw v.slots (mod-lt n (pow_pos k))
