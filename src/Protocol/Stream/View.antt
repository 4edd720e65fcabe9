-- ===== src/Protocol/Stream/View.antt =====
-- internal/protocol/stream.go: the buffer seen as the bytes that no frame has taken yet.
use t2d.Base.{
  ℕ, ◌+◌, ◌-◌, ◌≤◌, ◌≡◌, refl, ap, ◌∙◌, Bool, true, false, if◌then◌else◌, List, [], ◌++◌, arith,
  length, drop, ltb, ◌&&◌, length-drop, length-append, drop-append_le, take-copy_length,
}
use t2d.Base.Int.{ℤ}
use t2d.Protocol.Stream.{StreamBuffer, new_stream_buffer, compact, append_bytes, write, len, reset}

abbrev pub unread : StreamBuffer → List ℕ
unread b = drop b.off b.buf

-- What every operation keeps: the read position and the bytes stay within the slice's capacity.
pub record IsValid (b : StreamBuffer) : Type 0 where
  pub off_in : b.off ≤ length b.buf
  pub within_cap : length b.buf ≤ b.cap

pub len_lem : (b : StreamBuffer) → len b ≡ length (unread b)
unfolding len
len_lem b = omega (arith, length-drop b.off b.buf)

pub new_stream_buffer-IsValid :
    (capacity max_payload : ℤ)
    → IsValid (new_stream_buffer capacity max_payload)
      × (unread (new_stream_buffer capacity max_payload) ≡ [])
unfolding new_stream_buffer
new_stream_buffer-IsValid capacity max_payload = (omega arith, refl)

pub max_payload-new :
    (capacity max_payload : ℤ) → (new_stream_buffer capacity max_payload).max_payload ≡ max_payload
unfolding new_stream_buffer
max_payload-new capacity max_payload = refl

pub reset-IsValid : {b : StreamBuffer} → IsValid b → IsValid (reset b) × (unread (reset b) ≡ [])
unfolding reset
reset-IsValid v = (omega arith, refl)

buf-compact : {b : StreamBuffer} → IsValid b → (compact b).buf ≡ unread b
unfolding compact
buf-compact {b} v =
    take-copy_length b.buf (drop b.off b.buf) (length b.buf - b.off)
      (omega (arith, length-drop b.off b.buf)) (omega arith)

compact-IsValid :
    {b : StreamBuffer} → IsValid b → IsValid (compact b) × (unread (compact b) ≡ unread b)
unfolding compact
compact-IsValid {b} v = (
  record {
    off_in = omega arith;
    within_cap = omega (arith, ap length (buf-compact v), length-drop b.off b.buf);
  },
  buf-compact v,
)

-- `Write` moves the unread bytes to the front only if that makes room.
make_room :
    (t : Bool) {b : StreamBuffer}
    → IsValid b
    → IsValid (if t then compact b else b) × (unread (if t then compact b else b) ≡ unread b)
make_room true v = compact-IsValid v
make_room false v = (v, refl)

module _ (grow : ℕ → ℕ → ℕ) where
  unread-append_bytes :
      {b : StreamBuffer} (p : List ℕ) → IsValid b → unread (append_bytes grow b p) ≡ unread b ++ p
  unfolding append_bytes
  unread-append_bytes {b} p v = drop-append_le b.buf p b.off v.off_in

  append_bytes-IsValid :
      ((old needed : ℕ) → needed ≤ grow old needed)
      → {b : StreamBuffer} (p : List ℕ) → IsValid b
      → IsValid (append_bytes grow b p)
  unfolding append_bytes
  append_bytes-IsValid enough {b} p v =
      ground (arith, length-append b.buf p, enough b.cap (length b.buf + length p))

  -- `Write` adds its bytes behind those not yet read, whether or not it moves them first.
  pub unread-write :
      {b : StreamBuffer} (p : List ℕ) → IsValid b → unread (write grow b p) ≡ unread b ++ p
  unfolding write
  unread-write {b} p v =
      let (valid, same) = make_room (ltb 0 b.off && ltb b.cap (length b.buf + length p)) v in
      unread-append_bytes p valid ∙ ap (λ (u : List ℕ). u ++ p) same

  -- `Write` keeps the buffer valid if `append` makes enough room.
  pub write-IsValid :
      ((old needed : ℕ) → needed ≤ grow old needed)
      → {b : StreamBuffer} (p : List ℕ) → IsValid b
      → IsValid (write grow b p)
  unfolding write
  write-IsValid enough {b} p v =
      append_bytes-IsValid enough p
        (make_room (ltb 0 b.off && ltb b.cap (length b.buf + length p)) v).0

  pub max_payload-write :
      (b : StreamBuffer) (p : List ℕ) → (write grow b p).max_payload ≡ b.max_payload
  unfolding write append_bytes compact
  max_payload-write b p = ground arith
