-- ===== src/Server/Traffic/Memory.antt =====
-- A connection that is nothing but its buffered bytes, for the tests.
use t2d.Base.{
  ℕ, ◌≡◌, refl, ap, ◌∙◌, List, [], ◌∷◌, ◌++◌, arith, length, take, drop, leb, if◌then◌else◌, ok,
  err, append-nil, take-append-drop,
}
use t2d.Client.Receive.Framing.{stream_bytes}
use t2d.Server.Traffic.{GnetConn, IsGnetConn}

-- The answers where fewer bytes are there than asked for are an error.
abbrev pub memory_conn : GnetConn (List ℕ)
memory_conn = record {
  inbound_buffered = length;
  peek = λ n c. if leb n (length c) then ok (take n c) else err 1;
  discard = λ n c. if leb n (length c) then (drop n c, ok n) else (c, err 1);
  next = λ n c. if leb n (length c) then (drop n c, ok (take n c)) else (c, err 1);
}

pub memory_conn-IsGnetConn : IsGnetConn memory_conn (λ c. c)
memory_conn-IsGnetConn = record {
  inbound_buffered_lem = λ c. refl;
  peek_lem = λ n c h. ground arith;
  discard_ok = λ n c h. ground arith;
  inbound-discard = λ n c h. ground arith;
  next_ok = λ n c h. ground arith;
  inbound-next = λ n c h. ground arith;
}

-- What arrives comes behind what is buffered.
abbrev pub memory_arrive : List ℕ → List ℕ → List ℕ
memory_arrive c bytes = c ++ bytes

-- A stream cut in two.
abbrev pub in_two : ℕ → List ℕ → List (List ℕ)
in_two n bytes = take n bytes ∷ drop n bytes ∷ []

pub stream_bytes-in_two : (n : ℕ) (bytes : List ℕ) → stream_bytes (in_two n bytes) ≡ bytes
stream_bytes-in_two n bytes =
    ap (λ (u : List ℕ). take n bytes ++ u) (append-nil (drop n bytes)) ∙ take-append-drop n bytes
