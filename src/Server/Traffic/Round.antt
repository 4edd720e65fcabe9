-- ===== src/Server/Traffic/Round.antt =====
-- internal/server/handlers.go, OnTraffic: a round against NextRef on the same bytes.
use t2d.Base.{
  ℕ, suc, ◌+◌, ◌≤◌, ◌≡◌, refl, ap, ap₂, sym, ◌∙◌, subst, inl, inr, List, [], arith, length, take,
  drop, ltb, Bool-cases, ok, Result-cases, length-drop, drop_all, drop-drop,
}
use t2d.Base.Int.{pos, ltb_ℤ}
use t2d.Protocol.Packet.{PacketHeader, header_size, unmarshal, validate}
use t2d.Protocol.Stream.{
  StreamBuffer, Next, found, incomplete, invalid, next_ref, check_header, take_frame,
}
use t2d.Protocol.Stream.View.{unread, IsValid}
use t2d.Protocol.Stream.Cases.{
  next_ref-unreadable, check_header-rejected, check_header-too_large, check_header-take,
}
use t2d.Protocol.Stream.Step.{take_frame-Takes, take_frame-short, next_ref_few}
use t2d.Protocol.Stream.Sound.{next_ref_read}
use t2d.Server.Traffic.{
  GnetConn, IsGnetConn, Outcome, leave, frame, discard_all, take_payload, check_frame, round,
}

module _ {C : Type 0} (g : GnetConn C) (inbound : C → List ℕ) (law : IsGnetConn g inbound) where
  take_payload_lem :
      (h : PacketHeader) (c : C)
      → header_size + h.length ≤ length (inbound c)
      → (c' : C) × (take_payload g h c ≡ frame c' h (take h.length (drop header_size (inbound c))))
        × (inbound c' ≡ drop (header_size + h.length) (inbound c))
  unfolding take_payload
  take_payload_lem h c enough =
      let c1 = (g.discard header_size c).0 in
      let skipped = law.inbound-discard header_size c (omega arith) in
      let left : h.length ≤ length (inbound c1) =
        omega (arith, ap length skipped, length-drop header_size (inbound c)) in
      (
        (g.next h.length c1).0,
        rw (law.discard_ok header_size c (omega arith), law.next_ok h.length c1 left, take_payload)
            (ap (λ (u : List ℕ). frame (g.next h.length c1).0 h (take h.length u)) skipped),
        law.inbound-next h.length c1 left
            ∙ ap (drop h.length) skipped
            ∙ drop-drop header_size h.length (inbound c),
      )

  discard_all_lem : (c : C) → (c' : C) × (discard_all g c ≡ leave c') × (inbound c' ≡ [])
  unfolding discard_all
  discard_all_lem c =
      let n = g.inbound_buffered c in
      let whole = law.inbound_buffered_lem c in
      (
        (g.discard n c).0,
        refl,
        law.inbound-discard n c (omega (arith, whole))
            ∙ drop_all n (inbound c) (omega (arith, whole)),
      )

  -- A round and a call of NextRef come to the same.
  abbrev pub Agrees : Outcome C × (StreamBuffer × Next) → Type 0
  Agrees (r, (b, found f)) = (c : C) × (r ≡ frame c f.header f.payload) × (inbound c ≡ unread b)
  Agrees (r, (b, incomplete)) = (c : C) × (r ≡ leave c) × (inbound c ≡ unread b)
  Agrees (r, (b, invalid e)) = (c : C) × (r ≡ leave c) × (inbound c ≡ [])

  by_equations :
      {r r' : Outcome C} {n n' : StreamBuffer × Next}
      → r ≡ r'
      → n ≡ n'
      → Agrees (r', n')
      → Agrees (r, n)
  by_equations p q a =
      subst Agrees (sym (ap₂ (λ (x : Outcome C) (y : StreamBuffer × Next). (x, y)) p q)) a

  module _ (limit : ℕ) (c : C) (b : StreamBuffer) (v : IsValid b) (same : inbound c ≡ unread b)
      (cap : b.max_payload ≡ pos (suc limit)) where
    same_length : g.inbound_buffered c ≡ length (unread b)
    same_length = law.inbound_buffered_lem c ∙ ap length same

    check_frame-Agrees :
        (h : PacketHeader)
        → header_size ≤ length (unread b)
        → Agrees (check_frame g (pos (suc limit)) h c, check_header b h)
    unfolding check_frame
    check_frame-Agrees h long = elim (Result-cases (validate h)) [
      | inl (e, bad) ↦
          by_equations (rw (bad, check_frame) refl) (check_header-rejected b h e bad)
            (discard_all_lem c)
      | inr (u, good) ↦ elim (Bool-cases (ltb_ℤ (pos (suc limit)) (pos h.length))) [
        | inl big ↦
            by_equations (rw (good, big, check_frame) refl)
              (check_header-too_large b h good (rw cap (ground arith))) (discard_all_lem c)
        | inr small ↦
            let step = check_header-take b h good (rw cap (ground arith)) in
            elim (Bool-cases (ltb (g.inbound_buffered c) (header_size + h.length))) [
              | inl short ↦
                  by_equations (rw (good, small, short, check_frame) refl)
                    (step ∙ take_frame-short v h (ground (arith, same_length))) (c, refl, same)
              | inr enough ↦
                  let whole : header_size + h.length ≤ length (unread b) =
                    ground (arith, same_length) in
                  let (c', taken, rest) =
                    take_payload_lem h c (omega (arith, whole, ap length same)) in
                  let t = take_frame-Takes v h whole in
                  by_equations (rw (good, small, enough, check_frame) refl)
                    (step ∙ ap (λ (n : Next). ((take_frame b h).0, n)) t.result)
                    (
                      c',
                      taken
                          ∙ ap (λ (u : List ℕ). frame c' h (take h.length (drop header_size u)))
                              same,
                      rest ∙ ap (drop (header_size + h.length)) same ∙ sym t.rest,
                    )
            ]
      ]
    ]

    -- Where the connection holds the bytes that a StreamBuffer has unread, under the same limit, a round
    -- of OnTraffic comes to what NextRef comes to.
    pub round-Agrees : Agrees (round g (pos (suc limit)) c, next_ref b)
    unfolding round
    round-Agrees = elim (Bool-cases (ltb (g.inbound_buffered c) header_size)) [
      | inl few ↦
          by_equations (rw (few, round) refl) (next_ref_few b (ground (arith, same_length)))
            (c, refl, same)
      | inr many ↦
          let long : header_size ≤ length (unread b) = ground (arith, same_length) in
          let shown : g.peek header_size c ≡ ok (take header_size (unread b)) =
            law.peek_lem header_size c (omega (arith, long, ap length same))
            ∙ ap (λ (u : List ℕ). ok (take header_size u)) same in
          elim (Result-cases (unmarshal (take header_size (unread b)))) [
            | inl (e, bad) ↦
                by_equations (rw (many, shown, bad, round) refl) (next_ref-unreadable b e long bad)
                  (discard_all_lem c)
            | inr (h, good) ↦
                by_equations (rw (many, shown, good, round) refl) (next_ref_read b h long good)
                  (check_frame-Agrees h long)
          ]
    ]
