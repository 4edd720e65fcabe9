-- ===== src/Server/Lanes/Routing.antt =====
-- internal/server/handlers.go: lanes stay in range, and replies follow what the client registered.
use t2d.Base.{
  All, ◌⊎◌, ap, ℕ, zero, suc, ◌^◌, ◌≡◌, ◌<◌, refl, ◌∙◌, sym, List, [], ◌∷◌, true, false, none, some,
  inl, inr, length, ltb, ◌==◌, ==_self, subst, arith, Bool-cases, Option-cases,
}
use t2d.Base.Maps.{load, store, modify, load-store, load-store_ne}
use t2d.Protocol.Control.{LaneControlPayload, subtype_lane_register, subtype_hello}
use t2d.Server.Lanes.{
  Server, lane_count, set_conn, set_downstream_conn_for_lane, lane_for_session, handle_lane_control,
  ensure_context, context_lane, handle_register, join_lane, register_session, register_sessions,
}

length-modify {ℓ} :
    {A : Type ℓ} (f : A → A) (i : ℕ) (xs : List A) → length (modify f i xs) ≡ length xs
unfolding modify
length-modify f i [] = refl
length-modify f zero (x ∷ xs) = refl
length-modify f (suc i) (x ∷ xs) = rw (length-modify f i xs) refl

-- The lane of a session is one that exists, if there is a lane and there are fewer than 2³² of them.
pub lane_for_session-bound :
    (sid : ℕ) (s : Server)
    → 0 < lane_count s
    → lane_count s < 2 ^ 32
    → lane_for_session sid s < lane_count s
unfolding lane_for_session
lane_for_session-bound sid s h b = elim (Option-cases (load sid s.session_lane_map)) [
  | inl nothing ↦ rw (nothing, lane_for_session) (omega arith)
  | inr (lane, there) ↦ elim (Bool-cases (ltb lane (lane_count s))) [
    | inl good ↦ rw (there, good, lane_for_session) (ground arith)
    | inr bad ↦ rw (there, bad, lane_for_session) (omega arith)
  ]
]

lane_map-register_session :
    (lane c sid : ℕ) (s : Server)
    → (register_session lane c s sid).session_lane_map ≡ store sid lane s.session_lane_map
unfolding register_session
lane_map-register_session lane c sid s = ground arith

writers-register_session :
    (lane c sid : ℕ) (s : Server) → (register_session lane c s sid).down_writers ≡ s.down_writers
unfolding register_session
writers-register_session lane c sid s = ground arith

-- A session that is mapped to the lane stays so while others are registered for it.
stays :
    (lane c sid : ℕ) (sids : List ℕ) (s : Server)
    → load sid s.session_lane_map ≡ some lane
    → load sid (register_sessions lane c s sids).session_lane_map ≡ some lane
unfolding register_sessions
stays lane c sid [] s h = h
stays lane c sid (k ∷ sids) s h = stays lane c sid sids (register_session lane c s k) (
    rw (lane_map-register_session lane c k s) (elim (Bool-cases (k == sid)) [
      | inl same ↦ let e : k ≡ sid = ground arith in rw e (load-store sid lane s.session_lane_map)
      | inr other ↦ load-store_ne sid k lane s.session_lane_map (λ e. ground arith) ∙ h
    ]))

registered :
    (lane c : ℕ) (sids : List ℕ) (s : Server)
    → All (λ sid. load sid (register_sessions lane c s sids).session_lane_map ≡ some lane) sids
unfolding register_sessions
registered lane c [] s = tt
registered lane c (k ∷ sids) s = (
  stays lane c k sids (register_session lane c s k)
      (rw (lane_map-register_session lane c k s) (load-store k lane s.session_lane_map)),
  registered lane c sids (register_session lane c s k),
)

writers-register_sessions :
    (lane c : ℕ) (sids : List ℕ) (s : Server)
    → (register_sessions lane c s sids).down_writers ≡ s.down_writers
unfolding register_sessions
writers-register_sessions lane c [] s = refl
writers-register_sessions lane c (k ∷ sids) s =
    writers-register_sessions lane c sids (register_session lane c s k)
    ∙ writers-register_session lane c k s

lanes-join_lane : (lane c : ℕ) (s : Server) → lane_count (join_lane lane c s) ≡ lane_count s
unfolding join_lane set_downstream_conn_for_lane
lanes-join_lane lane c s = elim (Bool-cases (ltb lane (lane_count s))) [
  | inl inside ↦
      rw (inside, join_lane, set_downstream_conn_for_lane)
        (length-modify (set_conn c) lane s.down_writers)
  | inr outside ↦ rw (outside, join_lane, set_downstream_conn_for_lane) refl
]

-- The session's lane is the one it is mapped to.
routed :
    (lane n sid : ℕ) (s : Server)
    → lane < n
    → lane_count s ≡ n
    → load sid s.session_lane_map ≡ some lane
    → lane_for_session sid s ≡ lane
unfolding lane_for_session
routed lane n sid s h e there =
    let inside : ltb lane (lane_count s) ≡ true = ground arith in
    rw (there, inside, lane_for_session) refl

All-map {ℓ κ μ} :
    {A : Type ℓ} {P : A → Type κ} {Q : A → Type μ} (xs : List A)
    → ((a : A) → P a → Q a)
    → All P xs
    → All Q xs
All-map [] f h = tt
All-map (x ∷ xs) f h = (f x h.0, All-map xs f h.1)

lane_for_session-after_join :
    (lane c : ℕ) (sids : List ℕ) (s : Server) (n : ℕ)
    → lane < n
    → lane_count s ≡ n
    → All
        (λ sid. lane_for_session sid (register_sessions lane c (join_lane lane c s) sids) ≡ lane)
        sids
lane_for_session-after_join lane c sids s n inside same =
    let after = register_sessions lane c (join_lane lane c s) sids in
    All-map sids
      (λ sid there.
        routed lane n sid after inside
          (ap length (writers-register_sessions lane c sids (join_lane lane c s))
            ∙ (lanes-join_lane lane c s ∙ same))
          there)
      (registered lane c sids (join_lane lane c s))

ensure_context-lane :
    (c : ℕ) (s : Server)
    → context_lane (load c (ensure_context c s).contexts) ≡ context_lane (load c s.contexts)
unfolding ensure_context context_lane
ensure_context-lane c s = elim (Option-cases (load c s.contexts)) [
  | inl nothing ↦ rw (nothing, ensure_context) (ap context_lane (load-store c none s.contexts))
  | inr (l, there) ↦ rw (there, ensure_context) (rw there refl)
]

lanes-ensure_context : (c : ℕ) (s : Server) → lane_count (ensure_context c s) ≡ lane_count s
unfolding ensure_context
lanes-ensure_context c s = ground arith

-- The branch that such a message takes.
handle_lane_control-register_lem :
    (c : ℕ) (ctrl : LaneControlPayload) (s : Server)
    → ctrl.subtype ≡ subtype_lane_register
    → ctrl.lane_count ≡ lane_count s
    → ctrl.lane_id < lane_count s
    → (context_lane (load c s.contexts) ≡ none)
      ⊎ (context_lane (load c s.contexts) ≡ some ctrl.lane_id)
    → handle_lane_control c (some ctrl) s
      ≡ register_sessions ctrl.lane_id c
          (join_lane ctrl.lane_id c (ensure_context c s))
          ctrl.session_ids
unfolding handle_lane_control handle_register
handle_lane_control-register_lem c ctrl s is_register same_count inside free =
    let counted : (ctrl.lane_count == lane_count s) ≡ true = ground arith in
    let in_range : ltb ctrl.lane_id (lane_count s) ≡ true = ground arith in
    let no_hello : (ctrl.subtype == subtype_hello) ≡ false = ground arith in
    let register : (ctrl.subtype == subtype_lane_register) ≡ true = ground arith in
    let same = ensure_context-lane c s in
    elim free [
      | inl unset ↦
          rw (counted, in_range, no_hello, register, handle_lane_control) (rw (same ∙ unset) refl)
      | inr this ↦
          rw (counted, in_range, no_hello, register, handle_lane_control)
            (rw (same ∙ this, ==_self ctrl.lane_id) refl)
    ]

-- A register message from a connection that is on no lane yet or on the lane it names, with the
-- server's number of lanes and a lane below that: afterwards each session it lists is carried by
-- that lane, whichever lane carried it before.
pub handle_lane_control-register :
    (c : ℕ) (ctrl : LaneControlPayload) (s : Server)
    → ctrl.subtype ≡ subtype_lane_register
    → ctrl.lane_count ≡ lane_count s
    → ctrl.lane_id < lane_count s
    → (context_lane (load c s.contexts) ≡ none)
      ⊎ (context_lane (load c s.contexts) ≡ some ctrl.lane_id)
    → All
        (λ sid. lane_for_session sid (handle_lane_control c (some ctrl) s) ≡ ctrl.lane_id)
        ctrl.session_ids
unfolding handle_lane_control
handle_lane_control-register c ctrl s is_register same_count inside free =
    let s' = ensure_context c s in
    let reached = handle_lane_control-register_lem c ctrl s is_register same_count inside free in
    subst (λ (t : Server). All (λ sid. lane_for_session sid t ≡ ctrl.lane_id) ctrl.session_ids)
      (sym reached)
      (lane_for_session-after_join ctrl.lane_id c ctrl.session_ids s' (lane_count s) inside
        (lanes-ensure_context c s))
