-- ===== src/Client/Downstream/Deliver.antt =====
-- internal/client/client.go, handleDownstreamPacket: the replies of one session among those of others.
use mathlib.Core.Option.{some-injective}
use t2d.Base.{
  ℕ, ◌≡◌, ◌≢◌, refl, sym, ap, ◌∙◌, inl, inr, List, [], ◌∷◌, ◌++◌, Bool, false, some, arith, ◌==◌,
  ==_self, Bool-cases, Option-cases, if◌then◌else◌, Result, ok, Result-cases, All, append-nil,
  append_assoc,
}
use t2d.Base.Maps.{load}
use t2d.Protocol.Packet.{packet_type_control, packet_type_heartbeat}
use t2d.Protocol.Stream.{Frame}
use t2d.Protocol.Stream.Carries.{Carries, IsData, nothing, other, own}
use t2d.Client.Receive.{dispatch}
use t2d.Client.Receive.Framing.{dispatch_all}
use t2d.Client.Sessions.{Sessions, Datagram, handle_downstream_packet}
use t2d.Client.Sessions.Invariant.{Inv, Same, Same-Inv}
use t2d.Client.Sessions.Steps.{handle_downstream-found, handle_downstream-Same}
use t2d.Client.Downstream.{Outlet, with_datagram, handle_frame, client_sink}

-- What was written to an address.
abbrev pub datagrams_to : ℕ → List Datagram → List (List ℕ)
datagrams_to addr [] = []
datagrams_to addr (d ∷ ds) =
    if d.to == addr then d.bytes ∷ datagrams_to addr ds else datagrams_to addr ds

datagrams_to-snoc :
    (addr : ℕ) (ds : List Datagram) (d : Datagram)
    → datagrams_to addr (ds ++ (d ∷ []))
      ≡ datagrams_to addr ds ++ (if d.to == addr then d.bytes ∷ [] else [])
datagrams_to-snoc addr [] d = refl
datagrams_to-snoc addr (x ∷ ds) d = elim (Bool-cases (x.to == addr)) [
  | inl hit ↦ rw hit (ap (◌∷◌ x.bytes) (datagrams_to-snoc addr ds d))
  | inr miss ↦ rw miss (datagrams_to-snoc addr ds d)
]

-- A session of the number has the address.
pub record Reaches (sid addr : ℕ) (s : Sessions) : Type 0 where
  pub inv : Inv s
  pub at : ℕ
  pub there : load sid s.sessions_by_id ≡ some at
  pub address : (s.objects at).remote_addr_port ≡ addr

module _ {E : Type 0} (decrypt : List ℕ → Result E (List ℕ)) (writes : Datagram → Bool)
    (clock : List Datagram → ℕ) where
  Same-Reaches :
      {sid addr : ℕ} {s t : Sessions} → Same s t → Reaches sid addr s → Reaches sid addr t
  Same-Reaches {sid} e v = record {
    inv = Same-Inv e v.inv;
    at = v.at;
    there = ap (load sid) e.sessions_by_id ∙ v.there;
    address = e.address v.at ∙ v.address;
  }

  handle_frame-Reaches :
      {sid addr : ℕ} (s : Sessions) (ds : List Datagram) (f : Frame)
      → Reaches sid addr s
      → Reaches sid addr (handle_frame decrypt writes clock (s, ds) f).0
  unfolding handle_frame
  handle_frame-Reaches s ds f v =
      Same-Reaches (handle_downstream-Same decrypt writes f.header f.payload (clock ds) s) v

  handle_frame_own :
      {sid addr : ℕ} (s : Sessions) (ds : List Datagram) (f : Frame) {bytes : List ℕ}
      → IsData f
      → f.header.session_id ≡ sid
      → decrypt f.payload ≡ ok bytes
      → Reaches sid addr s
      → datagrams_to addr (handle_frame decrypt writes clock (s, ds) f).1
        ≡ datagrams_to addr ds ++ (bytes ∷ [])
  unfolding handle_frame with_datagram
  handle_frame_own {sid} {addr} s ds f {bytes} data_type this good v =
      let there : load f.header.session_id s.sessions_by_id ≡ some v.at =
        ap (λ i. load i s.sessions_by_id) this ∙ v.there in
      let d : Datagram = record { bytes = bytes; to = (s.objects v.at).remote_addr_port } in
      rw
        (handle_downstream-found decrypt writes f.header f.payload (clock ds) s
          (ground (arith, data_type)) good there)
        (datagrams_to-snoc addr ds d ∙ rw (v.address, ==_self addr) refl)

  handle_frame-other :
      {sid addr : ℕ} (s : Sessions) (ds : List Datagram) (f : Frame)
      → IsData f
      → f.header.session_id ≢ sid
      → Reaches sid addr s
      → datagrams_to addr (handle_frame decrypt writes clock (s, ds) f).1 ≡ datagrams_to addr ds
  unfolding handle_frame with_datagram handle_downstream_packet
  handle_frame-other {sid} {addr} s ds f data_type apart v =
      let beat : (f.header.type == packet_type_heartbeat) ≡ false = ground (arith, data_type) in
      elim (Result-cases (decrypt f.payload)) [
        | inl (e, bad) ↦ rw (beat, bad) refl
        | inr (bytes, good) ↦ elim (Option-cases (load f.header.session_id s.sessions_by_id)) [
          | inl absent ↦ rw (beat, good, absent) refl
          | inr (q, there) ↦
              let d : Datagram = record { bytes = bytes; to = (s.objects q).remote_addr_port } in
              let theirs = v.inv.bwd f.header.session_id q there in
              let mine = v.inv.bwd sid v.at v.there in
              let elsewhere : (d.to == addr) ≡ false = elim (Bool-cases (d.to == addr)) [
                | inr miss ↦ miss
                | inl hit ↦
                    let same : d.to ≡ addr = ground arith in
                    let one : q ≡ v.at = some-injective q v.at (
                      sym theirs.1 ∙ ap (λ a. load a s.sessions) (same ∙ sym v.address) ∙ mine.1) in
                    absurd (apart (sym theirs.0 ∙ ap (λ i. (s.objects i).session_id) one ∙ mine.0))
              ] in
              rw
                (handle_downstream-found decrypt writes f.header f.payload (clock ds) s beat good
                  there)
                (datagrams_to-snoc addr ds d ∙ rw elsewhere (append-nil (datagrams_to addr ds)))
        ]
      ]

  dispatch_data :
      (c : Outlet) (f : Frame)
      → IsData f
      → dispatch (client_sink decrypt writes clock) c f ≡ handle_frame decrypt writes clock c f
  unfolding dispatch client_sink
  dispatch_data c f data_type =
      let no : (f.header.type == packet_type_control) ≡ false = ground (arith, data_type) in
      rw no refl

  -- Frames that carry a session's replies, among those of other sessions.
  pub dispatch_all-carried :
      {sid seq addr : ℕ} (fs : List Frame) {rs : List (List ℕ)} (s : Sessions) (ds : List Datagram)
      → Carries decrypt sid seq fs rs
      → All IsData fs
      → Reaches sid addr s
      → datagrams_to addr (dispatch_all (client_sink decrypt writes clock) (s, ds) fs).1
        ≡ datagrams_to addr ds ++ rs
  dispatch_all-carried {addr = addr} [] s ds nothing all v = sym (append-nil (datagrams_to addr ds))
  dispatch_all-carried {addr = addr} (f ∷ fs) {rs} s ds (other apart c) all v =
      let (s', ds') = handle_frame decrypt writes clock (s, ds) f in
      ap (λ x. datagrams_to addr (dispatch_all (client_sink decrypt writes clock) x fs).1)
        (dispatch_data (s, ds) f all.0)
      ∙ (dispatch_all-carried fs s' ds' c all.1 (handle_frame-Reaches s ds f v)
          ∙ ap (λ x. x ++ rs) (handle_frame-other s ds f all.0 apart v))
  dispatch_all-carried {addr = addr} (f ∷ fs) s ds (own {d = r} {ds = rs} this number good c) all
        v =
      let (s', ds') = handle_frame decrypt writes clock (s, ds) f in
      ap (λ x. datagrams_to addr (dispatch_all (client_sink decrypt writes clock) x fs).1)
        (dispatch_data (s, ds) f all.0)
      ∙ (dispatch_all-carried fs s' ds' c all.1 (handle_frame-Reaches s ds f v)
          ∙ ap (λ x. x ++ rs) (handle_frame_own s ds f all.0 this good v)
          ∙ append_assoc (datagrams_to addr ds) (r ∷ []) rs)
