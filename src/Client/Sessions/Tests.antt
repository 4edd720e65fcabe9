-- ===== src/Client/Sessions/Tests.antt =====
-- Two applications on a client with two downstream lanes, one of which goes silent.
use t2d.Base.{ℕ, ◌%◌, ◌≡◌, refl, List, [], ◌∷◌, Bool, true, some, Result, ok, err, arith}
use t2d.Base.Int.{pos}
use t2d.Base.Maps.{load, store, erase, modify}
use t2d.Protocol.Packet.{PacketHeader, new_data_packet}
use t2d.Session.{new_udp_session_addr_port, update_last_active, is_expired}
use t2d.Stats.{new}
use t2d.Client.Sessions.{
  Sessions, Datagram, Event, arrives, numbers, expires, get_or_create_session, create_session,
  update_object, register_session_on_lane, lane_for_session, offer, remove_session, remove_sessions,
  expired_keys, cleanup_sessions, handle_downstream_packet, step, run, new_sessions,
}
use t2d.Client.Sessions.Routing.{arrived, run-reply}
use t2d.Client.Sessions.Count.{Counted, run-Counted}

-- The high half of an address is dropped, as Unmap does with the prefix of a mapped IPv4 address.
abbrev unmap : ℕ → ℕ
unmap addr = addr % 65536

-- Bodies are sent in clear, and an empty one does not decrypt.
abbrev decrypt : List ℕ → Result ℕ (List ℕ)
decrypt [] = err 0
decrypt (x ∷ xs) = ok (x ∷ xs)

abbrev all_written : Datagram → Bool
all_written d = true

abbrev two_lanes : List (List ℕ)
two_lanes = [] ∷ [] ∷ []

-- The first application, which is removed, and comes back.
abbrev before : List Event
before = arrives 500 10 ∷ expires 500 ∷ arrives 500 20 ∷ []

-- Another one arrives and is removed, and the first sends under its mapped address.
abbrev after : List Event
after = arrives 600 40 ∷ numbers 0 ∷ expires 600 ∷ arrives 66036 50 ∷ []

abbrev reply : PacketHeader
unfolding new_data_packet
reply = new_data_packet 3 1 2

run-reply_example :
    (handle_downstream_packet decrypt all_written reply (8 ∷ 9 ∷ []) 60 (
      run unmap decrypt all_written
        (arrived unmap decrypt all_written two_lanes (new 0) before 700 30).0
        after)).1
    ≡ some (record { bytes = 8 ∷ 9 ∷ []; to = 700 })
unfolding run step get_or_create_session create_session update_object remove_session
    register_session_on_lane new_sessions load store erase modify new_udp_session_addr_port new
    new_data_packet
run-reply_example =
    run-reply unmap decrypt all_written two_lanes (new 0) before after 700 30 60 reply (8 ∷ 9 ∷ [])
      (8 ∷ 9 ∷ []) (omega arith) (refl, (refl, (refl, (refl, tt)))) refl refl refl

run-Counted_example :
    Counted (run unmap decrypt all_written (new_sessions two_lanes (new 0)) before)
run-Counted_example = run-Counted unmap decrypt all_written two_lanes 0 before (omega arith)

-- The session that was last active at 20 is removed after more than 300, and the lanes have been
-- told its two numbers.
abbrev cleaned : Sessions
unfolding run step get_or_create_session cleanup_sessions
cleaned =
    cleanup_sessions (pos 300) 321
      (run unmap decrypt all_written (new_sessions two_lanes (new 0)) before)

cleaned_up : (cleaned.sessions ≡ []) × (cleaned.register_chs ≡ (2 ∷ []) ∷ (1 ∷ []) ∷ [])
unfolding run step get_or_create_session create_session update_object remove_session remove_sessions
    expired_keys cleanup_sessions register_session_on_lane offer lane_for_session new_sessions load
    store erase modify new_udp_session_addr_port update_last_active is_expired new
cleaned_up = (refl, refl)
