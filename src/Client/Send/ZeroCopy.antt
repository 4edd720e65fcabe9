-- ===== src/Client/Send/ZeroCopy.antt =====
-- internal/client/client.go, handleUDPZeroCopy against handleUDP.
use t2d.Base.{ℕ, ◌≡◌, refl, List, [], ◌∷◌, Bool, true, false}
use t2d.Client.Sessions.{Sessions}
use t2d.Client.Send.{
  UdpRead, closed, failed, datagram, send_to_upstream, send_zero_copy, handle_udp, handle_udp_all,
}
use t2d.Crypto.{none_cipher, encrypt}

module _ (stripe : Bool) (lanes : ℕ) (unmap : ℕ → ℕ) where
  handle_udp-zero_copy :
      (r : UdpRead) (s : Sessions)
      → handle_udp none_cipher stripe lanes true unmap r s
        ≡ handle_udp none_cipher stripe lanes false unmap r s
  unfolding handle_udp send_to_upstream send_zero_copy encrypt
  handle_udp-zero_copy closed s = refl
  handle_udp-zero_copy failed s = refl
  handle_udp-zero_copy (datagram d) s = refl

  -- With the cipher "none", for any reads and any sessions, with striping or without: handleUDPZeroCopy
  -- leaves the same sessions and counters and gives the same packets to the same lanes as handleUDP.
  pub handle_udp_all-zero_copy :
      (rs : List UdpRead) (s : Sessions)
      → handle_udp_all none_cipher stripe lanes true unmap rs s
        ≡ handle_udp_all none_cipher stripe lanes false unmap rs s
  unfolding handle_udp_all
  handle_udp_all-zero_copy [] s = refl
  handle_udp_all-zero_copy (r ∷ rs) s =
      rw
        (
          handle_udp-zero_copy r s,
          handle_udp_all-zero_copy rs (handle_udp none_cipher stripe lanes false unmap r s).0,
        )
        refl
