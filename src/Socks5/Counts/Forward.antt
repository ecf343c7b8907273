-- ===== src/Socks5/Counts/Forward.antt =====
-- Which packets the UDP server of a user passes on.
use titan_ipoverlay.Prelude.{
  ◌<◌, ◌≡◌, refl, false, Option, none, some, leb, arith, Bool-cases, inl, inr,
}
use titan_ipoverlay.Prelude.Str.{Str}
use titan_ipoverlay.Prelude.Exec.{Result, ok, err}
use titan_ipoverlay.Socks5.Conn.{Error, auth_failed}
use titan_ipoverlay.Socks5.Ip
use titan_ipoverlay.Socks5.Ip.{Net}
use titan_ipoverlay.Socks5.Datagram.{new_datagram_from_bytes, Datagram}
use titan_ipoverlay.Socks5.Counts.{
  get, UdpServer, Server, key_user_ip_count, UdpCall, to_allowed, to_dest, handle_udp_conn,
}
use titan_ipoverlay.Socks5.Counts.Effects.{Opens, of_key}
use titan_ipoverlay.Socks5.Counts.Associations.{Reach, Reach-Inv}

module _ (net : Net) (resolve : Str → Option Str) where
  -- A call names the server's user and id, and its destination resolves to an allowed address.
  abbrev pub Forwards : UdpServer → UdpCall → Type 0
  Forwards udp call =
      (call.user_name ≡ udp.user)
      × (call.server_id ≡ udp.id)
      × ((ip : Str) × (resolve call.dest ≡ some ip) × (Ip.forbidden_ip ip ≡ false))

  to_allowed-Forwards :
      (udp : UdpServer) (src dest payload : Str) (o : Option Str) (call : UdpCall)
      → resolve dest ≡ o
      → to_allowed net resolve udp src dest payload o ≡ ok call
      → Forwards udp call
  unfolding to_allowed
  to_allowed-Forwards udp src dest payload none call e h = cc
  to_allowed-Forwards udp src dest payload (some ip) call e h =
      (ground arith, ground arith, (ip, ground arith, ground arith))

  to_dest-Forwards :
      (udp : UdpServer) (src : Str) (r : Result Error Datagram) (call : UdpCall)
      → to_dest net resolve udp src r ≡ ok call
      → Forwards udp call
  unfolding to_dest
  to_dest-Forwards udp src (err e) call h = cc
  to_dest-Forwards udp src (ok d) call h =
      to_allowed-Forwards udp src _ d.payload (resolve _) call refl h

  -- A datagram is forwarded only if its sender has an open association with the user of the server
  -- that it came to (or one that makes the same key), and only to an address that is not a
  -- loopback, private or multicast one.
  pub handle_udp_conn-associated :
      (s : Server) (os : Opens) (udp : UdpServer) (src_ip src payload : Str) (call : UdpCall)
      → Reach s os
      → handle_udp_conn net resolve s udp src_ip src payload ≡ ok call
      → (0 < of_key (key_user_ip_count udp.user src_ip) os) × Forwards udp call
  unfolding handle_udp_conn
  handle_udp_conn-associated s os udp src_ip src payload call r h =
      let k = key_user_ip_count udp.user src_ip in
      let exact = (Reach-Inv s os r).by_key k in
      elim (Bool-cases (leb (get k s.user_ip) 0)) [
        | inl shut ↦ absurd (refused (rw shut at h))
        | inr open' ↦ (
          ground arith,
          to_dest-Forwards udp src (new_datagram_from_bytes payload) call (rw open' at h),
        )
      ]
    where
      refused : ◌≡◌ {A = Result Error UdpCall} (err auth_failed) (ok call) → ⊥
      refused e = cc
