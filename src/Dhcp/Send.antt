-- ===== src/Dhcp/Send.antt =====
-- The sockets and the senders of src/dhcp.c. A result below zero is `none`: the callers do not
-- tell such results apart.
use ndhc.Common.{
  ℕ, ◌+◌, ◌-◌, true, false, not, Option, none, some, [], ◌==◌, ltb, is_some, if◌then◌else◌, be32,
}
use ndhc.Dhcp.Build.{
  discover_packet, selecting_packet, renew_packet, rebind_packet, decline_packet, release_packet,
}
use ndhc.Master.Ipc.{request_sockd_fd, carrier_isup}
use ndhc.Master.World.{
  M, pure, ◌>>=◌, ◌>>◌, halt, checked, get_cs, get_conf, put_cs, emit, ask, nk_random_u32,
  broadcast, unicast, suicide,
}
use ndhc.Options.Packet.{Dhcpmsg, options_size, dhcpmsg_size, ip_udp_dhcp_packet_size}
use ndhc.Options.Scan.{get_end_option_idx}

unfoldable pub get_udp_unicast_socket : M (Option ℕ)
get_udp_unicast_socket = do
  cs ← get_cs
  r ← request_sockd_fd b'u' (be32 cs.client_addr) false
  pure r.1

unfoldable pub get_raw_broadcast_socket : M (Option ℕ)
get_raw_broadcast_socket = do r ← request_sockd_fd b's' [] false; pure r.1

unfoldable pub get_raw_listen_socket : M (Option ℕ)
get_raw_listen_socket = do
  r ← request_sockd_fd b'L' [] true
  cs ← get_cs
  if r.0 == b'L'
      then (do put_cs (record cs { using_dhcp_bpf = true }); pure r.1)
      else if r.0 == b'l'
      then (do put_cs (record cs { using_dhcp_bpf = false }); pure r.1)
      else halt suicide

-- The length of a payload that is cut behind its end marker, if there is one and it is valid.
unfoldable pub payload_length : Option ℕ → Option ℕ
payload_length none = none
payload_length (some endloc) =
    let el = endloc + 1 in
    if ltb options_size el then none else some (dhcpmsg_size - (options_size - el))

unfoldable pub send_dhcp_unicast : Dhcpmsg → M (Option ℕ)
send_dhcp_unicast payload = do
  fd ← get_udp_unicast_socket
  if not (is_some fd) then pure none else (do
    connected ← ask (λ e. e.connect)
    if not connected then pure none else (do
      endloc ← checked (get_end_option_idx payload)
      elim (payload_length endloc) [
        | none ↦ pure none
        | some payload_len ↦ do
          up ← carrier_isup
          cs ← get_cs
          if not up
              then pure none
              else (do emit (unicast cs.server_addr payload payload_len); ask (λ e. e.sendto))
      ]))

-- The IP and UDP headers that go before the payload add 28 octets to its length.
unfoldable pub send_dhcp_raw : Dhcpmsg → M (Option ℕ)
send_dhcp_raw payload = do
  fd ← get_raw_broadcast_socket
  if not (is_some fd) then pure none else (do
    endloc ← checked (get_end_option_idx payload)
    elim (payload_length endloc) [
      | none ↦ pure none
      | some payload_len ↦ do
        up ← carrier_isup
        if not up then pure none else (do
          emit (broadcast payload (payload_len + (ip_udp_dhcp_packet_size - dhcpmsg_size)))
          ask (λ e. e.sendto))
    ])

unfoldable pub start_dhcp_listen : M (Unit {0})
start_dhcp_listen = do
  cs ← get_cs
  if is_some cs.listen_fd then pure tt else (do
    fd ← get_raw_listen_socket
    cs' ← get_cs
    put_cs (record cs' { listen_fd = fd })
    if is_some fd then pure tt else halt suicide)

unfoldable pub stop_dhcp_listen : M (Unit {0})
stop_dhcp_listen = do
  cs ← get_cs
  if is_some cs.listen_fd then put_cs (record cs { listen_fd = none }) else pure tt

unfoldable pub send_discover : M (Option ℕ)
send_discover = do
  cs ← get_cs
  conf ← get_conf
  packet ← checked (discover_packet conf cs.xid cs.client_addr)
  send_dhcp_raw packet

unfoldable pub send_selecting : M (Option ℕ)
send_selecting = do
  cs ← get_cs
  conf ← get_conf
  packet ← checked (selecting_packet conf cs.xid cs.client_addr cs.server_addr)
  send_dhcp_raw packet

unfoldable pub send_renew : M (Option ℕ)
send_renew = do
  cs ← get_cs
  conf ← get_conf
  packet ← checked (renew_packet conf cs.xid cs.client_addr)
  send_dhcp_unicast packet

unfoldable pub send_rebind : M (Option ℕ)
send_rebind = do
  cs ← get_cs
  conf ← get_conf
  packet ← checked (rebind_packet conf cs.xid cs.client_addr)
  send_dhcp_raw packet

unfoldable pub send_decline : ℕ → M (Option ℕ)
send_decline server = do
  cs ← get_cs
  conf ← get_conf
  packet ← checked (decline_packet conf cs.xid cs.client_addr server)
  send_dhcp_raw packet

unfoldable pub send_release : M (Option ℕ)
send_release = do
  cs ← get_cs
  conf ← get_conf
  xid ← nk_random_u32
  packet ← checked (release_packet conf xid cs.client_addr cs.server_addr)
  send_dhcp_unicast packet
