-- ===== src/Sockd/Sockets.antt =====
-- The functions of src/sockd.c that open sockets. A descriptor, or -1, is `true` or `false`.
use ndhc.Common.{ℕ, Bytes, Bool, true, false, not, Option, none, some, [], ◌∷◌, if◌then◌else◌}
use ndhc.Common.Process.{pure, ◌>>=◌, get}
use ndhc.Sockd.ArpFilters.{arp_set_bpf_basic, arp_set_bpf_defense}
use ndhc.Sockd.Bpf.{
  Program, ld, ld_ind, ldx_msh, jeq, jset, jeq_x, sub, tax, st, ld_mem, ret, ret_a,
}
use ndhc.Sockd.World.{
  Address, sockaddr_ll, sockaddr_in, socket_arp, socket_udp, socket_raw, so_broadcast, so_reuseaddr,
  so_dontroute, so_bindtodevice, so_lock_filter, so_attach_filter, set_nonblock, bind, close, S,
  call,
}

-- ETH_P_ARP, ETH_P_IP, DHCP_CLIENT_PORT
abbrev eth_p_arp : ℕ
eth_p_arp = 0x0806

abbrev eth_p_ip : ℕ
eth_p_ip = 0x0800

abbrev dhcp_client_port : ℕ
dhcp_client_port = 68

-- The label `out_fd`.
abbrev out_fd : S Bool
out_fd = do closed ← call close; pure false

unfoldable pub create_arp_socket : S Bool
create_arp_socket = do
  fd ← call socket_arp
  if not fd then pure false else (do
    b ← call so_broadcast
    if not b then out_fd else (do
      n ← call set_nonblock
      if not n then out_fd else (do
        w ← get
        r ← call (bind (sockaddr_ll eth_p_arp w.ifindex false))
        if not r then out_fd else pure true)))

unfoldable pub create_udp_socket : Bytes → S Bool
create_udp_socket ip = do
  fd ← call socket_udp
  if not fd then pure false else (do
    u ← call so_reuseaddr
    if not u then out_fd else (do
      d ← call so_dontroute
      if not d then out_fd else (do
        i ← call so_bindtodevice
        if not i then out_fd else (do
          n ← call set_nonblock
          if not n then out_fd else (do
            r ← call (bind (sockaddr_in ip dhcp_client_port))
            if not r then out_fd else pure true)))))

-- `using_bpf`, where there is a program.
unfoldable pub attach_filter : Option Program → S Bool
attach_filter none = pure false
attach_filter (some prog) = do
  attached ← call (so_attach_filter prog)
  if attached then call so_lock_filter else pure false

-- The descriptor, and `using_bpf`.
unfoldable pub create_raw_socket : Address → Option Program → S (Bool × Bool)
unfolding attach_filter
create_raw_socket sa filter_prog = do
  fd ← call socket_raw
  if not fd then pure (false, false) else (do
    using_bpf ← attach_filter filter_prog
    d ← call so_dontroute
    if not d then (do closed ← call close; pure (false, using_bpf)) else (do
      n ← call set_nonblock
      if not n then (do closed ← call close; pure (false, using_bpf)) else (do
        r ← call (bind sa)
        if not r
            then (do closed ← call close; pure (false, using_bpf))
            else pure (true, using_bpf))))

-- `sf_dhcp`; the ports are (DHCP_SERVER_PORT << 16) + DHCP_CLIENT_PORT.
unfoldable pub sf_dhcp : Program
sf_dhcp =
    ld 1 0
    ∷ jeq 0x45 1 0
    ∷ ret 0
    ∷ ld 1 9
    ∷ jeq 17 1 0
    ∷ ret 0
    ∷ ld 2 6
    ∷ jset 0x3fff 0 1
    ∷ ret 0
    ∷ ldx_msh 0
    ∷ ld_ind 4 0
    ∷ jeq 0x00430044 1 0
    ∷ ret 0
    ∷ ld_ind 2 4
    ∷ tax
    ∷ ld 2 2
    ∷ st
    ∷ sub 20
    ∷ jeq_x 1 0
    ∷ ret 0
    ∷ ld_mem
    ∷ ret_a
    ∷ []

unfoldable pub create_raw_listen_socket : S (Bool × Bool)
create_raw_listen_socket = do
  w ← get
  create_raw_socket (sockaddr_ll eth_p_ip w.ifindex false) (some sf_dhcp)

unfoldable pub create_raw_broadcast_socket : S Bool
create_raw_broadcast_socket = do
  w ← get
  r ← create_raw_socket (sockaddr_ll eth_p_ip w.ifindex true) none
  pure r.0

-- The comparison with -1 makes `ret` 0 or 1, so that the test of `ret` never fails: the result is that
-- of the second call.
unfoldable pub arp_set_bpf : Program → S Bool
arp_set_bpf prog = do attached ← call (so_attach_filter prog); call so_lock_filter

unfoldable pub create_arp_defense_socket : (Bytes → ℕ) → Bytes → Bytes → S (Bool × Bool)
create_arp_defense_socket native client_addr client_mac = do
  fd ← create_arp_socket
  using_bpf ← arp_set_bpf (arp_set_bpf_defense native client_addr client_mac)
  pure (fd, using_bpf)

unfoldable pub create_arp_basic_socket : S (Bool × Bool)
create_arp_basic_socket = do
  fd ← create_arp_socket
  using_bpf ← arp_set_bpf arp_set_bpf_basic
  pure (fd, using_bpf)
