-- ===== src/Arp/Socket.antt =====
-- The ARP socket and the state behind it, of src/arp.c. `false` stands for a result of -1. The
-- descriptors themselves are the kernel's: closing one is forgetting it here.
use ndhc.Common.{
  ℕ, Bool, true, false, not, ◌&&◌, Option, none, [], ◌++◌, ◌==◌, is_some, if◌then◌else◌, be32,
  replicate,
}
use ndhc.Master.Client.{ArpMsg, ArpStats, WakeTs}
use ndhc.Master.Ipc.{request_sockd_fd}
use ndhc.Master.World.{
  M, pure, ◌>>=◌, ◌>>◌, halt, get_cs, get_garp, get_conf, put_cs, put_garp, suicide,
}

unfoldable pub arp_min_close_fd : M (Unit {0})
arp_min_close_fd = do
  cs ← get_cs
  if not (is_some cs.arp_fd)
      then pure tt
      else put_cs (record cs { arp_fd = none; arp_is_defense = false })

abbrev pub no_wake_ts : WakeTs
no_wake_ts = record {
  announce = none;
  collision_check = none;
  query_gw_send = none;
  gw_check = none;
  gw_query = none;
  defense = none;
}

unfoldable pub arp_close_fd : M (Unit {0})
unfolding arp_min_close_fd
arp_close_fd = do arp_min_close_fd; garp ← get_garp; put_garp (record garp { wake_ts = no_wake_ts })

abbrev pub no_arp : ArpMsg
no_arp = record {
  h_dest = replicate 6 0;
  h_source = replicate 6 0;
  h_proto = 0;
  htype = 0;
  ptype = 0;
  hlen = 0;
  plen = 0;
  operation = 0;
  smac = replicate 6 0;
  sip4 = 0;
  dmac = replicate 6 0;
  dip4 = 0;
}

abbrev pub no_stats : ArpStats
no_stats = record { ts = 0; count = 0 }

unfoldable pub arp_reset_state : M (Unit {0})
unfolding arp_close_fd
arp_reset_state = do
  arp_close_fd
  garp ← get_garp
  put_garp (record garp {
    reply = no_arp;
    last_conflict_ts = 0;
    gw_check_initpings = 0;
    arp_check_start_ts = 0;
    total_conflicts = 0;
    probe_wait_time = 0;
    server_replied = false;
    router_replied = false;
    sent_collision_check = no_stats;
    sent_gw_ping = no_stats;
    sent_announce = no_stats;
  })

-- The octet that ndhc-sockd answers says whether a filter is installed.
set_using_bpf : ℕ → ℕ → ℕ → M (Unit {0})
set_using_bpf resp with_bpf without = do
  garp ← get_garp
  if resp == with_bpf
      then put_garp (record garp { using_bpf = true })
      else if resp == without
      then put_garp (record garp { using_bpf = false })
      else halt suicide

unfoldable pub get_arp_basic_socket : M (Option ℕ)
unfolding set_using_bpf
get_arp_basic_socket = do
  r ← request_sockd_fd b'a' [] true
  set_using_bpf r.0 b'A' b'a'
  cs ← get_cs
  put_cs (record cs { arp_is_defense = false })
  pure r.1

unfoldable pub get_arp_defense_socket : M (Option ℕ)
unfolding set_using_bpf
get_arp_defense_socket = do
  cs ← get_cs
  conf ← get_conf
  r ← request_sockd_fd b'd' (be32 cs.client_addr ++ conf.arp) true
  set_using_bpf r.0 b'D' b'd'
  cs' ← get_cs
  put_cs (record cs' { arp_is_defense = true })
  pure r.1

abbrev pub bool_eq : Bool → Bool → Bool
bool_eq true b = b
bool_eq false b = not b

unfoldable pub arp_open_fd : Bool → M Bool
unfolding arp_min_close_fd
arp_open_fd defense = do
  cs ← get_cs
  if is_some cs.arp_fd && bool_eq defense cs.arp_is_defense then pure true else (do
    arp_min_close_fd
    fd ← (if defense then get_arp_defense_socket else get_arp_basic_socket)
    cs' ← get_cs
    put_cs (record cs' { arp_fd = fd })
    pure (is_some fd))

unfoldable pub arp_set_defense_mode : M Bool
arp_set_defense_mode = arp_open_fd true
