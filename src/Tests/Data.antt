-- ===== src/Tests/Data.antt =====
-- The packets, the configuration and the state of the tests.
use ndhc.Common.{ℕ, Bytes, true, false, none, some, List, [], ◌∷◌, ◌++◌, replicate, refl, arith}
use ndhc.Arp.Socket.{no_wake_ts, no_arp, no_stats}
use ndhc.Dhcp.Build.{blank}
use ndhc.Dhcp.Contents.{IsConfig}
use ndhc.Master.Client.{ClientState, Config, ArpMsg, ArpData}
use ndhc.Master.World.{reply, answer, Env, World}
use ndhc.Options.Dcode
use ndhc.Options.Items.{Item, opt, encode, Holds}
use ndhc.Options.MsgType
use ndhc.Options.Packet.{Dhcpmsg, HasSizes, options_size, file_size, sname_size}
use ndhc.State.Result.{Inputs, signal_none}

-- An offer of 192.168.1.7 for an hour.
abbrev pub offer_items : List Item
offer_items =
    opt Dcode.msgtype (2 ∷ [])
    ∷ opt Dcode.server_id (192 ∷ 168 ∷ 1 ∷ 1 ∷ [])
    ∷ opt Dcode.leaset (0 ∷ 0 ∷ 14 ∷ 16 ∷ [])
    ∷ []

abbrev pub offer : Dhcpmsg
offer = record (blank 7) {
  yiaddr = 0xc0a80107;
  options = encode offer_items ++ (Dcode.end ∷ replicate 292 0);
}

pub offer-Holds : Holds options_size offer.options offer_items
offer-Holds = record {
  valid =
      ((omega arith, omega arith), ((omega arith, omega arith), ((omega arith, omega arith), tt)));
  rest = replicate 292 0;
  layout = refl;
  fits = refl;
}

pub offer-HasSizes : HasSizes offer
unfolding blank
offer-HasSizes = record { options_length = refl; file_length = refl; sname_length = refl }

-- Options in all three fields.
abbrev pub long_items : List Item
long_items = opt Dcode.overload (3 ∷ []) ∷ opt Dcode.dns (10 ∷ 0 ∷ []) ∷ []

abbrev pub file_items : List Item
file_items = opt Dcode.dns (0 ∷ []) ∷ []

abbrev pub sname_items : List Item
sname_items = opt Dcode.dns (1 ∷ []) ∷ []

abbrev pub overloaded : Dhcpmsg
overloaded = record (blank 7) {
  options = encode long_items ++ (Dcode.end ∷ replicate 300 0);
  file = encode file_items ++ (Dcode.end ∷ replicate 124 0);
  sname = encode sname_items ++ (Dcode.end ∷ replicate 60 0);
}

pub long-Holds : Holds options_size overloaded.options long_items
long-Holds = record {
  valid = ((omega arith, omega arith), ((omega arith, omega arith), tt));
  rest = replicate 300 0;
  layout = refl;
  fits = refl;
}

pub file-Holds : Holds file_size overloaded.file file_items
file-Holds = record {
  valid = ((omega arith, omega arith), tt);
  rest = replicate 124 0;
  layout = refl;
  fits = refl;
}

pub sname-Holds : Holds sname_size overloaded.sname sname_items
sname-Holds = record {
  valid = ((omega arith, omega arith), tt);
  rest = replicate 60 0;
  layout = refl;
  fits = refl;
}

abbrev pub our_arp : Bytes
our_arp = 2 ∷ 0 ∷ 0 ∷ 0 ∷ 0 ∷ 1 ∷ []

abbrev pub conf : Config
conf = record {
  clientid = 1 ∷ our_arp;
  hostname = b'h' ∷ [];
  vendor = [];
  arp = our_arp;
  quit_after_lease = false;
  abort_if_no_lease = false;
  background_if_no_lease = false;
  relentless_def = false;
  arp_probe_wait = 1000;
  arp_probe_num = 3;
  arp_probe_min = 1000;
  arp_probe_max = 2000;
}

pub conf-IsConfig : IsConfig conf
conf-IsConfig = record {
  arp_length = refl;
  clientid_length = omega arith;
  hostname_length = omega arith;
  vendor_length = omega arith;
}

-- Bound at 1000 for an hour.
abbrev pub cs : ClientState
cs = record {
  lease_start_time = 1000;
  renew_time = 1800;
  rebind_time = 3150;
  dhcp_wake_ts = some 1801000;
  if_deconfig = false;
  listen_fd = none;
  arp_fd = some 5;
  num_dhcp_requests = 0;
  client_addr = 0xc0a80107;
  server_addr = 0xc0a80101;
  src_addr = 0xc0a80101;
  router_addr = 0xc0a80101;
  lease = 3600;
  xid = 7;
  router_arp = 2 ∷ 0 ∷ 0 ∷ 0 ∷ 0 ∷ 9 ∷ [];
  server_arp = 2 ∷ 0 ∷ 0 ∷ 0 ∷ 0 ∷ 9 ∷ [];
  using_dhcp_bpf = true;
  got_router_arp = true;
  got_server_arp = true;
  arp_is_defense = true;
  check_fingerprint = false;
  program_init = false;
  sent_gw_query = true;
  sent_first_announce = true;
  sent_second_announce = true;
  init_fingerprint_inprogress = false;
}

-- A reply that claims the offered address.
abbrev pub claim : Bytes → ArpMsg
claim smac = record no_arp {
  h_dest = our_arp;
  h_source = smac;
  h_proto = 0x806;
  htype = 1;
  ptype = 0x800;
  hlen = 6;
  plen = 4;
  operation = 2;
  smac = smac;
  sip4 = 0xc0a80107;
  dmac = our_arp;
}

abbrev pub garp : Bytes → ℕ → ArpData
garp smac last_conflict_ts = record {
  dhcp_packet = offer;
  reply = claim smac;
  sent_collision_check = record { ts = 900; count = 3 };
  sent_gw_ping = no_stats;
  sent_announce = no_stats;
  wake_ts = record no_wake_ts { collision_check = some 2000; announce = some 4000 };
  last_conflict_ts = last_conflict_ts;
  arp_check_start_ts = 900;
  total_conflicts = 0;
  gw_check_initpings = 0;
  probe_wait_time = 0;
  using_bpf = true;
  router_replied = false;
  server_replied = false;
}

-- ndhc-sockd answers `c` with a descriptor, every command succeeds, and the time is `now`.
abbrev env : ℕ → ℕ → Env
env c now = record {
  now = λ _. now;
  random = λ _. 12345;
  sockd = λ _. reply c (some 9);
  ifch = λ _. answer (b'+' ∷ []);
  connect = λ _. true;
  sendto = λ _. some 300;
  patience = 10;
}

abbrev pub world : ℕ → ArpData → ℕ → World
world c g now = record {
  cs = cs;
  garp = g;
  cfg_packet = offer;
  conf = conf;
  env = env c now;
  tick = 0;
  trace = [];
}

abbrev pub other_arp : Bytes
other_arp = 2 ∷ 0 ∷ 0 ∷ 0 ∷ 0 ∷ 2 ∷ []

-- No event at 2000.
abbrev pub quiet : Inputs
quiet = record {
  nowts = 2000;
  sev_dhcp = false;
  dhcp_packet = offer;
  dhcp_msgtype = MsgType.offer;
  dhcp_srcaddr = 0;
  sev_arp = false;
  force_fingerprint = false;
  dhcp_timeout = false;
  arp_timeout = false;
  sev_signal = signal_none;
}
