-- ===== src/Master/Client.antt =====
-- `struct client_state_t` and `struct client_config_t` of src/ndhc.h, `struct arpMsg`,
-- `struct arp_data` and the timers of src/arp.h.
--
-- A descriptor, and a timer of type `long long`, is `none` where the source holds -1: the source
-- gives them no other negative value. An IP address is the number that its octets stand for.
use ndhc.Common.{ℕ, Bytes, Bool, Option}
use ndhc.Options.Packet.{Dhcpmsg}

pub record ClientState : Type 0 where
  pub lease_start_time : ℕ
  pub renew_time : ℕ
  pub rebind_time : ℕ
  pub dhcp_wake_ts : Option ℕ
  pub if_deconfig : Bool
  pub listen_fd : Option ℕ
  pub arp_fd : Option ℕ
  pub num_dhcp_requests : ℕ
  pub client_addr : ℕ
  pub server_addr : ℕ
  pub src_addr : ℕ
  pub router_addr : ℕ
  pub lease : ℕ
  pub xid : ℕ
  pub router_arp : Bytes
  pub server_arp : Bytes
  pub using_dhcp_bpf : Bool
  pub got_router_arp : Bool
  pub got_server_arp : Bool
  pub arp_is_defense : Bool
  pub check_fingerprint : Bool
  pub program_init : Bool
  pub sent_gw_query : Bool
  pub sent_first_announce : Bool
  pub sent_second_announce : Bool
  pub init_fingerprint_inprogress : Bool

-- `clientid` holds the first `clientid_len` octets; `hostname` and `vendor` are the strings without
-- their terminators. `relentless_def` is the flag of `struct arp_data`, and the `arp_probe_*` are
-- the variables of src/arp.c, which are only set from the configuration.
pub record Config : Type 0 where
  pub clientid : Bytes
  pub hostname : Bytes
  pub vendor : Bytes
  pub arp : Bytes
  pub quit_after_lease : Bool
  pub abort_if_no_lease : Bool
  pub background_if_no_lease : Bool
  pub relentless_def : Bool
  pub arp_probe_wait : ℕ
  pub arp_probe_num : ℕ
  pub arp_probe_min : ℕ
  pub arp_probe_max : ℕ

pub record ArpMsg : Type 0 where
  pub h_dest : Bytes
  pub h_source : Bytes
  pub h_proto : ℕ
  pub htype : ℕ
  pub ptype : ℕ
  pub hlen : ℕ
  pub plen : ℕ
  pub operation : ℕ
  pub smac : Bytes
  pub sip4 : ℕ
  pub dmac : Bytes
  pub dip4 : ℕ

-- `struct arp_stats`
pub record ArpStats : Type 0 where
  pub ts : ℕ
  pub count : ℕ

-- `wake_ts[]`, by the names of `arp_state_t`.
pub record WakeTs : Type 0 where
  pub announce : Option ℕ
  pub collision_check : Option ℕ
  pub query_gw_send : Option ℕ
  pub gw_check : Option ℕ
  pub gw_query : Option ℕ
  pub defense : Option ℕ

-- `send_stats[]`, by the names of `arp_send_t`, are `sent_collision_check`, `sent_gw_ping` and
-- `sent_announce`.
pub record ArpData : Type 0 where
  pub dhcp_packet : Dhcpmsg
  pub reply : ArpMsg
  pub sent_collision_check : ArpStats
  pub sent_gw_ping : ArpStats
  pub sent_announce : ArpStats
  pub wake_ts : WakeTs
  pub last_conflict_ts : ℕ
  pub arp_check_start_ts : ℕ
  pub total_conflicts : ℕ
  pub gw_check_initpings : ℕ
  pub probe_wait_time : ℕ
  pub using_bpf : Bool
  pub router_replied : Bool
  pub server_replied : Bool
