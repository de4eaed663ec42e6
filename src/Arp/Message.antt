-- ===== src/Arp/Message.antt =====
-- The ARP messages that src/arp.c sends, and its tests on those that it receives. A negative
-- result of a sender is `false`; a short write has a result that is not negative.
use ndhc.Common.{ℕ, ◌+◌, Bool, true, false, not, ◌==◌, is_some, if◌then◌else◌, replicate}
use ndhc.Ifchange.Changes.{same_bytes}
use ndhc.Master.Client.{ClientState, Config, ArpMsg}
use ndhc.Master.Ipc.{carrier_isup}
use ndhc.Master.World.{
  M, pure, ◌>>=◌, ◌>>◌, get_cs, get_garp, get_conf, put_garp, emit, ask, curms, arp_sent,
}

-- ETH_P_ARP, ARPHRD_ETHER, ETH_P_IP, ARPOP_REQUEST, ARPOP_REPLY
abbrev pub eth_p_arp : ℕ
eth_p_arp = 0x0806

abbrev pub arphrd_ether : ℕ
arphrd_ether = 1

abbrev pub eth_p_ip : ℕ
eth_p_ip = 0x0800

abbrev pub arpop_request : ℕ
arpop_request = 1

abbrev pub arpop_reply : ℕ
arpop_reply = 2

unfoldable pub arp_send : ArpMsg → M Bool
arp_send arp = do
  cs ← get_cs
  if not (is_some cs.arp_fd) then pure false else (do
    up ← carrier_isup
    if not up
        then pure false
        else (do emit (arp_sent arp); r ← ask (λ e. e.sendto); pure (is_some r)))

-- BASE_ARPMSG, with the addresses that the callers fill in.
abbrev pub base_arpmsg : Config → ℕ → ℕ → ArpMsg
base_arpmsg conf sip4 dip4 = record {
  h_dest = replicate 6 0xff;
  h_source = conf.arp;
  h_proto = eth_p_arp;
  htype = arphrd_ether;
  ptype = eth_p_ip;
  hlen = 6;
  plen = 4;
  operation = arpop_request;
  smac = conf.arp;
  sip4 = sip4;
  dmac = replicate 6 0;
  dip4 = dip4;
}

unfoldable pub arp_ping : ℕ → M Bool
arp_ping test_ip = do
  cs ← get_cs
  conf ← get_conf
  r ← arp_send (base_arpmsg conf cs.client_addr test_ip)
  if not r then pure false else (do
    now ← curms
    garp ← get_garp
    put_garp
        (record garp { sent_gw_ping = record { ts = now; count = garp.sent_gw_ping.count + 1 } })
    pure true)

unfoldable pub arp_ip_anon_ping : ℕ → M Bool
arp_ip_anon_ping test_ip = do
  conf ← get_conf
  r ← arp_send (base_arpmsg conf 0 test_ip)
  if not r then pure false else (do
    now ← curms
    garp ← get_garp
    put_garp (record garp {
      sent_collision_check = record { ts = now; count = garp.sent_collision_check.count + 1 };
    })
    pure true)

unfoldable pub arp_announcement : M Bool
arp_announcement = do
  cs ← get_cs
  conf ← get_conf
  r ← arp_send (base_arpmsg conf cs.client_addr cs.client_addr)
  if not r then pure false else (do
    now ← curms
    garp ← get_garp
    put_garp
        (record garp { sent_announce = record { ts = now; count = garp.sent_announce.count + 1 } })
    pure true)

unfoldable pub arp_validate_bpf : ArpMsg → Bool
arp_validate_bpf am =
    if not (am.h_proto == eth_p_arp)
    then false
    else if not (am.htype == arphrd_ether)
    then false
    else if not (am.ptype == eth_p_ip)
    then false
    else if not (am.hlen == 6)
    then false
    else if not (am.plen == 4)
    then false
    else true

unfoldable pub arp_validate_bpf_defense : Config → ClientState → ArpMsg → Bool
arp_validate_bpf_defense conf cs am =
    if not (am.sip4 == cs.client_addr)
    then false
    else if same_bytes am.smac conf.arp
    then false
    else true

unfoldable pub arp_is_query_reply : Config → ArpMsg → Bool
arp_is_query_reply conf am =
    if not (am.operation == arpop_reply)
    then false
    else if not (same_bytes am.h_dest conf.arp)
    then false
    else if not (same_bytes am.dmac conf.arp)
    then false
    else true
