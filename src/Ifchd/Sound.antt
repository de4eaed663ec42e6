-- ===== src/Ifchd/Sound.antt =====
-- The functions of src/ifset.c and src/ifchd.c keep the invariant.
use ndhc.Common.{
  ℕ, ◌-◌, ◌%◌, ◌^◌, Bytes, Bool, Option, none, some, ◌≡◌, refl, get_elem?-lt, bit_and, arith,
}
use ndhc.Common.Process.{pure, checked}
use ndhc.Ifchd.Address.{
  rtnl_addr_broadcast_send, ipbcpfx_clear_others_do, ipbcpfx_clear_others, perform_ip_subnet_bcast,
  IpBcPfx, Cleared, all_cleared, already_there, request_failed, answer_failed, walk_failed,
  after_clear, bring_up, set_address, clear_and_set, bcast_of,
}
use ndhc.Ifchd.Keeps.{
  Concerns, Keeps, Keeps-bind, Keeps-pure, Keeps-ask, Keeps-if, Keeps-option, Keeps-recv_loop,
  Keeps-rtnl_do_send, Keeps-nl_sendgetlink, Keeps-nl_sendgetaddr4,
}
use ndhc.Ifchd.Links.{
  link_flags_get_do, link_flags_get, perform_carrier, rtnl_if_flags_send, link_set_flags,
  perform_ifup, rtnl_if_mtu_set, perform_mtu, default_gw_message, rtnl_set_default_gw_v4,
  perform_router,
}
use ndhc.Ifchd.Netlink.{nl_add_rtattr, rtnl_do_send, rtm_setlink}
use ndhc.Ifchd.Numbers.{trailz, subnet4_to_prefixlen, bpm37, inet_pton}
use ndhc.Ifchd.World.{already, failed, fatal, NlMsg, ask}

module _ (i : ℕ) where
  link_flags_get-Keeps : Keeps i link_flags_get
  unfolding link_flags_get link_flags_get_do Keeps
  link_flags_get-Keeps w h = grind (arith, Keeps-nl_sendgetlink, Keeps-recv_loop)

  pub perform_carrier-Keeps : Keeps i perform_carrier
  unfolding perform_carrier Keeps
  perform_carrier-Keeps w h = grind (arith, link_flags_get-Keeps)

  rtnl_if_flags_send-Keeps : (type flags : ℕ) → Keeps i (rtnl_if_flags_send type flags)
  unfolding rtnl_if_flags_send Keeps
  rtnl_if_flags_send-Keeps type flags w h = grind (arith, Keeps-rtnl_do_send)

  link_set_flags-Keeps : (flags : ℕ) → Keeps i (link_set_flags flags)
  unfolding link_set_flags
  link_set_flags-Keeps flags = Keeps-bind i link_flags_get _ (link_flags_get-Keeps) (λ r.
      Keeps-option i r _ _ (Keeps-pure i failed)
        (λ old. Keeps-if i _ _ _ (Keeps-pure i already) (rtnl_if_flags_send-Keeps rtm_setlink _)))

  perform_ifup-Keeps : Keeps i perform_ifup
  unfolding perform_ifup Keeps
  perform_ifup-Keeps w h = grind (arith, link_set_flags-Keeps)

  -- The message of a request with the interface's index concerns the interface.
  rtnl_if_mtu_set-Keeps : (mtu : ℕ) → Keeps i (rtnl_if_mtu_set mtu)
  unfolding rtnl_if_mtu_set Keeps nl_add_rtattr
  rtnl_if_mtu_set-Keeps mtu = Keeps-bind i link_flags_get _ link_flags_get-Keeps (λ r.
      Keeps-option i r _ _ (Keeps-pure i failed) (λ old w h. grind (arith, Keeps-rtnl_do_send)))

  pub perform_mtu-Keeps : (str : Bytes) → Keeps i (perform_mtu str)
  unfolding perform_mtu Keeps
  perform_mtu-Keeps str w h = grind (arith, rtnl_if_mtu_set-Keeps)

  -- The default route is one over the interface.
  default_gw_message-Concerns :
      (seq ifindex gw4 metric : ℕ) (msg : NlMsg)
      → default_gw_message seq ifindex gw4 metric ≡ some msg
      → ifindex ≡ i
      → Concerns i msg
  unfolding default_gw_message nl_add_rtattr
  default_gw_message-Concerns seq ifindex gw4 metric msg e h = ground (arith, e, h)

  send_some :
      (o : Option NlMsg)
      → ((msg : NlMsg) → o ≡ some msg → Concerns i msg)
      → Keeps i (elim o [ none ↦ pure failed | some msg ↦ rtnl_do_send msg ])
  send_some none c = Keeps-pure i failed
  send_some (some msg) c = Keeps-rtnl_do_send i msg (c msg refl)

  rtnl_set_default_gw_v4-Keeps : (gw4 : ℕ) → Keeps i (rtnl_set_default_gw_v4 gw4)
  unfolding rtnl_set_default_gw_v4 Keeps
  rtnl_set_default_gw_v4-Keeps gw4 w h =
      send_some (default_gw_message w.ifset_nl_seq w.ifindex gw4 w.metric)
        (λ msg e. default_gw_message-Concerns w.ifset_nl_seq w.ifindex gw4 w.metric msg e (h.0)) _ h

  pub perform_router-Keeps : (str : Bytes) → Keeps i (perform_router str)
  unfolding perform_router Keeps
  perform_router-Keeps str w h = grind (arith, rtnl_set_default_gw_v4-Keeps)

  rtnl_addr_broadcast_send-Keeps :
      (type flags scope : ℕ) (ipaddr bcast : Option ℕ) (prefixlen : ℕ)
      → Keeps i (rtnl_addr_broadcast_send type flags scope ipaddr bcast prefixlen)
  unfolding rtnl_addr_broadcast_send nl_add_rtattr Keeps
  rtnl_addr_broadcast_send-Keeps type flags scope none none prefixlen w h = h
  rtnl_addr_broadcast_send-Keeps type flags scope (some a) none prefixlen w h =
      Keeps-rtnl_do_send i _ (h.0) _ h
  rtnl_addr_broadcast_send-Keeps type flags scope none (some b) prefixlen w h =
      Keeps-rtnl_do_send i _ (h.0) _ h
  rtnl_addr_broadcast_send-Keeps type flags scope (some a) (some b) prefixlen w h =
      Keeps-rtnl_do_send i _ (h.0) _ h

  ipbcpfx_clear_others_do-Keeps :
      (ifindex : ℕ) (ipx : IpBcPfx) (nlh : NlMsg) (already_ok : Bool)
      → Keeps i (ipbcpfx_clear_others_do ifindex ipx nlh already_ok)
  unfolding ipbcpfx_clear_others_do Keeps
  ipbcpfx_clear_others_do-Keeps ifindex ipx nlh already_ok w h =
      grind (arith, rtnl_addr_broadcast_send-Keeps)

  ipbcpfx_clear_others-Keeps : (ipx : IpBcPfx) → Keeps i (ipbcpfx_clear_others ipx)
  unfolding ipbcpfx_clear_others Keeps
  ipbcpfx_clear_others-Keeps ipx w h =
      grind (arith, Keeps-nl_sendgetaddr4, Keeps-recv_loop, ipbcpfx_clear_others_do-Keeps)

  bring_up-Keeps : Keeps i bring_up
  unfolding bring_up Keeps
  bring_up-Keeps w h = grind (arith, link_set_flags-Keeps)

  set_address-Keeps : (ipx : IpBcPfx) → Keeps i (set_address ipx)
  unfolding set_address Keeps
  set_address-Keeps ipx w h = grind (arith, rtnl_addr_broadcast_send-Keeps, bring_up-Keeps)

  after_clear-Keeps : (ipx : IpBcPfx) (r : Cleared) → Keeps i (after_clear ipx r)
  unfolding after_clear
  after_clear-Keeps ipx request_failed = Keeps-pure i fatal
  after_clear-Keeps ipx answer_failed = Keeps-pure i fatal
  after_clear-Keeps ipx already_there = bring_up-Keeps
  after_clear-Keeps ipx all_cleared = set_address-Keeps ipx
  after_clear-Keeps ipx walk_failed = set_address-Keeps ipx

  clear_and_set-Keeps : (ipx : IpBcPfx) → Keeps i (clear_and_set ipx)
  unfolding clear_and_set
  clear_and_set-Keeps ipx =
      Keeps-bind i (ask (λ e. e.socket)) _ (Keeps-ask i (λ e. e.socket)) (λ opened.
        Keeps-if i opened _ _
          (Keeps-bind i (ipbcpfx_clear_others ipx) _ (ipbcpfx_clear_others-Keeps ipx)
            (after_clear-Keeps ipx))
          (Keeps-pure i fatal))

  -- The index into the table of `trailz` is below 37.
  trailz-some : (v : ℕ) → (z : ℕ) × (trailz v ≡ some z)
  unfolding trailz
  trailz-some v =
      let (z, e) = get_elem?-lt bpm37 (bit_and ((2 ^ 32 - v) % 2 ^ 32) v % 37) (omega arith) in
      (z, e)

  subnet4_to_prefixlen-some : (sn : ℕ) → (p : ℕ) × (subnet4_to_prefixlen sn ≡ some p)
  unfolding subnet4_to_prefixlen
  subnet4_to_prefixlen-some sn =
      let (z, e) = trailz-some sn in (32 - z, rw (subnet4_to_prefixlen, e) refl)

  pub perform_ip_subnet_bcast-Keeps :
      (ip subnet : Bytes) (bcast : Option Bytes) → Keeps i (perform_ip_subnet_bcast ip subnet bcast)
  unfolding perform_ip_subnet_bcast
  perform_ip_subnet_bcast-Keeps ip subnet bcast =
      Keeps-option i (inet_pton ip) _ _ (Keeps-pure i fatal) (λ a.
        Keeps-option i (inet_pton subnet) _ _ (Keeps-pure i fatal) (λ s.
          Keeps-bind i (checked (subnet4_to_prefixlen s)) _ (prefix s) (λ p.
            Keeps-option i (bcast_of bcast a p) _ _ (Keeps-pure i fatal)
              (λ b. clear_and_set-Keeps (record { ipaddr = a; bcast = b; prefixlen = p })))))
    where
      prefix : (s : ℕ) → Keeps i (checked (subnet4_to_prefixlen s))
      prefix s = let (p, e) = subnet4_to_prefixlen-some s in rw e (Keeps-pure i p)
