-- ===== src/Arp/Collision.antt =====
-- The collision check of an offered address, and what follows when it passes, of src/arp.c, with
-- `write_leasefile` of src/leasefile.c.
use ndhc.Common.{
  ℕ, zero, suc, ◌+◌, ◌-◌, Bool, false, not, ◌&&◌, ◌||◌, Option, none, some, ◌==◌, ltb, leb, is_some,
  if◌then◌else◌,
}
use ndhc.Arp.Message.{arp_ip_anon_ping, arp_announcement, arp_is_query_reply}
use ndhc.Arp.Probe.{arp_gen_probe_wait, u16}
use ndhc.Arp.Result.{Arpr, arpr_ok, arpr_free, arpr_conflict, arpr_fail, announce_wait}
use ndhc.Dhcp.Send.{send_decline, stop_dhcp_listen}
use ndhc.Ifchange.Bind.{ifchange_bind}
use ndhc.Ifchange.Changes.{same_bytes}
use ndhc.Master.World.{
  M, pure, ◌>>=◌, ◌>>◌, halt, fault, checked, gets, get_cs, get_garp, get_conf, put_cs, put_garp,
  emit, curms, suicide, exit_success, exit_failure, wrote_leasefile,
}
use ndhc.Options.Getters.{get_option_router}
use ndhc.Options.Packet.{Dhcpmsg}

abbrev pub wake_collision_check : Option ℕ → M (Unit {0})
wake_collision_check t = do
  garp ← get_garp
  put_garp (record garp { wake_ts = record garp.wake_ts { collision_check = t } })

-- `quit_after_lease_handler`, from its start time on; it returns to nobody. An announcement that
-- fails is tried again for a minute.
unfoldable pub quit_after_lease_loop : ℕ → ℕ → M Arpr
quit_after_lease_loop zero init_ts w = fault
quit_after_lease_loop (suc rounds) init_ts w =
    let again = quit_after_lease_loop rounds init_ts in
    (do
      sent ← arp_announcement
      if sent
          then halt exit_success
          else (do now ← curms; if ltb 60000 (now - init_ts) then halt exit_failure else again))
      w

unfoldable pub quit_after_lease_handler : M Arpr
unfolding quit_after_lease_loop
quit_after_lease_handler = do
  init_ts ← curms
  rounds ← gets (λ w. w.env.patience)
  quit_after_lease_loop rounds init_ts

-- What follows the configuration of the interface, which succeeded or not.
abbrev pub take_lease : Dhcpmsg → Bool → M Arpr
take_lease packet bound = if not bound then halt suicide else (do
  conf ← get_conf
  router ← checked (get_option_router packet)
  cs ← get_cs
  put_cs (record cs { router_addr = router })
  stop_dhcp_listen
  emit (wrote_leasefile packet.yiaddr)
  if conf.quit_after_lease then quit_after_lease_handler else pure arpr_free)

-- The check passed: the lease is taken.
unfoldable pub collision_free : M Arpr
collision_free = do
  c0 ← get_cs
  g0 ← get_garp
  let packet = g0.dhcp_packet
  put_cs (record c0 { client_addr = packet.yiaddr; program_init = false })
  put_garp (record g0 { last_conflict_ts = 0 })
  wake_collision_check none
  bound ← ifchange_bind packet
  take_lease packet bound

unfoldable pub arp_collision_timeout : ℕ → M Arpr
unfolding collision_free
arp_collision_timeout nowts = do
  garp ← get_garp
  conf ← get_conf
  if leb (garp.arp_check_start_ts + announce_wait) nowts
        || leb conf.arp_probe_num garp.sent_collision_check.count
      then collision_free
      else (do
        let rtts = garp.sent_collision_check.ts + garp.probe_wait_time
        if ltb nowts rtts then (do wake_collision_check (some rtts); pure arpr_ok) else (do
          pinged ← arp_ip_anon_ping garp.dhcp_packet.yiaddr
          if not pinged then pure arpr_fail else (do
            wait ← arp_gen_probe_wait
            g ← get_garp
            put_garp (record g { probe_wait_time = u16 wait })
            wake_collision_check (some (g.sent_collision_check.ts + u16 wait))
            pure arpr_ok)))

-- The second `memcmp` is taken as it stands: it is 0 when the sender's address is our own.
unfoldable pub arp_do_collision_check : M Arpr
arp_do_collision_check = do
  garp ← get_garp
  conf ← get_conf
  if not (arp_is_query_reply conf garp.reply)
      then pure arpr_ok
      else if garp.reply.sip4 == garp.dhcp_packet.yiaddr && same_bytes conf.arp garp.reply.smac
      then (do
        put_garp (record garp { total_conflicts = garp.total_conflicts + 1 })
        wake_collision_check none
        r ← send_decline garp.dhcp_packet.yiaddr
        pure (if not (is_some r) then arpr_fail else arpr_conflict))
      else pure arpr_ok
