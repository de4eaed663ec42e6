-- ===== src/Arp/Probe.antt =====
-- The start of a collision check, and the wait between its probes, of src/arp.c.
use ndhc.Common.{ℕ, ◌+◌, ◌-◌, ◌%◌, ◌^◌, Bool, true, false, not, some, ltb, if◌then◌else◌}
use ndhc.Arp.Message.{arp_ip_anon_ping}
use ndhc.Arp.Socket.{arp_open_fd}
use ndhc.Master.World.{M, pure, ◌>>=◌, ◌>>◌, get_garp, get_conf, put_garp, nk_random_u32}
use ndhc.Options.Packet.{Dhcpmsg}

-- `probe_wait_time` is an uint16_t.
abbrev pub u16 : ℕ → ℕ
u16 n = n % 2 ^ 16

unfoldable pub arp_check : Dhcpmsg → M Bool
arp_check packet = do
  g0 ← get_garp
  put_garp (record g0 { dhcp_packet = packet })
  opened ← arp_open_fd false
  if not opened then pure false else (do
    pinged ← arp_ip_anon_ping packet.yiaddr
    if not pinged then pure false else (do
      garp ← get_garp
      conf ← get_conf
      let wait = u16 conf.arp_probe_wait
      let start = garp.sent_collision_check.ts
      put_garp (record garp {
        arp_check_start_ts = start;
        probe_wait_time = wait;
        wake_ts = record garp.wake_ts { collision_check = some (start + wait) };
      })
      pure true))

-- A range that would be below 1000, or negative, is 1000.
unfoldable pub arp_gen_probe_wait : M ℕ
arp_gen_probe_wait = do
  conf ← get_conf
  let range = conf.arp_probe_max - conf.arp_probe_min
  let range' : ℕ = (if ltb range 1000 then 1000 else range)
  r ← nk_random_u32
  pure (conf.arp_probe_min + r % range')
