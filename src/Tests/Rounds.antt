-- ===== src/Tests/Rounds.antt =====
-- The theorems on the main loop, at concrete events.
use ndhc.Common.{ℕ, ◌+◌, ◌≤◌, ◌<◌, true, false, Option, some, none, ◌≡◌, ◌↔◌, inr, refl}
use ndhc.Common.Subprocess.{signo}
use ndhc.MainLoop.Blocked.{round-signal}
use ndhc.MainLoop.Round.{signal_ready, Constants, Loop, round}
use ndhc.MainLoop.Start.{Starting, beginning}
use ndhc.MainLoop.Timeout.{next_timeout, next_timeout-none}
use ndhc.Master.World.{World, returned}
use ndhc.Tests.Data.{offer, our_arp, garp, world}

abbrev constants : Constants
constants = record { ifindex = 2; nl_port_id = 1; rfkill_idx = 0 }

abbrev blocked : Loop
blocked = record (beginning offer) { rfkill_set = true }

abbrev idle : World
idle = world b'+' (garp our_arp 0) 2000

-- All calls work, and the packet on the stack is an offer.
abbrev starting : Starting
starting = record {
  netlink = record { socket = true; bind = true; getsockname = some (12, 16, 1) };
  main_works = true;
  work_works = true;
  dhcp_packet = offer;
}

none_example :
    let arp : Option ℕ = none in
    let dhcp : Option ℕ = some 9 in
    (next_timeout none false 7 arp dhcp ≡ none) ↔ ((arp ≡ none) × (dhcp ≡ none))
none_example = next_timeout-none none false 7 none (some 9)

signal_example :
    (t : ℕ) × (round constants blocked (signal_ready (signo 12)) idle
      ≡ returned (record blocked { timeout = some t }) (record idle { tick = idle.tick + 1 }))
    × (2000 ≤ t)
    × (t < 5000)
signal_example = round-signal constants blocked 12 idle refl (inr refl)
