-- ===== src/Tests/Conflicts.antt =====
-- The theorems on conflicts, on the next wake, and on a lease that comes a second time, at concrete
-- states.
use ndhc.Common.{◌-◌, ◌≤◌, ◌≡◌, ◌≢◌, refl, true, false, arith}
use ndhc.Arp.Collision.{arp_do_collision_check, collision_free}
use ndhc.Arp.Conflicts.{arp_do_collision_check-foreign, arp_do_defense-conflict}
use ndhc.Arp.Defense.{arp_do_defense}
use ndhc.Arp.Message.{arp_validate_bpf_defense}
use ndhc.Arp.Result.{arpr_ok, arpr_conflict, defend_interval}
use ndhc.Dhcp.Contents.{header}
use ndhc.Dhcp.Messages.{release_packet_lem}
use ndhc.Dhcp.Send.{send_release, send_dhcp_unicast, payload_length, get_udp_unicast_socket}
use ndhc.Ifchange.Again.{collision_free-same}
use ndhc.Ifchange.Changes.{same_bytes}
use ndhc.Master.Ipc.{carrier_isup, ifchwrite, request_sockd_fd}
use ndhc.Master.World.{World, returned, halted, suicide}
use ndhc.Options.Lookup.{get_end_option_idx_lem}
use ndhc.Tests.Runs.{world_of_Answers}
use ndhc.Tests.Data.{conf, conf-IsConfig, other_arp, offer-HasSizes, garp, world}

abbrev attacked : World
attacked = world b's' (garp other_arp 100) 50000

collision_foreign_example : arp_do_collision_check attacked ≡ returned arpr_ok attacked
unfolding same_bytes
collision_foreign_example = arp_do_collision_check-foreign attacked refl

collision_free_example : (w' : World) × (collision_free attacked ≡ halted suicide w')
collision_free_example = collision_free-same attacked offer-HasSizes refl

-- A second conflict, half a minute after the first, where the release is not sent.
abbrev contested : World
contested = world b'u' (garp other_arp 20000) 50000

contest_run : (w' : World) × (arp_do_defense contested ≡ returned arpr_conflict w')
unfolding arp_do_defense arp_validate_bpf_defense same_bytes send_release send_dhcp_unicast
    payload_length carrier_isup ifchwrite get_udp_unicast_socket request_sockd_fd
contest_run =
    let (o, e, h) = release_packet_lem conf conf-IsConfig 12345 0xc0a80107 0xc0a80101 in
    let p = record (header conf 12345) { ciaddr = 0xc0a80107; options = o } in
    world_of_Answers arpr_conflict (arp_do_defense contested)
      (ground (arith, e, get_end_option_idx_lem p _ h))

defense_example :
    (arp_validate_bpf_defense conf contested.cs contested.garp.reply ≡ true)
    × (false ≡ false)
    × (contested.garp.last_conflict_ts ≢ 0)
    × (defend_interval ≤ 50000 - 20000)
defense_example = arp_do_defense-conflict contested contest_run.0 contest_run.1
