-- ===== src/Arp/CollisionSound.antt =====
-- The collision check and the defense of src/arp.c keep the state sound.
use ndhc.Common.{ℕ, ◌≡◌, refl, Bool, some, arith, value_or}
use ndhc.Arp.Collision.{take_lease, collision_free, arp_collision_timeout, arp_do_collision_check}
use ndhc.Arp.Defense.{arp_do_defense, arp_defense_timeout}
use ndhc.Arp.Probe.{arp_gen_probe_wait}
use ndhc.Arp.Sound.{arp_ip_anon_ping-EndsSound, arp_announcement-EndsSound}
use ndhc.Dhcp.Sound.{send_decline-EndsSound, send_release-EndsSound, stop_dhcp_listen-EndsSound}
use ndhc.Ifchange.Sound.{ifchange_bind-EndsSound}
use ndhc.Master.Sound.{IsSound, EndsSound}
use ndhc.Master.World.{World}
use ndhc.Options.Dcode
use ndhc.Options.Getters.{get_option_router}
use ndhc.Options.Packet.{Dhcpmsg, HasSizes, max_dopt_size}
use ndhc.Options.Safety.{get_dhcp_opt_safe}

get_option_router_safe : (p : Dhcpmsg) → HasSizes p → (r : ℕ) × (get_option_router p ≡ some r)
unfolding get_option_router
get_option_router_safe p sizes =
    let (buf, e, _) = get_dhcp_opt_safe p Dcode.router max_dopt_size sizes in
    (value_or (get_option_router p) 0, rw e refl)

take_lease-EndsSound :
    (p : Dhcpmsg) (bound : Bool) (w : World)
    → HasSizes p
    → IsSound w
    → EndsSound (take_lease p bound w)
take_lease-EndsSound p bound w sizes s =
    let (r, e) = get_option_router_safe p sizes in grind (arith, e, stop_dhcp_listen-EndsSound)

collision_free-EndsSound : (w : World) → IsSound w → EndsSound (collision_free w)
unfolding collision_free
collision_free-EndsSound w s =
    grind
      (arith, ifchange_bind-EndsSound w.garp.dhcp_packet, take_lease-EndsSound w.garp.dhcp_packet)

pub arp_collision_timeout-EndsSound :
    (nowts : ℕ) (w : World) → IsSound w → EndsSound (arp_collision_timeout nowts w)
unfolding arp_collision_timeout arp_gen_probe_wait
arp_collision_timeout-EndsSound nowts w s =
    grind (arith, collision_free-EndsSound w s, arp_ip_anon_ping-EndsSound)

pub arp_do_collision_check-EndsSound :
    (w : World) → IsSound w → EndsSound (arp_do_collision_check w)
unfolding arp_do_collision_check
arp_do_collision_check-EndsSound w s = grind (arith, send_decline-EndsSound)

pub arp_defense_timeout-EndsSound : (w : World) → IsSound w → EndsSound (arp_defense_timeout w)
unfolding arp_defense_timeout
arp_defense_timeout-EndsSound w s = grind (arith, arp_announcement-EndsSound)

pub arp_do_defense-EndsSound : (w : World) → IsSound w → EndsSound (arp_do_defense w)
unfolding arp_do_defense
arp_do_defense-EndsSound w s = grind (arith, arp_announcement-EndsSound, send_release-EndsSound)
