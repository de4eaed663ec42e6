-- ===== src/Arp/GatewaySound.antt =====
-- The tasks of src/arp.c on the gateway keep the state sound.
use ndhc.Common.{ℕ, Bool, arith, true, false}
use ndhc.Arp.Gateway.{
  arp_gw_check, arp_get_gw_hwaddr, arp_gw_success, arp_query_gateway, arp_query_gateway_timeout,
  arp_gw_check_timeout, arp_gw_query_timeout, arp_do_gw_query, arp_do_gw_check, ping_again,
}
use ndhc.Arp.Sound.{arp_open_fd-EndsSound, arp_ping-EndsSound, arp_announcement-EndsSound}
use ndhc.Master.Sound.{IsSound, EndsSound}
use ndhc.Master.World.{World}

pub arp_gw_check-EndsSound : (w : World) → IsSound w → EndsSound (arp_gw_check w)
unfolding arp_gw_check
arp_gw_check-EndsSound w s = grind (arith, arp_open_fd-EndsSound, arp_ping-EndsSound)

arp_get_gw_hwaddr-EndsSound : (w : World) → IsSound w → EndsSound (arp_get_gw_hwaddr w)
unfolding arp_get_gw_hwaddr
arp_get_gw_hwaddr-EndsSound w s = grind (arith, arp_open_fd-EndsSound, arp_ping-EndsSound)

arp_gw_success-EndsSound : (w : World) → IsSound w → EndsSound (arp_gw_success w)
unfolding arp_gw_success
arp_gw_success-EndsSound w s = grind (arith, arp_open_fd-EndsSound, arp_announcement-EndsSound)

pub arp_query_gateway-EndsSound : (w : World) → IsSound w → EndsSound (arp_query_gateway w)
unfolding arp_query_gateway
arp_query_gateway-EndsSound w s = grind (arith, arp_get_gw_hwaddr-EndsSound)

pub arp_query_gateway_timeout-EndsSound :
    (nowts : ℕ) (w : World) → IsSound w → EndsSound (arp_query_gateway_timeout nowts w)
unfolding arp_query_gateway_timeout
arp_query_gateway_timeout-EndsSound nowts w s = grind (arith, arp_query_gateway-EndsSound w s)

ping_again-EndsSound :
    (wanted : Bool) (ip : ℕ) (w : World) → IsSound w → EndsSound (ping_again wanted ip w)
unfolding ping_again
ping_again-EndsSound true ip w s = arp_ping-EndsSound ip w s
ping_again-EndsSound false ip w s = s

pub arp_gw_check_timeout-EndsSound :
    (nowts : ℕ) (w : World) → IsSound w → EndsSound (arp_gw_check_timeout nowts w)
unfolding arp_gw_check_timeout
arp_gw_check_timeout-EndsSound nowts w s = grind (arith, ping_again-EndsSound)

pub arp_gw_query_timeout-EndsSound :
    (nowts : ℕ) (w : World) → IsSound w → EndsSound (arp_gw_query_timeout nowts w)
unfolding arp_gw_query_timeout
arp_gw_query_timeout-EndsSound nowts w s = grind (arith, ping_again-EndsSound)

pub arp_do_gw_query-EndsSound : (w : World) → IsSound w → EndsSound (arp_do_gw_query w)
unfolding arp_do_gw_query
arp_do_gw_query-EndsSound w s = grind (arith, arp_open_fd-EndsSound)

pub arp_do_gw_check-EndsSound : (w : World) → IsSound w → EndsSound (arp_do_gw_check w)
unfolding arp_do_gw_check
arp_do_gw_check-EndsSound w s = grind (arith, arp_gw_success-EndsSound)
