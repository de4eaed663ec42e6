-- ===== src/State/BoundSound.antt =====
-- BOUND, RENEWING and REBINDING, of src/state.c, keep the state sound.
use ndhc.Common.{ℕ, arith, true, not, ◌&&◌, ◌||◌}
use ndhc.Master.Client.{ClientState}
use ndhc.Master.Sound.{IsSound, EndsSound, EndsSound-bind, EndsSound-if}
use ndhc.Master.World.{World}
use ndhc.Options.Packet.{HasSizes}
use ndhc.State.Result.{Inputs}
use ndhc.Arp.Defense.{arp_do_defense}
use ndhc.Arp.Gateway.{arp_do_gw_query, arp_do_gw_check, arp_gw_query_timeout, arp_gw_check_timeout}
use ndhc.Arp.Probe.{arp_check}
use ndhc.State.Offers.{extend_packet}
use ndhc.State.Signals.{ifup_action}
use ndhc.State.Timeouts.{is_renewing}
use ndhc.Arp.CollisionSound.{arp_do_defense-EndsSound, arp_defense_timeout-EndsSound}
use ndhc.Arp.GatewaySound.{
  arp_query_gateway_timeout-EndsSound, arp_do_gw_query-EndsSound, arp_do_gw_check-EndsSound,
  arp_gw_query_timeout-EndsSound, arp_gw_check_timeout-EndsSound,
}
use ndhc.Arp.Sound.{arp_announce_timeout-EndsSound, arp_check-EndsSound}
use ndhc.Ifchange.Sound.{ifchange_deconfig-EndsSound}
use ndhc.State.Bound.{
  Part, ◌then◌, search_again, check_again, on_signal, on_dhcp, on_defense, on_gateway, on_arp,
  on_announce, on_gateway_timeout, on_arp_timeout, on_carrier, lease_timeout, on_lease_timeout,
  bound_step,
}
use ndhc.State.SearchSound.{reinit-EndsSound}
use ndhc.State.Sound.{
  reinit_selecting-EndsSound, extend_packet-EndsSound, xmit_release-EndsSound, frenew-EndsSound,
  ifup_action-EndsSound, rebinding_timeout-EndsSound, renewing_timeout-EndsSound,
  bound_timeout-EndsSound,
}

then-EndsSound :
    (p q : Part) (w : World)
    → EndsSound (p w)
    → ((v : World) → IsSound v → EndsSound (q v))
    → EndsSound ((p then q) w)
then-EndsSound p q w s go = EndsSound-bind p _ w s (λ r v t. ground (arith, go v t))

search_again-EndsSound :
    (delay : ℕ) (i : Inputs) (w : World) → IsSound w → EndsSound (search_again delay i w)
unfolding search_again
search_again-EndsSound delay i w s =
    grind (arith, reinit_selecting-EndsSound delay w s, reinit-EndsSound i)

on_signal-EndsSound : (i : Inputs) (w : World) → IsSound w → EndsSound (on_signal i w)
unfolding on_signal
on_signal-EndsSound i w s = grind (arith, xmit_release-EndsSound w s, frenew-EndsSound true w s)

check_again-EndsSound :
    (i : Inputs) (w : World) → HasSizes i.dhcp_packet → IsSound w → EndsSound (check_again i w)
unfolding check_again
check_again-EndsSound i w sizes s =
    EndsSound-bind (arp_check i.dhcp_packet) _ w (arp_check-EndsSound i.dhcp_packet w sizes s)
      (λ made v t. ground (arith, search_again-EndsSound 3000 i v t))

on_dhcp-EndsSound :
    (i : Inputs) (w : World) → HasSizes i.dhcp_packet → IsSound w → EndsSound (on_dhcp i w)
unfolding on_dhcp
on_dhcp-EndsSound i w sizes s =
    EndsSound-if (i.sev_dhcp && is_renewing w.cs i.nowts) _ _ w
      (EndsSound-bind (extend_packet i.dhcp_packet i.dhcp_msgtype) _ w
        (extend_packet-EndsSound i.dhcp_packet i.dhcp_msgtype w sizes s)
        (λ r v t. ground (arith, reinit-EndsSound i v t, check_again-EndsSound i v sizes t)))
      s

on_defense-EndsSound : (i : Inputs) (w : World) → IsSound w → EndsSound (on_defense i w)
unfolding on_defense
on_defense-EndsSound i w s =
    EndsSound-bind arp_do_defense _ w (arp_do_defense-EndsSound w s)
      (λ r v t. ground (arith, search_again-EndsSound 0 i v t))

on_gateway-EndsSound : (i : Inputs) (w : World) → IsSound w → EndsSound (on_gateway i w)
unfolding on_gateway
on_gateway-EndsSound i w s =
    EndsSound-if (not w.cs.got_router_arp || not w.cs.got_server_arp) _ _ w
      (EndsSound-bind arp_do_gw_query _ w (arp_do_gw_query-EndsSound w s) (λ r v t. ground arith))
      (EndsSound-if w.cs.check_fingerprint _ _ w
        (EndsSound-bind arp_do_gw_check _ w (arp_do_gw_check-EndsSound w s)
          (λ r v t. grind (arith, search_again-EndsSound 0 i)))
        s)

on_arp-EndsSound : (i : Inputs) (w : World) → IsSound w → EndsSound (on_arp i w)
unfolding on_arp
on_arp-EndsSound i w s =
    EndsSound-if i.sev_arp _ _ w
      (then-EndsSound (on_defense i) (on_gateway i) w (on_defense-EndsSound i w s)
        (on_gateway-EndsSound i))
      s

on_announce-EndsSound : (i : Inputs) (w : World) → IsSound w → EndsSound (on_announce i w)
unfolding on_announce
on_announce-EndsSound i w s =
    EndsSound-if (w.cs.sent_first_announce && w.cs.sent_second_announce) _ _ w
      (grind (arith, arp_defense_timeout-EndsSound w s))
      (grind (arith, arp_announce_timeout-EndsSound i.nowts w s))

on_gateway_timeout-EndsSound :
    (i : Inputs) (w : World) → IsSound w → EndsSound (on_gateway_timeout i w)
unfolding on_gateway_timeout
on_gateway_timeout-EndsSound i w s =
    EndsSound-if (not w.cs.sent_gw_query) _ _ w
      (grind (arith, arp_query_gateway_timeout-EndsSound i.nowts w s))
      (EndsSound-if (not w.cs.got_router_arp || not w.cs.got_server_arp) _ _ w
        (EndsSound-bind (arp_gw_query_timeout i.nowts) _ w
          (arp_gw_query_timeout-EndsSound i.nowts w s) (λ r v t. ground arith))
        (EndsSound-if w.cs.check_fingerprint _ _ w
          (EndsSound-bind (arp_gw_check_timeout i.nowts) _ w
            (arp_gw_check_timeout-EndsSound i.nowts w s)
            (λ r v t. grind (arith, search_again-EndsSound 0 i)))
          s))

on_arp_timeout-EndsSound : (i : Inputs) (w : World) → IsSound w → EndsSound (on_arp_timeout i w)
unfolding on_arp_timeout
on_arp_timeout-EndsSound i w s =
    EndsSound-if i.arp_timeout _ _ w
      (EndsSound-bind (on_announce i) _ w (on_announce-EndsSound i w s)
        (λ _ v t. on_gateway_timeout-EndsSound i v t))
      s

on_carrier-EndsSound : (i : Inputs) (w : World) → IsSound w → EndsSound (on_carrier i w)
unfolding on_carrier
on_carrier-EndsSound i w s =
    EndsSound-if i.force_fingerprint _ _ w
      (EndsSound-bind ifup_action _ w (ifup_action-EndsSound w s)
        (λ r v t. grind (arith, ifchange_deconfig-EndsSound v t, search_again-EndsSound 0 i)))
      s

lease_timeout-EndsSound :
    (c : ClientState) (nowts : ℕ) (w : World) → IsSound w → EndsSound (lease_timeout c nowts w)
unfolding lease_timeout
lease_timeout-EndsSound c nowts w s = ground (
  arith,
  rebinding_timeout-EndsSound nowts w s,
  renewing_timeout-EndsSound nowts w s,
  bound_timeout-EndsSound nowts w s,
)

on_lease_timeout-EndsSound : (i : Inputs) (w : World) → IsSound w → EndsSound (on_lease_timeout i w)
unfolding on_lease_timeout
on_lease_timeout-EndsSound i w s =
    EndsSound-if i.dhcp_timeout _ _ w
      (EndsSound-bind (lease_timeout w.cs i.nowts) _ w (lease_timeout-EndsSound w.cs i.nowts w s)
        (λ r v t. ground (arith, reinit-EndsSound i v t)))
      s

pub bound_step-EndsSound :
    (i : Inputs) (w : World) → HasSizes i.dhcp_packet → IsSound w → EndsSound (bound_step i w)
unfolding bound_step
bound_step-EndsSound i w sizes s =
    let p5 = on_carrier i in
    let p4 = on_arp_timeout i then p5 in
    let p3 = on_arp i then p4 in
    let p2 = on_dhcp i then p3 in
    EndsSound-bind (on_signal i then p2) _ w
      (then-EndsSound (on_signal i) p2 w (on_signal-EndsSound i w s) (λ v1 s1.
        then-EndsSound (on_dhcp i) p3 v1 (on_dhcp-EndsSound i v1 sizes s1) (λ v2 s2.
          then-EndsSound (on_arp i) p4 v2 (on_arp-EndsSound i v2 s2) (λ v3 s3.
            then-EndsSound (on_arp_timeout i) p5 v3 (on_arp_timeout-EndsSound i v3 s3)
              (on_carrier-EndsSound i)))))
      (λ r v t. ground (arith, on_lease_timeout-EndsSound i v t))
