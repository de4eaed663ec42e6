-- ===== src/State/SearchSound.antt =====
-- SELECTING and REQUESTING, of src/state.c, keep the state sound.
use ndhc.Common.{◌+◌, Bool, arith, true, false}
use ndhc.Master.Sound.{IsSound, EndsSound, EndsSound-bind, EndsSound-if}
use ndhc.Master.World.{World}
use ndhc.Options.Packet.{HasSizes}
use ndhc.State.Result.{Inputs}
use ndhc.Arp.CollisionSound.{arp_do_collision_check-EndsSound, arp_collision_timeout-EndsSound}
use ndhc.Arp.GatewaySound.{arp_query_gateway-EndsSound}
use ndhc.Arp.Sound.{arp_announce-EndsSound, arp_check-EndsSound}
use ndhc.State.Search.{
  unless_released, discover, reinit, retransmit, begin_check, begin_lease, requesting_step,
  selecting_step, start_step, checking_timeout, checking_step, Answer, Pc, requesting, checking,
}
use ndhc.Master.World.{M}
use ndhc.Arp.Collision.{arp_do_collision_check, arp_collision_timeout}
use ndhc.Arp.Probe.{arp_check}
use ndhc.State.Offers.{selecting_packet}
use ndhc.State.Sound.{
  selecting_timeout-EndsSound, requesting_timeout-EndsSound, reinit_selecting-EndsSound,
  selecting_packet-EndsSound, print_release-EndsSound,
}

-- Either the client goes to sleep, or it goes on.
unless_released-EndsSound :
    (i : Inputs) (k : M Answer) (w : World)
    → IsSound w
    → EndsSound (k w)
    → EndsSound (unless_released i k w)
unless_released-EndsSound i k w s rest = ground (arith, print_release-EndsSound w s)

discover-EndsSound : (i : Inputs) (w : World) → IsSound w → EndsSound (discover i w)
unfolding discover
discover-EndsSound i w s = grind (arith, selecting_timeout-EndsSound i.nowts w s)

pub reinit-EndsSound : (i : Inputs) (w : World) → IsSound w → EndsSound (reinit i w)
unfolding reinit
reinit-EndsSound i w s =
    let xid = w.env.random w.tick in
    let v = record w { tick = w.tick + 1; cs = record w.cs { xid = xid } } in
    let t : IsSound v = record {
      valid = s.valid;
      stays = s.stays;
      cfg_sizes = s.cfg_sizes;
      offer_sizes = s.offer_sizes;
    } in
    unless_released-EndsSound i (discover i) v t (discover-EndsSound i v t)

retransmit-EndsSound :
    (pc : Pc) (i : Inputs) (w : World) → IsSound w → EndsSound (retransmit pc i w)
unfolding retransmit
retransmit-EndsSound pc i w s =
    grind (arith, requesting_timeout-EndsSound i.nowts w s, reinit-EndsSound i)

begin_check-EndsSound :
    (i : Inputs) (w : World) → HasSizes i.dhcp_packet → IsSound w → EndsSound (begin_check i w)
unfolding begin_check
begin_check-EndsSound i w sizes s =
    EndsSound-bind (arp_check i.dhcp_packet) _ w (arp_check-EndsSound i.dhcp_packet w sizes s)
      (λ made v t. grind (arith, reinit_selecting-EndsSound 3000 v t, reinit-EndsSound i))

pub requesting_step-EndsSound :
    (sev_dhcp : Bool) (i : Inputs) (w : World)
    → HasSizes i.dhcp_packet
    → IsSound w
    → EndsSound (requesting_step sev_dhcp i w)
unfolding requesting_step
requesting_step-EndsSound sev_dhcp i w sizes s = unless_released-EndsSound i _ w s (
    EndsSound-if sev_dhcp _ _ w
      (EndsSound-bind (selecting_packet i.dhcp_packet i.dhcp_msgtype i.dhcp_srcaddr true) _ w
        (selecting_packet-EndsSound i.dhcp_packet i.dhcp_msgtype i.dhcp_srcaddr true w sizes s)
        (λ r v t.
          ground (arith, retransmit-EndsSound requesting i v t, begin_check-EndsSound i v sizes t)))
      (retransmit-EndsSound requesting i w s))

pub selecting_step-EndsSound :
    (i : Inputs) (w : World) → HasSizes i.dhcp_packet → IsSound w → EndsSound (selecting_step i w)
unfolding selecting_step
selecting_step-EndsSound i w sizes s = unless_released-EndsSound i _ w s (
    EndsSound-if i.sev_dhcp _ _ w
      (EndsSound-bind (selecting_packet i.dhcp_packet i.dhcp_msgtype i.dhcp_srcaddr false) _ w
        (selecting_packet-EndsSound i.dhcp_packet i.dhcp_msgtype i.dhcp_srcaddr false w sizes s)
        (λ r v t.
          ground (arith, discover-EndsSound i v t, requesting_step-EndsSound false i v sizes t)))
      (discover-EndsSound i w s))

pub start_step-EndsSound :
    (i : Inputs) (w : World) → HasSizes i.dhcp_packet → IsSound w → EndsSound (start_step i w)
unfolding start_step
start_step-EndsSound i w sizes s =
    let xid = w.env.random w.tick in
    let v = record w { tick = w.tick + 1; cs = record w.cs { xid = xid } } in
    selecting_step-EndsSound i v sizes (record {
      valid = s.valid;
      stays = s.stays;
      cfg_sizes = s.cfg_sizes;
      offer_sizes = s.offer_sizes;
    })

begin_lease-EndsSound : (w : World) → IsSound w → EndsSound (begin_lease w)
unfolding begin_lease
begin_lease-EndsSound w s = grind (arith, arp_query_gateway-EndsSound w s, arp_announce-EndsSound)

checking_timeout-EndsSound : (i : Inputs) (w : World) → IsSound w → EndsSound (checking_timeout i w)
unfolding checking_timeout
checking_timeout-EndsSound i w s =
    EndsSound-if i.arp_timeout _ _ w
      (EndsSound-bind (arp_collision_timeout i.nowts) _ w
        (arp_collision_timeout-EndsSound i.nowts w s)
        (λ r v t. ground (arith, begin_lease-EndsSound v t, retransmit-EndsSound checking i v t)))
      (retransmit-EndsSound checking i w s)

pub checking_step-EndsSound : (i : Inputs) (w : World) → IsSound w → EndsSound (checking_step i w)
unfolding checking_step
checking_step-EndsSound i w s = unless_released-EndsSound i _ w s (
    EndsSound-if i.sev_arp _ _ w
      (EndsSound-bind arp_do_collision_check _ w (arp_do_collision_check-EndsSound w s) (λ r v t.
        grind (
          arith,
          checking_timeout-EndsSound i v t,
          reinit_selecting-EndsSound 0 v t,
          reinit-EndsSound i,
        )))
      (checking_timeout-EndsSound i w s))
