-- ===== src/State/Search.antt =====
-- The states SELECTING and REQUESTING of `dhcp_handle` in src/state.c, with the check of the offered
-- address.
--
-- `Pc` is the point at which the next call goes on, and an answer's `true` is COR_SUCCESS. After a
-- release signal the source enters RELEASED in the same call, where that signal changes nothing:
-- `unless_released` answers at once. A jump to `reinit` clears `sev_dhcp` before, so that
-- `reinit` enters SELECTING without a packet.
use ndhc.Common.{Bool, true, false, if◌then◌else◌}
use ndhc.Arp.Announce.{arp_announce}
use ndhc.Arp.Collision.{arp_do_collision_check, arp_collision_timeout}
use ndhc.Arp.Gateway.{arp_query_gateway}
use ndhc.Arp.Probe.{arp_check}
use ndhc.Arp.Result.{arpr_ok, arpr_free, arpr_conflict, arpr_fail}
use ndhc.Master.World.{M, pure, ◌>>=◌, ◌>>◌, halt, get_cs, put_cs, nk_random_u32, suicide}
use ndhc.State.Offers.{selecting_packet}
use ndhc.State.Result.{
  sel_success, sel_fail, req_success, req_timeout, req_fail, anp_success, anp_ignore, anp_check_ip,
  signal_release, Inputs,
}
use ndhc.State.Signals.{print_release}
use ndhc.State.Timeouts.{reinit_selecting, selecting_timeout, requesting_timeout}

-- `bound_deconfig` is inside BOUND, after a failure of `ifchange_deconfig`.
pub data Pc : Type 0 where
  start selecting requesting checking bound bound_deconfig released : Pc

abbrev pub Answer : Type 0
Answer = Pc × Bool

abbrev pub unless_released : Inputs → M Answer → M Answer
unless_released i k = elim i.sev_signal [
  | signal_release ↦ (do print_release; pure (released, true))
  | _ ↦ k
]

unfoldable pub discover : Inputs → M Answer
discover i =
    if i.dhcp_timeout
    then (do
      r ← selecting_timeout i.nowts
      elim r [ sel_success ↦ pure (selecting, true) | sel_fail ↦ pure (selecting, false) ])
    else pure (selecting, true)

unfoldable pub reinit : Inputs → M Answer
unfolding discover
reinit i = do
  xid ← nk_random_u32
  cs ← get_cs
  put_cs (record cs { xid = xid })
  unless_released i (discover i)

-- The end of REQUESTING and of the check of the address.
unfoldable pub retransmit : Pc → Inputs → M Answer
unfolding reinit
retransmit pc i =
    if i.dhcp_timeout
    then (do
      r ← requesting_timeout i.nowts
      elim r [
        | req_success ↦ pure (pc, true)
        | req_timeout ↦ reinit i
        | req_fail ↦ pure (pc, false)
      ])
    else pure (pc, true)

-- The check of the acknowledged address begins.
unfoldable pub begin_check : Inputs → M Answer
unfolding reinit
begin_check i = do
  made ← arp_check i.dhcp_packet
  if made then pure (checking, true) else (do reinit_selecting 3000; reinit i)

unfoldable pub requesting_step : Bool → Inputs → M Answer
unfolding retransmit
requesting_step sev_dhcp i = unless_released i (
    if sev_dhcp
    then (do
      r ← selecting_packet i.dhcp_packet i.dhcp_msgtype i.dhcp_srcaddr true
      elim r [
        | anp_ignore ↦ retransmit requesting i
        | anp_check_ip ↦ begin_check i
        | _ ↦ halt suicide
      ])
    else retransmit requesting i)

unfoldable pub selecting_step : Inputs → M Answer
unfolding requesting_step
selecting_step i = unless_released i (
    if i.sev_dhcp
    then (do
      r ← selecting_packet i.dhcp_packet i.dhcp_msgtype i.dhcp_srcaddr false
      elim r [ anp_success ↦ requesting_step false i | _ ↦ discover i ])
    else discover i)

-- The first call: SELECTING with a fresh transaction id.
unfoldable pub start_step : Inputs → M Answer
unfolding selecting_step
start_step i = do
  xid ← nk_random_u32
  cs ← get_cs
  put_cs (record cs { xid = xid })
  selecting_step i

-- The address is free: the lease is announced.
unfoldable pub begin_lease : M Answer
begin_lease = do _ ← arp_query_gateway; _ ← arp_announce; pure (bound, true)

-- What the collision check does when its timer is over.
unfoldable pub checking_timeout : Inputs → M Answer
unfolding retransmit
checking_timeout i =
    if i.arp_timeout
    then (do
      r ← arp_collision_timeout i.nowts
      elim r [
        | arpr_free ↦ begin_lease
        | arpr_ok ↦ retransmit checking i
        | arpr_fail ↦ pure (checking, false)
        | arpr_conflict ↦ halt suicide
      ])
    else retransmit checking i

unfoldable pub checking_step : Inputs → M Answer
unfolding checking_timeout
checking_step i = unless_released i (
    if i.sev_arp
    then (do
      r ← arp_do_collision_check
      elim r [
        | arpr_ok ↦ checking_timeout i
        | arpr_conflict ↦ (do reinit_selecting 0; reinit i)
        | arpr_fail ↦ pure (checking, false)
        | arpr_free ↦ halt suicide
      ])
    else checking_timeout i)
