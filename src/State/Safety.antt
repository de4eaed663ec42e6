-- ===== src/State/Safety.antt =====
-- No call of the state machine of src/state.c leaves a buffer.
use ndhc.Common.{arith, false}
use ndhc.Master.Sound.{IsSound, EndsSound}
use ndhc.Master.World.{World}
use ndhc.Options.Packet.{HasSizes}
use ndhc.State.Result.{Inputs}
use ndhc.State.BoundSound.{bound_step-EndsSound}
use ndhc.State.Machine.{released_step, dhcp_handle}
use ndhc.State.Search.{Pc, start, selecting, requesting, checking, bound, bound_deconfig, released}
use ndhc.State.SearchSound.{
  reinit-EndsSound, start_step-EndsSound, selecting_step-EndsSound, requesting_step-EndsSound,
  checking_step-EndsSound,
}
use ndhc.State.Sound.{reinit_selecting-EndsSound, frenew-EndsSound}

released_step-EndsSound : (i : Inputs) (w : World) → IsSound w → EndsSound (released_step i w)
unfolding released_step
released_step-EndsSound i w s = grind (arith, frenew-EndsSound false w s, reinit-EndsSound i)

pub dhcp_handle-EndsSound :
    (pc : Pc) (i : Inputs) (w : World)
    → HasSizes i.dhcp_packet
    → IsSound w
    → EndsSound (dhcp_handle pc i w)
unfolding dhcp_handle
dhcp_handle-EndsSound start i w sizes s = start_step-EndsSound i w sizes s
dhcp_handle-EndsSound selecting i w sizes s = selecting_step-EndsSound i w sizes s
dhcp_handle-EndsSound requesting i w sizes s = requesting_step-EndsSound i.sev_dhcp i w sizes s
dhcp_handle-EndsSound checking i w sizes s = checking_step-EndsSound i w s
dhcp_handle-EndsSound bound i w sizes s = bound_step-EndsSound i w sizes s
dhcp_handle-EndsSound bound_deconfig i w sizes s =
    grind (arith, reinit_selecting-EndsSound 0 w s, reinit-EndsSound i)
dhcp_handle-EndsSound released i w sizes s = released_step-EndsSound i w s
