-- ===== src/State/Machine.antt =====
-- `dhcp_handle` of src/state.c: the coroutine goes on at the point where it returned last.
use ndhc.Common.{true, false, if◌then◌else◌}
use ndhc.Master.World.{M, pure, ◌>>=◌, ◌>>◌}
use ndhc.State.Bound.{bound_step}
use ndhc.State.Result.{signal_renew, Inputs}
use ndhc.State.Search.{
  Pc, start, selecting, requesting, checking, bound, bound_deconfig, released, Answer, reinit,
  start_step, selecting_step, requesting_step, checking_step,
}
use ndhc.State.Signals.{frenew}
use ndhc.State.Timeouts.{reinit_selecting}

unfoldable pub released_step : Inputs → M Answer
released_step i = elim i.sev_signal [
  | signal_renew ↦ (do done ← frenew false; if done then reinit i else pure (released, false))
  | _ ↦ pure (released, true)
]

unfoldable pub dhcp_handle : Pc → Inputs → M Answer
unfolding released_step bound_step
dhcp_handle start i = start_step i
dhcp_handle selecting i = selecting_step i
dhcp_handle requesting i = requesting_step i.sev_dhcp i
dhcp_handle checking i = checking_step i
dhcp_handle bound i = bound_step i
dhcp_handle bound_deconfig i = do reinit_selecting 0; reinit i
dhcp_handle released i = released_step i
