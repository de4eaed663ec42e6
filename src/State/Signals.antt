-- ===== src/State/Signals.antt =====
-- What the client does on a signal and when the carrier comes back, of src/state.c. `true` stands
-- for a result of 0, and `false` for -1.
use ndhc.Common.{Bool, true, false, not, ◌&&◌, none, ◌==◌, is_some, if◌then◌else◌}
use ndhc.Arp.Gateway.{arp_gw_check}
use ndhc.Dhcp.Send.{start_dhcp_listen, stop_dhcp_listen, send_renew, send_release}
use ndhc.Master.World.{M, pure, ◌>>=◌, ◌>>◌, halt, get_cs, put_cs, suicide}
use ndhc.State.Result.{Ifup, ifup_revalidate, ifup_newlease, ifup_fail}
use ndhc.State.Timeouts.{reinit_shared_deconfig, reinit_selecting}

unfoldable pub print_release : M (Unit {0})
print_release = do
  reinit_shared_deconfig
  cs ← get_cs
  put_cs (record cs { dhcp_wake_ts = none })
  stop_dhcp_listen

unfoldable pub xmit_release : M Bool
unfolding print_release
xmit_release = do
  sent ← send_release
  if not (is_some sent) then pure false else (do print_release; pure true)

unfoldable pub frenew : Bool → M Bool
frenew is_bound =
    if is_bound
    then (do start_dhcp_listen; sent ← send_renew; pure (is_some sent))
    else (do reinit_selecting 0; pure true)

unfoldable pub ifup_action : M Ifup
ifup_action = do
  cs ← get_cs
  if not (cs.router_addr == 0) && not (cs.server_addr == 0)
      then (if cs.init_fingerprint_inprogress
          then halt suicide
          else (do checking ← arp_gw_check; pure (if checking then ifup_revalidate else ifup_fail)))
      else pure ifup_newlease
