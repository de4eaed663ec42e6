-- ===== src/MainLoop/Start.antt =====
-- `ndhc_main` and `do_ndhc_work` of src/ndhc.c, and `nl_open` of src/nl.c.
use ndhc.Common.{ℕ, Bool, false, not, Option, none, some, List, ◌==◌, if◌then◌else◌}
use ndhc.Dhcp.Send.{start_dhcp_listen}
use ndhc.Ifchange.Bind.{ifchange_deconfig}
use ndhc.MainLoop.Round.{Polled, Constants, Loop}
use ndhc.MainLoop.Safety.{rounds}
use ndhc.Master.Ipc.{carrier_isup}
use ndhc.Master.World.{M, ◌>>=◌, pure, halt, suicide, World}
use ndhc.Options.Packet.{Dhcpmsg}
use ndhc.State.Search.{start}

-- What the calls of `nl_open` give; `getsockname` has the length of the address, its family and its
-- number, if it works.
pub record NetlinkCalls : Type 0 where
  pub socket : Bool
  pub bind : Bool
  pub getsockname : Option (ℕ × ℕ × ℕ)

-- AF_NETLINK is 16, and the address has 12 octets.
unfoldable pub bound_port : Option (ℕ × ℕ × ℕ) → Option ℕ
bound_port none = none
bound_port (some (al, nl_family, nl_pid)) =
    if not (al == 12) then none else if not (nl_family == 16) then none else some nl_pid

-- The number of the socket's port, or `none` for the result -1.
unfoldable pub nl_open : NetlinkCalls → Option ℕ
unfolding bound_port
nl_open calls =
    if not calls.socket then none else if not calls.bind then none else bound_port calls.getsockname

-- What the calls before the loop give: whether those of `ndhc_main` that end the process work, those of
-- `do_ndhc_work`, and what the packet on the stack holds.
pub record Starting : Type 0 where
  pub netlink : NetlinkCalls
  pub main_works : Bool
  pub work_works : Bool
  pub dhcp_packet : Dhcpmsg

abbrev pub beginning : Dhcpmsg → Loop
beginning packet = record {
  pc = start;
  rfkill_set = false;
  rfkill_nl_carrier_wentup = false;
  dhcp_packet = packet;
  timeout = some 0;
}

unfoldable pub do_ndhc_work : Constants → Starting → List Polled → M Loop
unfolding rounds
do_ndhc_work k s polled =
    if s.work_works
    then (do listening ← start_dhcp_listen; rounds k (beginning s.dhcp_packet) polled)
    else halt suicide

-- Where the carrier is down, the interface is reset first.
unfoldable pub deconfigured : M (Unit {0})
deconfigured = do
  up ← carrier_isup
  if not up then (do done ← ifchange_deconfig; if done then pure tt else halt suicide) else pure tt

unfoldable pub open_or_die : Option ℕ → M ℕ
open_or_die none = halt suicide
open_or_die (some nl_port_id) = pure nl_port_id

unfoldable pub ndhc_main : (ifindex rfkill_idx : ℕ) → Starting → List Polled → M Loop
unfolding nl_open open_or_die deconfigured do_ndhc_work
ndhc_main ifindex rfkill_idx s polled = do
  nl_port_id ← open_or_die (nl_open s.netlink)
  if s.main_works
      then (do
        ready ← deconfigured
        do_ndhc_work
            (record { ifindex = ifindex; nl_port_id = nl_port_id; rfkill_idx = rfkill_idx }) s
            polled)
      else halt suicide
