-- ===== src/State/Asleep.antt =====
-- What is left when the client goes to sleep, and what the client does not listen to.
use ndhc.Common.{ℕ, ◌<◌, ◌≡◌, true, false, none, some, arith}
use ndhc.Arp.Packets.{arp_get_wake_ts}
use ndhc.Arp.Socket.{arp_reset_state, arp_close_fd, arp_min_close_fd}
use ndhc.Arp.Wakes.{DueBy}
use ndhc.Dhcp.Send.{stop_dhcp_listen}
use ndhc.Master.Outcomes.{Leaves}
use ndhc.Master.World.{World, returned}
use ndhc.State.Bound.{
  bound_step, on_signal, on_dhcp, on_arp, on_arp_timeout, on_carrier, on_lease_timeout,
}
use ndhc.State.Machine.{dhcp_handle}
use ndhc.State.Result.{Inputs, bto_wait, signal_none}
use ndhc.State.Search.{bound}
use ndhc.State.Signals.{print_release}
use ndhc.State.Timeouts.{
  reinit_shared_deconfig, renew_at, rebind_at, expires_at, is_renewing, renewing_timeout,
  rebinding_timeout,
}

-- No address, no timer, no open socket, and no request that is counted.
pub record IsAsleep (w : World) : Type 0 where
  pub no_dhcp_wake : w.cs.dhcp_wake_ts ≡ none
  pub no_arp_wake : arp_get_wake_ts w.garp.wake_ts ≡ none
  pub no_address : w.cs.client_addr ≡ 0
  pub no_listen_fd : w.cs.listen_fd ≡ none
  pub no_arp_fd : w.cs.arp_fd ≡ none
  pub no_requests : w.cs.num_dhcp_requests ≡ 0

-- Going to sleep always succeeds, and leaves the client without an address, a timer, an open socket
-- and a request that is counted.
print_release_lem : (w : World) → Leaves IsAsleep (print_release w)
unfolding print_release reinit_shared_deconfig arp_reset_state arp_close_fd arp_min_close_fd
    stop_dhcp_listen arp_get_wake_ts
print_release_lem w = ground arith

-- A message of a DHCP server that comes before the renewal time changes nothing in a client that is
-- bound, if no timer is due and there is no other event.
pub dhcp_handle-early :
    (i : Inputs) (w : World)
    → i.nowts < renew_at w.cs
    → i.sev_signal ≡ signal_none
    → i.sev_arp ≡ false
    → i.force_fingerprint ≡ false
    → i.dhcp_timeout ≡ false
    → i.arp_timeout ≡ false
    → dhcp_handle bound i w ≡ returned (bound, true) w
unfolding dhcp_handle bound_step on_signal on_dhcp on_arp on_arp_timeout on_carrier on_lease_timeout
    is_renewing
dhcp_handle-early i w early no_signal no_arp no_carrier no_timeout no_arp_timeout = ground arith

-- While a renewal waits for its answer, the next attempt is not after the rebinding time.
renewing_timeout-wait :
    (nowts : ℕ) (w w' : World)
    → nowts < rebind_at w.cs
    → renewing_timeout nowts w ≡ returned bto_wait w'
    → DueBy w'.cs.dhcp_wake_ts (some (rebind_at w.cs))
unfolding renewing_timeout rebind_at
renewing_timeout-wait nowts w w' early waits = ground arith

-- While a rebinding waits for its answer, the next attempt is not after the lease's end.
rebinding_timeout-wait :
    (nowts : ℕ) (w w' : World)
    → rebinding_timeout nowts w ≡ returned bto_wait w'
    → DueBy w'.cs.dhcp_wake_ts (some (expires_at w.cs))
unfolding rebinding_timeout expires_at
rebinding_timeout-wait nowts w w' waits = ground arith
