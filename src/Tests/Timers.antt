-- ===== src/Tests/Timers.antt =====
-- The theorems on the lease and on the state machine at concrete states.
use ndhc.Common.{◌≡◌, refl, true, arith}
use ndhc.Master.World.{World, returned, pure, ◌>>◌}
use ndhc.State.Asleep.{dhcp_handle-early}
use ndhc.State.Lease.{renewing_timeout-long}
use ndhc.State.Machine.{dhcp_handle}
use ndhc.State.Result.{Inputs, bto_expired}
use ndhc.State.Search.{bound}
use ndhc.State.Timeouts.{rebind_at, renew_at, renewing_timeout, reinit_selecting}
use ndhc.Tests.Data.{our_arp, cs, garp, world, quiet}

abbrev idle : World
idle = world b'u' (garp our_arp 0) 2000

-- A lease of 100 days, at the time when it should be rebound.
abbrev long_lease : World
long_lease = record idle {
  cs = record cs { lease = 8640000; renew_time = 4320000; rebind_time = 7560000 };
}

long_example :
    renewing_timeout 7560001000 long_lease ≡ (reinit_selecting 0 >> pure bto_expired) long_lease
unfolding rebind_at
long_example =
    renewing_timeout-long 7560001000 long_lease (omega arith) (omega arith) refl (omega arith)

-- An acknowledgement a second after the lease began.
abbrev ack : Inputs
ack = record quiet { sev_dhcp = true; dhcp_msgtype = 5 }

early_example : dhcp_handle bound ack idle ≡ returned (bound, true) idle
unfolding renew_at
early_example = dhcp_handle-early ack idle (omega arith) refl refl refl refl refl
