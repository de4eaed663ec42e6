-- ===== src/MainLoop/Blocked.antt =====
-- What the main loop of src/ndhc.c does while the radio is blocked.
use ndhc.Common.{ℕ, ◌+◌, ◌%◌, ◌≤◌, ◌<◌, true, some, ◌≡◌, ◌⊎◌, arith}
use ndhc.Common.Subprocess.{signo}
use ndhc.MainLoop.Round.{
  signal_dispatch, signal_ready, Constants, Loop, see, after_rfkill, nl_event_carrier_wentup,
  wait_for_interface, handle_if_up, handle_seen, round,
}
use ndhc.Master.World.{World, returned}

-- While the radio is blocked, a signal SIGUSR1 or SIGUSR2 is dropped: the round only draws a random number
-- and sets a timeout of 2000 to 4999 milliseconds, and nothing else changes.
pub round-signal :
    (k : Constants) (l : Loop) (n : ℕ) (w : World)
    → l.rfkill_set ≡ true
    → (n ≡ 10) ⊎ (n ≡ 12)
    → (t : ℕ) × (round k l (signal_ready (signo n)) w
        ≡ returned (record l { timeout = some t }) (record w { tick = w.tick + 1 }))
      × (2000 ≤ t)
      × (t < 5000)
unfolding round see signal_dispatch handle_seen after_rfkill nl_event_carrier_wentup handle_if_up
    wait_for_interface
round-signal k l n w h q =
    (2000 + w.env.random w.tick % 3000, ground (arith, h, q), omega arith, omega arith)
