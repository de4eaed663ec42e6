-- ===== src/State/Lease.antt =====
-- The timers that a lease sets, and when it ends.
use ndhc.Common.{
  ℕ, zero, suc, ◌+◌, ◌*◌, ◌/◌, ◌%◌, ◌^◌, ◌≤◌, ◌<◌, ◌≡◌, refl, some, arith, value_or, get_elem?, ◌∷◌,
  [],
}
use ndhc.Master.Client.{ClientState}
use ndhc.Master.World.{World, returned, pure, ◌>>◌}
use ndhc.Options.Getters.{get_option_leasetime}
use ndhc.Options.Packet.{Dhcpmsg}
use ndhc.State.Result.{bto_expired}
use ndhc.State.Timeouts.{
  u32, renew_at, rebind_at, expires_at, lease_of, get_leasetime, delay_timeout, rebinding_timeout,
  renewing_timeout, reinit_selecting,
}

-- The timers of a lease of `sent` seconds from `start` on.
record IsTimed (cs : ClientState) : Type 0 where
  pub minute : 60 ≤ cs.lease
  pub wakes : cs.dhcp_wake_ts ≡ some (renew_at cs)
  pub renews_first : renew_at cs < rebind_at cs
  pub rebinds_first : cs.lease < 4294968 → rebind_at cs < expires_at cs

lease_of-minute : (t : ℕ) → 60 ≤ lease_of t
unfolding lease_of
lease_of-minute t = ground arith

lease_of-word : (t : ℕ) → t < 2 ^ 32 → lease_of t < 2 ^ 32
unfolding lease_of
lease_of-word t word = ground arith

IsTimed-of :
    (cs : ClientState)
    → 60 ≤ cs.lease
    → cs.lease < 2 ^ 32
    → cs.renew_time ≡ cs.lease / 2
    → cs.rebind_time ≡ u32 (cs.lease / 8 * 7)
    → cs.dhcp_wake_ts ≡ some (cs.lease_start_time + cs.renew_time * 1000)
    → IsTimed cs
unfolding renew_at rebind_at expires_at
IsTimed-of cs minute word renew rebind wake = record {
  minute = minute;
  wakes = wake;
  renews_first = omega (arith, renew, rebind);
  rebinds_first = λ short. omega (arith, rebind);
}

-- From a message whose lease time reads as the 32-bit number `t`, which is 0 where it is absent, the
-- lease that is set has a minute at least, is renewed before it is rebound, and is rebound before it
-- expires, the last if it is shorter than 4294968 seconds. The next wake is the renewal.
get_leasetime_lem :
    (packet : Dhcpmsg) (t : ℕ) (w : World)
    → get_option_leasetime packet ≡ some t
    → t < 2 ^ 32
    → (w' : World) × (get_leasetime packet w ≡ returned tt w') × IsTimed w'.cs
unfolding get_leasetime renew_at rebind_at expires_at lease_of
get_leasetime_lem packet t w e word =
    let start = w.env.now w.tick in
    let cs' = record w.cs {
      lease = lease_of t;
      lease_start_time = start;
      renew_time = lease_of t / 2;
      rebind_time = u32 (lease_of t / 8 * 7);
      dhcp_wake_ts = some (start + lease_of t / 2 * 1000);
    } in
    (
      record w { tick = w.tick + 1; cs = cs' },
      rw e refl,
      IsTimed-of cs' (lease_of-minute t) (lease_of-word t word) refl refl refl,
    )

-- A 32-bit lease of 4908536 seconds or more, with the rebinding time that follows from it, counts as
-- expired from the time on when it should be rebound: the client starts a new search.
pub renewing_timeout-long :
    (nowts : ℕ) (w : World)
    → 4908536 ≤ w.cs.lease
    → w.cs.lease < 2 ^ 32
    → w.cs.rebind_time ≡ u32 (w.cs.lease / 8 * 7)
    → rebind_at w.cs ≤ nowts
    → renewing_timeout nowts w ≡ (reinit_selecting 0 >> pure bto_expired) w
unfolding renewing_timeout rebinding_timeout rebind_at expires_at
renewing_timeout-long nowts w long short timed late = ground arith

abbrev seconds : ℕ → ℕ
seconds n = value_or (get_elem? (4 ∷ 8 ∷ 16 ∷ 32 ∷ 64 ∷ []) n) 64

seconds_bounds : (n : ℕ) → (4 ≤ seconds n) × (seconds n ≤ 64)
seconds_bounds zero = (omega arith, omega arith)
seconds_bounds (suc zero) = (omega arith, omega arith)
seconds_bounds (suc (suc zero)) = (omega arith, omega arith)
seconds_bounds (suc (suc (suc zero))) = (omega arith, omega arith)
seconds_bounds (suc (suc (suc (suc zero)))) = (omega arith, omega arith)
seconds_bounds (suc (suc (suc (suc (suc n))))) = (omega arith, omega arith)

-- The time to the next attempt of a message is between 4 seconds and 65.
pub delay_timeout_lem :
    (numpackets : ℕ) (w : World)
    → (d : ℕ) × (delay_timeout numpackets w ≡ returned d (record w { tick = w.tick + 1 }))
      × (4000 ≤ d)
      × (d < 65000)
unfolding delay_timeout
delay_timeout_lem numpackets w =
    let (low, high) = seconds_bounds numpackets in
    (seconds numpackets * 1000 + w.env.random w.tick % 1000, refl, omega arith, omega arith)
