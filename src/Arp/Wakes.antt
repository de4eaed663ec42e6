-- ===== src/Arp/Wakes.antt =====
-- The timers of src/arp.c: the next one that is due, and the time between two probes.
use ndhc.Common.{
  ℕ, ◌+◌, ◌-◌, ◌%◌, ◌≤◌, ◌<◌, ◌≡◌, ◌⊎◌, inl, inr, refl, Option, none, some, ltb, if◌then◌else◌,
  arith,
}
use ndhc.Arp.Packets.{earlier, arp_get_wake_ts}
use ndhc.Arp.Probe.{arp_gen_probe_wait}
use ndhc.Master.Client.{WakeTs}
use ndhc.Master.World.{World, returned}

-- The first timer is due when the second one is, or before.
abbrev pub DueBy : Option ℕ → Option ℕ → Type 0
DueBy m none = Unit {0}
DueBy none (some t) = ⊥
DueBy (some m) (some t) = m ≤ t

DueBy-refl : (m : Option ℕ) → DueBy m m
DueBy-refl none = tt
DueBy-refl (some m) = omega arith

DueBy-trans : (l m t : Option ℕ) → DueBy l m → DueBy m t → DueBy l t
DueBy-trans l m none p q = tt
DueBy-trans none none (some t) p q = q
DueBy-trans (some l) none (some t) p q = absurd q
DueBy-trans none (some m) (some t) p q = p
DueBy-trans (some l) (some m) (some t) p q = omega arith

earlier_first : (m t : Option ℕ) → DueBy (earlier m t) m
earlier_first none none = tt
earlier_first (some m) none = omega arith
earlier_first none (some t) = tt
earlier_first (some m) (some t) = ground arith

earlier_second : (m t : Option ℕ) → DueBy (earlier m t) t
earlier_second m none = tt
earlier_second none (some t) = omega arith
earlier_second (some m) (some t) = ground arith

earlier_choice : (m t : Option ℕ) → (earlier m t ≡ m) ⊎ (earlier m t ≡ t)
earlier_choice none none = inl refl
earlier_choice (some m) none = inl refl
earlier_choice none (some t) = inr refl
earlier_choice (some m) (some t) = ground arith

-- The next wake is not after any timer that is set.
arp_get_wake_ts-first :
    (w : WakeTs)
    → let m = arp_get_wake_ts w in
      DueBy m w.announce
      × DueBy m w.collision_check
      × DueBy m w.query_gw_send
      × DueBy m w.gw_check
      × DueBy m w.gw_query
      × DueBy m w.defense
unfolding arp_get_wake_ts
arp_get_wake_ts-first w =
    let m1 = earlier none w.announce in
    let m2 = earlier m1 w.collision_check in
    let m3 = earlier m2 w.query_gw_send in
    let m4 = earlier m3 w.gw_check in
    let m5 = earlier m4 w.gw_query in
    let m6 = earlier m5 w.defense in
    let l5 = earlier_first m5 w.defense in
    let l4 = DueBy-trans m6 m5 m4 l5 (earlier_first m4 w.gw_query) in
    let l3 = DueBy-trans m6 m4 m3 l4 (earlier_first m3 w.gw_check) in
    let l2 = DueBy-trans m6 m3 m2 l3 (earlier_first m2 w.query_gw_send) in
    let l1 = DueBy-trans m6 m2 m1 l2 (earlier_first m1 w.collision_check) in
    (
      DueBy-trans m6 m1 w.announce l1 (earlier_second none w.announce),
      DueBy-trans m6 m2 w.collision_check l2 (earlier_second m1 w.collision_check),
      DueBy-trans m6 m3 w.query_gw_send l3 (earlier_second m2 w.query_gw_send),
      DueBy-trans m6 m4 w.gw_check l4 (earlier_second m3 w.gw_check),
      DueBy-trans m6 m5 w.gw_query l5 (earlier_second m4 w.gw_query),
      earlier_second m5 w.defense,
    )

abbrev probe_span : World → ℕ
probe_span w =
    let range = w.conf.arp_probe_max - w.conf.arp_probe_min in
    if ltb range 1000 then 1000 else range

-- The wait between two probes is at least the configured minimum, and below the configured maximum
-- or the minimum and a second.
pub arp_gen_probe_wait_lem :
    (w : World)
    → (d : ℕ) × (arp_gen_probe_wait w ≡ returned d (record w { tick = w.tick + 1 }))
      × (w.conf.arp_probe_min ≤ d)
      × ((d < w.conf.arp_probe_max) ⊎ (d < w.conf.arp_probe_min + 1000))
unfolding arp_gen_probe_wait
arp_gen_probe_wait_lem w =
    (w.conf.arp_probe_min + w.env.random w.tick % probe_span w, refl, omega arith, ground arith)
