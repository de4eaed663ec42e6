-- ===== src/Arp/Conflicts.antt =====
-- When src/arp.c takes a message for a conflict.
use ndhc.Common.{◌-◌, ◌≤◌, ◌≡◌, ◌≢◌, true, false, arith}
use ndhc.Arp.Collision.{arp_do_collision_check}
use ndhc.Arp.Defense.{arp_do_defense}
use ndhc.Arp.Message.{arp_validate_bpf_defense}
use ndhc.Arp.Result.{arpr_ok, arpr_conflict, defend_interval}
use ndhc.Ifchange.Changes.{same_bytes}
use ndhc.Master.World.{World, returned}

-- A message whose sender has another hardware address than ours is no conflict of an offered
-- address, whatever address it claims: the check goes on and nothing changes.
pub arp_do_collision_check-foreign :
    (w : World)
    → same_bytes w.conf.arp w.garp.reply.smac ≡ false
    → arp_do_collision_check w ≡ returned arpr_ok w
unfolding arp_do_collision_check
arp_do_collision_check-foreign w foreign = ground arith

-- A bound address is given up only for a message of another host that claims it, if the defense is
-- not relentless, there was a conflict before, and that one is DEFEND_INTERVAL old or older.
pub arp_do_defense-conflict :
    (w w' : World)
    → arp_do_defense w ≡ returned arpr_conflict w'
    → (arp_validate_bpf_defense w.conf w.cs w.garp.reply ≡ true)
      × (w.conf.relentless_def ≡ false)
      × (w.garp.last_conflict_ts ≢ 0)
      × (defend_interval ≤ w.env.now w.tick - w.garp.last_conflict_ts)
unfolding arp_do_defense
arp_do_defense-conflict w w' conflict = ground arith
