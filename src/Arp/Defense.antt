-- ===== src/Arp/Defense.antt =====
-- The defense of a bound address, of src/arp.c.
use ndhc.Common.{
  ℕ, ◌+◌, ◌-◌, Bool, true, not, ◌||◌, Option, none, some, ◌==◌, ltb, is_some, if◌then◌else◌,
}
use ndhc.Arp.Message.{arp_announcement, arp_validate_bpf_defense}
use ndhc.Arp.Result.{Arpr, arpr_ok, arpr_conflict, arpr_fail, defend_interval}
use ndhc.Dhcp.Send.{send_release}
use ndhc.Master.World.{M, pure, ◌>>=◌, ◌>>◌, get_cs, get_garp, get_conf, put_garp, curms}

abbrev pub wake_defense : Option ℕ → M (Unit {0})
wake_defense t = do
  garp ← get_garp
  put_garp (record garp { wake_ts = record garp.wake_ts { defense = t } })

-- The caller drops the result of the announcement.
unfoldable pub arp_defense_timeout : M Bool
arp_defense_timeout = do
  garp ← get_garp
  if is_some garp.wake_ts.defense then (do wake_defense none; arp_announcement) else pure true

-- The last two assignments, which count the conflict.
abbrev pub count_conflict : ℕ → M Arpr
count_conflict nowts = do
  garp ← get_garp
  put_garp (record garp { total_conflicts = garp.total_conflicts + 1; last_conflict_ts = nowts })
  pure arpr_ok

-- A difference below zero counts as below the interval.
unfoldable pub arp_do_defense : M Arpr
arp_do_defense = do
  cs ← get_cs
  g0 ← get_garp
  conf ← get_conf
  if not (arp_validate_bpf_defense conf cs g0.reply) then pure arpr_ok else (do
    nowts ← curms
    wake_defense none
    if g0.last_conflict_ts == 0 || ltb (nowts - g0.last_conflict_ts) defend_interval
        then (do sent ← arp_announcement; if not sent then pure arpr_fail else count_conflict nowts)
        else if not conf.relentless_def
        then (do r ← send_release; pure arpr_conflict)
        else (do
          garp ← get_garp
          wake_defense (some (garp.sent_announce.ts + defend_interval))
          count_conflict nowts))
