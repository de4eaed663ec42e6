-- ===== src/Arp/Announce.antt =====
-- The announcements of a new address, of src/arp.c.
use ndhc.Common.{ℕ, ◌+◌, true, not, ◌&&◌, ◌||◌, Option, none, some, ltb, if◌then◌else◌}
use ndhc.Arp.Message.{arp_announcement}
use ndhc.Arp.Result.{
  Arpr, arpr_ok, arpr_fail, Waited, not_yet, timed_out, failed, arp_retrans_delay,
}
use ndhc.Master.World.{M, pure, ◌>>=◌, ◌>>◌, get_cs, get_garp, put_cs, put_garp, curms}

abbrev pub wake_announce : Option ℕ → M (Unit {0})
wake_announce t = do
  garp ← get_garp
  put_garp (record garp { wake_ts = record garp.wake_ts { announce = t } })

abbrev pub waited_of : Arpr → Waited
waited_of arpr_ok = timed_out
waited_of _ = failed

unfoldable pub arp_announce : M Arpr
arp_announce = do
  cs ← get_cs
  if cs.sent_first_announce && cs.sent_second_announce
      then (do wake_announce none; pure arpr_ok)
      else (do
        sent ← arp_announcement
        if not sent
            then (do now ← curms; wake_announce (some (now + arp_retrans_delay)); pure arpr_fail)
            else (do
              c ← get_cs
              put_cs (
                  if not c.sent_first_announce
                  then record c { sent_first_announce = true }
                  else if not c.sent_second_announce
                  then record c { sent_second_announce = true }
                  else c)
              c' ← get_cs
              if not c'.sent_first_announce || not c'.sent_second_announce
                  then (do
                    now ← curms
                    wake_announce (some (now + arp_retrans_delay))
                    pure arpr_ok)
                  else (do wake_announce none; pure arpr_ok)))

unfoldable pub arp_announce_timeout : ℕ → M Waited
arp_announce_timeout nowts = do
  garp ← get_garp
  elim garp.wake_ts.announce [
    | none ↦ pure timed_out
    | some rtts ↦ if ltb nowts rtts then pure not_yet else (do r ← arp_announce; pure (waited_of r))
  ]
