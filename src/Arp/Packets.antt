-- ===== src/Arp/Packets.antt =====
-- The reception of ARP messages and the next time at which a timer is due, of src/arp.c.
use ndhc.Common.{ℕ, Bool, true, false, not, ◌&&◌, ◌||◌, Option, none, some, ltb, if◌then◌else◌}
use ndhc.Arp.Message.{arp_validate_bpf, arp_validate_bpf_defense}
use ndhc.Arp.Result.{arp_msg_size}
use ndhc.Arp.Socket.{arp_min_close_fd, arp_open_fd}
use ndhc.Master.Client.{ArpMsg, WakeTs}
use ndhc.Master.World.{M, pure, ◌>>=◌, ◌>>◌, halt, get_cs, get_garp, get_conf, put_garp, suicide}

-- What `safe_read` on the ARP socket gives: nothing, an error, or a message and its length.
pub data ReadArp : Type 0 where
  nothing read_error : ReadArp
  message : ArpMsg → ℕ → ReadArp

unfoldable pub arp_packet_get : ReadArp → M Bool
arp_packet_get nothing = pure false
arp_packet_get read_error = do
  arp_min_close_fd
  cs ← get_cs
  opened ← arp_open_fd cs.arp_is_defense
  if not opened then halt suicide else pure false
arp_packet_get (message amsg bytes_read) = if ltb bytes_read arp_msg_size then pure false else (do
  cs ← get_cs
  garp ← get_garp
  conf ← get_conf
  if not garp.using_bpf
        && (not (arp_validate_bpf amsg)
            || cs.arp_is_defense && not (arp_validate_bpf_defense conf cs amsg))
      then pure false
      else (do put_garp (record garp { reply = amsg }); pure true))

-- One round of the loop of `arp_get_wake_ts`.
abbrev pub earlier : Option ℕ → Option ℕ → Option ℕ
earlier mt none = mt
earlier none (some t) = some t
earlier (some m) (some t) = if ltb t m then some t else some m

unfoldable pub arp_get_wake_ts : WakeTs → Option ℕ
arp_get_wake_ts w =
    earlier
      (earlier
        (earlier (earlier (earlier (earlier none w.announce) w.collision_check) w.query_gw_send)
          w.gw_check)
        w.gw_query)
      w.defense
