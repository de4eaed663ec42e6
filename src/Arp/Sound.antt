-- ===== src/Arp/Sound.antt =====
-- The functions of src/arp.c below the tasks keep the state sound: sockets, messages and timers.
use ndhc.Common.{ℕ, Bool, arith, true, false}
use ndhc.Arp.Announce.{arp_announce, arp_announce_timeout}
use ndhc.Arp.Message.{arp_send, arp_ping, arp_ip_anon_ping, arp_announcement}
use ndhc.Arp.Probe.{arp_check, arp_gen_probe_wait}
use ndhc.Arp.Socket.{
  arp_min_close_fd, arp_close_fd, arp_reset_state, get_arp_basic_socket, get_arp_defense_socket,
  arp_open_fd, arp_set_defense_mode,
}
use ndhc.Dhcp.Sound.{carrier_isup-EndsSound}
use ndhc.Master.Client.{ArpMsg}
use ndhc.Master.Ipc.{request_sockd_fd}
use ndhc.Master.Sound.{IsSound, EndsSound}
use ndhc.Master.World.{World}
use ndhc.Options.Packet.{Dhcpmsg, HasSizes}

pub arp_reset_state-EndsSound : (w : World) → IsSound w → EndsSound (arp_reset_state w)
unfolding arp_reset_state arp_close_fd arp_min_close_fd
arp_reset_state-EndsSound w s = ground arith

pub arp_min_close_fd-EndsSound : (w : World) → IsSound w → EndsSound (arp_min_close_fd w)
unfolding arp_min_close_fd
arp_min_close_fd-EndsSound w s = ground arith

get_arp_basic_socket-EndsSound : (w : World) → IsSound w → EndsSound (get_arp_basic_socket w)
unfolding get_arp_basic_socket request_sockd_fd
get_arp_basic_socket-EndsSound w s = ground arith

get_arp_defense_socket-EndsSound : (w : World) → IsSound w → EndsSound (get_arp_defense_socket w)
unfolding get_arp_defense_socket request_sockd_fd
get_arp_defense_socket-EndsSound w s = ground arith

pub arp_open_fd-EndsSound :
    (defense : Bool) (w : World) → IsSound w → EndsSound (arp_open_fd defense w)
unfolding arp_open_fd arp_min_close_fd
arp_open_fd-EndsSound true w s = grind (arith, get_arp_defense_socket-EndsSound)
arp_open_fd-EndsSound false w s = grind (arith, get_arp_basic_socket-EndsSound)

pub arp_set_defense_mode-EndsSound : (w : World) → IsSound w → EndsSound (arp_set_defense_mode w)
unfolding arp_set_defense_mode
arp_set_defense_mode-EndsSound w s = arp_open_fd-EndsSound true w s

arp_send-EndsSound : (arp : ArpMsg) (w : World) → IsSound w → EndsSound (arp_send arp w)
unfolding arp_send
arp_send-EndsSound arp w s = grind (arith, carrier_isup-EndsSound w s)

pub arp_ping-EndsSound : (ip : ℕ) (w : World) → IsSound w → EndsSound (arp_ping ip w)
unfolding arp_ping
arp_ping-EndsSound ip w s = grind (arith, arp_send-EndsSound)

pub arp_ip_anon_ping-EndsSound :
    (ip : ℕ) (w : World) → IsSound w → EndsSound (arp_ip_anon_ping ip w)
unfolding arp_ip_anon_ping
arp_ip_anon_ping-EndsSound ip w s = grind (arith, arp_send-EndsSound)

pub arp_announcement-EndsSound : (w : World) → IsSound w → EndsSound (arp_announcement w)
unfolding arp_announcement
arp_announcement-EndsSound w s = grind (arith, arp_send-EndsSound)

pub arp_announce-EndsSound : (w : World) → IsSound w → EndsSound (arp_announce w)
unfolding arp_announce
arp_announce-EndsSound w s = grind (arith, arp_announcement-EndsSound)

pub arp_announce_timeout-EndsSound :
    (nowts : ℕ) (w : World) → IsSound w → EndsSound (arp_announce_timeout nowts w)
unfolding arp_announce_timeout
arp_announce_timeout-EndsSound nowts w s = grind (arith, arp_announce-EndsSound w s)

pub arp_check-EndsSound :
    (packet : Dhcpmsg) (w : World) → HasSizes packet → IsSound w → EndsSound (arp_check packet w)
unfolding arp_check
arp_check-EndsSound packet w sizes s =
    grind (arith, arp_open_fd-EndsSound, arp_ip_anon_ping-EndsSound)

pub arp_gen_probe_wait-EndsSound : (w : World) → IsSound w → EndsSound (arp_gen_probe_wait w)
unfolding arp_gen_probe_wait
arp_gen_probe_wait-EndsSound w s = ground arith
