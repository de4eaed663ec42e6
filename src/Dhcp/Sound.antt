-- ===== src/Dhcp/Sound.antt =====
-- The functions of src/dhcp.c, and the requests below them, keep the state sound.
use ndhc.Common.{ℕ, ◌+◌, Bytes, Bool, arith}
use ndhc.Dhcp.Contents.{header}
use ndhc.Dhcp.Messages.{
  discover_packet_lem, selecting_packet_lem, renew_packet_lem, rebind_packet_lem,
  decline_packet_lem, release_packet_lem,
}
use ndhc.Dhcp.Sends.{HasSizes-header, HasSizes-ciaddr}
use ndhc.Dhcp.Send.{
  get_udp_unicast_socket, get_raw_broadcast_socket, get_raw_listen_socket, send_dhcp_unicast,
  send_dhcp_raw, start_dhcp_listen, stop_dhcp_listen, send_discover, send_selecting, send_renew,
  send_rebind, send_decline, send_release,
}
use ndhc.Master.Ipc.{request_sockd_fd, ifchwrite, carrier_isup}
use ndhc.Master.Sound.{IsSound, EndsSound}
use ndhc.Master.World.{World}
use ndhc.Options.Packet.{Dhcpmsg, HasSizes}
use ndhc.Options.Safety.{get_end_option_idx_safe}

pub request_sockd_fd-EndsSound :
    (c : ℕ) (args : Bytes) (want : Bool) (w : World)
    → IsSound w
    → EndsSound (request_sockd_fd c args want w)
unfolding request_sockd_fd
request_sockd_fd-EndsSound c args want w s = ground arith

pub ifchwrite-EndsSound : (buf : Bytes) (w : World) → IsSound w → EndsSound (ifchwrite buf w)
unfolding ifchwrite
ifchwrite-EndsSound buf w s = ground arith

pub carrier_isup-EndsSound : (w : World) → IsSound w → EndsSound (carrier_isup w)
unfolding carrier_isup
carrier_isup-EndsSound w s = ifchwrite-EndsSound _ w s

raw_socket-EndsSound : (w : World) → IsSound w → EndsSound (get_raw_broadcast_socket w)
unfolding get_raw_broadcast_socket request_sockd_fd
raw_socket-EndsSound w s = ground arith

unicast_socket-EndsSound : (w : World) → IsSound w → EndsSound (get_udp_unicast_socket w)
unfolding get_udp_unicast_socket request_sockd_fd
unicast_socket-EndsSound w s = ground arith

pub start_dhcp_listen-EndsSound : (w : World) → IsSound w → EndsSound (start_dhcp_listen w)
unfolding start_dhcp_listen get_raw_listen_socket request_sockd_fd
start_dhcp_listen-EndsSound w s = ground arith

pub stop_dhcp_listen-EndsSound : (w : World) → IsSound w → EndsSound (stop_dhcp_listen w)
unfolding stop_dhcp_listen
stop_dhcp_listen-EndsSound w s = ground arith

send_dhcp_raw-EndsSound :
    (p : Dhcpmsg) (w : World) → HasSizes p → IsSound w → EndsSound (send_dhcp_raw p w)
unfolding send_dhcp_raw
send_dhcp_raw-EndsSound p w sizes s =
    let (end, e, _) = get_end_option_idx_safe p sizes in
    grind (arith, e, carrier_isup-EndsSound, raw_socket-EndsSound w)

send_dhcp_unicast-EndsSound :
    (p : Dhcpmsg) (w : World) → HasSizes p → IsSound w → EndsSound (send_dhcp_unicast p w)
unfolding send_dhcp_unicast
send_dhcp_unicast-EndsSound p w sizes s =
    let (end, e, _) = get_end_option_idx_safe p sizes in
    grind (arith, e, carrier_isup-EndsSound, unicast_socket-EndsSound w)

pub send_discover-EndsSound : (w : World) → IsSound w → EndsSound (send_discover w)
unfolding send_discover
send_discover-EndsSound w s =
    let (o, e, h) = discover_packet_lem w.conf s.valid w.cs.xid w.cs.client_addr in
    let p = record (header w.conf w.cs.xid) { options = o } in
    rw e (send_dhcp_raw-EndsSound p w (HasSizes-header w.conf w.cs.xid o _ h) s)

pub send_selecting-EndsSound : (w : World) → IsSound w → EndsSound (send_selecting w)
unfolding send_selecting
send_selecting-EndsSound w s =
    let (o, e, h) =
      selecting_packet_lem w.conf s.valid w.cs.xid w.cs.client_addr w.cs.server_addr in
    let p = record (header w.conf w.cs.xid) { options = o } in
    rw e (send_dhcp_raw-EndsSound p w (HasSizes-header w.conf w.cs.xid o _ h) s)

pub send_renew-EndsSound : (w : World) → IsSound w → EndsSound (send_renew w)
unfolding send_renew
send_renew-EndsSound w s =
    let (o, e, h) = renew_packet_lem w.conf s.valid w.cs.xid w.cs.client_addr in
    let p = record (header w.conf w.cs.xid) { ciaddr = w.cs.client_addr; options = o } in
    rw e
      (send_dhcp_unicast-EndsSound p w (HasSizes-ciaddr w.conf w.cs.xid w.cs.client_addr o _ h) s)

pub send_rebind-EndsSound : (w : World) → IsSound w → EndsSound (send_rebind w)
unfolding send_rebind
send_rebind-EndsSound w s =
    let (o, e, h) = rebind_packet_lem w.conf s.valid w.cs.xid w.cs.client_addr in
    let p = record (header w.conf w.cs.xid) { ciaddr = w.cs.client_addr; options = o } in
    rw e (send_dhcp_raw-EndsSound p w (HasSizes-ciaddr w.conf w.cs.xid w.cs.client_addr o _ h) s)

pub send_decline-EndsSound :
    (server : ℕ) (w : World) → IsSound w → EndsSound (send_decline server w)
unfolding send_decline
send_decline-EndsSound server w s =
    let (o, e, h) = decline_packet_lem w.conf s.valid w.cs.xid w.cs.client_addr server in
    let p = record (header w.conf w.cs.xid) { options = o } in
    rw e (send_dhcp_raw-EndsSound p w (HasSizes-header w.conf w.cs.xid o _ h) s)

pub send_release-EndsSound : (w : World) → IsSound w → EndsSound (send_release w)
unfolding send_release
send_release-EndsSound w s =
    let xid = w.env.random w.tick in
    let (o, e, h) = release_packet_lem w.conf s.valid xid w.cs.client_addr w.cs.server_addr in
    let p = record (header w.conf xid) { ciaddr = w.cs.client_addr; options = o } in
    rw e (
      send_dhcp_unicast-EndsSound p (record w { tick = w.tick + 1 })
        (HasSizes-ciaddr w.conf xid w.cs.client_addr o _ h)
        (record {
          valid = s.valid;
          stays = s.stays;
          cfg_sizes = s.cfg_sizes;
          offer_sizes = s.offer_sizes;
        }))
