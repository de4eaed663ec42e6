-- ===== src/Dhcp/Accepts.antt =====
-- Which messages of servers reach the state machine.
use ndhc.Common.{ℕ, ◌≡◌, ◌≢◌, some, true, take, arith, is_some}
use ndhc.Dhcp.Receive.{payload, validate_dhcp_packet, dhcp_packet_get}
use ndhc.Ifchange.Changes.{same_bytes}
use ndhc.Master.Sound.{IsSound, EndsSound}
use ndhc.Master.World.{World, returned}
use ndhc.Options.Dcode
use ndhc.Options.Getters.{get_option_msgtype, get_option_clientid}
use ndhc.Options.Packet.{Dhcpmsg, HasSizes, dhcp_magic, max_dopt_size}
use ndhc.Options.Safety.{get_dhcp_opt_safe, get_end_option_idx_safe}

-- A message is passed on only with a listening socket, the magic cookie, the transaction id and the
-- hardware address of the client, and with a message type, which is the one that is passed on.
pub dhcp_packet_get-accepts :
    (packet : Dhcpmsg) (srcaddr len msgtype : ℕ) (w w' : World)
    → dhcp_packet_get (payload packet srcaddr len) w ≡ returned (some msgtype) w'
    → (is_some w.cs.listen_fd ≡ true)
      × (packet.cookie ≡ dhcp_magic)
      × (packet.xid ≡ w.cs.xid)
      × (same_bytes (take 6 packet.chaddr) w.conf.arp ≡ true)
      × (get_option_msgtype packet ≡ some msgtype)
      × (msgtype ≢ 0)
unfolding dhcp_packet_get validate_dhcp_packet
dhcp_packet_get-accepts packet srcaddr len msgtype w w' e = ground arith

-- The reception of a message of any content ends without a fault, and keeps what the state machine
-- needs, if the message has the sizes of its type.
pub dhcp_packet_get-EndsSound :
    (packet : Dhcpmsg) (srcaddr len : ℕ) (w : World)
    → HasSizes packet
    → IsSound w
    → EndsSound (dhcp_packet_get (payload packet srcaddr len) w)
unfolding dhcp_packet_get validate_dhcp_packet get_option_msgtype get_option_clientid
dhcp_packet_get-EndsSound packet srcaddr len w sizes s =
    let (t, et, _) = get_dhcp_opt_safe packet Dcode.msgtype max_dopt_size sizes in
    let (c, ec, _) = get_dhcp_opt_safe packet Dcode.client_id max_dopt_size sizes in
    let (n, en, _) = get_end_option_idx_safe packet sizes in ground (arith, et, ec, en)
