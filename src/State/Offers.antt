-- ===== src/State/Offers.antt =====
-- What the client does with a message of a server, of src/state.c.
use ndhc.Common.{ℕ, Bool, true, false, not, ◌&&◌, some, ◌==◌, if◌then◌else◌}
use ndhc.Arp.Socket.{arp_set_defense_mode}
use ndhc.Dhcp.Send.{stop_dhcp_listen}
use ndhc.Master.World.{M, pure, ◌>>=◌, ◌>>◌, checked, get_cs, put_cs, curms}
use ndhc.Options.Getters.{get_option_serverid}
use ndhc.Options.MsgType
use ndhc.Options.Packet.{Dhcpmsg}
use ndhc.State.Result.{Anp, anp_success, anp_ignore, anp_rejected, anp_check_ip}
use ndhc.State.Timeouts.{get_leasetime, reinit_selecting}

unfoldable pub validate_serverid : Dhcpmsg → M Bool
validate_serverid packet = do
  r ← checked (get_option_serverid packet)
  cs ← get_cs
  pure (if not r.1 then false else if not (cs.server_addr == r.0) then false else true)

-- An acknowledgement of the lease that is held, from the server that gave it.
unfoldable pub extend_valid_ack : Dhcpmsg → M Anp
extend_valid_ack packet = do
  get_leasetime packet
  cs ← get_cs
  if not (packet.yiaddr == cs.client_addr)
      then pure anp_check_ip
      else (do set ← arp_set_defense_mode; stop_dhcp_listen; pure anp_success)

unfoldable pub extend_ack : Dhcpmsg → M Anp
extend_ack packet = do
  valid ← validate_serverid packet
  if not valid then pure anp_ignore else extend_valid_ack packet

unfoldable pub extend_nak : Dhcpmsg → M Anp
extend_nak packet = do
  valid ← validate_serverid packet
  if not valid then pure anp_ignore else (do reinit_selecting 3000; pure anp_rejected)

unfoldable pub extend_packet : Dhcpmsg → ℕ → M Anp
extend_packet packet msgtype =
    if msgtype == MsgType.ack
    then extend_ack packet
    else if msgtype == MsgType.nak
    then extend_nak packet
    else pure anp_ignore

unfoldable pub take_offer : Dhcpmsg → ℕ → M Anp
take_offer packet srcaddr = do
  r ← checked (get_option_serverid packet)
  if not r.1 then pure anp_ignore else (do
    now ← curms
    cs ← get_cs
    put_cs (record cs {
      client_addr = packet.yiaddr;
      server_addr = r.0;
      src_addr = srcaddr;
      dhcp_wake_ts = some now;
      num_dhcp_requests = 0;
    })
    pure anp_success)

-- An acknowledgement of the offer that was asked for.
unfoldable pub take_ack : Dhcpmsg → ℕ → M Anp
take_ack packet srcaddr = do
  c0 ← get_cs
  if packet.yiaddr == c0.client_addr
      then (do
        r ← checked (get_option_serverid packet)
        if not r.1 then pure anp_ignore else (do
          put_cs (
              if not (c0.server_addr == r.0)
              then record c0 { server_addr = r.0; src_addr = srcaddr }
              else c0)
          get_leasetime packet
          pure anp_check_ip))
      else pure anp_ignore

unfoldable pub selecting_packet : Dhcpmsg → ℕ → ℕ → Bool → M Anp
selecting_packet packet msgtype srcaddr is_requesting =
    if not is_requesting && msgtype == MsgType.offer
    then take_offer packet srcaddr
    else if is_requesting && msgtype == MsgType.ack
    then take_ack packet srcaddr
    else pure anp_ignore
