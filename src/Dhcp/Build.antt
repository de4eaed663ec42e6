-- ===== src/Dhcp/Build.antt =====
-- The messages of src/dhcp.c, as the bodies of `send_discover` and its siblings build them.
use ndhc.Common.{
  ℕ, Bytes, not, Option, some, [], ◌∷◌, length, replicate, write, write_all, ◌==◌, if◌then◌else◌,
  ◌>>=◌,
}
use ndhc.Master.Client.{Config}
use ndhc.Options.Append.{
  add_option_msgtype, add_option_clientid, add_option_reqip, add_option_serverid,
  add_option_maxsize, add_option_request_list, add_option_vendor, add_option_hostname,
}
use ndhc.Options.Dcode
use ndhc.Options.MsgType
use ndhc.Options.Packet.{Dhcpmsg, options_size, file_size, sname_size, dhcp_magic}

-- struct dhcpmsg packet = {.xid = xid}
unfoldable pub blank : ℕ → Dhcpmsg
blank xid = record {
  op = 0;
  htype = 0;
  hlen = 0;
  hops = 0;
  xid = xid;
  secs = 0;
  flags = 0;
  ciaddr = 0;
  yiaddr = 0;
  siaddr = 0;
  giaddr = 0;
  chaddr = replicate 16 0;
  sname = replicate sname_size 0;
  file = replicate file_size 0;
  cookie = 0;
  options = replicate options_size 0;
}

-- "ndhc"
abbrev pub default_vendor : Bytes
default_vendor = b'n' ∷ b'd' ∷ b'h' ∷ b'c' ∷ []

unfoldable pub add_options_vendor_hostname : Config → Dhcpmsg → Option Dhcpmsg
add_options_vendor_hostname conf packet = do
  p ←
      add_option_vendor packet
        (if not (length conf.vendor == 0) then conf.vendor else default_vendor)
  add_option_hostname p conf.hostname

unfoldable pub init_packet : Config → Dhcpmsg → ℕ → Option Dhcpmsg
init_packet conf packet type = do
  o ← write packet.options 0 Dcode.end
  let fixed = record packet { op = 1; htype = 1; hlen = 6; cookie = dhcp_magic; options = o }
  p ← add_option_msgtype fixed type
  c ← write_all p.chaddr 0 conf.arp
  add_option_clientid (record p { chaddr = c }) conf.clientid

-- The options that end every message which asks for an address.
unfoldable pub add_request_options : Config → Dhcpmsg → Option Dhcpmsg
add_request_options conf packet = do
  p ← add_option_maxsize packet
  q ← add_option_request_list p
  add_options_vendor_hostname conf q

unfoldable pub discover_packet : Config → ℕ → ℕ → Option Dhcpmsg
discover_packet conf xid client_addr = do
  p ← init_packet conf (blank xid) MsgType.discover
  q ← (if not (client_addr == 0) then add_option_reqip p client_addr else some p)
  add_request_options conf q

unfoldable pub selecting_packet : Config → ℕ → ℕ → ℕ → Option Dhcpmsg
selecting_packet conf xid client_addr server_addr = do
  p ← init_packet conf (blank xid) MsgType.request
  q ← add_option_reqip p client_addr
  r ← add_option_serverid q server_addr
  add_request_options conf r

unfoldable pub renew_packet : Config → ℕ → ℕ → Option Dhcpmsg
renew_packet conf xid client_addr = do
  p ← init_packet conf (blank xid) MsgType.request
  add_request_options conf (record p { ciaddr = client_addr })

unfoldable pub rebind_packet : Config → ℕ → ℕ → Option Dhcpmsg
rebind_packet conf xid client_addr = do
  p ← init_packet conf (blank xid) MsgType.request
  q ← add_option_reqip (record p { ciaddr = client_addr }) client_addr
  add_request_options conf q

unfoldable pub decline_packet : Config → ℕ → ℕ → ℕ → Option Dhcpmsg
decline_packet conf xid client_addr server = do
  p ← init_packet conf (blank xid) MsgType.decline
  q ← add_option_reqip p client_addr
  add_option_serverid q server

unfoldable pub release_packet : Config → ℕ → ℕ → ℕ → Option Dhcpmsg
release_packet conf xid client_addr server_addr = do
  p ← init_packet conf (blank xid) MsgType.release
  q ← add_option_reqip (record p { ciaddr = client_addr }) client_addr
  add_option_serverid q server_addr
