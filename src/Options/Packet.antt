-- ===== src/Options/Packet.antt =====
-- `struct dhcpmsg` of src/dhcp.h.
-- A number that the wire holds in network byte order is the number that its octets stand for.
use ndhc.Common.{ℕ, Bytes, length, ◌≡◌}

pub record Dhcpmsg : Type 0 where
  pub op : ℕ
  pub htype : ℕ
  pub hlen : ℕ
  pub hops : ℕ
  pub xid : ℕ
  pub secs : ℕ
  pub flags : ℕ
  pub ciaddr : ℕ
  pub yiaddr : ℕ
  pub siaddr : ℕ
  pub giaddr : ℕ
  pub chaddr : Bytes
  pub sname : Bytes
  pub file : Bytes
  pub cookie : ℕ
  pub options : Bytes

-- sizeof packet->options, packet->file, packet->sname
abbrev pub options_size : ℕ
options_size = 308

abbrev pub file_size : ℕ
file_size = 128

abbrev pub sname_size : ℕ
sname_size = 64

-- offsetof(struct dhcpmsg, options), sizeof(struct dhcpmsg), sizeof(struct iphdr),
-- sizeof(struct udphdr), sizeof(struct ip_udp_dhcp_packet)
abbrev pub options_offset : ℕ
options_offset = 240

abbrev pub dhcpmsg_size : ℕ
dhcpmsg_size = 548

abbrev pub iphdr_size : ℕ
iphdr_size = 20

abbrev pub udphdr_size : ℕ
udphdr_size = 8

abbrev pub ip_udp_dhcp_packet_size : ℕ
ip_udp_dhcp_packet_size = 576

-- The arrays of the struct have their sizes.
pub record HasSizes (p : Dhcpmsg) : Type 0 where
  pub options_length : length p.options ≡ options_size
  pub file_length : length p.file ≡ file_size
  pub sname_length : length p.sname ≡ sname_size

abbrev pub max_dopt_size : ℕ
max_dopt_size = 500

abbrev pub dhcp_magic : ℕ
dhcp_magic = 0x63825363
