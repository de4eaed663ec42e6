-- ===== src/Options/Append.antt =====
-- The writers of src/options.c. Each returns the packet and the number of octets added; a write
-- outside `options[]` is `none`. A value in network byte order comes as a number.
use ndhc.Common.{
  ℕ, ◌+◌, Bytes, not, ◌||◌, Option, none, some, [], ◌∷◌, length, write, write_all, ltb, leb, ◌==◌,
  if◌then◌else◌, ◌>>=◌, be16, be32,
}
use ndhc.Options.Dcode
use ndhc.Options.Packet.{Dhcpmsg, options_size, ip_udp_dhcp_packet_size}
use ndhc.Options.Scan.{get_end_option_idx}

sizeof_option_str : ℕ → ℕ → ℕ
sizeof_option_str opt_code datalen =
    if opt_code == Dcode.padding || opt_code == Dcode.end then 1 else 2 + datalen

unfoldable pub add_option_string : Dhcpmsg → ℕ → Bytes → Option (Dhcpmsg × ℕ)
unfolding sizeof_option_str
add_option_string packet opt_code str =
    let slen = length str in
    let len = sizeof_option_str opt_code slen in
    if ltb 255 slen || not (len == slen + 2) then some (packet, 0) else (do
      idx ← get_end_option_idx packet
      elim idx [
        | none ↦ some (packet, 0)
        | some end ↦ if leb options_size (end + len) then some (packet, 0) else (do
          o1 ← write packet.options end opt_code
          o2 ← write o1 (end + 1) slen
          o3 ← write_all o2 (end + 2) str
          o4 ← write o3 (end + len) Dcode.end
          some (record packet { options = o4 }, len))
      ])

-- The inner `none` stands for -1.
unfoldable pub add_option_check : Dhcpmsg → ℕ → Option (Option ℕ)
add_option_check packet rlen = do
  idx ← get_end_option_idx packet
  elim idx [
    | none ↦ some none
    | some end ↦ some (if leb options_size (end + 2 + rlen) then none else some end)
  ]

unfoldable pub add_u8_option : Dhcpmsg → ℕ → ℕ → Option (Dhcpmsg × ℕ)
unfolding add_option_check
add_u8_option packet opt_code v = do
  idx ← add_option_check packet 1
  elim idx [
    | none ↦ some (packet, 0)
    | some end ↦ do
      o1 ← write packet.options end opt_code
      o2 ← write o1 (end + 1) 1
      o3 ← write o2 (end + 2) v
      o4 ← write o3 (end + 3) Dcode.end
      some (record packet { options = o4 }, 3)
  ]

-- The stores of `dp[0]`, `dp[1]`, … are one `write_all` of the octets of `v`.
unfoldable pub add_u16_option : Dhcpmsg → ℕ → ℕ → Option (Dhcpmsg × ℕ)
unfolding add_option_check
add_u16_option packet opt_code v = do
  idx ← add_option_check packet 2
  elim idx [
    | none ↦ some (packet, 0)
    | some end ↦ do
      o1 ← write packet.options end opt_code
      o2 ← write o1 (end + 1) 2
      o3 ← write_all o2 (end + 2) (be16 v)
      o4 ← write o3 (end + 4) Dcode.end
      some (record packet { options = o4 }, 4)
  ]

unfoldable pub add_u32_option : Dhcpmsg → ℕ → ℕ → Option (Dhcpmsg × ℕ)
unfolding add_option_check
add_u32_option packet opt_code v = do
  idx ← add_option_check packet 4
  elim idx [
    | none ↦ some (packet, 0)
    | some end ↦ do
      o1 ← write packet.options end opt_code
      o2 ← write o1 (end + 1) 4
      o3 ← write_all o2 (end + 2) (be32 v)
      o4 ← write o3 (end + 6) Dcode.end
      some (record packet { options = o4 }, 6)
  ]

-- The callers below drop the count.
abbrev packet_of : Option (Dhcpmsg × ℕ) → Option Dhcpmsg
packet_of none = none
packet_of (some (packet, n)) = some packet

abbrev pub reqdata : Bytes
reqdata =
    Dcode.subnet ∷ Dcode.router ∷ Dcode.dns ∷ Dcode.hostname ∷ Dcode.domain ∷ Dcode.broadcast ∷ []

unfoldable pub add_option_request_list : Dhcpmsg → Option Dhcpmsg
add_option_request_list packet = packet_of (add_option_string packet Dcode.param_req reqdata)

unfoldable pub add_option_msgtype : Dhcpmsg → ℕ → Option Dhcpmsg
add_option_msgtype packet type = packet_of (add_u8_option packet Dcode.msgtype type)

unfoldable pub add_option_reqip : Dhcpmsg → ℕ → Option Dhcpmsg
add_option_reqip packet ip = packet_of (add_u32_option packet Dcode.reqip ip)

unfoldable pub add_option_serverid : Dhcpmsg → ℕ → Option Dhcpmsg
add_option_serverid packet sid = packet_of (add_u32_option packet Dcode.server_id sid)

unfoldable pub add_option_clientid : Dhcpmsg → Bytes → Option Dhcpmsg
add_option_clientid packet clientid = packet_of (add_option_string packet Dcode.client_id clientid)

unfoldable pub add_option_maxsize : Dhcpmsg → Option Dhcpmsg
add_option_maxsize packet = packet_of (add_u16_option packet Dcode.max_size ip_udp_dhcp_packet_size)

unfoldable pub add_option_vendor : Dhcpmsg → Bytes → Option Dhcpmsg
add_option_vendor packet vendor =
    if not (length vendor == 0)
    then packet_of (add_option_string packet Dcode.vendor vendor)
    else some packet

unfoldable pub add_option_hostname : Dhcpmsg → Bytes → Option Dhcpmsg
add_option_hostname packet hostname =
    if not (length hostname == 0)
    then packet_of (add_option_string packet Dcode.hostname hostname)
    else some packet
