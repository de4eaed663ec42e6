-- ===== src/Ifchange/Changes.antt =====
-- `send_client_ip` and `send_cmd` of src/ifchange.c: the text that they write at the front of a
-- buffer of `olen` octets. `cfg_packet` is the packet of the configuration in force.
use ndhc.Common.{
  ℕ, ◌-◌, Bytes, Bool, true, false, not, ◌&&◌, Option, some, [], ◌∷◌, ◌++◌, length, take, leb, ◌==◌,
  if◌then◌else◌, ◌>>=◌, value_or, of_be,
}
use ndhc.Ifchange.Command.{ifchd_cmd}
use ndhc.Ifchange.Text.{inet_ntop}
use ndhc.Options.Dcode
use ndhc.Options.Packet.{Dhcpmsg, max_dopt_size}
use ndhc.Options.Scan.{get_dhcp_opt}

-- The lengths are equal, and memcmp returns 0.
unfoldable pub same_bytes : Bytes → Bytes → Bool
same_bytes [] [] = true
same_bytes (x ∷ xs) (y ∷ ys) = x == y && same_bytes xs ys
same_bytes _ _ = false

-- "ip4:", "255.255.255.0"
abbrev pub ip4_prefix : Bytes
ip4_prefix = b'i' ∷ b'p' ∷ b'4' ∷ b':' ∷ []

abbrev pub class_c : Bytes
class_c = inet_ntop 0xffffff00

-- Whether an option of an address is there, its text, and whether it differs from that in force.
unfoldable pub address_option : Dhcpmsg → Dhcpmsg → ℕ → Option (Bool × Bytes × Bool)
address_option cfg_packet packet opt_code = do
  new ← get_dhcp_opt packet opt_code max_dopt_size
  if leb 4 (length new)
      then (do
        old ← get_dhcp_opt cfg_packet opt_code max_dopt_size
        some (true, inet_ntop (of_be 0 (take 4 new)), not (same_bytes new old)))
      else some (false, [], false)

unfoldable pub send_client_ip : ℕ → Dhcpmsg → Dhcpmsg → Option Bytes
unfolding address_option
send_client_ip olen cfg_packet packet = do
  let change_ipaddr = not (packet.yiaddr == cfg_packet.yiaddr)
  let ip = inet_ntop packet.yiaddr
  subnet ← address_option cfg_packet packet Dcode.subnet
  bcast ← address_option cfg_packet packet Dcode.broadcast
  let sn = if subnet.0 then subnet.1 else class_c
  let text =
      (if bcast.0
        then ip4_prefix ++ (ip ++ (b',' ∷ (sn ++ (b',' ∷ (bcast.1 ++ (b';' ∷ []))))))
        else ip4_prefix ++ (ip ++ (b',' ∷ (sn ++ (b';' ∷ [])))))
  some (
      if not change_ipaddr && not subnet.2 && not bcast.2
      then []
      else if leb olen (length text)
      then []
      else text)

unfoldable pub send_cmd : ℕ → Dhcpmsg → Dhcpmsg → ℕ → Option Bytes
send_cmd olen cfg_packet packet opt_code = do
  new ← get_dhcp_opt packet opt_code max_dopt_size
  if length new == 0 then some [] else (do
    old ← get_dhcp_opt cfg_packet opt_code max_dopt_size
    some (if same_bytes new old then [] else value_or (ifchd_cmd olen new opt_code) []))

abbrev pub bind_size : ℕ
bind_size = 2048

-- One more command behind the `bo` octets that are there.
unfoldable pub then_cmd : Dhcpmsg → Dhcpmsg → ℕ → Bytes → Option Bytes
unfolding send_cmd
then_cmd cfg_packet packet opt_code buf = do
  more ← send_cmd (bind_size - length buf) cfg_packet packet opt_code
  some (buf ++ more)

-- What `ifchange_bind` leaves in its buffer.
unfoldable pub bind_commands : Dhcpmsg → Dhcpmsg → Option Bytes
unfolding send_client_ip then_cmd
bind_commands cfg_packet packet = do
  b0 ← send_client_ip bind_size cfg_packet packet
  b1 ← then_cmd cfg_packet packet Dcode.router b0
  b2 ← then_cmd cfg_packet packet Dcode.dns b1
  b3 ← then_cmd cfg_packet packet Dcode.hostname b2
  b4 ← then_cmd cfg_packet packet Dcode.domain b3
  b5 ← then_cmd cfg_packet packet Dcode.mtu b4
  then_cmd cfg_packet packet Dcode.wins b5
