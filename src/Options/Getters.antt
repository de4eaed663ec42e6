-- ===== src/Options/Getters.antt =====
-- The readers of src/options.c. A value that is present with another size than its type's reads as
-- an absent one.
use ndhc.Common.{
  ℕ, Bytes, Bool, true, false, Option, some, [], length, ltb, ◌==◌, if◌then◌else◌, ◌>>=◌, of_be,
}
use ndhc.Options.Dcode
use ndhc.Options.Packet.{Dhcpmsg, max_dopt_size}
use ndhc.Options.Scan.{get_dhcp_opt}

unfoldable pub get_option_router : Dhcpmsg → Option ℕ
get_option_router packet = do
  buf ← get_dhcp_opt packet Dcode.router max_dopt_size
  some (if length buf == 4 then of_be 0 buf else 0)

unfoldable pub get_option_msgtype : Dhcpmsg → Option ℕ
get_option_msgtype packet = do
  buf ← get_dhcp_opt packet Dcode.msgtype max_dopt_size
  some (if length buf == 1 then of_be 0 buf else 0)

-- The value, and `*found`.
unfoldable pub get_option_serverid : Dhcpmsg → Option (ℕ × Bool)
get_option_serverid packet = do
  buf ← get_dhcp_opt packet Dcode.server_id max_dopt_size
  some (if length buf == 4 then (of_be 0 buf, true) else (0, false))

unfoldable pub get_option_leasetime : Dhcpmsg → Option ℕ
get_option_leasetime packet = do
  buf ← get_dhcp_opt packet Dcode.leaset max_dopt_size
  some (if length buf == 4 then of_be 0 buf else 0)

unfoldable pub get_option_clientid : Dhcpmsg → ℕ → Option Bytes
get_option_clientid packet clen =
    if ltb clen 1 then some [] else get_dhcp_opt packet Dcode.client_id clen
