-- ===== src/Ifchange/Command.antt =====
-- `ifcmd_*` and `ifchd_cmd` of src/ifchange.c. A command is the text that is written at the front
-- of a buffer of `buflen` octets, or `none` where the source returns -1.
use ndhc.Common.{
  ℕ, ◌+◌, Bytes, Option, none, some, [], ◌∷◌, ◌++◌, length, ltb, leb, ◌==◌, if◌then◌else◌, of_be,
}
use ndhc.Ifchange.Text.{until_nul, show_u32, show_s32, inet_ntop}
use ndhc.Options.Dcode

abbrev pub int_max : ℕ
int_max = 2147483647

unfoldable pub ifcmd_raw : ℕ → Bytes → Bytes → Option Bytes
ifcmd_raw buflen optname optdata =
    let optlen = length optdata in
    let out = optname ++ (b':' ∷ (until_nul optdata ++ (b';' ∷ []))) in
    if ltb int_max optlen
    then none
    else if ltb buflen (length optname + optlen + 3)
    then none
    else if leb buflen (length out)
    then none
    else some out

unfoldable pub ifcmd_bytes : ℕ → Bytes → Bytes → Option Bytes
ifcmd_bytes = ifcmd_raw

unfoldable pub ifcmd_u8 : ℕ → Bytes → Bytes → Option Bytes
ifcmd_u8 buflen optname [] = none
ifcmd_u8 buflen optname (c ∷ _) = ifcmd_raw buflen optname (until_nul (c ∷ []))

unfoldable pub ifcmd_u16 : ℕ → Bytes → Bytes → Option Bytes
ifcmd_u16 buflen optname (a ∷ b ∷ _) = ifcmd_raw buflen optname (show_u32 (of_be 0 (a ∷ b ∷ [])))
ifcmd_u16 buflen optname _ = none

unfoldable pub ifcmd_s32 : ℕ → Bytes → Bytes → Option Bytes
ifcmd_s32 buflen optname (a ∷ b ∷ c ∷ d ∷ _) =
    ifcmd_raw buflen optname (show_s32 (of_be 0 (a ∷ b ∷ c ∷ d ∷ [])))
ifcmd_s32 buflen optname _ = none

unfoldable pub ifcmd_ip : ℕ → Bytes → Bytes → Option Bytes
ifcmd_ip buflen optname (a ∷ b ∷ c ∷ d ∷ _) =
    ifcmd_raw buflen optname (inet_ntop (of_be 0 (a ∷ b ∷ c ∷ d ∷ [])))
ifcmd_ip buflen optname _ = none

-- The loop over the addresses behind the first.
unfoldable pub iplist_rest : Bytes → Bytes
iplist_rest (a ∷ b ∷ c ∷ d ∷ more) =
    b',' ∷ (inet_ntop (of_be 0 (a ∷ b ∷ c ∷ d ∷ [])) ++ iplist_rest more)
iplist_rest _ = []

-- The 2048 octets of `buf` hold the text of the 500 octets that an option has at most.
unfoldable pub ifcmd_iplist : ℕ → Bytes → Bytes → Option Bytes
unfolding iplist_rest
ifcmd_iplist outlen optname (a ∷ b ∷ c ∷ d ∷ more) =
    ifcmd_raw outlen optname (inet_ntop (of_be 0 (a ∷ b ∷ c ∷ d ∷ [])) ++ iplist_rest more)
ifcmd_iplist outlen optname _ = none

-- "routr", "dns", "lpr", "ntp", "wins", "host", "dom", "tzone", "mtu", "ipttl"
unfoldable pub ifchd_cmd : ℕ → Bytes → ℕ → Option Bytes
ifchd_cmd bl od opt_code =
    if opt_code == Dcode.router
    then ifcmd_ip bl (b'r' ∷ b'o' ∷ b'u' ∷ b't' ∷ b'r' ∷ []) od
    else if opt_code == Dcode.dns
    then ifcmd_iplist bl (b'd' ∷ b'n' ∷ b's' ∷ []) od
    else if opt_code == Dcode.lprsvr
    then ifcmd_iplist bl (b'l' ∷ b'p' ∷ b'r' ∷ []) od
    else if opt_code == Dcode.ntpsvr
    then ifcmd_iplist bl (b'n' ∷ b't' ∷ b'p' ∷ []) od
    else if opt_code == Dcode.wins
    then ifcmd_iplist bl (b'w' ∷ b'i' ∷ b'n' ∷ b's' ∷ []) od
    else if opt_code == Dcode.hostname
    then ifcmd_bytes bl (b'h' ∷ b'o' ∷ b's' ∷ b't' ∷ []) od
    else if opt_code == Dcode.domain
    then ifcmd_bytes bl (b'd' ∷ b'o' ∷ b'm' ∷ []) od
    else if opt_code == Dcode.timezone
    then ifcmd_s32 bl (b't' ∷ b'z' ∷ b'o' ∷ b'n' ∷ b'e' ∷ []) od
    else if opt_code == Dcode.mtu
    then ifcmd_u16 bl (b'm' ∷ b't' ∷ b'u' ∷ []) od
    else if opt_code == Dcode.ipttl
    then ifcmd_u8 bl (b'i' ∷ b'p' ∷ b't' ∷ b't' ∷ b'l' ∷ []) od
    else none
