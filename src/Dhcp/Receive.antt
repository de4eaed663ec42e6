-- ===== src/Dhcp/Receive.antt =====
-- The reception of a message, of src/dhcp.c, behind the read from the raw socket: `Received` is what
-- `get_raw_packet` gives where its behaviour is defined.
use ndhc.Common.{
  ℕ, Bytes, Bool, not, ◌||◌, Option, none, some, length, take, ltb, ◌==◌, is_some, if◌then◌else◌,
  ◌>>=◌,
}
use ndhc.Dhcp.Send.{start_dhcp_listen, stop_dhcp_listen}
use ndhc.Ifchange.Changes.{same_bytes}
use ndhc.Master.Client.{ClientState, Config}
use ndhc.Master.World.{M, returned, halted, fault, checked}
use ndhc.Options.Getters.{get_option_msgtype, get_option_clientid}
use ndhc.Options.Packet.{Dhcpmsg, options_offset, dhcp_magic, max_dopt_size}
use ndhc.Options.Scan.{get_end_option_idx}

-- The results -2 and -1, and a payload with the address of its sender and its length.
pub data Received : Type 0 where
  transient read_error : Received
  payload : Dhcpmsg → ℕ → ℕ → Received

-- The octets that both ids have agree; an absent id is accepted.
abbrev pub matches_clientid : Bytes → Bytes → Bool
matches_clientid ours theirs =
    let n = if ltb (length theirs) (length ours) then length theirs else length ours in
    same_bytes (take n ours) (take n theirs)

-- The message type, where the source returns 1.
unfoldable pub validate_dhcp_packet : ClientState → Config → ℕ → Dhcpmsg → Option (Option ℕ)
validate_dhcp_packet cs conf len packet =
    if ltb len options_offset
    then some none
    else if not (packet.cookie == dhcp_magic)
    then some none
    else if not (packet.xid == cs.xid)
    then some none
    else if not (same_bytes (take 6 packet.chaddr) conf.arp)
    then some none
    else (do
      endloc ← get_end_option_idx packet
      if not (is_some endloc) then some none else (do
        msgtype ← get_option_msgtype packet
        if msgtype == 0 then some none else (do
          clientid ← get_option_clientid packet max_dopt_size
          some (
              if length clientid == 0 || matches_clientid conf.clientid clientid
              then some msgtype
              else none))))

-- Whether a message of a server came, and its type. Without a listening socket nothing is read.
unfoldable pub dhcp_packet_get : Received → M (Option ℕ)
dhcp_packet_get transient w = returned none w
dhcp_packet_get read_error w = elim w.cs.listen_fd [
  | none ↦ returned none w
  | some _ ↦ elim (stop_dhcp_listen w) [
    | returned _ v ↦ elim (start_dhcp_listen v) [
      | returned _ u ↦ returned none u
      | halted h u ↦ halted h u
      | fault ↦ fault
    ]
    | halted h v ↦ halted h v
    | fault ↦ fault
  ]
]
dhcp_packet_get (payload packet srcaddr len) w = elim w.cs.listen_fd [
  | none ↦ returned none w
  | some _ ↦ checked (validate_dhcp_packet w.cs w.conf len packet) w
]
