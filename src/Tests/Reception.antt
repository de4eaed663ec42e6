-- ===== src/Tests/Reception.antt =====
-- The theorems on the reception at a concrete message.
use ndhc.Common.{ℕ, ◌≡◌, ◌≢◌, refl, some, true, ◌++◌, take, replicate, is_some, arith}
use ndhc.Dhcp.Accepts.{dhcp_packet_get-accepts}
use ndhc.Dhcp.Build.{blank}
use ndhc.Dhcp.Receive.{payload, validate_dhcp_packet, dhcp_packet_get}
use ndhc.Ifchange.Changes.{same_bytes}
use ndhc.Master.World.{World, returned}
use ndhc.Options.Dcode
use ndhc.Options.Getters.{get_option_msgtype, get_option_clientid}
use ndhc.Options.Lookup.{get_end_option_idx_lem}
use ndhc.Options.Packet.{Dhcpmsg, HasSizes, dhcp_magic}
use ndhc.Options.RoundTrip.{IsPlain, get-IsPlain}
use ndhc.Tests.Data.{our_arp, offer, offer_items, offer-Holds, cs, garp, world}
use ndhc.Tests.Runs.{world_of_Answers}

-- The offer as a server sends it to the client.
abbrev addressed : Dhcpmsg
addressed = record offer { cookie = dhcp_magic; chaddr = our_arp ++ replicate 10 0 }

addressed-HasSizes : HasSizes addressed
unfolding blank
addressed-HasSizes = record { options_length = refl; file_length = refl; sname_length = refl }

abbrev waiting : World
waiting = record (world b's' (garp our_arp 0) 2000) { cs = record cs { listen_fd = some 4 } }

receive_run :
    (w' : World) × (dhcp_packet_get (payload addressed 9 300) waiting ≡ returned (some 2) w')
unfolding dhcp_packet_get validate_dhcp_packet get_option_msgtype get_option_clientid same_bytes
    blank
receive_run =
    let plain : IsPlain addressed offer_items = record {
      holds = offer-Holds;
      no_overload = refl;
    } in
    world_of_Answers (some 2) (dhcp_packet_get (payload addressed 9 300) waiting) (
      ground (
        arith,
        get_end_option_idx_lem addressed offer_items offer-Holds,
        get-IsPlain addressed offer_items Dcode.msgtype plain,
        get-IsPlain addressed offer_items Dcode.client_id plain,
      ))

accepts_example :
    let msgtype : ℕ = 2 in
    (is_some waiting.cs.listen_fd ≡ true)
    × (addressed.cookie ≡ dhcp_magic)
    × (addressed.xid ≡ waiting.cs.xid)
    × (same_bytes (take 6 addressed.chaddr) waiting.conf.arp ≡ true)
    × (get_option_msgtype addressed ≡ some 2)
    × (msgtype ≢ 0)
accepts_example = dhcp_packet_get-accepts addressed 9 300 2 waiting receive_run.0 receive_run.1
