-- ===== src/Dhcp/Sends.antt =====
-- The senders of src/dhcp.c never leave a buffer.
use ndhc.Common.{ℕ, refl, Bytes, List}
use ndhc.Dhcp.Build.{blank}
use ndhc.Dhcp.Contents.{header}
use ndhc.Master.Client.{Config}
use ndhc.Master.World.{World}
use ndhc.Options.Items.{Item, Holds}
use ndhc.Options.Packet.{HasSizes, options_size}

pub HasSizes-header :
    (conf : Config) (xid : ℕ) (o : Bytes) (items : List Item)
    → Holds options_size o items
    → HasSizes (record (header conf xid) { options = o })
unfolding blank
HasSizes-header conf xid o items h = record {
  options_length = h.fits;
  file_length = refl;
  sname_length = refl;
}

pub HasSizes-ciaddr :
    (conf : Config) (xid addr : ℕ) (o : Bytes) (items : List Item)
    → Holds options_size o items
    → HasSizes (record (header conf xid) { ciaddr = addr; options = o })
unfolding blank
HasSizes-ciaddr conf xid addr o items h = record {
  options_length = h.fits;
  file_length = refl;
  sname_length = refl;
}
