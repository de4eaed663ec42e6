-- ===== src/Options.antt =====
-- The DHCP message and its options: src/dhcp.h, src/options.h and src/options.c.
pub mod Dcode
pub mod MsgType
pub mod Packet
pub mod Scan
pub mod Safety
pub mod Items
pub mod Decode
pub mod Lookup
pub mod Store
pub mod RoundTrip
pub mod Append
pub mod Getters
