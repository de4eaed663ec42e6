-- ===== src/Dhcp.antt =====
-- The DHCP messages that ndhc sends and receives: src/dhcp.c.
pub mod Build
pub mod Send
pub mod Yields
pub mod Contents
pub mod Messages
pub mod Sends
pub mod Sound
pub mod Receive
pub mod Accepts
pub mod RawPacket
