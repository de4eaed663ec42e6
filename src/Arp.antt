-- ===== src/Arp.antt =====
-- Address conflict detection, network fingerprints and address defense: src/arp.c.
pub mod Result
pub mod Socket
pub mod Message
pub mod Probe
pub mod Announce
pub mod Gateway
pub mod Collision
pub mod Defense
pub mod Packets
pub mod Conflicts
pub mod Wakes
pub mod Sound
pub mod GatewaySound
pub mod CollisionSound
