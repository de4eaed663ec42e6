-- ===== src/MainLoop.antt =====
-- The main loop of ndhc-master: `do_ndhc_work` of src/ndhc.c, and what it reads from netlink and rfkill.
pub mod Events
pub mod Timeout
pub mod Round
pub mod Sound
pub mod Safety
pub mod Blocked
pub mod Start
