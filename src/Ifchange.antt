-- ===== src/Ifchange.antt =====
-- The commands that ndhc-master sends to ndhc-ifch: src/ifchange.c.
pub mod Text
pub mod Command
pub mod Changes
pub mod Bind
pub mod Again
pub mod Sound
