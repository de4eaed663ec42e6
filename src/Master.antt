-- ===== src/Master.antt =====
-- What the functions of ndhc-master share: the state that they change and the monad of their
-- effects.
pub mod Client
pub mod World
pub mod Ipc
pub mod Outcomes
pub mod Sound
