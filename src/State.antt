-- ===== src/State.antt =====
-- The high level state machine of the client: src/state.c.
pub mod Result
pub mod Timeouts
pub mod Offers
pub mod Signals
pub mod Search
pub mod Bound
pub mod Machine
pub mod Lease
pub mod Asleep
pub mod Sound
pub mod SearchSound
pub mod BoundSound
pub mod Safety
