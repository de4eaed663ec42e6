-- ===== src/Tests.antt =====
-- Concrete packets, configurations and states, and what the theorems say of them.
mod Data
mod Runs
mod Options
mod Messages
mod Conflicts
mod Timers
mod Reception
mod Ifchd
mod Resolv
mod Sockets
mod Rounds
mod Boot
