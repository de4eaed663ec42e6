-- ===== src/Sockd.antt =====
-- ndhc-sockd, the process that opens sockets: src/sockd.c.
pub mod Bpf
pub mod ArpFilters
pub mod ArpFiltersSound
pub mod DefenseFilter
pub mod Endianness
pub mod World
pub mod Sockets
pub mod Execute
pub mod Replies
pub mod Requests
pub mod DhcpSteps
pub mod DhcpFilter
pub mod Work
pub mod WorkBounds
