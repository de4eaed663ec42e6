-- ===== src/Boot.antt =====
-- What `main` of src/ndhc.c does before the main loop: the identifiers of src/duiaid.c, the data of the
-- interface (src/netlink.c), the lease file (src/leasefile.c), and the wait for the radio.
pub mod World
pub mod Identifiers
pub mod Stored
pub mod Paths
pub mod Persists
pub mod Clientid
pub mod Setting
pub mod SettingText
pub mod Interface
pub mod InterfaceFound
pub mod Walks
pub mod InterfaceAnswer
pub mod Leasefile
pub mod LeasefileText
pub mod Radio
