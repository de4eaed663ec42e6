-- ===== src/Ifchd.antt =====
-- ndhc-ifch, the process that changes the interface: src/ifchd.c, src/ifchd-parse.rl, src/ifset.c and
-- src/nl.c.
pub mod World
pub mod Netlink
pub mod Numbers
pub mod Links
pub mod Address
pub mod Resolv
pub mod Grammar
pub mod Execute
pub mod Refinement
pub mod Texts
pub mod AddressParts
pub mod AddressTexts
pub mod Commands
pub mod Keeps
pub mod Sound
pub mod Performs
pub mod Safety
pub mod Arguments
pub mod Mtu
pub mod Gateway
pub mod Appends
pub mod ResolvText
pub mod ResolvAgain
pub mod Work
pub mod WorkSound
pub mod Injection
