-- ===== src/Sockd/ArpFilters.antt =====
-- The programs of `arp_set_bpf_basic` and `arp_set_bpf_defense` of src/sockd.c, and the octets of
-- `struct arpMsg`.
use ndhc.Common.{ℕ, Bytes, [], ◌∷◌, ◌++◌, be16, be32, take, drop}
use ndhc.Master.Client.{ArpMsg}
use ndhc.Sockd.Bpf.{Program, ld, jeq, ret}

-- (ETH_P_ARP << 16) | ARPHRD_ETHER
abbrev pub arp_ether : ℕ
arp_ether = 0x08060001

-- (ETH_P_IP << 16) | 0x0604
abbrev pub ip_lengths : ℕ
ip_lengths = 0x08000604

abbrev pub pass_all : ℕ
pass_all = 0x7fffffff

-- Both programs begin with these tests.
abbrev pub basic_tests : Program → Program
basic_tests prog = ld 4 12 ∷ jeq arp_ether 1 0 ∷ ret 0 ∷ ld 4 16 ∷ jeq ip_lengths 1 0 ∷ ret 0 ∷ prog

unfoldable pub arp_set_bpf_basic : Program
arp_set_bpf_basic = basic_tests (ret pass_all ∷ [])

-- `native` reads a number as the host does: the octets of the address and of the hardware address are
-- copied into the constants of the program.
unfoldable pub arp_set_bpf_defense : (Bytes → ℕ) → Bytes → Bytes → Program
arp_set_bpf_defense native client_addr client_mac = basic_tests (
    ld 4 28
    ∷ jeq (native client_addr) 1 0
    ∷ ret 0
    ∷ ld 4 22
    ∷ jeq (native (take 4 client_mac)) 1 0
    ∷ ret pass_all
    ∷ ld 2 26
    ∷ jeq (native (drop 4 client_mac)) 1 0
    ∷ ret pass_all
    ∷ ret 0
    ∷ [])

-- The octets of a message, and of what stands behind it in the frame.
abbrev pub frame : ArpMsg → Bytes → Bytes
frame m rest =
    m.h_dest
    ++ (m.h_source
        ++ (be16 m.h_proto
            ++ (be16 m.htype
                ++ (be16 m.ptype
                    ++ (m.hlen
                        ∷ m.plen
                        ∷ (be16 m.operation
                            ++ (m.smac ++ (be32 m.sip4 ++ (m.dmac ++ (be32 m.dip4 ++ rest))))))))))
