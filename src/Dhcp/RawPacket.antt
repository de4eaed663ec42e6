-- ===== src/Dhcp/RawPacket.antt =====
-- `get_raw_packet` of src/dhcp.c: a read from the raw socket, the checks of its headers and
-- checksums, and the copy of the payload. The sums are those of ncmlib, and parameters here.
use ndhc.Common.{
  ℕ, ◌+◌, ◌-◌, ◌≤◌, Bytes, Bool, true, false, not, ◌&&◌, [], ◌++◌, ◌≡◌, ◌≢◌, refl, ◌∙◌, ◌==◌, ltb,
  take, drop, be16, bit_and, arith, if◌then◌else◌,
}
use ndhc.Options.Packet.{dhcpmsg_size}
use ndhc.Sockd.Bpf.{Program, Registers, registers, Laws}
use ndhc.Sockd.DhcpFilter.{
  IpUdp, IsIpUdp, packet, get_raw_packet_validate_bpf, create_raw_listen_socket-validate,
}
use ndhc.Sockd.Sockets.{sf_dhcp}

-- What `safe_read` gives: EAGAIN or EWOULDBLOCK, another error, or the number of octets, with the
-- buffer: its headers, the checksum of UDP, and the message.
pub data RawRead : Type 0 where
  would_block failed : RawRead
  filled : ℕ → IpUdp → ℕ → Bytes → RawRead

-- The results -2 and -1; undefined behaviour; and the length, with the address of the sender and the
-- octets copied. Undefined are the two calls of `log_error` whose format starts with %s and has no
-- argument for it but a number.
pub data RawResult : Type 0 where
  ignored fatal undefined : RawResult
  copied : ℕ → ℕ → Bytes → RawResult

-- The pseudo header of the checksum, in a `struct iphdr` whose other fields are zero.
abbrev pseudo : IpUdp → Bytes
pseudo h = take 20 (
    packet
      (record {
        ip_first = 0;
        tos = 0;
        tot_len = h.len;
        id = 0;
        frag_off = 0;
        ttl = 0;
        protocol = h.protocol;
        check = 0;
        saddr = h.saddr;
        daddr = h.daddr;
        source = 0;
        dest = 0;
        len = 0;
      })
      [])

-- A test under which a number is not 0 holds.
accepted : (b : Bool) (n : ℕ) → (if b then n else 0) ≢ 0 → b ≡ true
accepted true n h = refl
accepted false n h = absurd (h refl)

module _ (net_checksum161c : Bytes → ℕ) (net_checksum161c_add : ℕ → ℕ → ℕ) where
  unfoldable pub ip_checksum : IpUdp → Bool
  ip_checksum h = net_checksum161c (take 20 (packet h [])) == 0

  unfoldable pub udp_checksum : IpUdp → ℕ → Bytes → Bool
  udp_checksum h check message =
      let room = 8 + dhcpmsg_size in
      let udpcs = net_checksum161c (
        take (if ltb h.len room then h.len else room)
          (drop 20 (packet h (be16 check ++ message)))) in
      net_checksum161c_add udpcs (net_checksum161c (pseudo h)) == 0

  unfoldable pub get_raw_packet : Bool → RawRead → RawResult
  get_raw_packet using_dhcp_bpf would_block = ignored
  get_raw_packet using_dhcp_bpf failed = fatal
  get_raw_packet using_dhcp_bpf (filled inc h check message) =
      if ltb inc h.tot_len
      then ignored
      else if not using_dhcp_bpf && not (get_raw_packet_validate_bpf h)
      then ignored
      else if not (ip_checksum h)
      then ignored
      else if not (ltb (20 + 8) h.tot_len)
      then undefined
      else if ltb dhcpmsg_size (h.tot_len - 20 - 8)
      then undefined
      else if not (check == 0) && not (udp_checksum h check message)
      then ignored
      else copied (h.tot_len - 20 - 8) h.saddr (take (h.tot_len - 20 - 8) message)

  -- For any checksums, whether or not the kernel filters: a payload that `get_raw_packet` copies is
  -- not empty, fits a DHCP message, lies inside the octets that were read, and is a prefix of the
  -- message in the buffer, from the sender that the header names.
  pub get_raw_packet-copied :
      (using_dhcp_bpf : Bool) (inc : ℕ) (h : IpUdp) (check : ℕ) (message : Bytes) (l srcaddr : ℕ)
      (payload : Bytes)
      → get_raw_packet using_dhcp_bpf (filled inc h check message) ≡ copied l srcaddr payload
      → (1 ≤ l)
        × (l ≤ dhcpmsg_size)
        × (28 + l ≤ inc)
        × (payload ≡ take l message)
        × (srcaddr ≡ h.saddr)
  unfolding get_raw_packet
  get_raw_packet-copied using_dhcp_bpf inc h check message l srcaddr payload e = ground (arith, e)

  -- For every machine that runs programs by the documented laws, and headers whose total length,
  -- fragment field, ports and UDP length are numbers of 16 bits: for a packet that the program of
  -- `create_raw_listen_socket` does not drop, `get_raw_packet` gives the same with and without its
  -- own test of the headers.
  get_raw_packet-filtered :
      (run : Program → Registers → Bytes → ℕ)
      → Laws run
      → (inc : ℕ) (h : IpUdp) (check : ℕ) (message : Bytes) → IsIpUdp h
      → run sf_dhcp registers (packet h (be16 check ++ message)) ≢ 0
      → get_raw_packet true (filled inc h check message)
        ≡ get_raw_packet false (filled inc h check message)
  unfolding get_raw_packet
  get_raw_packet-filtered run laws inc h check message w passed =
      rw
        (accepted (get_raw_packet_validate_bpf h) _ (λ e.
          passed
            (create_raw_listen_socket-validate run laws h (be16 check ++ message) registers w ∙ e)))
        refl

  -- For every machine that runs programs by the documented laws, with any checksums: a datagram
  -- without a payload, whose headers `get_raw_packet_validate_bpf` accepts, which is whole, from port
  -- 67, with numbers of 16 bits and a correct checksum of its IP header, and which was read in full,
  -- passes the program of `create_raw_listen_socket`, and `get_raw_packet` then formats a number as a
  -- string, with that program in place or not.
  pub get_raw_packet-undefined :
      (run : Program → Registers → Bytes → ℕ)
      → Laws run
      → (using_dhcp_bpf : Bool) (inc : ℕ) (h : IpUdp) (check : ℕ) (message : Bytes) → IsIpUdp h
      → get_raw_packet_validate_bpf h ≡ true
      → (bit_and h.frag_off 0x3fff ≡ 0) × (h.source ≡ 67) × (h.tot_len ≡ 28)
      → ip_checksum h ≡ true
      → 28 ≤ inc
      → (run sf_dhcp registers (packet h (be16 check ++ message)) ≡ 28)
        × (get_raw_packet using_dhcp_bpf (filled inc h check message) ≡ undefined)
  unfolding get_raw_packet
  get_raw_packet-undefined run laws using_dhcp_bpf inc h check message w valid
        (whole, source, total) sum enough =
      (
        create_raw_listen_socket-validate run laws h (be16 check ++ message) registers w
            ∙ rw (valid, whole, source, total) refl,
        ground arith,
      )
