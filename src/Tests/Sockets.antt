-- ===== src/Tests/Sockets.antt =====
-- The theorems on ndhc-sockd, at concrete messages, with a machine for the programs.
use ndhc.Common.{
  take, be16, ◌≤◌, ◌++◌, ℕ, zero, suc, ◌+◌, ◌-◌, ◌*◌, ◌%◌, ◌^◌, Bytes, true, false, ◌&&◌, [], ◌∷◌,
  ◌≡◌, refl, ◌==◌, drop, be32, of_be, bit_and, if◌then◌else◌, arith,
}
use ndhc.Arp.Message.{arp_validate_bpf, arp_validate_bpf_defense}
use ndhc.Dhcp.RawPacket.{
  RawRead, filled, copied, ip_checksum, udp_checksum, get_raw_packet, get_raw_packet-copied,
  get_raw_packet-undefined, undefined,
}
use ndhc.Master.Client.{ArpMsg}
use ndhc.Sockd.ArpFilters.{arp_set_bpf_defense, frame, pass_all}
use ndhc.Sockd.ArpFiltersSound.{IsArpMsg}
use ndhc.Sockd.DhcpFilter.{
  IpUdp, packet, get_raw_packet_validate_bpf, create_raw_listen_socket-validate,
}
use ndhc.Sockd.Sockets.{sf_dhcp}
use ndhc.Options.Packet.{dhcpmsg_size}
use ndhc.Sockd.Bpf.{
  ld, ld_ind, ldx_msh, jeq, jset, jeq_x, sub, tax, st, ld_mem, ret, ret_a, Program, Registers,
  registers, load, loaded, Laws,
}
use ndhc.Sockd.Endianness.{of_le, arp_set_bpf_defense-validate, arp_set_bpf_defense-drops}
use ndhc.Sockd.Execute.{add_received}
use ndhc.Sockd.Requests.{Answered, listen, defense, request_octets, add_received-Answered}
use ndhc.Sockd.World.{Sockd, received, hung_up}
use ndhc.Tests.Data.{conf, our_arp, other_arp, cs, claim}

-- A machine for programs, which skips a number of instructions first.
machine : ℕ → Program → Registers → Bytes → ℕ
machine skip [] r p = 0
machine (suc skip) (i ∷ prog) r p = machine skip prog r p
machine zero (ld n k ∷ prog) r p =
    loaded (load n k p) (λ v. machine zero prog (record r { a = v }) p)
machine zero (ld_ind n k ∷ prog) r p =
    loaded (load n (r.x + k) p) (λ v. machine zero prog (record r { a = v }) p)
machine zero (ldx_msh k ∷ prog) r p =
    loaded (load 1 k p) (λ v. machine zero prog (record r { x = 4 * bit_and v 0xf }) p)
machine zero (jeq k jt jf ∷ prog) r p = machine (if r.a == k then jt else jf) prog r p
machine zero (jset k jt jf ∷ prog) r p = machine (if bit_and r.a k == 0 then jf else jt) prog r p
machine zero (jeq_x jt jf ∷ prog) r p = machine (if r.a == r.x then jt else jf) prog r p
machine zero (sub k ∷ prog) r p =
    machine zero prog (record r { a = (r.a + (2 ^ 32 - k)) % 2 ^ 32 }) p
machine zero (tax ∷ prog) r p = machine zero prog (record r { x = r.a }) p
machine zero (st ∷ prog) r p = machine zero prog (record r { m = r.a }) p
machine zero (ld_mem ∷ prog) r p = machine zero prog (record r { a = r.m }) p
machine zero (ret k ∷ prog) r p = k
machine zero (ret_a ∷ prog) r p = r.a

skips :
    (n : ℕ) (prog : Program) (r : Registers) (p : Bytes)
    → machine n prog r p ≡ machine zero (drop n prog) r p
unfolding machine
skips zero prog r p = refl
skips (suc n) [] r p = refl
skips (suc n) (i ∷ prog) r p = skips n prog r p

machine-Laws : Laws (machine zero)
unfolding machine
machine-Laws = record {
  run_ld = λ n k prog r p. refl;
  run_ld_ind = λ n k prog r p. refl;
  run_ldx_msh = λ k prog r p. refl;
  run_jeq = λ k jt jf prog r p. skips (if r.a == k then jt else jf) prog r p;
  run_jset = λ k jt jf prog r p. skips (if bit_and r.a k == 0 then jf else jt) prog r p;
  run_jeq_x = λ jt jf prog r p. skips (if r.a == r.x then jt else jf) prog r p;
  run_sub = λ k prog r p. refl;
  run_tax = λ prog r p. refl;
  run_st = λ prog r p. refl;
  run_ld_mem = λ prog r p. refl;
  run_ret = λ k prog r p. refl;
  run_ret_a = λ prog r p. refl;
}

-- A message of another host that claims our address.
abbrev foreign : ArpMsg
foreign = claim other_arp

foreign-IsArpMsg : IsArpMsg foreign
foreign-IsArpMsg = (
  refl,
  refl,
  omega arith,
  omega arith,
  omega arith,
  omega arith,
  omega arith,
  refl,
  (omega arith, (omega arith, (omega arith, (omega arith, (omega arith, (omega arith, tt)))))),
  omega arith,
)

defense_filter_example :
    machine zero
      (arp_set_bpf_defense (of_be 0) (be32 cs.client_addr) conf.arp)
      registers
      (frame foreign [])
    ≡ (if arp_validate_bpf foreign && arp_validate_bpf_defense conf cs foreign then pass_all else 0)
defense_filter_example =
    arp_set_bpf_defense-validate (machine zero) machine-Laws conf cs foreign [] foreign-IsArpMsg
      refl
      (omega arith, (omega arith, (omega arith, (omega arith, (omega arith, (omega arith, tt))))))
      (omega arith)

-- The answer of a server.
abbrev offered : IpUdp
offered = record {
  ip_first = 0x45;
  tos = 0;
  tot_len = 328;
  id = 1;
  frag_off = 0x4000;
  ttl = 64;
  protocol = 17;
  check = 0;
  saddr = 0xc0a80101;
  daddr = 0xc0a80107;
  source = 67;
  dest = 68;
  len = 308;
}

listen_filter_example :
    machine zero sf_dhcp registers (packet offered [])
    ≡ (if get_raw_packet_validate_bpf offered then 328 else 0)
listen_filter_example =
    create_raw_listen_socket-validate (machine zero) machine-Laws offered [] registers
      (omega arith, omega arith, omega arith, omega arith, omega arith)

-- A packet with a payload of two octets and a checksum of UDP, and sums that are always right.
abbrev two_octets : Bytes
two_octets = 1 ∷ 2 ∷ []

abbrev small : IpUdp
small = record offered { tot_len = 30; len = 10 }

abbrev small_read : RawRead
small_read = filled 30 small 7 two_octets

small-copied :
    get_raw_packet (λ _. 0) (λ a b. a + b) false small_read ≡ copied 2 0xc0a80101 two_octets
unfolding get_raw_packet get_raw_packet_validate_bpf ip_checksum udp_checksum
small-copied = refl

raw_copied_example :
    (1 ≤ 2)
    × (2 ≤ dhcpmsg_size)
    × (28 + 2 ≤ 30)
    × (two_octets ≡ take 2 two_octets)
    × (0xc0a80101 ≡ small.saddr)
raw_copied_example =
    get_raw_packet-copied (λ _. 0) (λ a b. a + b) false 30 small 7 two_octets 2 0xc0a80101
      two_octets small-copied

-- A datagram without a payload.
abbrev empty : IpUdp
empty = record offered { tot_len = 28; len = 8 }

empty-valid : get_raw_packet_validate_bpf empty ≡ true
unfolding get_raw_packet_validate_bpf
empty-valid = refl

empty-checked : ip_checksum (λ _. 0) (λ a b. a + b) empty ≡ true
unfolding ip_checksum
empty-checked = refl

raw_undefined_example :
    (machine zero sf_dhcp registers (packet empty (be16 0 ++ [])) ≡ 28)
    × (get_raw_packet (λ _. 0) (λ a b. a + b) true (filled 28 empty 0 []) ≡ undefined)
raw_undefined_example =
    get_raw_packet-undefined (λ _. 0) (λ a b. a + b) (machine zero) machine-Laws true 28 empty 0 []
      (omega arith, omega arith, omega arith, omega arith, omega arith) empty-valid
      (refl, refl, refl) empty-checked (omega arith)

drops_example :
    machine zero
      (arp_set_bpf_defense of_le (be32 foreign.sip4) our_arp)
      registers
      (frame foreign [])
    ≡ 0
drops_example =
    arp_set_bpf_defense-drops (machine zero) machine-Laws our_arp foreign [] foreign-IsArpMsg
      (λ e. omega (arith, e))

-- Every call works, and nothing was received yet.
abbrev sockd : Sockd
sockd = record {
  buf = record { octets = []; buflen = 0 };
  ifindex = 2;
  calls = [];
  kernel = record { works = λ _. true; recv = λ _. hung_up };
  tick = 0;
}

add_received_example :
    let q = defense (192 ∷ 168 ∷ 1 ∷ 7 ∷ []) our_arp in
    Answered q (add_received of_le (received (request_octets q)) sockd)
add_received_example =
    add_received-Answered of_le (defense (192 ∷ 168 ∷ 1 ∷ 7 ∷ []) our_arp) sockd (refl, refl) refl

-- A request for a socket that listens comes.
abbrev asked : Sockd
asked = record sockd {
  kernel = record { works = λ _. true; recv = λ _. received (request_octets listen) };
}
