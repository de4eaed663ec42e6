-- ===== src/Sockd/DhcpFilter.antt =====
-- The program of `create_raw_listen_socket` in src/sockd.c, and `get_raw_packet_validate_bpf` of
-- src/dhcp.c, which takes its place where the kernel does not filter.
use ndhc.Common.{
  ℕ, ◌+◌, ◌-◌, ◌*◌, ◌/◌, ◌%◌, ◌^◌, ◌<◌, Bytes, Bool, true, false, not, some, [], ◌∷◌, ◌++◌, ◌≡◌,
  refl, ap, ◌∙◌, ◌==◌, drop, of_be, be16, be32, read_range, bit_and, arith, if◌then◌else◌,
}
use ndhc.Sockd.Bpf.{
  Program, Registers, Laws, run-test, ld, ld_ind, ldx_msh, jeq, jset, jeq_x, sub, tax, st, ld_mem,
  ret, ret_a,
}
use ndhc.Sockd.Sockets.{sf_dhcp}
use ndhc.Sockd.DhcpSteps.{run-jset, run-test_ind, run-lengths}

-- `struct ip_udp_dhcp_packet` without its payload; `ip_first` is the octet of the version and of the
-- header's length.
pub record IpUdp : Type 0 where
  pub ip_first : ℕ
  pub tos : ℕ
  pub tot_len : ℕ
  pub id : ℕ
  pub frag_off : ℕ
  pub ttl : ℕ
  pub protocol : ℕ
  pub check : ℕ
  pub saddr : ℕ
  pub daddr : ℕ
  pub source : ℕ
  pub dest : ℕ
  pub len : ℕ

-- The octets of the headers, each number in network order, and what stands behind the length of
-- the message.
abbrev pub packet : IpUdp → Bytes → Bytes
packet h rest =
    h.ip_first
    ∷ h.tos
    ∷ (be16 h.tot_len
        ++ (be16 h.id
            ++ (be16 h.frag_off
                ++ (h.ttl
                    ∷ h.protocol
                    ∷ (be16 h.check
                        ++ (be32 h.saddr
                            ++ (be32 h.daddr
                                ++ (be16 h.source ++ (be16 h.dest ++ (be16 h.len ++ rest))))))))))

-- The first octet holds the version 4 and the length 5; the length of the message is compared in a
-- type that wraps around.
unfoldable pub get_raw_packet_validate_bpf : IpUdp → Bool
get_raw_packet_validate_bpf h =
    if not (h.ip_first / 16 == 4)
    then false
    else if not (h.ip_first % 16 == 5)
    then false
    else if not (h.protocol == 17)
    then false
    else if not (h.dest == 68)
    then false
    else if not (h.len == (h.tot_len + (2 ^ 64 - 20)) % 2 ^ 64)
    then false
    else true

-- The numbers of 16 bits that the tests read.
abbrev pub IsIpUdp : IpUdp → Type 0
IsIpUdp h =
    (h.tot_len < 2 ^ 16)
    × (h.frag_off < 2 ^ 16)
    × (h.source < 2 ^ 16)
    × (h.dest < 2 ^ 16)
    × (h.len < 2 ^ 16)

of_be-be16 : (n : ℕ) → n < 2 ^ 16 → of_be 0 (be16 n) ≡ n
of_be-be16 n h = omega arith

of_be-octet : (n : ℕ) → of_be 0 (n ∷ []) ≡ n
of_be-octet n = omega arith

-- The tests of the program and those of the client come to the same.
decides :
    (h : IpUdp)
    → IsIpUdp h
    → (whole : Bool)
    → (if h.ip_first == 0x45
        then (if h.protocol == 17
            then (if whole
                then (if (h.source * 65536 + h.dest) == 0x00430044
                    then (if ((h.tot_len + (2 ^ 32 - 20)) % 2 ^ 32) == h.len then h.tot_len else 0)
                    else 0)
                else 0)
            else 0)
        else 0)
      ≡ (if get_raw_packet_validate_bpf h
          then (if whole then (if h.source == 67 then h.tot_len else 0) else 0)
          else 0)
unfolding get_raw_packet_validate_bpf
decides h (t, f, s, d, l) true = ground arith
decides h (t, f, s, d, l) false = ground arith

-- A value under a test.
under : (b : Bool) (x y : ℕ) → (b ≡ true → x ≡ y) → (if b then x else 0) ≡ (if b then y else 0)
under true x y h = h refl
under false x y h = refl

is_0x45 : (n : ℕ) → (n == 0x45) ≡ true → n ≡ 0x45
is_0x45 n h = ground (arith, h)

ports : (a b : ℕ) → a < 2 ^ 16 → b < 2 ^ 16 → of_be 0 (be16 a ++ be16 b) ≡ a * 65536 + b
ports a b h k = omega arith

module _ (run : Program → Registers → Bytes → ℕ) (laws : Laws run) where
  -- Numbers behind the header's first octet, which is 0x45.
  abbrev behind_first : Program
  behind_first = drop 3 sf_dhcp

  -- The tests behind the first, with the length of the header in X.
  run-behind :
      (h : IpUdp) (rest : Bytes) (r : Registers)
      → IsIpUdp h
      → h.ip_first ≡ 0x45
      → run behind_first r (packet h rest) ≡ (
          if h.protocol == 17
          then (if bit_and h.frag_off 0x3fff == 0
              then (if (h.source * 65536 + h.dest) == 0x00430044
                  then (if ((h.tot_len + (2 ^ 32 - 20)) % 2 ^ 32) == h.len then h.tot_len else 0)
                  else 0)
              else 0)
          else 0)
  unfolding sf_dhcp read_range
  run-behind h rest r (t, f, s, d, l) e =
      let p = packet h rest in
      let q6 = ld_ind 2 4 ∷ tax ∷ ld 2 2 ∷ st ∷ sub 20 ∷ jeq_x 1 0 ∷ ret 0 ∷ ld_mem ∷ ret_a ∷ [] in
      let q5 = ld_ind 4 0 ∷ jeq 0x00430044 1 0 ∷ ret 0 ∷ q6 in
      let q4 = ldx_msh 0 ∷ q5 in
      let q3 = ld 2 6 ∷ jset 0x3fff 0 1 ∷ ret 0 ∷ q4 in
      let r1 = record r { a = h.protocol } in
      let r2 = record r1 { a = h.frag_off } in
      let r3 = record r2 { x = 20 } in
      let r4 = record r3 { a = h.source * 65536 + h.dest } in
      run-test run laws 1 9 17 0 h.protocol q3 r p (ap some (of_be-octet h.protocol))
      ∙ ap (λ n. if h.protocol == 17 then n else 0)
          (run-jset run laws 2 6 0x3fff h.frag_off q4 r1 p (ap some (of_be-be16 h.frag_off f))
            ∙ ap (λ n. if bit_and h.frag_off 0x3fff == 0 then n else 0)
                (laws.run_ldx_msh 0 q5 r2 p
                  ∙ ap (λ v. run q5 (record r2 { x = 4 * bit_and v 0xf }) p)
                      (of_be-octet h.ip_first ∙ e)
                  ∙ run-test_ind run laws 4 0 0x00430044 (h.source * 65536 + h.dest) q6 r3 p
                      (ap some (ports h.source h.dest s d))
                  ∙ ap (λ n. if (h.source * 65536 + h.dest) == 0x00430044 then n else 0)
                      (run-lengths run laws h.len h.tot_len r4 p refl (ap some (of_be-be16 h.len l))
                        (ap some (of_be-be16 h.tot_len t)))))

  -- For every machine that runs programs by the documented laws, any registers at the start, and
  -- headers whose total length, fragment field, ports and UDP length are numbers of 16 bits, with any
  -- octets behind them: the program that `create_raw_listen_socket` attaches passes as many octets as
  -- the total length says if `get_raw_packet_validate_bpf` accepts the headers, the packet is whole
  -- (neither the more-fragments bit nor an offset is set) and its source port is 67, and it drops the
  -- packet otherwise.
  pub create_raw_listen_socket-validate :
      (h : IpUdp) (rest : Bytes) (r : Registers)
      → IsIpUdp h
      → run sf_dhcp r (packet h rest) ≡ (
          if get_raw_packet_validate_bpf h
          then (if bit_and h.frag_off 0x3fff == 0
              then (if h.source == 67 then h.tot_len else 0)
              else 0)
          else 0)
  unfolding sf_dhcp read_range
  create_raw_listen_socket-validate h rest r w =
      run-test run laws 1 0 0x45 0 h.ip_first behind_first r (packet h rest)
        (ap some (of_be-octet h.ip_first))
      ∙ under (h.ip_first == 0x45) _ _
          (λ e. run-behind h rest (record r { a = h.ip_first }) w (is_0x45 h.ip_first e))
      ∙ decides h w (bit_and h.frag_off 0x3fff == 0)
