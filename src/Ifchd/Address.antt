-- ===== src/Ifchd/Address.antt =====
-- The command of src/ifset.c that sets the address of the interface.
use ndhc.Common.{
  ℕ, ◌+◌, ◌*◌, ◌/◌, ◌^◌, Bytes, Bool, true, false, not, ◌&&◌, ◌||◌, Option, none, some, List, [],
  ◌∷◌, ◌==◌, if◌then◌else◌, bit_and, bit_or,
}
use ndhc.Common.Process.{pure, ◌>>=◌, get, checked}
use ndhc.Ifchd.Links.{with_socket, link_set_flags, iff_up, iff_running}
use ndhc.Ifchd.Netlink.{
  nl_message, nl_add_rtattr, recv_loop, walked, recv_failed, foreach_failed, rtnl_do_send,
  nl_sendgetaddr4, rtm_newaddr, rtm_deladdr, af_inet, align4, nlmsg_hdrlen, rta_length,
}
use ndhc.Ifchd.Numbers.{inet_pton, subnet4_to_prefixlen}
use ndhc.Ifchd.World.{ifaddrmsg, NlMsg, I, ask, next_seq, Code, ok, already, failed, fatal}

-- `tb[type]` after `nl_rtattr_parse` with `rtattr_assign`: the last attribute of the type.
unfoldable pub rtattr : ℕ → List (ℕ × ℕ) → Option ℕ
rtattr type [] = none
rtattr type ((t, v) ∷ attrs) = elim (rtattr type attrs) [
  | some later ↦ some later
  | none ↦ if t == type then some v else none
]

abbrev pub ifa_address : ℕ
ifa_address = 1

abbrev pub ifa_broadcast : ℕ
ifa_broadcast = 4

abbrev pub addr_request_size : ℕ
addr_request_size = align4 nlmsg_hdrlen + align4 8 + 2 * rta_length 16

-- An attribute that is there only where there is a value.
abbrev pub add_some : NlMsg → ℕ → Option ℕ → Option NlMsg
add_some msg type none = some msg
add_some msg type (some v) = nl_add_rtattr msg addr_request_size type v

-- IFA_LOCAL is 2; NLM_F_REPLACE, NLM_F_ACK and NLM_F_REQUEST are 0x105.
unfoldable pub rtnl_addr_broadcast_send : ℕ → ℕ → ℕ → Option ℕ → Option ℕ → ℕ → I Code
rtnl_addr_broadcast_send type ifa_flags ifa_scope none none prefixlen = pure failed
rtnl_addr_broadcast_send type ifa_flags ifa_scope ipaddr bcast prefixlen = do
  seq ← next_seq
  w ← get
  elim (add_some
      (nl_message type 0x105 seq (ifaddrmsg af_inet prefixlen ifa_flags ifa_scope w.ifindex)) 2
      ipaddr) [
        | none ↦ pure failed
        | some m1 ↦ elim (add_some m1 ifa_broadcast bcast) [
          | none ↦ pure failed
          | some m2 ↦ rtnl_do_send m2
        ]
      ]

-- `struct ipbcpfx` without the descriptor and the flag `already_ok`.
pub record IpBcPfx : Type 0 where
  pub ipaddr : ℕ
  pub bcast : ℕ
  pub prefixlen : ℕ

abbrev is_value : Option ℕ → ℕ → Bool
is_value none v = false
is_value (some u) v = u == v

-- IFA_F_PERMANENT is 0x80, and RT_SCOPE_UNIVERSE is 0.
unfoldable pub is_wanted : IpBcPfx → ℕ → ℕ → ℕ → List (ℕ × ℕ) → Bool
unfolding rtattr
is_wanted ipx prefixlen flags scope attrs =
    not (bit_and flags 0x80 == 0)
    && (scope == 0
        && (prefixlen == ipx.prefixlen
            && (is_value (rtattr ifa_address attrs) ipx.ipaddr
                && is_value (rtattr ifa_broadcast attrs) ipx.bcast)))

-- The flag is `already_ok`.
unfoldable pub ipbcpfx_clear_others_do : ℕ → IpBcPfx → NlMsg → Bool → I Bool
unfolding rtattr is_wanted
ipbcpfx_clear_others_do ifindex ipx nlh already_ok = elim nlh.body [
  | ifaddrmsg family prefixlen flags scope index ↦
      if not (nlh.nlmsg_type == rtm_newaddr) || (not (index == ifindex) || not (family == af_inet))
      then pure already_ok
      else if is_wanted ipx prefixlen flags scope nlh.attrs
      then pure true
      else (do
        r ←
            rtnl_addr_broadcast_send rtm_deladdr flags scope (rtattr ifa_address nlh.attrs)
              (rtattr ifa_broadcast nlh.attrs) prefixlen
        pure already_ok)
  | _ ↦ pure already_ok
]

-- The results 1, 0, -1, -2 and -3.
pub data Cleared : Type 0 where
  all_cleared already_there request_failed answer_failed walk_failed : Cleared

unfoldable pub ipbcpfx_clear_others : IpBcPfx → I Cleared
unfolding ipbcpfx_clear_others_do
ipbcpfx_clear_others ipx = do
  seq ← next_seq
  w ← get
  sent ← nl_sendgetaddr4 seq w.ifindex
  if not sent then pure request_failed else (do
    bufs ← ask (λ k. k.dump)
    r ← recv_loop bufs seq (ipbcpfx_clear_others_do w.ifindex ipx) false
    elim r [
      | walked already_ok ↦ pure (if already_ok then already_there else all_cleared)
      | recv_failed ↦ pure answer_failed
      | foreach_failed ↦ pure walk_failed
    ])

-- The address with all bits of the host set; the shift is one of a `long`.
unfoldable pub standard_broadcast : ℕ → ℕ → ℕ
standard_broadcast ipaddr prefixlen = bit_or ipaddr (0xffffffff / 2 ^ prefixlen)

unfoldable pub bring_up : I Code
bring_up = do
  r ← link_set_flags (bit_or iff_up iff_running)
  elim r [ ok ↦ pure ok | already ↦ pure ok | _ ↦ pure failed ]

unfoldable pub set_address : IpBcPfx → I Code
set_address ipx = do
  r ← rtnl_addr_broadcast_send rtm_newaddr 0x80 0 (some ipx.ipaddr) (some ipx.bcast) ipx.prefixlen
  elim r [ ok ↦ bring_up | _ ↦ pure fatal ]

unfoldable pub after_clear : IpBcPfx → Cleared → I Code
after_clear ipx request_failed = pure fatal
after_clear ipx answer_failed = pure fatal
after_clear ipx already_there = bring_up
after_clear ipx all_cleared = set_address ipx
after_clear ipx walk_failed = set_address ipx

unfoldable pub clear_and_set : IpBcPfx → I Code
clear_and_set ipx = with_socket fatal (do r ← ipbcpfx_clear_others ipx; after_clear ipx r)

abbrev pub bcast_of : Option Bytes → ℕ → ℕ → Option ℕ
bcast_of none ipaddr prefixlen = some (standard_broadcast ipaddr prefixlen)
bcast_of (some str) ipaddr prefixlen = inet_pton str

unfoldable pub perform_ip_subnet_bcast : Bytes → Bytes → Option Bytes → I Code
perform_ip_subnet_bcast str_ipaddr str_subnet str_bcast = elim (inet_pton str_ipaddr) [
  | none ↦ pure fatal
  | some ipaddr ↦ elim (inet_pton str_subnet) [
    | none ↦ pure fatal
    | some subnet ↦ do
      prefixlen ← checked (subnet4_to_prefixlen subnet)
      elim (bcast_of str_bcast ipaddr prefixlen) [
        | none ↦ pure fatal
        | some bcast ↦
            clear_and_set (record { ipaddr = ipaddr; bcast = bcast; prefixlen = prefixlen })
      ]
  ]
]
