-- ===== src/Ifchd/Links.antt =====
-- The commands of src/ifset.c on the link and on the route: carrier, link flags, MTU and gateway.
use ndhc.Common.{
  ℕ, ◌+◌, ◌-◌, ◌*◌, ◌^◌, Bytes, not, ◌&&◌, ◌||◌, Option, none, some, ◌==◌, ltb, length,
  if◌then◌else◌, bit_and, bit_or,
}
use ndhc.Common.Process.{pure, ◌>>=◌, get}
use ndhc.Ifchd.Netlink.{
  nl_message, nl_add_rtattr, recv_loop, walked, rtnl_do_send, nl_sendgetlink, rtm_newlink,
  rtm_setlink, rtm_newroute, af_inet, align4, nlmsg_hdrlen, rta_length,
}
use ndhc.Ifchd.Numbers.{inet_pton, strtol}
use ndhc.Ifchd.World.{ifinfomsg, rtmsg, NlMsg, I, ask, next_seq, Code, ok, already, failed, fatal}

abbrev pub iff_up : ℕ
iff_up = 1

abbrev pub iff_running : ℕ
iff_running = 0x40

abbrev pub int_max : ℕ
int_max = 2 ^ 31 - 1

-- `struct link_flag_data` is the flags, where they are known.
unfoldable pub link_flags_get_do : ℕ → NlMsg → Option ℕ → I (Option ℕ)
link_flags_get_do ifindex nlh flags = elim nlh.body [
  | ifinfomsg ifi_index ifi_flags ↦
      pure (if nlh.nlmsg_type == rtm_newlink && ifi_index == ifindex then some ifi_flags else flags)
  | _ ↦ pure flags
]

-- The flags, or none of them for the results -1 to -4.
unfoldable pub link_flags_get : I (Option ℕ)
link_flags_get = do
  seq ← next_seq
  w ← get
  sent ← nl_sendgetlink seq w.ifindex
  if not sent then pure none else (do
    bufs ← ask (λ k. k.dump)
    r ← recv_loop bufs seq (link_flags_get_do w.ifindex) none
    elim r [ walked flags ↦ pure flags | _ ↦ pure none ])

-- The socket of each command: without it the command has the result `code`.
abbrev pub with_socket : Code → I Code → I Code
with_socket code k = do opened ← ask (λ e. e.socket); if opened then k else pure code

unfoldable pub perform_carrier : I Code
perform_carrier = with_socket failed (do
  flags ← link_flags_get
  elim flags [
    | none ↦ pure failed
    | some f ↦
        pure
          (if not (bit_and f iff_running == 0) && not (bit_and f iff_up == 0) then ok else failed)
  ])

-- NLM_F_ACK and NLM_F_REQUEST are 5.
unfoldable pub rtnl_if_flags_send : ℕ → ℕ → I Code
rtnl_if_flags_send type ifi_flags = do
  seq ← next_seq
  w ← get
  rtnl_do_send (nl_message type 5 seq (ifinfomsg w.ifindex ifi_flags))

unfoldable pub link_set_flags : ℕ → I Code
link_set_flags flags = do
  r ← link_flags_get
  elim r [
    | none ↦ pure failed
    | some oldflags ↦
        if bit_and oldflags flags == flags
        then pure already
        else rtnl_if_flags_send rtm_setlink (bit_or flags oldflags)
  ]

unfoldable pub perform_ifup : I Code
perform_ifup = with_socket failed (link_set_flags iff_up)

-- The size of the buffer for a request with a body of `size` octets and `attrs` attributes of four.
abbrev pub mtu_request_size : ℕ
mtu_request_size = align4 nlmsg_hdrlen + align4 16 + rta_length 4

-- IFLA_MTU is 4.
unfoldable pub rtnl_if_mtu_set : ℕ → I Code
rtnl_if_mtu_set mtu = do
  r ← link_flags_get
  elim r [
    | none ↦ pure failed
    | some oldflags ↦ do
      seq ← next_seq
      w ← get
      elim (nl_add_rtattr (nl_message rtm_setlink 5 seq (ifinfomsg w.ifindex oldflags))
          mtu_request_size 4 mtu) [ none ↦ pure failed | some msg ↦ rtnl_do_send msg ]
  ]

-- A command that a negative result makes fatal.
abbrev pub or_fatal : I Code → I Code
or_fatal m = do r ← m; elim r [ ok ↦ pure ok | already ↦ pure ok | _ ↦ pure fatal ]

unfoldable pub perform_mtu : Bytes → I Code
perform_mtu str = if ltb (length str) 2 then pure fatal else elim (strtol str) [
  | none ↦ pure fatal
  | some (minus, tmtu) ↦
      if minus || (ltb int_max tmtu || ltb tmtu 68)
      then pure fatal
      else with_socket fatal (or_fatal (rtnl_if_mtu_set tmtu))
]

-- The sizes of `struct rtmsg` and of `struct in6_addr` are 12 and 16.
abbrev pub gw_request_size : ℕ
gw_request_size = align4 nlmsg_hdrlen + align4 12 + 3 * rta_length 16 + rta_length 4

-- The attributes RTA_DST, RTA_OIF, RTA_GATEWAY and RTA_PRIORITY of the default route, as far as they
-- fit.
unfoldable pub default_gw_message : ℕ → ℕ → ℕ → ℕ → Option NlMsg
default_gw_message seq ifindex gw4 metric =
    elim (nl_add_rtattr (nl_message rtm_newroute 0x505 seq (rtmsg af_inet 16 0 1)) gw_request_size 1
      0) [
        | none ↦ none
        | some m1 ↦ elim (nl_add_rtattr m1 gw_request_size 4 ifindex) [
          | none ↦ none
          | some m2 ↦ elim (nl_add_rtattr m2 gw_request_size 5 gw4) [
            | none ↦ none
            | some m3 ↦ if ltb 0 metric then nl_add_rtattr m3 gw_request_size 6 metric else some m3
          ]
        ]
      ]

unfoldable pub rtnl_set_default_gw_v4 : ℕ → I Code
rtnl_set_default_gw_v4 gw4 = do
  seq ← next_seq
  w ← get
  elim (default_gw_message seq w.ifindex gw4 w.metric) [
    | none ↦ pure failed
    | some msg ↦ rtnl_do_send msg
  ]

unfoldable pub perform_router : Bytes → I Code
perform_router str_router =
    if ltb (length str_router) 7 then pure fatal else elim (inet_pton str_router) [
      | none ↦ pure fatal
      | some router ↦ with_socket fatal (or_fatal (rtnl_set_default_gw_v4 router))
    ]
