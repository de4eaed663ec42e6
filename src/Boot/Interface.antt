-- ===== src/Boot/Interface.antt =====
-- `nl_getifdata` of src/netlink.c with what it uses of src/nl.c: the index and the hardware address of the
-- interface. The attributes that the kernel's macros find in a message are a parameter.
use ndhc.Common.{
  ℕ, ◌+◌, ◌-◌, Bytes, Bool, true, false, not, ◌||◌, Option, none, some, List, [], ◌∷◌, ◌==◌, length,
  take, if◌then◌else◌,
}
use ndhc.Common.Process.{suicide, fault, pure, ◌>>=◌, ◌>>◌, get, put, halt}
use ndhc.Ifchange.Changes.{same_bytes}
use ndhc.Ifchange.Text.{until_nul}
use ndhc.Ifchd.Netlink.{nl_message, nl_foreach_nlmsg, rtm_getlink, rtm_newlink}
use ndhc.Ifchd.World.{NlMsg, Body, ifinfomsg}
use ndhc.Boot.World.{
  B, ask, Recvmsg, nothing_yet, recv_error, datagram, ready, interrupted, poll_error,
}

-- IFLA_ADDRESS and IFLA_IFNAME, and IFNAMSIZ
abbrev pub ifla_address : ℕ
ifla_address = 1

abbrev pub ifla_ifname : ℕ
ifla_ifname = 3

abbrev pub ifnamsiz : ℕ
ifnamsiz = 16

-- `tb[type]` after `nl_rtattr_parse` with `rtattr_assign`: the last attribute of the type. Only the two
-- types above are looked at, which are below the limit of `rtattr_assign`.
unfoldable pub last_attr : ℕ → List (ℕ × Bytes) → Option Bytes
last_attr type [] = none
last_attr type ((t, v) ∷ attrs) = elim (last_attr type attrs) [
  | none ↦ if t == type then some v else none
  | some u ↦ some u
]

-- `strncmp` of the name of the interface and the value of an attribute is 0.
abbrev pub is_name : Bytes → Bytes → Bool
is_name interface name =
    same_bytes (take ifnamsiz (until_nul interface)) (take ifnamsiz (until_nul name))

-- The length of an address of a netlink socket, `sizeof addr`
abbrev pub sockaddr_nl_size : ℕ
sockaddr_nl_size = 12

-- -1 is `none`, and 0 is `some none`.
unfoldable pub nl_recv_buf : Recvmsg → Option (Option (List NlMsg))
nl_recv_buf nothing_yet = some none
nl_recv_buf recv_error = none
nl_recv_buf (datagram truncated namelen msgs) =
    if truncated then none else if not (namelen == sockaddr_nl_size) then none else some (some msgs)

-- The flags are NLM_F_REQUEST and NLM_F_ROOT.
unfoldable pub nl_sendgetlinks : ℕ → B Bool
nl_sendgetlinks seq = do
  w ← get
  put (record w { requests = nl_message rtm_getlink 0x101 seq (ifinfomsg 0 0) ∷ w.requests })
  ask (λ k. k.sendto)

abbrev pub close_socket : B (Unit {0})
close_socket = do w ← get; put (record w { sockets = w.sockets - 1 })

module _ (attributes : NlMsg → List (ℕ × Bytes)) where
  -- A missing address is reported with a format that lacks its argument, which is undefined.
  unfoldable pub get_if_index_and_mac : NlMsg → ℕ → B Bool
  unfolding last_attr
  get_if_index_and_mac nlh ifi_index = do
    w ← get
    elim (last_attr ifla_ifname (attributes nlh)) [
      | none ↦ pure false
      | some name ↦
          if not (is_name w.interface name)
          then pure false
          else elim (last_attr ifla_address (attributes nlh)) [
            | none ↦ (λ v. fault)
            | some mac ↦
                if not (length mac == 6)
                then halt suicide
                else (do put (record w { ifindex = ifi_index; arp = mac }); pure true)
          ]
    ]

  -- A new link; the structure behind the header is `struct ifinfomsg`.
  unfoldable pub new_link : NlMsg → Bool → Body → B Bool
  unfolding get_if_index_and_mac
  new_link nlh got_ifdata (ifinfomsg ifi_index ifi_flags) = do
    r ← get_if_index_and_mac nlh ifi_index
    pure (got_ifdata || r)
  new_link nlh got_ifdata _ = pure got_ifdata

  unfoldable pub do_handle_getifdata : NlMsg → Bool → B Bool
  unfolding new_link
  do_handle_getifdata nlh got_ifdata =
      if nlh.nlmsg_type == rtm_newlink then new_link nlh got_ifdata nlh.body else pure got_ifdata

  -- The loop of `handle_getifdata`, which ends where nothing is left.
  unfoldable pub getifdata_loop : List Recvmsg → ℕ → Bool → B (Option Bool)
  unfolding nl_recv_buf do_handle_getifdata nl_foreach_nlmsg
  getifdata_loop [] seq got_ifdata = pure (some got_ifdata)
  getifdata_loop (r ∷ rs) seq got_ifdata = elim (nl_recv_buf r) [
    | none ↦ pure none
    | some none ↦ pure (some got_ifdata)
    | some (some msgs) ↦ do
      walked ← nl_foreach_nlmsg msgs seq 0 do_handle_getifdata got_ifdata
      elim walked [ none ↦ pure none | some got ↦ getifdata_loop rs seq got ]
  ]

  -- The results 0 and -1 are `true` and `false`.
  unfoldable pub handle_getifdata : ℕ → B Bool
  unfolding getifdata_loop
  handle_getifdata seq = do
    rs ← ask (λ k. k.answer)
    got ← getifdata_loop rs seq false
    pure (elim got [ none ↦ false | some got_ifdata ↦ got_ifdata ])

  -- The loop around `poll` runs once: an error ends it as well, since the result is not 0.
  unfoldable pub wait_for_ifdata : ℕ → B Bool
  unfolding handle_getifdata
  wait_for_ifdata seq = do
    pr ← ask (λ k. k.poll)
    elim pr [ ready ↦ handle_getifdata seq | interrupted ↦ pure false | poll_error ↦ pure false ]

  -- The descriptor is closed on every path.
  unfoldable pub nl_getifdata : B Bool
  unfolding wait_for_ifdata nl_sendgetlinks
  nl_getifdata = do
    fd ← ask (λ k. k.socket)
    if not fd then pure false else (do
      w ← get
      put (record w { sockets = w.sockets + 1 })
      ts ← ask (λ k. k.clock)
      ret ← elim ts [
        | none ↦ pure false
        | some seq ↦ do sent ← nl_sendgetlinks seq; if sent then wait_for_ifdata seq else pure false
      ]
      close_socket
      pure ret)
