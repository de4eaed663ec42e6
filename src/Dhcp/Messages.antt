-- ===== src/Dhcp/Messages.antt =====
-- The messages of src/dhcp.c, one by one.
use ndhc.Common.{
  ℕ, ◌≤◌, Bytes, List, [], ◌∷◌, ◌++◌, append_assoc, arith, ◌==◌, if◌then◌else◌, ◌>>=◌, be32,
  Bool-cases, inl, inr, subst,
}
use ndhc.Dhcp.Build.{
  add_request_options, discover_packet, selecting_packet, renew_packet, rebind_packet,
  decline_packet, release_packet,
}
use ndhc.Dhcp.Contents.{
  IsConfig, opening, request_items, header, init_packet_lem, request_options_lem,
}
use ndhc.Dhcp.Yields.{size, size-append, Yields, Yields-reqip, Yields-serverid}
use ndhc.Master.Client.{Config}
use ndhc.Options.Append.{add_option_reqip, add_option_serverid}
use ndhc.Options.Dcode
use ndhc.Options.Items.{Item, opt, Holds}
use ndhc.Options.MsgType
use ndhc.Options.Packet.{Dhcpmsg, options_size}

abbrev reqip : ℕ → Item
reqip ip = opt Dcode.reqip (be32 ip)

abbrev serverid : ℕ → Item
serverid sid = opt Dcode.server_id (be32 sid)

-- The requested address of a discover message, if there is one.
abbrev pub wanted : ℕ → List Item
wanted addr = if addr == 0 then [] else opt Dcode.reqip (be32 addr) ∷ []

module _ (conf : Config) (valid : IsConfig conf) where
  -- A message that begins as all do, goes on with some options and ends as a request.
  asks :
      (base : Dhcpmsg) (type : ℕ) (extra : List Item) (o : Bytes)
      → Holds options_size o (opening conf type ++ extra)
      → size extra ≤ 12
      → Yields base
          (opening conf type ++ (extra ++ request_items conf))
          (add_request_options conf (record base { options = o }))
  asks base type extra o h small =
      subst (λ js. Yields base js (add_request_options conf (record base { options = o })))
        (append_assoc (opening conf type) extra (request_items conf))
        (request_options_lem conf valid base (opening conf type ++ extra) o h
          (omega (arith, size-append (opening conf type) extra, valid.clientid_length)))

  -- With a configuration that fits its arrays, a discover message is built without a fault, and holds
  -- the address that the client had, if any, among the options that a request has.
  pub discover_packet_lem :
      (xid addr : ℕ)
      → Yields
          (header conf xid)
          (opening conf MsgType.discover ++ (wanted addr ++ request_items conf))
          (discover_packet conf xid addr)
  unfolding discover_packet
  discover_packet_lem xid addr =
      let base = header conf xid in
      let (o1, e1, h1) = init_packet_lem conf valid xid MsgType.discover in
      let (o2, e2, h2) =
        Yields-reqip base (opening conf MsgType.discover) o1 h1 addr
          (omega (arith, valid.clientid_length)) in
      elim (Bool-cases (addr == 0)) [
        | inl no_addr ↦
            let (o3, e3, h3) = asks base MsgType.discover [] o1 h1 (omega arith) in
            rw no_addr (o3, rw e1 e3, h3)
        | inr has_addr ↦
            let (o3, e3, h3) = asks base MsgType.discover (reqip addr ∷ []) o2 h2 (omega arith) in
            rw has_addr (o3, rw (e1, e2) e3, h3)
      ]

  -- With a configuration that fits its arrays, a request for an offered address is built without a
  -- fault, and holds the address and the server among the options that a request has.
  pub selecting_packet_lem :
      (xid addr sid : ℕ)
      → Yields
          (header conf xid)
          (opening conf MsgType.request ++ (reqip addr ∷ serverid sid ∷ request_items conf))
          (selecting_packet conf xid addr sid)
  unfolding selecting_packet
  selecting_packet_lem xid addr sid =
      let base = header conf xid in
      let (o1, e1, h1) = init_packet_lem conf valid xid MsgType.request in
      let (o2, e2, h2) =
        Yields-reqip base (opening conf MsgType.request) o1 h1 addr
          (omega (arith, valid.clientid_length)) in
      let (o3, e3, h3) =
        Yields-serverid base (opening conf MsgType.request ++ reqip addr ∷ []) o2 h2 sid
          (omega (arith, valid.clientid_length)) in
      let (o4, e4, h4) =
        asks base MsgType.request (reqip addr ∷ serverid sid ∷ []) o3 h3 (omega arith) in
      (o4, rw (e1, e2, e3) e4, h4)

  -- With a configuration that fits its arrays, a renewal is built without a fault, has the address in
  -- `ciaddr`, and holds no address and no server among its options.
  pub renew_packet_lem :
      (xid addr : ℕ)
      → Yields
          (record (header conf xid) { ciaddr = addr })
          (opening conf MsgType.request ++ request_items conf)
          (renew_packet conf xid addr)
  unfolding renew_packet
  renew_packet_lem xid addr =
      let (o, e, h) = init_packet_lem conf valid xid MsgType.request in
      let (o', e', h') =
        asks (record (header conf xid) { ciaddr = addr }) MsgType.request [] o h (omega arith) in
      (o', rw e e', h')

  -- With a configuration that fits its arrays, a rebinding request is built without a fault, has the
  -- address in `ciaddr` and in an option, and names no server.
  pub rebind_packet_lem :
      (xid addr : ℕ)
      → Yields
          (record (header conf xid) { ciaddr = addr })
          (opening conf MsgType.request ++ (reqip addr ∷ request_items conf))
          (rebind_packet conf xid addr)
  unfolding rebind_packet
  rebind_packet_lem xid addr =
      let base = record (header conf xid) { ciaddr = addr } in
      let (o1, e1, h1) = init_packet_lem conf valid xid MsgType.request in
      let (o2, e2, h2) =
        Yields-reqip base (opening conf MsgType.request) o1 h1 addr
          (omega (arith, valid.clientid_length)) in
      let (o3, e3, h3) = asks base MsgType.request (reqip addr ∷ []) o2 h2 (omega arith) in
      (o3, rw (e1, e2) e3, h3)

  -- The address and the server behind the opening, as in a decline and a release.
  names_server :
      (base : Dhcpmsg) (type addr sid : ℕ) (o : Bytes)
      → Holds options_size o (opening conf type)
      → Yields base
          (opening conf type ++ (reqip addr ∷ serverid sid ∷ []))
          (add_option_reqip (record base { options = o }) addr >>= λ q. add_option_serverid q sid)
  names_server base type addr sid o h =
      let (o2, e2, h2) =
        Yields-reqip base (opening conf type) o h addr (omega (arith, valid.clientid_length)) in
      let (o3, e3, h3) =
        Yields-serverid base (opening conf type ++ reqip addr ∷ []) o2 h2 sid
          (omega (arith, valid.clientid_length)) in
      (o3, rw e2 e3, h3)

  -- With a configuration that fits its arrays, a decline is built without a fault, names the address
  -- and the server in options, and asks for nothing.
  pub decline_packet_lem :
      (xid addr sid : ℕ)
      → Yields
          (header conf xid)
          (opening conf MsgType.decline ++ (reqip addr ∷ serverid sid ∷ []))
          (decline_packet conf xid addr sid)
  unfolding decline_packet
  decline_packet_lem xid addr sid =
      let (o1, e1, h1) = init_packet_lem conf valid xid MsgType.decline in
      let (o2, e2, h2) = names_server (header conf xid) MsgType.decline addr sid o1 h1 in
      (o2, rw e1 e2, h2)

  -- With a configuration that fits its arrays, a release is built without a fault, has the address in
  -- `ciaddr`, names it and the server in options, and asks for nothing.
  pub release_packet_lem :
      (xid addr sid : ℕ)
      → Yields
          (record (header conf xid) { ciaddr = addr })
          (opening conf MsgType.release ++ (reqip addr ∷ serverid sid ∷ []))
          (release_packet conf xid addr sid)
  unfolding release_packet
  release_packet_lem xid addr sid =
      let (o1, e1, h1) = init_packet_lem conf valid xid MsgType.release in
      let (o2, e2, h2) =
        names_server (record (header conf xid) { ciaddr = addr }) MsgType.release addr sid o1 h1 in
      (o2, rw e1 e2, h2)
