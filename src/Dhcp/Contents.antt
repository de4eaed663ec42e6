-- ===== src/Dhcp/Contents.antt =====
-- Every message that src/dhcp.c builds has room for all its options, and holds exactly those.
use ndhc.Common.{
  ℕ, ◌+◌, ◌≤◌, ◌<◌, ◌≡◌, ◌∙◌, refl, sym, Bytes, not, some, List, [], ◌∷◌, ◌++◌, length,
  append_assoc, replicate, arith, ◌==◌, if◌then◌else◌, ◌>>=◌, be16, write, write_all-at, write_all,
  subst,
}
use ndhc.Dhcp.Build.{
  blank, default_vendor, add_options_vendor_hostname, init_packet, add_request_options,
}
use ndhc.Dhcp.Yields.{
  size, size-append, Yields, Yields-bind, Yields-msgtype, Yields-clientid, Yields-maxsize,
  Yields-request_list, Yields-vendor, Yields-hostname,
}
use ndhc.Master.Client.{Config}
use ndhc.Options.Append.{
  add_option_vendor, add_option_hostname, add_option_maxsize, add_option_request_list, reqdata,
}
use ndhc.Options.Dcode
use ndhc.Options.Items.{Item, opt, Holds}
use ndhc.Options.Packet.{Dhcpmsg, options_size, dhcp_magic, ip_udp_dhcp_packet_size}

-- The sizes of the arrays in `struct client_config_t`; `clientid_len` is at most the size of
-- `clientid`, and a string leaves an octet for its terminator.
pub record IsConfig (conf : Config) : Type 0 where
  pub arp_length : length conf.arp ≡ 6
  pub clientid_length : length conf.clientid ≤ 64
  pub hostname_length : length conf.hostname ≤ 63
  pub vendor_length : length conf.vendor ≤ 63

abbrev pub hostname_items : Config → List Item
hostname_items conf =
    if length conf.hostname == 0 then [] else opt Dcode.hostname conf.hostname ∷ []

abbrev pub vendor_of : Config → Bytes
vendor_of conf = if not (length conf.vendor == 0) then conf.vendor else default_vendor

-- The options that end every message which asks for an address.
abbrev pub request_items : Config → List Item
request_items conf =
    opt Dcode.max_size (be16 ip_udp_dhcp_packet_size)
    ∷ opt Dcode.param_req reqdata
    ∷ opt Dcode.vendor (vendor_of conf)
    ∷ hostname_items conf

-- The options that begin every message.
abbrev pub opening : Config → ℕ → List Item
opening conf type = opt Dcode.msgtype (type ∷ []) ∷ opt Dcode.client_id conf.clientid ∷ []

-- The fixed fields of every message.
abbrev pub header : Config → ℕ → Dhcpmsg
header conf xid = record (blank xid) {
  op = 1;
  htype = 1;
  hlen = 6;
  cookie = dhcp_magic;
  chaddr = conf.arp ++ replicate 10 0;
}

module _ (conf : Config) (valid : IsConfig conf) where
  vendor_of-length : (0 < length (vendor_of conf)) × (length (vendor_of conf) ≤ 63)
  vendor_of-length = ground (arith, valid)

  vendor_hostname_lem :
      (base : Dhcpmsg) (items : List Item) (o : Bytes)
      → Holds options_size o items
      → size items + 131 < options_size
      → Yields base
          (items ++ (opt Dcode.vendor (vendor_of conf) ∷ hostname_items conf))
          (add_options_vendor_hostname conf (record base { options = o }))
  unfolding add_options_vendor_hostname
  vendor_hostname_lem base items o h room =
      let v = vendor_of conf in
      subst (λ js. Yields base js (add_options_vendor_hostname conf (record base { options = o })))
        (append_assoc items (opt Dcode.vendor v ∷ []) (hostname_items conf))
        (Yields-bind base (items ++ opt Dcode.vendor v ∷ [])
          ((items ++ opt Dcode.vendor v ∷ []) ++ hostname_items conf)
          (add_option_vendor (record base { options = o }) v)
          (λ p. add_option_hostname p conf.hostname)
          (Yields-vendor base items o h v vendor_of-length.0 (omega (arith, vendor_of-length.1))
            (omega (arith, vendor_of-length.1)))
          (λ o' h'.
            Yields-hostname base (items ++ opt Dcode.vendor v ∷ []) o' h' conf.hostname
              (omega (arith, valid.hostname_length))
              (omega (
                arith,
                valid.hostname_length,
                vendor_of-length.1,
                size-append items (opt Dcode.vendor v ∷ []),
              ))))

  -- The options common to discover, request, renew and rebind fit behind at most 85 octets.
  pub request_options_lem :
      (base : Dhcpmsg) (items : List Item) (o : Bytes)
      → Holds options_size o items
      → size items ≤ 85
      → Yields base
          (items ++ request_items conf)
          (add_request_options conf (record base { options = o }))
  unfolding add_request_options
  request_options_lem base items o h room =
      let m = opt Dcode.max_size (be16 ip_udp_dhcp_packet_size) in
      let l = opt Dcode.param_req reqdata in
      let tail = opt Dcode.vendor (vendor_of conf) ∷ hostname_items conf in
      let packet = record base { options = o } in
      subst (λ js. Yields base js (add_request_options conf packet))
        (append_assoc (items ++ m ∷ []) (l ∷ []) tail ∙ append_assoc items (m ∷ []) (l ∷ tail))
        (Yields-bind base (items ++ m ∷ []) (((items ++ m ∷ []) ++ l ∷ []) ++ tail)
          (add_option_maxsize packet)
          (λ p. add_option_request_list p >>= λ q. add_options_vendor_hostname conf q)
          (Yields-maxsize base items o h (omega arith))
          (λ o1 h1.
            Yields-bind base ((items ++ m ∷ []) ++ l ∷ []) (((items ++ m ∷ []) ++ l ∷ []) ++ tail)
              (add_option_request_list (record base { options = o1 }))
              (λ q. add_options_vendor_hostname conf q)
              (Yields-request_list base (items ++ m ∷ []) o1 h1
                (omega (arith, size-append items (m ∷ []))))
              (λ o2 h2. vendor_hostname_lem base ((items ++ m ∷ []) ++ l ∷ []) o2 h2 (
                omega
                  (arith, size-append (items ++ m ∷ []) (l ∷ []), size-append items (m ∷ []))))))

  first_end : (xid : ℕ) → write (blank xid).options 0 Dcode.end ≡ some (Dcode.end ∷ replicate 307 0)
  unfolding blank write
  first_end xid = refl

  Holds-first : Holds options_size (Dcode.end ∷ replicate 307 0) []
  Holds-first = record { valid = tt; rest = replicate 307 0; layout = refl; fits = refl }

  chaddr_lem :
      (xid : ℕ) → write_all (blank xid).chaddr 0 conf.arp ≡ some (conf.arp ++ replicate 10 0)
  unfolding blank
  chaddr_lem xid =
      write_all-at conf.arp (replicate 6 0) (replicate 16 0) [] (replicate 10 0) 0 refl
        (sym valid.arp_length) refl

  pub init_packet_lem :
      (xid type : ℕ)
      → Yields (header conf xid) (opening conf type) (init_packet conf (blank xid) type)
  unfolding init_packet
  init_packet_lem xid type =
      let fixed = record (blank xid) { op = 1; htype = 1; hlen = 6; cookie = dhcp_magic } in
      let (o1, e1, h1) =
        Yields-msgtype fixed [] (Dcode.end ∷ replicate 307 0) Holds-first type (omega arith) in
      let (o2, e2, h2) =
        Yields-clientid (header conf xid) (opt Dcode.msgtype (type ∷ []) ∷ []) o1 h1 conf.clientid
          (omega (arith, valid.clientid_length)) (omega (arith, valid.clientid_length)) in
      (o2, rw (first_end xid, e1, chaddr_lem xid) e2, h2)
