-- ===== src/Dhcp/Yields.antt =====
-- The writers of src/options.c in a chain, on a message whose option field holds a list of options.
use ndhc.Common.{
  ℕ, ◌+◌, ◌≤◌, ◌<◌, ◌≡◌, refl, Bytes, Option, some, List, [], ◌∷◌, ◌++◌, length, length-append,
  append-nil, arith, ◌==◌, if◌then◌else◌, ◌>>=◌, be16, be32, Bool-cases, inl, inr,
}
use ndhc.Options.Append.{
  add_option_msgtype, add_option_clientid, add_option_reqip, add_option_serverid,
  add_option_maxsize, add_option_request_list, add_option_vendor, add_option_hostname, reqdata,
}
use ndhc.Options.Dcode
use ndhc.Options.Items.{Item, pad, opt, encode, Holds}
use ndhc.Options.Packet.{Dhcpmsg, options_size, ip_udp_dhcp_packet_size}
use ndhc.Options.Store.{
  add_option_string_lem, add_u8_option_lem, add_u16_option_lem, add_u32_option_lem,
}

abbrev pub size : List Item → ℕ
size [] = 0
size (pad ∷ xs) = 1 + size xs
size (opt c v ∷ xs) = 2 + length v + size xs

pub length-encode : (xs : List Item) → length (encode xs) ≡ size xs
length-encode [] = refl
length-encode (pad ∷ xs) = omega (arith, length-encode xs)
length-encode (opt c v ∷ xs) = omega (arith, length-encode xs, length-append v (encode xs))

pub size-append : (xs ys : List Item) → size (xs ++ ys) ≡ size xs + size ys
size-append [] ys = omega arith
size-append (pad ∷ xs) ys = omega (arith, size-append xs ys)
size-append (opt c v ∷ xs) ys = omega (arith, size-append xs ys)

-- The message is `base` with an option field that holds `items`.
abbrev pub Yields : Dhcpmsg → List Item → Option Dhcpmsg → Type 0
Yields base items result =
    (o : Bytes) × (result ≡ some (record base { options = o })) × Holds options_size o items

module _ (base : Dhcpmsg) (items : List Item) where
  pub Yields-bind :
      (later : List Item) (r : Option Dhcpmsg) (k : Dhcpmsg → Option Dhcpmsg)
      → Yields base items r
      → ((o : Bytes)
          → Holds options_size o items
          → Yields base later (k (record base { options = o })))
      → Yields base later (r >>= k)
  Yields-bind later r k (o, e, h) go = let (o', e', h') = go o h in (o', rw e e', h')

module _ (base : Dhcpmsg) (items : List Item) (o : Bytes) (h : Holds options_size o items) where
  abbrev packet : Dhcpmsg
  packet = record base { options = o }

  pub Yields-msgtype :
      (t : ℕ)
      → size items + 3 < options_size
      → Yields base (items ++ opt Dcode.msgtype (t ∷ []) ∷ []) (add_option_msgtype packet t)
  unfolding add_option_msgtype
  Yields-msgtype t room =
      let (o', e, h') =
        add_u8_option_lem packet items h Dcode.msgtype t (omega arith)
          (omega (arith, length-encode items)) in
      (o', rw e, h')

  pub Yields-reqip :
      (ip : ℕ)
      → size items + 6 < options_size
      → Yields base (items ++ opt Dcode.reqip (be32 ip) ∷ []) (add_option_reqip packet ip)
  unfolding add_option_reqip
  Yields-reqip ip room =
      let (o', e, h') =
        add_u32_option_lem packet items h Dcode.reqip ip (omega arith)
          (omega (arith, length-encode items)) in
      (o', rw e, h')

  pub Yields-serverid :
      (sid : ℕ)
      → size items + 6 < options_size
      → Yields base (items ++ opt Dcode.server_id (be32 sid) ∷ []) (add_option_serverid packet sid)
  unfolding add_option_serverid
  Yields-serverid sid room =
      let (o', e, h') =
        add_u32_option_lem packet items h Dcode.server_id sid (omega arith)
          (omega (arith, length-encode items)) in
      (o', rw e, h')

  pub Yields-clientid :
      (cid : Bytes)
      → length cid ≤ 255
      → size items + (2 + length cid) < options_size
      → Yields base (items ++ opt Dcode.client_id cid ∷ []) (add_option_clientid packet cid)
  unfolding add_option_clientid
  Yields-clientid cid short room =
      let (o', e, h') =
        add_option_string_lem packet items h Dcode.client_id cid (omega arith) short
          (omega (arith, length-encode items)) in
      (o', rw e, h')

  pub Yields-maxsize :
      size items + 4 < options_size
      → Yields base
          (items ++ opt Dcode.max_size (be16 ip_udp_dhcp_packet_size) ∷ [])
          (add_option_maxsize packet)
  unfolding add_option_maxsize
  Yields-maxsize room =
      let (o', e, h') =
        add_u16_option_lem packet items h Dcode.max_size ip_udp_dhcp_packet_size (omega arith)
          (omega (arith, length-encode items)) in
      (o', rw e, h')

  pub Yields-request_list :
      size items + 8 < options_size
      → Yields base (items ++ opt Dcode.param_req reqdata ∷ []) (add_option_request_list packet)
  unfolding add_option_request_list
  Yields-request_list room =
      let (o', e, h') =
        add_option_string_lem packet items h Dcode.param_req reqdata (omega arith) (omega arith)
          (omega (arith, length-encode items)) in
      (o', rw e, h')

  pub Yields-vendor :
      (v : Bytes)
      → 0 < length v
      → length v ≤ 255
      → size items + (2 + length v) < options_size
      → Yields base (items ++ opt Dcode.vendor v ∷ []) (add_option_vendor packet v)
  unfolding add_option_vendor
  Yields-vendor v some_vendor short room =
      let (o', e, h') =
        add_option_string_lem packet items h Dcode.vendor v (omega arith) short
          (omega (arith, length-encode items)) in
      (o', ground (arith, e), h')

  pub Yields-hostname :
      (v : Bytes)
      → length v ≤ 255
      → size items + (2 + length v) < options_size
      → Yields base
          (items ++ (if length v == 0 then [] else opt Dcode.hostname v ∷ []))
          (add_option_hostname packet v)
  unfolding add_option_hostname
  Yields-hostname v short room =
      let (o', e, h') =
        add_option_string_lem packet items h Dcode.hostname v (omega arith) short
          (omega (arith, length-encode items)) in
      elim (Bool-cases (length v == 0)) [
        | inl none_given ↦ rw none_given (o, refl, rw append-nil h)
        | inr given ↦ rw given (o', rw e, h')
      ]
