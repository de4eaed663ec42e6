-- ===== src/Boot/InterfaceFound.antt =====
-- What `nl_getifdata` of src/netlink.c finds.
use ndhc.Common.{
  ℕ, Bytes, Bool, true, false, ◌||◌, Option, none, some, List, [], ◌∷◌, ◌≡◌, refl, sym, ap, subst,
  ◌∙◌, inl, inr, ◌==◌, Bool-cases, length, arith,
}
use ndhc.Common.Process.{pure}
use ndhc.Boot.Interface.{
  ifla_address, ifla_ifname, last_attr, is_name, nl_recv_buf, get_if_index_and_mac, new_link,
  do_handle_getifdata, getifdata_loop,
}
use ndhc.Boot.Walks.{Returns, Returns-onward, AllMsgs, WalkInv, nl_foreach_nlmsg-Returns}
use ndhc.Boot.World.{Boot, B, Recvmsg, nothing_yet, recv_error, datagram}
use ndhc.Ifchd.Netlink.{nl_foreach_nlmsg, rtm_newlink}
use ndhc.Ifchd.World.{NlMsg, Body, ifinfomsg, ifaddrmsg, rtmsg}

-- The index and the address of the state are those of a new link with the name of the interface.
abbrev pub IsOf : (NlMsg → List (ℕ × Bytes)) → Bytes → NlMsg → Boot → Type 0
IsOf attributes interface nlh v =
    (index flags : ℕ) × (name mac : Bytes) × (nlh.body ≡ ifinfomsg index flags)
    × (nlh.nlmsg_type ≡ rtm_newlink)
    × (last_attr ifla_ifname (attributes nlh) ≡ some name)
    × (is_name interface name ≡ true)
    × (last_attr ifla_address (attributes nlh) ≡ some mac)
    × (length mac ≡ 6)
    × (v.ifindex ≡ index)
    × (v.arp ≡ mac)

module _ (attributes : NlMsg → List (ℕ × Bytes)) (Q : NlMsg → Type 0) (interface : Bytes)
    (sockets : ℕ) where
  abbrev pub Inv : Bool → Boot → Type 0
  Inv got v =
      (v.interface ≡ interface)
      × (v.sockets ≡ sockets)
      × (got ≡ true → ((nlh : NlMsg) × Q nlh × IsOf attributes interface nlh v))

  abbrev Post : NlMsg → Boot → Bool → Boot → Type 0
  Post nlh u false v = v ≡ u
  Post nlh u true v =
      (v.interface ≡ u.interface) × (v.sockets ≡ u.sockets) × IsOf attributes interface nlh v

  get_if_index_and_mac-Returns :
      (nlh : NlMsg) (index flags : ℕ) (u : Boot)
      → nlh.body ≡ ifinfomsg index flags
      → nlh.nlmsg_type ≡ rtm_newlink
      → u.interface ≡ interface
      → Returns (Post nlh u) (get_if_index_and_mac attributes nlh index u)
  unfolding get_if_index_and_mac
  get_if_index_and_mac-Returns nlh index flags u body type same =
      by_name (last_attr ifla_ifname (attributes nlh)) refl
    where
      by_address :
          (name : Bytes)
          → last_attr ifla_ifname (attributes nlh) ≡ some name
          → is_name u.interface name ≡ true
          → (o : Option Bytes) → last_attr ifla_address (attributes nlh) ≡ o
          → Returns (Post nlh u) (get_if_index_and_mac attributes nlh index u)
      by_address name e ours none a = rw (e, ours, a) tt
      by_address name e ours (some mac) a = elim (Bool-cases (length mac == 6)) [
        | inr l ↦ rw (e, ours, a, l) tt
        | inl l ↦
            rw (e, ours, a, l)
              (
                refl,
                refl,
                (
                  index,
                  flags,
                  name,
                  mac,
                  body,
                  type,
                  e,
                  ap (λ x. is_name x name) (sym same) ∙ ours,
                  a,
                  six l,
                  refl,
                  refl,
                ),
              )
      ]
        where
          six : (length mac == 6) ≡ true → length mac ≡ 6
          six h = ground (arith, h)

      by_name :
          (o : Option Bytes)
          → last_attr ifla_ifname (attributes nlh) ≡ o
          → Returns (Post nlh u) (get_if_index_and_mac attributes nlh index u)
      by_name none e = rw e refl
      by_name (some name) e = elim (Bool-cases (is_name u.interface name)) [
        | inr other ↦ rw (e, other) refl
        | inl ours ↦ by_address name e ours (last_attr ifla_address (attributes nlh)) refl
      ]

  after_message :
      (nlh : NlMsg) (got : Bool) (u : Boot)
      → Q nlh
      → Inv got u
      → (r : Bool) (v : Boot) → Post nlh u r v
      → Inv (got || r) v
  after_message nlh got u q (i, s, found) true v (i', s', is) =
      (i' ∙ i, s' ∙ s, (λ _. (nlh, q, is)))
  after_message nlh true u q h false v e = subst (Inv true) (sym e) h
  after_message nlh false u q h false v e = subst (Inv false) (sym e) h

  new_link-Returns :
      (nlh : NlMsg) (got : Bool) (u : Boot) (b : Body)
      → nlh.body ≡ b
      → nlh.nlmsg_type ≡ rtm_newlink
      → Q nlh
      → Inv got u
      → Returns Inv (new_link attributes nlh got b u)
  unfolding new_link
  new_link-Returns nlh got u (ifaddrmsg a b c d e) eq type q h = h
  new_link-Returns nlh got u (rtmsg a b c d) eq type q h = h
  new_link-Returns nlh got u (ifinfomsg index flags) eq type q h =
      Returns-onward (Post nlh u) Inv (get_if_index_and_mac attributes nlh index u)
        (λ r. pure (got || r)) (get_if_index_and_mac-Returns nlh index flags u eq type (h.0))
        (after_message nlh got u q h)

  do_handle_getifdata-Returns :
      (nlh : NlMsg) (got : Bool) (u : Boot)
      → Q nlh
      → Inv got u
      → Returns Inv (do_handle_getifdata attributes nlh got u)
  unfolding do_handle_getifdata
  do_handle_getifdata-Returns nlh got u q h = elim (Bool-cases (nlh.nlmsg_type == rtm_newlink)) [
    | inr other ↦ rw other h
    | inl type ↦ rw type (new_link-Returns nlh got u nlh.body refl (is_newlink type) q h)
  ]
    where
      is_newlink : (nlh.nlmsg_type == rtm_newlink) ≡ true → nlh.nlmsg_type ≡ rtm_newlink
      is_newlink e = ground (arith, e)

  -- All messages of an answer.
  abbrev pub AllIn : List Recvmsg → Type 0
  AllIn [] = Unit {0}
  AllIn (nothing_yet ∷ rs) = AllIn rs
  AllIn (recv_error ∷ rs) = AllIn rs
  AllIn (datagram truncated namelen msgs ∷ rs) = AllMsgs Q msgs × AllIn rs

  pub getifdata_loop-Returns :
      (rs : List Recvmsg) (seq : ℕ) (got : Bool) (u : Boot)
      → AllIn rs
      → Inv got u
      → Returns (WalkInv Inv) (getifdata_loop attributes rs seq got u)
  unfolding getifdata_loop nl_recv_buf
  getifdata_loop-Returns [] seq got u qs h = h
  getifdata_loop-Returns (nothing_yet ∷ rs) seq got u qs h = h
  getifdata_loop-Returns (recv_error ∷ rs) seq got u qs h = (got, h)
  getifdata_loop-Returns (datagram true namelen msgs ∷ rs) seq got u qs h = (got, h)
  getifdata_loop-Returns (datagram false namelen msgs ∷ rs) seq got u (q, qs) h =
      elim (Bool-cases (namelen == 12)) [
        | inr other ↦ rw (Returns, other) (got, h)
        | inl fits ↦
            rw (Returns, fits)
              (Returns-onward (WalkInv Inv) (WalkInv Inv)
                (nl_foreach_nlmsg msgs seq 0 (do_handle_getifdata attributes) got u) _
                (nl_foreach_nlmsg-Returns Q Inv (do_handle_getifdata attributes)
                  do_handle_getifdata-Returns msgs seq 0 got u q h)
                (on (λ g v i. getifdata_loop-Returns rs seq g v qs i)))
      ]
    where
      on :
          ((g : Bool) (v : Boot)
            → Inv g v
            → Returns (WalkInv Inv) (getifdata_loop attributes rs seq g v))
          → (o : Option Bool) (v : Boot) → WalkInv Inv o v
          → Returns (WalkInv Inv) (
              elim o as (λ _. B (Option Bool)) [
                | none ↦ pure none
                | some g ↦ getifdata_loop attributes rs seq g
              ]
                v)
      on ih none v g = g
      on ih (some g) v i = ih g v i
