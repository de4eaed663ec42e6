-- ===== src/Options/Lookup.antt =====
-- What the readers of src/options.c return for a packet whose option fields hold lists of options.
use ndhc.Common.{
  ℕ, suc, ◌≤◌, ◌<◌, ◌≡◌, ◌∙◌, ◌⊎◌, inl, inr, refl, ap, Bytes, some, true, false, List, [], ◌∷◌,
  length, length-append, arith, Bool-cases,
}
use ndhc.Options.Dcode
use ndhc.Options.Decode.{At, end_loop, overload_loop, get_loop}
use ndhc.Options.Items.{
  Item, encode, Holds, overloads, collect, values, collect-values, overload_items, lookup_items,
}
use ndhc.Options.Packet.{Dhcpmsg, options_size, file_size, sname_size}
use ndhc.Options.Scan.{
  has_bit, do_overload_value, overload_value, do_get_dhcp_opt, get_dhcp_opt, get_end_option_idx,
}

module _ (size : ℕ) (buf : Bytes) (items : List Item) (h : Holds size buf items) where
  front : At buf h.rest size h.fits items [] 0
  front = record { valid = h.valid; layout = h.layout; index = refl }

  -- Fuel for as many rounds as the field has octets is enough.
  pub Holds-room : length (encode items) < size
  Holds-room =
      omega (arith, ap length h.layout, h.fits, length-append (encode items) (Dcode.end ∷ h.rest))

  do_overload_value_lem : (ol : ℕ) → do_overload_value buf size ol ≡ some (overloads ol items)
  unfolding do_overload_value
  do_overload_value_lem ol =
      overload_loop buf h.rest size h.fits items [] 0 ol (suc size) front
        (omega (arith, Holds-room))

  do_get_dhcp_opt_lem :
      (c dlen : ℕ) (dbuf : Bytes)
      → do_get_dhcp_opt buf size c dlen dbuf ≡ some (collect c dlen dbuf items)
  unfolding do_get_dhcp_opt
  do_get_dhcp_opt_lem c dlen dbuf =
      get_loop buf h.rest size h.fits c dlen items [] 0 dbuf (suc size) front
        (omega (arith, Holds-room))

-- In a packet whose `options[]` holds a list of options, the end index is the length of their
-- encoding.
pub get_end_option_idx_lem :
    (packet : Dhcpmsg) (items : List Item)
    → Holds options_size packet.options items
    → get_end_option_idx packet ≡ some (some (length (encode items)))
unfolding get_end_option_idx
get_end_option_idx_lem packet items h =
    end_loop packet.options h.rest options_size h.fits items [] 0 (suc options_size)
      (front options_size packet.options items h)
      (omega (arith, Holds-room options_size packet.options items h))
    ∙ ap (λ k. some (some k)) (omega arith)

-- The fields that the overload bits name hold lists of options.
pub record HoldsFields (p : Dhcpmsg) (o f s : List Item) : Type 0 where
  pub in_options : Holds options_size p.options o
  pub in_file :
      (has_bit (overloads 0 o) 1 ≡ true) ⊎ (has_bit (overload_items o f s) 1 ≡ true)
      → Holds file_size p.file f
  pub in_sname :
      (has_bit (overloads 0 o) 2 ≡ true) ⊎ (has_bit (overload_items o f s) 2 ≡ true)
      → Holds sname_size p.sname s

overload_value_lem :
    (packet : Dhcpmsg) (o f s : List Item)
    → HoldsFields packet o f s
    → overload_value packet ≡ some (overload_items o f s)
unfolding overload_value overload_items
overload_value_lem packet o f s h =
    let ol = overloads 0 o in
    rw (do_overload_value_lem options_size packet.options o h.in_options 0)
      (elim (Bool-cases (has_bit ol 1)) [
        | inl one ↦
            let file = do_overload_value_lem file_size packet.file f (h.in_file (inl one)) ol in
            ground arith
        | inr one ↦ elim (Bool-cases (has_bit ol 2)) [
          | inl two ↦
              let sname =
                do_overload_value_lem sname_size packet.sname s (h.in_sname (inl two)) ol in
              ground arith
          | inr two ↦ ground arith
        ]
      ])

-- In a packet whose option fields hold lists of options, an option reads as what RFC 2132 makes of the three fields: the values in
-- `options[]`, then those in `file[]` and in `sname[]` where the overload option names them, joined
-- as long as they fit the buffer.
pub get_dhcp_opt_lem :
    (packet : Dhcpmsg) (o f s : List Item) (c dlen : ℕ)
    → HoldsFields packet o f s
    → get_dhcp_opt packet c dlen ≡ some (lookup_items c dlen o f s)
unfolding get_dhcp_opt lookup_items
get_dhcp_opt_lem packet o f s c dlen h =
    let ol = overload_items o f s in
    let d0 = collect c dlen [] o in
    let d1 = collect c dlen d0 f in
    let file = λ (one : has_bit ol 1 ≡ true).
      do_get_dhcp_opt_lem file_size packet.file f (h.in_file (inr one)) c dlen in
    let sname = λ (two : has_bit ol 2 ≡ true).
      do_get_dhcp_opt_lem sname_size packet.sname s (h.in_sname (inr two)) c dlen in
    rw
      (
        overload_value_lem packet o f s h,
        do_get_dhcp_opt_lem options_size packet.options o h.in_options c dlen [],
      )
      (elim (Bool-cases (has_bit ol 1)) [
        | inl one ↦ elim (Bool-cases (has_bit ol 2)) [
          | inl two ↦ ground (arith, file one d0, sname two d1)
          | inr two ↦ ground (arith, file one d0)
        ]
        | inr one ↦ elim (Bool-cases (has_bit ol 2)) [
          | inl two ↦ ground (arith, sname two d0)
          | inr two ↦ ground arith
        ]
      ])

plain_overload : (items : List Item) → overloads 0 items ≡ 0 → overload_items items [] [] ≡ 0
unfolding overload_items
plain_overload items plain = rw plain

-- Without an overload option, and with room for the values, an option reads as its values joined.
pub get_dhcp_opt-values :
    (packet : Dhcpmsg) (items : List Item) (c dlen : ℕ)
    → Holds options_size packet.options items
    → overloads 0 items ≡ 0
    → length (values c items) ≤ dlen
    → get_dhcp_opt packet c dlen ≡ some (values c items)
get_dhcp_opt-values packet items c dlen h plain room =
    get_dhcp_opt_lem packet items [] [] c dlen (record {
      in_options = h;
      in_file = λ bit. absurd (no_bit 1 refl bit);
      in_sname = λ bit. absurd (no_bit 2 refl bit);
    })
    ∙ (unfold lookup_items in
        rw (plain_overload items plain)
          (ap some (collect-values c dlen [] items (omega (arith, room)))))
  where
    no_bit :
        (bit : ℕ)
        → has_bit 0 bit ≡ false
        → ¬ (
            (has_bit (overloads 0 items) bit ≡ true)
            ⊎ (has_bit (overload_items items [] []) bit ≡ true))
    no_bit bit z (inl e) = ground (arith, rw plain at e)
    no_bit bit z (inr e) = ground (arith, rw (plain_overload items plain) at e)
