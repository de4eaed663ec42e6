-- ===== src/Options/RoundTrip.antt =====
-- An option that src/options.c writes reads back, and the other options read as before.
use ndhc.Common.{
  ℕ, ◌+◌, ◌≤◌, ◌<◌, ◌≡◌, ◌≢◌, ◌∙◌, refl, Bytes, Option, some, List, [], ◌∷◌, ◌++◌, length,
  length-append, append_assoc, append-nil, arith, ◌==◌, if◌then◌else◌, ◌>>=◌, be32,
}
use ndhc.Options.Append.{add_option_string, add_u32_option}
use ndhc.Options.Dcode
use ndhc.Options.Items.{Item, pad, opt, encode, Holds, overload_of, overloads, values}
use ndhc.Options.Lookup.{get_dhcp_opt-values, Holds-room}
use ndhc.Options.Packet.{Dhcpmsg, options_size, max_dopt_size}
use ndhc.Options.Scan.{get_dhcp_opt}
use ndhc.Options.Store.{Adds, add_option_string_lem, add_u32_option_lem}

pub values-append : (c : ℕ) (xs ys : List Item) → values c (xs ++ ys) ≡ values c xs ++ values c ys
values-append c [] ys = refl
values-append c (pad ∷ xs) ys = values-append c xs ys
values-append c (opt d v ∷ xs) ys =
    ground (arith, values-append c xs ys, append_assoc v (values c xs) (values c ys))

overloads-append :
    (ol : ℕ) (xs ys : List Item) → overloads ol (xs ++ ys) ≡ overloads (overloads ol xs) ys
overloads-append ol [] ys = refl
overloads-append ol (pad ∷ xs) ys = overloads-append ol xs ys
overloads-append ol (opt d v ∷ xs) ys = overloads-append (overload_of d v ol) xs ys

overload_of_other : (c : ℕ) (v : Bytes) (ol : ℕ) → c ≢ Dcode.overload → overload_of c v ol ≡ ol
overload_of_other c [] ol h = refl
overload_of_other c (v ∷ []) ol h = ground arith
overload_of_other c (v ∷ w ∷ r) ol h = refl

values-le : (c : ℕ) (xs : List Item) → length (values c xs) ≤ length (encode xs)
values-le c [] = omega arith
values-le c (pad ∷ xs) = omega (arith, values-le c xs)
values-le c (opt d v ∷ xs) =
    ground (arith, values-le c xs, length-append v (values c xs), length-append v (encode xs))

-- The packet holds options, and none of them is the overload option.
pub record IsPlain (packet : Dhcpmsg) (items : List Item) : Type 0 where
  pub holds : Holds options_size packet.options items
  pub no_overload : overloads 0 items ≡ 0

pub get-IsPlain :
    (packet : Dhcpmsg) (items : List Item) (c : ℕ)
    → IsPlain packet items
    → get_dhcp_opt packet c max_dopt_size ≡ some (values c items)
get-IsPlain packet items c p =
    get_dhcp_opt-values packet items c max_dopt_size p.holds p.no_overload
      (omega (arith, values-le c items, Holds-room options_size packet.options items p.holds))

-- After an option is added, each option reads as before, and the new one's value is behind those
-- that its code had.
get-Adds :
    (packet : Dhcpmsg) (items : List Item) (c : ℕ) (v : Bytes) (r : Option (Dhcpmsg × ℕ)) (d : ℕ)
    → IsPlain packet items
    → c ≢ Dcode.overload
    → Adds packet items c v r
    → (r >>= λ p. get_dhcp_opt p.0 d max_dopt_size)
      ≡ some (if c == d then values d items ++ v else values d items)
get-Adds packet items c v r d p other (o, e, h) = rw e (
    get-IsPlain (record packet { options = o }) (items ++ opt c v ∷ []) d
      (record {
        holds = h;
        no_overload =
            overloads-append 0 items (opt c v ∷ []) ∙ overload_of_other c v _ other ∙ p.no_overload;
      })
    ∙ ground
        (arith, values-append d items (opt c v ∷ []), append-nil v, append-nil (values d items)))

-- What `add_option_string` writes, `get_dhcp_opt` reads back behind the values that the code had;
-- every other option reads as before. The packet holds options without an overload, the code is
-- neither a pad, an end nor an overload, and the value has at most 255 octets and fits.
pub get-add_option_string :
    (packet : Dhcpmsg) (items : List Item) (c : ℕ) (v : Bytes) (d : ℕ)
    → IsPlain packet items
    → c ≢ Dcode.padding
    → c ≢ Dcode.end
    → c ≢ Dcode.overload
    → length v ≤ 255
    → length (encode items) + (2 + length v) < options_size
    → (add_option_string packet c v >>= λ r. get_dhcp_opt r.0 d max_dopt_size)
      ≡ some (if c == d then values d items ++ v else values d items)
get-add_option_string packet items c v d p not_pad not_end other short room =
    get-Adds packet items c v (add_option_string packet c v) d p other
      (add_option_string_lem packet items p.holds c v (not_pad, not_end) short room)

-- What `add_u32_option` writes, in network byte order, `get_dhcp_opt` reads back behind the values
-- that the code had; every other option reads as before. The packet holds options without an
-- overload, the code is neither a pad, an end nor an overload, and the option fits.
pub get-add_u32_option :
    (packet : Dhcpmsg) (items : List Item) (c v d : ℕ)
    → IsPlain packet items
    → c ≢ Dcode.padding
    → c ≢ Dcode.end
    → c ≢ Dcode.overload
    → length (encode items) + 6 < options_size
    → (add_u32_option packet c v >>= λ r. get_dhcp_opt r.0 d max_dopt_size)
      ≡ some (if c == d then values d items ++ be32 v else values d items)
get-add_u32_option packet items c v d p not_pad not_end other room =
    get-Adds packet items c (be32 v) (add_u32_option packet c v) d p other
      (add_u32_option_lem packet items p.holds c v (not_pad, not_end) room)
