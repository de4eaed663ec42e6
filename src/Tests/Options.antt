-- ===== src/Tests/Options.antt =====
-- The theorems on src/options.c at concrete packets.
use ndhc.Common.{ℕ, ◌≤◌, ◌<◌, ◌≡◌, refl, Bytes, Option, some, [], ◌∷◌, length, arith, ◌>>=◌}
use ndhc.Options.Append.{add_option_string}
use ndhc.Options.Dcode
use ndhc.Options.Items.{lookup_items}
use ndhc.Options.Lookup.{get_dhcp_opt_lem, HoldsFields}
use ndhc.Options.Packet.{options_size, max_dopt_size}
use ndhc.Options.RoundTrip.{get-add_option_string}
use ndhc.Options.Safety.{get_end_option_idx_safe, get_dhcp_opt_safe}
use ndhc.Options.Scan.{get_end_option_idx, get_dhcp_opt}
use ndhc.Tests.Data.{
  offer, offer_items, offer-Holds, offer-HasSizes, overloaded, long_items, file_items, sname_items,
  long-Holds, file-Holds, sname-Holds,
}

overloaded-HoldsFields : HoldsFields overloaded long_items file_items sname_items
overloaded-HoldsFields = record {
  in_options = long-Holds;
  in_file = λ _. file-Holds;
  in_sname = λ _. sname-Holds;
}

get_dhcp_opt_example :
    get_dhcp_opt overloaded Dcode.dns 500
    ≡ some (lookup_items Dcode.dns 500 long_items file_items sname_items)
get_dhcp_opt_example =
    get_dhcp_opt_lem overloaded long_items file_items sname_items Dcode.dns 500
      overloaded-HoldsFields

get_dhcp_opt_safe_example :
    (out : Bytes) × (get_dhcp_opt offer Dcode.router 4 ≡ some out) × (length out ≤ 4)
get_dhcp_opt_safe_example = get_dhcp_opt_safe offer Dcode.router 4 offer-HasSizes

get_end_option_idx_safe_example :
    (r : Option ℕ) × (get_end_option_idx offer ≡ some r) × ((n : ℕ) → r ≡ some n → n < options_size)
get_end_option_idx_safe_example = get_end_option_idx_safe offer offer-HasSizes

get-add_option_string_example :
    (add_option_string offer Dcode.hostname (b'h' ∷ []) >>= λ r.
    get_dhcp_opt r.0 Dcode.leaset max_dopt_size)
    ≡ some (0 ∷ 0 ∷ 14 ∷ 16 ∷ [])
get-add_option_string_example =
    get-add_option_string offer offer_items Dcode.hostname (b'h' ∷ []) Dcode.leaset
      (record { holds = offer-Holds; no_overload = refl }) (omega arith) (omega arith) (omega arith)
      (omega arith) (omega arith)
