-- ===== src/Options/Safety.antt =====
-- The walks over an option buffer are safe on every buffer: whatever octets a peer sent, they read
-- inside the buffer, they end, and what they copy fits.
use ndhc.Common.{
  ℕ, suc, ◌+◌, ◌-◌, ◌≤◌, ◌<◌, ◌≡◌, Bytes, Option, some, [], length, get_elem?, get_elem?-lt,
  read_range, read_range-length, length-append, arith, loop, Keeps, loop_total, Returns,
  some_of_Returns, value_or,
}
use ndhc.Options.Packet.{Dhcpmsg, HasSizes, options_size, file_size, sname_size}
use ndhc.Options.Scan.{
  overload_round, do_overload_value, overload_value, get_round, do_get_dhcp_opt, get_dhcp_opt,
  end_round, get_end_option_idx,
}

module _ (buf : Bytes) (size : ℕ) (fits : length buf ≡ size) (h : 2 ≤ size) where
  overload_round-Keeps :
      (s : ℕ × ℕ)
      → Keeps
          (λ _. Unit {0})
          (λ _. Unit {0})
          (λ (t : ℕ × ℕ). size - t.0)
          s
          (overload_round buf size s)
  unfolding overload_round
  overload_round-Keeps (i, overload) =
      ground (arith, get_elem?-lt buf i, get_elem?-lt buf (i + 1), get_elem?-lt buf (i + 2))

  get_round-Keeps :
      (c dlen : ℕ) (s : ℕ × Bytes)
      → length s.1 ≤ dlen
      → Keeps
          (λ (t : ℕ × Bytes). length t.1 ≤ dlen)
          (λ r. length r ≤ dlen)
          (λ (t : ℕ × Bytes). size - t.0)
          s
          (get_round buf size c dlen s)
  unfolding get_round
  get_round-Keeps c dlen (i, dbuf) b =
      let n = value_or (get_elem? buf (i + 1)) 0 in
      ground (
        arith,
        get_elem?-lt buf i,
        get_elem?-lt buf (i + 1),
        read_range-length buf (i + 2) n,
        length-append dbuf (value_or (read_range (i + 2) n buf) []),
      )

  end_round-Keeps :
      (i : ℕ)
      → Keeps
          (λ _. Unit {0})
          (λ r. (n : ℕ) → r ≡ some n → n < size)
          (λ t. size - t)
          i
          (end_round buf size i)
  unfolding end_round
  end_round-Keeps i = ground (arith, get_elem?-lt buf i, get_elem?-lt buf (i + 1))

  do_overload_value_total :
      (overload : ℕ) → (r : ℕ) × (do_overload_value buf size overload ≡ some r)
  unfolding do_overload_value
  do_overload_value_total overload =
      let (r, e, _) =
        loop_total (λ _. Unit {0}) (λ _. Unit {0}) (λ (t : ℕ × ℕ). size - t.0)
          (overload_round buf size) (λ s _. overload_round-Keeps s) (suc size) (0, overload)
          (omega arith) tt in
      (r, e)

  do_get_dhcp_opt_total :
      (c dlen : ℕ) (dbuf : Bytes)
      → length dbuf ≤ dlen
      → (r : Bytes) × (do_get_dhcp_opt buf size c dlen dbuf ≡ some r) × (length r ≤ dlen)
  unfolding do_get_dhcp_opt
  do_get_dhcp_opt_total c dlen dbuf b =
      loop_total (λ (t : ℕ × Bytes). length t.1 ≤ dlen) (λ r. length r ≤ dlen)
        (λ (t : ℕ × Bytes). size - t.0) (get_round buf size c dlen)
        (λ s p. get_round-Keeps c dlen s p) (suc size) (0, dbuf) (omega arith) b

  end_total :
      (r : Option ℕ) × (loop (suc size) (end_round buf size) 0 ≡ some r)
      × ((n : ℕ) → r ≡ some n → n < size)
  end_total =
      loop_total (λ _. Unit {0}) (λ r. (n : ℕ) → r ≡ some n → n < size) (λ t. size - t)
        (end_round buf size) (λ i _. end_round-Keeps i) (suc size) 0 (omega arith) tt

-- For every packet, whatever its options hold, the search for the end option ends without reading
-- outside `options[]`, and an index that it returns lies in `options[]`.
pub get_end_option_idx_safe :
    (packet : Dhcpmsg)
    → HasSizes packet
    → (r : Option ℕ) × (get_end_option_idx packet ≡ some r)
      × ((n : ℕ) → r ≡ some n → n < options_size)
unfolding get_end_option_idx
get_end_option_idx_safe packet sizes =
    end_total packet.options options_size sizes.options_length (omega arith)

overload_value-Returns :
    (packet : Dhcpmsg) → HasSizes packet → Returns (λ _. Unit {0}) (overload_value packet)
unfolding overload_value
overload_value-Returns packet sizes =
    let (ol, e) =
      do_overload_value_total packet.options options_size sizes.options_length (omega arith) 0 in
    let (f, ef) =
      do_overload_value_total packet.file file_size sizes.file_length (omega arith) ol in
    let (s, es) =
      do_overload_value_total packet.sname sname_size sizes.sname_length (omega arith) ol in
    ground arith

-- For every packet, whatever octets its option fields hold, the search for an option ends without
-- reading outside the fields, and what it copies fits the buffer of the caller.
pub get_dhcp_opt_safe :
    (packet : Dhcpmsg) (opt_code dlen : ℕ)
    → HasSizes packet
    → (out : Bytes) × (get_dhcp_opt packet opt_code dlen ≡ some out) × (length out ≤ dlen)
get_dhcp_opt_safe packet opt_code dlen sizes =
    some_of_Returns (λ out. length out ≤ dlen) (get_dhcp_opt packet opt_code dlen) returns
  where
    returns : Returns (λ out. length out ≤ dlen) (get_dhcp_opt packet opt_code dlen)
    returns =
        let (ol, eo, _) = some_of_Returns (λ _. Unit {0}) _ (overload_value-Returns packet sizes) in
        let (d0, e0, b0) =
          do_get_dhcp_opt_total packet.options options_size sizes.options_length (omega arith)
            opt_code dlen [] (omega arith) in
        let (d1, e1, b1) =
          do_get_dhcp_opt_total packet.file file_size sizes.file_length (omega arith) opt_code dlen
            d0 b0 in
        let sname =
          do_get_dhcp_opt_total packet.sname sname_size sizes.sname_length (omega arith) opt_code
            dlen in
        let (d2, e2, b2) = sname d1 b1 in
        let (d3, e3, b3) = sname d0 b0 in unfold get_dhcp_opt in ground arith
