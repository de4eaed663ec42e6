-- ===== src/Options/Scan.antt =====
-- The loops of src/options.c that walk an option buffer. A body reads through `get_elem?` and
-- `read_range`, so an access outside the buffer is `none`. Each round moves the index on, so fuel
-- one above the buffer's size is enough.
use ndhc.Common.{
  ℕ, suc, ◌+◌, ◌-◌, Bytes, Bool, not, Option, none, some, [], ◌++◌, length, get_elem?, read_range,
  ltb, leb, ◌==◌, ◌&&◌, if◌then◌else◌, ◌>>=◌, bit_and, bit_or, Round, next, stop, loop,
}
use ndhc.Options.Packet.{Dhcpmsg, options_size, file_size, sname_size}
use ndhc.Options.Dcode

-- One round of `do_overload_value`, in (i, overload). Its `blen - 2` is signed; the sizes passed
-- are 64 and more.
unfoldable pub overload_round : Bytes → ℕ → ℕ × ℕ → Option (Round (ℕ × ℕ) ℕ)
overload_round buf blen (i, overload) = if not (ltb i blen) then some (stop overload) else (do
  c ← get_elem? buf i
  if c == Dcode.padding
      then some (next (i + 1, overload))
      else if c == Dcode.end
      then some (stop overload)
      else if leb (blen - 2) i
      then some (stop overload)
      else (do
        n ← get_elem? buf (i + 1)
        if c == Dcode.overload && n == 1
            then (do v ← get_elem? buf (i + 2); some (next (i + 3, bit_or overload v)))
            else some (next (i + (n + 2), overload))))

unfoldable pub do_overload_value : Bytes → ℕ → ℕ → Option ℕ
unfolding overload_round
do_overload_value buf blen overload = loop (suc blen) (overload_round buf blen) (0, overload)

-- ol & 1, ol & 2
abbrev pub has_bit : ℕ → ℕ → Bool
has_bit ol bit = not (bit_and ol bit == 0)

unfoldable pub overload_value : Dhcpmsg → Option ℕ
unfolding do_overload_value
overload_value packet = do
  ol ← do_overload_value packet.options options_size 0
  if has_bit ol 1 && has_bit ol 2
      then some ol
      else if has_bit ol 1
      then (do o ← do_overload_value packet.file file_size ol; some (bit_or ol o))
      else if has_bit ol 2
      then (do o ← do_overload_value packet.sname sname_size ol; some (bit_or ol o))
      else some ol

-- One round of `do_get_dhcp_opt`, in (i, what dbuf holds up to didx).
unfoldable pub get_round : Bytes → ℕ → ℕ → ℕ → ℕ × Bytes → Option (Round (ℕ × Bytes) Bytes)
get_round sbuf slen opt_code dlen (i, dbuf) = if not (ltb i slen) then some (stop dbuf) else (do
  c ← get_elem? sbuf i
  if c == Dcode.padding
      then some (next (i + 1, dbuf))
      else if c == Dcode.end
      then some (stop dbuf)
      else if leb (slen - 2) i
      then some (stop dbuf)
      else (do
        soptsiz ← get_elem? sbuf (i + 1)
        if not (c == opt_code)
            then some (next (i + (soptsiz + 2), dbuf))
            else if ltb dlen (soptsiz + length dbuf)
            then some (stop dbuf)
            else if ltb slen (soptsiz + i + 2)
            then some (stop dbuf)
            else (do
              v ← read_range (i + 2) soptsiz sbuf
              some (next (i + (soptsiz + 2), dbuf ++ v)))))

unfoldable pub do_get_dhcp_opt : Bytes → ℕ → ℕ → ℕ → Bytes → Option Bytes
unfolding get_round
do_get_dhcp_opt sbuf slen opt_code dlen dbuf =
    loop (suc slen) (get_round sbuf slen opt_code dlen) (0, dbuf)

-- The octets that `get_dhcp_opt` leaves in its buffer; their number is what it returns.
unfoldable pub get_dhcp_opt : Dhcpmsg → ℕ → ℕ → Option Bytes
unfolding overload_value do_get_dhcp_opt
get_dhcp_opt packet opt_code dlen = do
  ol ← overload_value packet
  d0 ← do_get_dhcp_opt packet.options options_size opt_code dlen []
  d1 ← (if has_bit ol 1 then do_get_dhcp_opt packet.file file_size opt_code dlen d0 else some d0)
  if has_bit ol 2 then do_get_dhcp_opt packet.sname sname_size opt_code dlen d1 else some d1

-- One round of `get_end_option_idx`; the inner `none` stands for -1.
unfoldable pub end_round : Bytes → ℕ → ℕ → Option (Round ℕ (Option ℕ))
end_round options size i = if not (ltb i size) then some (stop none) else (do
  c ← get_elem? options i
  if c == Dcode.end
      then some (stop (some i))
      else if c == Dcode.padding
      then some (next (i + 1))
      else if leb size (i + 1)
      then some (stop none)
      else (do n ← get_elem? options (i + 1); some (next (i + (n + 1) + 1))))

unfoldable pub get_end_option_idx : Dhcpmsg → Option (Option ℕ)
unfolding end_round
get_end_option_idx packet = loop (suc options_size) (end_round packet.options options_size) 0
