-- ===== src/Boot/Setting.antt =====
-- `get_clientid_string` of src/ndhc.c, which takes the client's identifier from the configuration.
use ndhc.Common.{
  ℕ, ◌+◌, ◌-◌, ◌*◌, ◌%◌, Bytes, Bool, not, ◌&&◌, ◌||◌, [], ◌∷◌, leb, ◌==◌, length, take, drop,
  write_all, get_elem?, none, some, if◌then◌else◌,
}
use ndhc.Common.Process.{pure, ◌>>=◌, ◌>>◌, get, put, checked}
use ndhc.Boot.World.{B, clientid_size}

abbrev pub isxdigit : ℕ → Bool
isxdigit c =
    (leb b'0' c && leb c b'9') || ((leb b'a' c && leb c b'f') || (leb b'A' c && leb c b'F'))

abbrev pub hex_value : ℕ → ℕ
hex_value c =
    if leb c b'9' then c - b'0' else if leb c b'F' then (c - b'A') + 10 else (c - b'a') + 10

-- `strtol` in base 16 of a string that starts with a digit and not with 0x.
unfoldable pub strtol_16 : ℕ → Bytes → ℕ
strtol_16 acc [] = acc
strtol_16 acc (c ∷ cs) =
    let rest = strtol_16 (acc * 16 + hex_value c) cs in if isxdigit c then rest else acc

-- `str[i]`; the text ends with a NUL.
abbrev pub char_at : Bytes → ℕ → ℕ
char_at str i = elim (get_elem? str i) [ none ↦ 0 | some c ↦ c ]

unfoldable pub is_string_hwaddr : Bytes → Bool
is_string_hwaddr str =
    length str == 17
    && (char_at str 2 == b':'
        && (char_at str 5 == b':'
            && (char_at str 8 == b':'
                && (char_at str 11 == b':'
                    && (char_at str 14 == b':'
                        && (isxdigit (char_at str 0)
                            && (isxdigit (char_at str 1)
                                && (isxdigit (char_at str 3)
                                    && (isxdigit (char_at str 4)
                                        && (isxdigit (char_at str 6)
                                            && (isxdigit (char_at str 7)
                                                && (isxdigit (char_at str 9)
                                                    && (isxdigit (char_at str 10)
                                                        && (isxdigit (char_at str 12)
                                                            && (isxdigit (char_at str 13)
                                                            && (isxdigit (char_at str 15)
                                                            && isxdigit
                                                            (char_at str 16)))))))))))))))))

-- `mac[i]`, an octet
abbrev mac_octet : Bytes → ℕ → ℕ
mac_octet str i = strtol_16 0 (drop (i * 3) str) % 256

-- The results -1, 0 and 1.
pub data Given : Type 0 where
  no_text as_text as_hwaddr : Given

-- memcpy to the array, and its length, which has the type `uint8_t`.
abbrev pub set_clientid : Bytes → ℕ → B (Unit {0})
set_clientid octets len = do
  w ← get
  clientid ← checked (write_all w.clientid 0 octets)
  put (record w { clientid = clientid; clientid_len = len % 256 })

unfoldable pub get_clientid_string : Bytes → B Given
get_clientid_string str =
    if length str == 0
    then pure no_text
    else if not (is_string_hwaddr str)
    then (set_clientid (0 ∷ take (clientid_size - 1) str) (length str + 1) >> pure as_text)
    else (set_clientid
          (1
            ∷ mac_octet str 0
            ∷ mac_octet str 1
            ∷ mac_octet str 2
            ∷ mac_octet str 3
            ∷ mac_octet str 4
            ∷ mac_octet str 5
            ∷ [])
          7
        >> pure as_hwaddr)
