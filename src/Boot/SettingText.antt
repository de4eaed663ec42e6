-- ===== src/Boot/SettingText.antt =====
-- What `get_clientid_string` of src/ndhc.c makes of a text.
use ndhc.Common.{
  take_bounds, ℕ, suc, ◌+◌, ◌*◌, ◌/◌, ◌%◌, ◌≤◌, ◌<◌, Bytes, true, false, [], ◌∷◌, ◌++◌, ◌≡◌, ◌≢◌,
  refl, ap, ◌∙◌, ◌==◌, length, take, drop, write_all-front, length-front, take-all, AreOctets,
  arith,
}
use ndhc.Common.Process.{returned}
use ndhc.Boot.Identifiers.{hex_digit, hex_octets}
use ndhc.Boot.Setting.{
  isxdigit, hex_value, strtol_16, is_string_hwaddr, as_text, as_hwaddr, get_clientid_string,
}
use ndhc.Boot.World.{Boot}

isxdigit-hex_digit : (n : ℕ) → n < 16 → isxdigit (hex_digit n) ≡ true
isxdigit-hex_digit n h = ground (arith, h)

hex_value-hex_digit : (n : ℕ) → n < 16 → hex_value (hex_digit n) ≡ n
hex_value-hex_digit n h = ground (arith, h)

-- The number of an octet in two digits goes on behind them.
strtol_16-octet :
    (c : ℕ) (rest : Bytes)
    → c < 256
    → strtol_16 0 (hex_digit (c / 16) ∷ hex_digit (c % 16) ∷ rest) ≡ strtol_16 c rest
unfolding strtol_16
strtol_16-octet c rest h =
    let value : (0 * 16 + c / 16) * 16 + c % 16 ≡ c = omega arith in
    rw
      (
        isxdigit-hex_digit (c / 16) (omega arith),
        isxdigit-hex_digit (c % 16) (omega arith),
        hex_value-hex_digit (c / 16) (omega arith),
        hex_value-hex_digit (c % 16) (omega arith),
        value,
      )
      refl

is_string_hwaddr-hex_octets :
    (a b c d e f : ℕ)
    → AreOctets (a ∷ b ∷ c ∷ d ∷ e ∷ f ∷ [])
    → is_string_hwaddr (hex_octets (a ∷ b ∷ c ∷ d ∷ e ∷ f ∷ [])) ≡ true
unfolding is_string_hwaddr hex_octets
is_string_hwaddr-hex_octets a b c d e f (ha, (hb, (hc, (hd, (he, (hf, _)))))) =
    rw
      (
        high a ha,
        low a,
        high b hb,
        low b,
        high c hc,
        low c,
        high d hd,
        low d,
        high e he,
        low e,
        high f hf,
        low f,
      )
      refl
  where
    high : (n : ℕ) → n < 256 → isxdigit (hex_digit (n / 16)) ≡ true
    high n h = isxdigit-hex_digit (n / 16) (omega arith)

    low : (n : ℕ) → isxdigit (hex_digit (n % 16)) ≡ true
    low n = isxdigit-hex_digit (n % 16) (omega arith)

octet-colon :
    (c : ℕ) (rest : Bytes)
    → c < 256
    → strtol_16 0 (hex_digit (c / 16) ∷ hex_digit (c % 16) ∷ b':' ∷ rest) % 256 ≡ c
unfolding strtol_16
octet-colon c rest h = ap (λ n. n % 256) (strtol_16-octet c (b':' ∷ rest) h) ∙ omega (arith, h)

octet-end : (c : ℕ) → c < 256 → strtol_16 0 (hex_digit (c / 16) ∷ hex_digit (c % 16) ∷ []) % 256 ≡ c
unfolding strtol_16
octet-end c h = ap (λ n. n % 256) (strtol_16-octet c [] h) ∙ omega (arith, h)

-- The text of a hardware address, as `%2.2x` writes its six octets with colons between, is taken for
-- the address: the type 1 and the six octets become the identifier, of seven octets, and the rest of
-- the array stays.
pub get_clientid_string-hex_octets :
    (a b c d e f : ℕ) (w : Boot)
    → AreOctets (a ∷ b ∷ c ∷ d ∷ e ∷ f ∷ [])
    → length w.clientid ≡ 64
    → let mac = a ∷ b ∷ c ∷ d ∷ e ∷ f ∷ [] in
      get_clientid_string (hex_octets mac) w
      ≡ returned as_hwaddr
          (record w { clientid = (1 ∷ mac) ++ drop 7 w.clientid; clientid_len = 7 })
unfolding get_clientid_string hex_octets
get_clientid_string-hex_octets a b c d e f w octets size =
    let (ha, (hb, (hc, (hd, (he, (hf, _)))))) = octets in
    rw
      (
        is_string_hwaddr-hex_octets a b c d e f octets,
        octet-colon a _ ha,
        octet-colon b _ hb,
        octet-colon c _ hc,
        octet-colon d _ hd,
        octet-colon e _ he,
        octet-end f hf,
        write_all-front w.clientid (1 ∷ a ∷ b ∷ c ∷ d ∷ e ∷ f ∷ []) (omega (arith, size)),
      )
      refl

-- Another text of at most 63 octets: a NUL and the text become the identifier.
pub get_clientid_string-text :
    (str : Bytes) (w : Boot)
    → str ≢ []
    → length str ≤ 63
    → is_string_hwaddr str ≡ false
    → length w.clientid ≡ 64
    → get_clientid_string str w
      ≡ returned as_text (record w {
        clientid = (0 ∷ str) ++ drop (suc (length str)) w.clientid;
        clientid_len = suc (length str);
      })
unfolding get_clientid_string
get_clientid_string-text [] w some_str fits other size = absurd (some_str refl)
get_clientid_string-text (c ∷ cs) w some_str fits other size =
    let len : (length (c ∷ cs) + 1) % 256 ≡ suc (length (c ∷ cs)) = omega arith in
    let nonzero : (length (c ∷ cs) == 0) ≡ false = ground arith in
    rw
      (
        nonzero,
        other,
        take-all 63 (c ∷ cs) fits,
        write_all-front w.clientid (0 ∷ c ∷ cs) (omega (arith, size, fits)),
        len,
      )
      refl

taken :
    (str : Bytes) (w : Boot) → length w.clientid ≡ 64 → length (0 ∷ take 63 str) ≤ length w.clientid
taken str w size = omega (arith, size, (take_bounds 63 str).0)

-- A longer one, of 64 to 254 octets: the length of the identifier is greater than the array.
pub get_clientid_string-long :
    (str : Bytes) (w : Boot)
    → 64 ≤ length str
    → length str ≤ 254
    → length w.clientid ≡ 64
    → (v : Boot) × (get_clientid_string str w ≡ returned as_text v)
      × (length v.clientid < v.clientid_len)
unfolding get_clientid_string is_string_hwaddr
get_clientid_string-long str w long fits size =
    let other : (length str == 17) ≡ false = ground (arith, long) in
    let some_str : (length str == 0) ≡ false = ground (arith, long) in
    let len : (length str + 1) % 256 ≡ length str + 1 = omega (arith, fits) in
    rw (some_str, other, write_all-front w.clientid (0 ∷ take 63 str) (taken str w size), len)
      (
        _,
        refl,
        omega (arith, long, size, length-front w.clientid (0 ∷ take 63 str) (taken str w size)),
      )
