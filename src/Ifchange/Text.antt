-- ===== src/Ifchange/Text.antt =====
-- What src/ifchange.c uses of the C library's printing: `%s`, `%hu`, `%d`, and `inet_ntop`.
use ndhc.Common.{
  ℕ, zero, suc, ◌+◌, ◌-◌, ◌/◌, ◌%◌, ◌^◌, Bytes, [], ◌∷◌, ◌++◌, ltb, ◌==◌, if◌then◌else◌,
}

-- A string ends before its first NUL.
unfoldable pub until_nul : Bytes → Bytes
until_nul [] = []
until_nul (c ∷ cs) = if c == 0 then [] else c ∷ until_nul cs

-- The digits of a number below 10 ^ fuel.
unfoldable pub digits : ℕ → ℕ → Bytes
digits zero n = []
digits (suc fuel) n =
    let more = digits fuel (n / 10) in (if ltb n 10 then [] else more) ++ ((b'0' + n % 10) ∷ [])

-- `%u` of a 32-bit number, which has at most ten digits.
unfoldable pub show_u32 : ℕ → Bytes
unfolding digits
show_u32 n = digits 10 n

-- `%d` of the `int` with these 32 bits.
unfoldable pub show_s32 : ℕ → Bytes
unfolding show_u32
show_s32 n = if ltb n (2 ^ 31) then show_u32 n else b'-' ∷ show_u32 (2 ^ 32 - n)

-- `inet_ntop` of an IPv4 address.
unfoldable pub inet_ntop : ℕ → Bytes
unfolding show_u32
inet_ntop ip =
    show_u32 (ip / 2 ^ 24 % 256)
    ++ (b'.'
        ∷ (show_u32 (ip / 2 ^ 16 % 256)
            ++ (b'.' ∷ (show_u32 (ip / 2 ^ 8 % 256) ++ (b'.' ∷ show_u32 (ip % 256))))))
