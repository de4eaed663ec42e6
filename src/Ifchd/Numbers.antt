-- ===== src/Ifchd/Numbers.antt =====
-- What src/ifset.c uses of the C library to read numbers: `inet_pton` and `strtol`; and its own
-- `trailz`.
use ndhc.Common.{
  ℕ, ◌+◌, ◌-◌, ◌*◌, ◌%◌, ◌^◌, Bytes, Bool, ◌&&◌, ◌||◌, Option, none, some, List, [], ◌∷◌, ◌==◌, ltb,
  leb, get_elem?, value_or, if◌then◌else◌, bit_and,
}
use ndhc.Common.Automata.{run}

abbrev pub is_digit : ℕ → Bool
is_digit c = leb b'0' c && leb c b'9'

-- The dots that were read, the digits of the present number, its value, and the numbers before it.
pub record Quad : Type 0 where
  pub dots : ℕ
  pub digits : ℕ
  pub value : ℕ
  pub before : ℕ

abbrev pub quad_start : Quad
quad_start = record { dots = 0; digits = 0; value = 0; before = 0 }

-- A number has no leading zero and is at most 255.
abbrev pub quad_step : Quad → ℕ → Option Quad
quad_step q c =
    if is_digit c
    then (if (ltb 0 q.digits && q.value == 0) || ltb 255 (q.value * 10 + (c - b'0'))
        then none
        else some (record q { digits = q.digits + 1; value = q.value * 10 + (c - b'0') }))
    else if c == b'.' && (ltb 0 q.digits && ltb q.dots 3)
    then some
        (record { dots = q.dots + 1; digits = 0; value = 0; before = q.before * 256 + q.value })
    else none

-- Four numbers, the last of them complete.
abbrev pub quad_address : Option Quad → Option ℕ
quad_address none = none
quad_address (some q) =
    if q.dots == 3 && ltb 0 q.digits then some (q.before * 256 + q.value) else none

-- `inet_pton` of AF_INET: the address, or a result of 0.
unfoldable pub inet_pton : Bytes → Option ℕ
unfolding run
inet_pton str = quad_address (run quad_step quad_start str)

-- The digits at the front, in base 10: `none` where there is none.
digits_value : Option ℕ → Bytes → Option ℕ
digits_value acc [] = acc
digits_value acc (c ∷ cs) =
    let more = digits_value (some (value_or acc 0 * 10 + (c - b'0'))) cs in
    if is_digit c then more else acc

-- Space, and the controls from tab to carriage return.
abbrev is_space : ℕ → Bool
is_space c = c == b' ' || (leb 9 c && leb c 13)

skip_space : Bytes → Bytes
skip_space [] = []
skip_space (c ∷ cs) = let rest = skip_space cs in if is_space c then rest else c ∷ cs

-- `strtol` in base 10, where the number does not leave the type `long`: whether there is a minus
-- sign, and the digits; `none` where there is no number.
unfoldable pub strtol : Bytes → Option (Bool × ℕ)
unfolding digits_value skip_space
strtol str = elim (skip_space str) [
  | [] ↦ none
  | c ∷ cs ↦
      let digits = (if c == b'-' || c == b'+' then cs else c ∷ cs) in
      elim (digits_value none digits) [ none ↦ none | some n ↦ some (c == b'-', n) ]
]

-- The table of `trailz`.
abbrev pub bpm37 : List ℕ
bpm37 =
    32 ∷ 0 ∷ 1 ∷ 26 ∷ 2 ∷ 23 ∷ 27 ∷ 0 ∷ 3 ∷ 16 ∷ 24 ∷ 30 ∷ 28 ∷ 11 ∷ 0 ∷ 13 ∷ 4 ∷ 7 ∷ 17 ∷ 0 ∷ 25
    ∷ 22 ∷ 31 ∷ 15 ∷ 29 ∷ 10 ∷ 12 ∷ 6 ∷ 0 ∷ 21 ∷ 14 ∷ 9 ∷ 5 ∷ 20 ∷ 8 ∷ 19 ∷ 18 ∷ []

-- `-v` of a 32-bit number wraps around.
unfoldable pub trailz : ℕ → Option ℕ
trailz v = get_elem? bpm37 (bit_and ((2 ^ 32 - v) % 2 ^ 32) v % 37)

-- The argument's number, which the source holds in network order.
unfoldable pub subnet4_to_prefixlen : ℕ → Option ℕ
subnet4_to_prefixlen sn = elim (trailz sn) [ none ↦ none | some z ↦ some (32 - z) ]
