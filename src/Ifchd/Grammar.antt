-- ===== src/Ifchd/Grammar.antt =====
-- The automata of src/ifchd-parse.rl: the keywords of the commands, and their arguments.
use ndhc.Common.{
  ℕ, ◌+◌, Bytes, Bool, true, false, ◌&&◌, ◌||◌, Option, none, some, List, [], ◌∷◌, ◌++◌, ◌==◌, ltb,
  leb, if◌then◌else◌,
}
use ndhc.Ifchd.Numbers.{is_digit}
use ndhc.Ifchd.World.{
  IfchState, state_nothing, state_ip4set, state_timezone, state_router, state_dns, state_lprsvr,
  state_hostname, state_domain, state_ipttl, state_mtu, state_ntpsvr, state_wins, state_carrier,
}

-- The kinds of arguments: lists of `least` to `most` addresses, if there is a bound; strings; a number
-- of octets; none.
pub data Kind : Type 0 where
  addresses : (least : ℕ) → (most : Option ℕ) → Kind
  str_arg : Kind
  extend : ℕ → Kind
  no_arg : Kind

unfoldable pub kind : IfchState → Kind
kind state_router = addresses 1 (some 1)
kind state_ip4set = addresses 2 (some 3)
kind state_dns = addresses 1 none
kind state_lprsvr = addresses 1 none
kind state_ntpsvr = addresses 1 none
kind state_wins = addresses 1 none
kind state_hostname = str_arg
kind state_domain = str_arg
kind state_timezone = extend 4
kind state_mtu = extend 2
kind state_ipttl = extend 1
kind state_carrier = no_arg
kind state_nothing = no_arg

-- The part of an argument that was read: addresses before the present one, its dots, and the digits
-- behind the last; or the number of octets.
pub data Arg : Type 0 where
  v4 : (addrs dots digits : ℕ) → Arg
  octets : ℕ → Arg

unfoldable pub arg_start : Kind → Arg
arg_start (addresses _ _) = v4 0 0 0
arg_start _ = octets 0

abbrev below : ℕ → Option ℕ → Bool
below n none = true
below n (some most) = ltb n most

-- One octet of an argument, where it may stand there.
unfoldable pub arg_step : Kind → Arg → ℕ → Option Arg
arg_step (addresses least most) (v4 addrs dots digits) c =
    if is_digit c
    then (if ltb digits 3 then some (v4 addrs dots (digits + 1)) else none)
    else if c == b'.'
    then (if ltb 0 digits && ltb dots 3 then some (v4 addrs (dots + 1) 0) else none)
    else if c == b',' && (ltb 0 digits && (dots == 3 && below (addrs + 1) most))
    then some (v4 (addrs + 1) 0 0)
    else none
arg_step str_arg (octets n) c = if c == b';' || c == 0 then none else some (octets (n + 1))
arg_step (extend size) (octets n) c = if ltb n size then some (octets (n + 1)) else none
arg_step _ _ c = none

-- The argument may end here.
unfoldable pub arg_done : Kind → Arg → Bool
arg_done (addresses least most) (v4 addrs dots digits) =
    leb least (addrs + 1) && (dots == 3 && ltb 0 digits)
arg_done str_arg (octets n) = ltb 0 n
arg_done (extend size) (octets n) = n == size
arg_done no_arg _ = true
arg_done _ _ = false

-- The keywords that the octets before allow: their octets that are left, with the colon.
abbrev pub Keywords : Type 0
Keywords = List (Bytes × IfchState)

abbrev pub keywords : Keywords
keywords =
    (b'r' ∷ b'o' ∷ b'u' ∷ b't' ∷ b'r' ∷ b':' ∷ [], state_router)
    ∷ (b'i' ∷ b'p' ∷ b'4' ∷ b':' ∷ [], state_ip4set)
    ∷ (b'd' ∷ b'n' ∷ b's' ∷ b':' ∷ [], state_dns)
    ∷ (b'l' ∷ b'p' ∷ b'r' ∷ b':' ∷ [], state_lprsvr)
    ∷ (b'n' ∷ b't' ∷ b'p' ∷ b':' ∷ [], state_ntpsvr)
    ∷ (b'w' ∷ b'i' ∷ b'n' ∷ b's' ∷ b':' ∷ [], state_wins)
    ∷ (b'h' ∷ b'o' ∷ b's' ∷ b't' ∷ b':' ∷ [], state_hostname)
    ∷ (b'd' ∷ b'o' ∷ b'm' ∷ b':' ∷ [], state_domain)
    ∷ (b't' ∷ b'z' ∷ b'o' ∷ b'n' ∷ b'e' ∷ b':' ∷ [], state_timezone)
    ∷ (b'm' ∷ b't' ∷ b'u' ∷ b':' ∷ [], state_mtu)
    ∷ (b'i' ∷ b'p' ∷ b't' ∷ b't' ∷ b'l' ∷ b':' ∷ [], state_ipttl)
    ∷ (b'c' ∷ b'a' ∷ b'r' ∷ b'r' ∷ b'i' ∷ b'e' ∷ b'r' ∷ b':' ∷ [], state_carrier)
    ∷ []

-- The keywords that go on with an octet.
unfoldable pub behind : ℕ → Keywords → Keywords
behind c [] = []
behind c (([], s) ∷ ks) = behind c ks
behind c ((d ∷ ds, s) ∷ ks) = let rest = behind c ks in if c == d then (ds, s) ∷ rest else rest

-- The states of `ifchd_parser` between two octets: inside a keyword, or behind it with the octets
-- from `arg_start` on.
pub data Parser : Type 0 where
  in_keyword : Keywords → Parser
  in_argument : IfchState → Arg → Bytes → Parser

-- What an octet does: another state, an end of a command (Dispatch), or an error.
pub data Move : Type 0 where
  go_on : Parser → Move
  dispatch : IfchState → Bytes → Move
  mismatch : Move

-- No keyword is a part of another.
unfoldable pub keyword_step : Keywords → ℕ → Move
unfolding behind
keyword_step ks c = elim (behind c ks) [
  | [] ↦ mismatch
  | ([], s) ∷ _ ↦ go_on (in_argument s (arg_start (kind s)) [])
  | (d ∷ ds, s) ∷ ls ↦ go_on (in_keyword ((d ∷ ds, s) ∷ ls))
]

-- A semicolon that may be the argument's next octet is one.
unfoldable pub argument_step : IfchState → Arg → Bytes → ℕ → Move
argument_step s a text c = elim (arg_step (kind s) a c) [
  | some b ↦ go_on (in_argument s b (text ++ (c ∷ [])))
  | none ↦ if c == b';' && arg_done (kind s) a then dispatch s text else mismatch
]

unfoldable pub parser_step : Parser → ℕ → Move
unfolding keyword_step argument_step
parser_step (in_keyword k) c = keyword_step k c
parser_step (in_argument s a text) c = argument_step s a text c
