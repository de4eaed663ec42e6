-- ===== src/Ifchd/Gateway.antt =====
-- The router's address, from the option in src/ifchange.c to the route in src/ifset.c.
use ndhc.Common.{
  ℕ, ◌/◌, ◌%◌, ◌^◌, ◌≤◌, ◌<◌, Bytes, false, some, [], ◌∷◌, ◌++◌, ◌≡◌, refl, inl, inr, ltb, length,
  length-append, of_be, arith,
}
use ndhc.Ifchange.Command.{ifchd_cmd, ifcmd_ip}
use ndhc.Ifchange.Text.{inet_ntop, show_u32}
use ndhc.Ifchd.AddressTexts.{ifcmd_raw-text, until_nul-inet_ntop}
use ndhc.Ifchd.Links.{perform_router, rtnl_set_default_gw_v4, with_socket, or_fatal}
use ndhc.Ifchd.Refinement.{text_of}
use ndhc.Ifchd.Texts.{inet_pton-inet_ntop, show_u32-octet}
use ndhc.Ifchd.World.{state_router, fatal}
use ndhc.Options.Dcode

length-show_u32 : (n : ℕ) → n < 256 → 1 ≤ length (show_u32 n)
length-show_u32 n h = elim (show_u32-octet n h) [
  | inl (a, e) ↦ rw e (omega arith)
  | inr (inl (a, b, e)) ↦ rw e (omega arith)
  | inr (inr (a, e)) ↦ rw e (omega arith)
]

length-inet_ntop : (ip : ℕ) → 7 ≤ length (inet_ntop ip)
unfolding inet_ntop
length-inet_ntop ip =
    let a = show_u32 (ip / 2 ^ 24 % 256) in
    let b = show_u32 (ip / 2 ^ 16 % 256) in
    let c = show_u32 (ip / 2 ^ 8 % 256) in
    let d = show_u32 (ip % 256) in
    omega (
      arith,
      length-append a (b'.' ∷ (b ++ (b'.' ∷ (c ++ (b'.' ∷ d))))),
      length-append b (b'.' ∷ (c ++ (b'.' ∷ d))),
      length-append c (b'.' ∷ d),
      length-show_u32 (ip / 2 ^ 24 % 256) (omega arith),
      length-show_u32 (ip / 2 ^ 16 % 256) (omega arith),
      length-show_u32 (ip / 2 ^ 8 % 256) (omega arith),
      length-show_u32 (ip % 256) (omega arith),
    )

long_enough : (n : ℕ) → 7 ≤ n → ltb n 7 ≡ false
long_enough n h = ground (arith, h)

perform_router-inet_ntop :
    (ip : ℕ)
    → ip < 2 ^ 32
    → perform_router (inet_ntop ip) ≡ with_socket fatal (or_fatal (rtnl_set_default_gw_v4 ip))
unfolding perform_router
perform_router-inet_ntop ip h =
    rw (long_enough (length (inet_ntop ip)) (length-inet_ntop ip), inet_pton-inet_ntop ip h) refl

-- For the four octets of the router option, whatever follows them: the master's command for it is the
-- text of one command of ndhc-ifch, and performing that command sets the default route to just
-- this address, over a socket of its own; each failure of it is fatal.
pub ifchd_cmd-router :
    (bl a b c d : ℕ) (od out : Bytes)
    → a < 256
    → b < 256
    → c < 256
    → d < 256
    → ifchd_cmd bl (a ∷ b ∷ c ∷ d ∷ od) Dcode.router ≡ some out
    → (text : Bytes) × (out ≡ text_of ((state_router, text) ∷ []))
      × (perform_router text
          ≡ with_socket fatal (or_fatal (rtnl_set_default_gw_v4 (of_be 0 (a ∷ b ∷ c ∷ d ∷ [])))))
unfolding ifchd_cmd ifcmd_ip
ifchd_cmd-router bl a b c d od out ha hb hc hd e =
    let ip = of_be 0 (a ∷ b ∷ c ∷ d ∷ []) in
    let (o, _) =
      ifcmd_raw-text bl (b'r' ∷ b'o' ∷ b'u' ∷ b't' ∷ b'r' ∷ []) (inet_ntop ip) out e
        (until_nul-inet_ntop ip) in
    (inet_ntop ip, o, perform_router-inet_ntop ip (omega arith))
