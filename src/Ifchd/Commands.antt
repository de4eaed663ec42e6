-- ===== src/Ifchd/Commands.antt =====
-- The commands of src/ifchange.c as arguments in the automata of src/ifchd-parse.rl.
use ndhc.Common.{
  false, ap, ◌*◌, ◌+◌, length-append, ℕ, ◌≤◌, ◌<◌, Bytes, Option, none, some, [], ◌∷◌, ◌++◌, ◌≡◌,
  ◌∙◌, ◌⊎◌, inl, inr, ◌==◌, length, arith, if◌then◌else◌, of_be,
}
use ndhc.Common.Automata.{run, run-append}
use ndhc.Ifchange.Command.{ifchd_cmd, ifcmd_raw, ifcmd_ip, iplist_rest, ifcmd_iplist}
use ndhc.Options.Dcode
use ndhc.Ifchange.Text.{inet_ntop}
use ndhc.Ifchd.Grammar.{addresses, kind, Arg, v4, arg_start, arg_step}
use ndhc.Ifchd.Refinement.{keyword, IsArg, text_of, perform_all, execute_buffer-perform_all}
use ndhc.Ifchd.Texts.{v4-inet_ntop}
use ndhc.Ifchd.Execute.{execute_buffer}
use ndhc.Ifchd.World.{
  Ifch, IfchState, state_nothing, state_ip4set, state_timezone, state_router, state_dns,
  state_lprsvr, state_hostname, state_domain, state_ipttl, state_mtu, state_ntpsvr, state_wins,
  state_carrier,
}
use ndhc.Ifchd.AddressTexts.{
  until_nul-run, Complete, v4-Complete, iplist_rest-run, ifcmd_raw-text, length-run,
}

-- The commands with addresses, of the master and of ndhc-ifch.
abbrev pub AddressesCommand : IfchState → Type 0
AddressesCommand s =
    (s ≡ state_dns) ⊎ ((s ≡ state_lprsvr) ⊎ ((s ≡ state_ntpsvr) ⊎ (s ≡ state_wins)))

-- The text of a command with a name and an argument that the automaton of `most` addresses accepts.
abbrev Sends : Option ℕ → Bytes → Bytes → Type 0
Sends most name out =
    (text : Bytes) × (out ≡ name ++ (b':' ∷ (text ++ (b';' ∷ []))))
    × (length text < 1024)
    × (b : Arg) × (run (arg_step (addresses 1 most)) (v4 0 0 0) text ≡ some b)
    × Complete most b

Sends-raw :
    (most : Option ℕ) (bl : ℕ) (name text out : Bytes) (d k : ℕ)
    → ifcmd_raw bl name text ≡ some out
    → 16 * k + 15 < 1024
    → run (arg_step (addresses 1 most)) (v4 0 0 0) text ≡ some (v4 k 3 d)
    → 0 < d
    → Sends most name out
Sends-raw most bl name text out d k e l r g =
    let (o, h) =
      ifcmd_raw-text bl name text out e (until_nul-run most text (v4 0 0 0) (v4 k 3 d) r) in
    let (m, f) = length-run most text (v4 0 0 0) (v4 k 3 d) (omega arith) r in
    (text, o, omega (arith, m, f, l), v4 k 3 d, r, v4-Complete most k d g)

ifcmd_ip-Sends :
    (bl : ℕ) (name od out : Bytes)
    → ifcmd_ip bl name od ≡ some out
    → length od < 256
    → Sends (some 1) name out
unfolding ifcmd_ip
ifcmd_ip-Sends bl name [] out e l = absurd (cc)
ifcmd_ip-Sends bl name (a ∷ []) out e l = absurd (cc)
ifcmd_ip-Sends bl name (a ∷ b ∷ []) out e l = absurd (cc)
ifcmd_ip-Sends bl name (a ∷ b ∷ c ∷ []) out e l = absurd (cc)
ifcmd_ip-Sends bl name (a ∷ b ∷ c ∷ d ∷ r) out e l =
    let ip = of_be 0 (a ∷ b ∷ c ∷ d ∷ []) in
    let (n, q, g) = v4-inet_ntop 1 (some 1) 0 ip in
    Sends-raw (some 1) bl name (inet_ntop ip) out n 0 e (omega arith) q g

ifcmd_iplist-Sends :
    (bl : ℕ) (name od out : Bytes)
    → ifcmd_iplist bl name od ≡ some out
    → length od < 256
    → Sends none name out
unfolding ifcmd_iplist
ifcmd_iplist-Sends bl name [] out e l = absurd (cc)
ifcmd_iplist-Sends bl name (a ∷ []) out e l = absurd (cc)
ifcmd_iplist-Sends bl name (a ∷ b ∷ []) out e l = absurd (cc)
ifcmd_iplist-Sends bl name (a ∷ b ∷ c ∷ []) out e l = absurd (cc)
ifcmd_iplist-Sends bl name (a ∷ b ∷ c ∷ d ∷ r) out e l =
    let ip = of_be 0 (a ∷ b ∷ c ∷ d ∷ []) in
    let (n, q, g) = v4-inet_ntop 1 none 0 ip in
    let (k, m, p, i, c) = iplist_rest-run r 0 n g in
    Sends-raw none bl name (inet_ntop ip ++ iplist_rest r) out m k e (omega (arith, l, c))
      (run-append (arg_step (addresses 1 none)) (v4 0 0 0) (v4 0 3 n) (inet_ntop ip) (iplist_rest r)
          q
        ∙ p)
      i

-- The option codes whose values are addresses, and the states of their commands.
abbrev pub address_state : ℕ → Option IfchState
address_state code =
    if code == Dcode.router
    then some state_router
    else if code == Dcode.dns
    then some state_dns
    else if code == Dcode.lprsvr
    then some state_lprsvr
    else if code == Dcode.ntpsvr
    then some state_ntpsvr
    else if code == Dcode.wins
    then some state_wins
    else none

-- The five of them.
abbrev Rows : (ℕ → IfchState → Type 0) → Type 0
Rows P =
    P Dcode.router state_router
    × P Dcode.dns state_dns
    × P Dcode.lprsvr state_lprsvr
    × P Dcode.ntpsvr state_ntpsvr
    × P Dcode.wins state_wins

address_state-rows :
    (P : ℕ → IfchState → Type 0)
    → Rows P
    → (code : ℕ) (s : IfchState) → address_state code ≡ some s
    → P code s
address_state-rows P (r, d, l, n, w) code s h = elim (cases h) [
  | inl (a, b) ↦ rw (a, b) r
  | inr (inl (a, b)) ↦ rw (a, b) d
  | inr (inr (inl (a, b))) ↦ rw (a, b) l
  | inr (inr (inr (inl (a, b)))) ↦ rw (a, b) n
  | inr (inr (inr (inr (a, b)))) ↦ rw (a, b) w
]
  where
    cases :
        address_state code ≡ some s
        → ((code ≡ Dcode.router) × (s ≡ state_router))
          ⊎ (((code ≡ Dcode.dns) × (s ≡ state_dns))
              ⊎ (((code ≡ Dcode.lprsvr) × (s ≡ state_lprsvr))
                  ⊎ (((code ≡ Dcode.ntpsvr) × (s ≡ state_ntpsvr))
                      ⊎ ((code ≡ Dcode.wins) × (s ≡ state_wins)))))
    cases h = ground (arith, h)

abbrev IsText : Bytes → IfchState → Type 0
IsText out s = (text : Bytes) × (out ≡ text_of ((s, text) ∷ [])) × IsArg s text

is_text :
    (bl code : ℕ) (od out : Bytes) (s : IfchState)
    → address_state code ≡ some s
    → ifchd_cmd bl od code ≡ some out
    → length od < 256
    → IsText out s
unfolding ifchd_cmd kind arg_start
is_text bl code od out s h e l =
    address_state-rows (λ c t. ifchd_cmd bl od c ≡ some out → IsText out t)
      (
        (λ e.
            let (text, o, k, b, r, d) =
              ifcmd_ip-Sends bl (b'r' ∷ b'o' ∷ b'u' ∷ b't' ∷ b'r' ∷ []) od out e l in
            (text, o, ((λ q. cc q), k, (b, r, d.0, d.1)))),
        (λ e.
            let (text, o, k, b, r, d) =
              ifcmd_iplist-Sends bl (b'd' ∷ b'n' ∷ b's' ∷ []) od out e l in
            (text, o, ((λ q. cc q), k, (b, r, d.0, d.1)))),
        (λ e.
            let (text, o, k, b, r, d) =
              ifcmd_iplist-Sends bl (b'l' ∷ b'p' ∷ b'r' ∷ []) od out e l in
            (text, o, ((λ q. cc q), k, (b, r, d.0, d.1)))),
        (λ e.
            let (text, o, k, b, r, d) =
              ifcmd_iplist-Sends bl (b'n' ∷ b't' ∷ b'p' ∷ []) od out e l in
            (text, o, ((λ q. cc q), k, (b, r, d.0, d.1)))),
        (λ e.
            let (text, o, k, b, r, d) =
              ifcmd_iplist-Sends bl (b'w' ∷ b'i' ∷ b'n' ∷ b's' ∷ []) od out e l in
            (text, o, ((λ q. cc q), k, (b, r, d.0, d.1)))),
      )
      code s h e

one_command :
    (s : IfchState) (text : Bytes) → length text < 1024 → length (text_of ((s, text) ∷ [])) < 2048
one_command s text l =
    let e = length-append (keyword s) (text ++ (b';' ∷ [])) in
    let f = length-append text (b';' ∷ []) in omega (arith, e, f, l, length-keyword s)
  where
    length-keyword : (s : IfchState) → length (keyword s) ≤ 8
    length-keyword state_nothing = omega arith
    length-keyword state_router = omega arith
    length-keyword state_ip4set = omega arith
    length-keyword state_dns = omega arith
    length-keyword state_lprsvr = omega arith
    length-keyword state_ntpsvr = omega arith
    length-keyword state_wins = omega arith
    length-keyword state_hostname = omega arith
    length-keyword state_domain = omega arith
    length-keyword state_timezone = omega arith
    length-keyword state_mtu = omega arith
    length-keyword state_ipttl = omega arith
    length-keyword state_carrier = omega arith

-- A command that the master makes, in a buffer of any size, of a router or of a list of addresses in at
-- most 255 octets, which is what one option holds: it is the text of one command of ndhc-ifch with an
-- argument that its automaton accepts and that fits into `tb`, and where nothing is left over from
-- before, `execute_buffer` performs that command and nothing else.
pub ifchd_cmd-IsArg :
    (bl code : ℕ) (od out : Bytes) (s : IfchState) (w : Ifch)
    → address_state code ≡ some s
    → ifchd_cmd bl od code ≡ some out
    → length od < 256
    → w.ibuf ≡ []
    → (text : Bytes) × (out ≡ text_of ((s, text) ∷ []))
      × IsArg s text
      × (execute_buffer out w ≡ perform_all false ((s, text) ∷ []) w)
ifchd_cmd-IsArg bl code od out s w h e l i =
    let (text, o, a) = is_text bl code od out s h e l in
    (
      text,
      o,
      a,
      ap (λ t. execute_buffer t w) {x = out} {y = text_of ((s, text) ∷ [])} o
          ∙ execute_buffer-perform_all (s, text) [] w (a, tt) (one_command s text a.1) i,
    )
