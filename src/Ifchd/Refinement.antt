-- ===== src/Ifchd/Refinement.antt =====
-- `execute_buffer` against a specification: a message is a list of commands, performed in order.
use ndhc.Common.{
  ℕ, ◌<◌, Bytes, Bool, true, false, none, some, List, [], ◌∷◌, ◌++◌, Option-cases, inl, inr, ◌≡◌,
  refl, sym, ap, ◌∙◌, ◌≢◌, append_assoc, append-nil, length, ltb, leb, arith, if◌then◌else◌,
}
use ndhc.Common.Automata.{run, run-step, run-stuck}
use ndhc.Common.Process.{pure, ◌>>=◌, onward-map, access-in}
use ndhc.Ifchd.Execute.{
  act, after, exec, execute_buffer, dispatch_work, entry_state, perform, cmdf_of,
}
use ndhc.Ifchd.Grammar.{
  kind, Arg, arg_start, arg_step, arg_done, keywords, in_keyword, in_argument, parser_step,
  keyword_step, behind, argument_step,
}
use ndhc.Ifchd.World.{
  IfchState, state_nothing, state_ip4set, state_timezone, state_router, state_dns, state_lprsvr,
  state_hostname, state_domain, state_ipttl, state_mtu, state_ntpsvr, state_wins, state_carrier,
  Ifch, I, Code, ok, failed, fatal,
}

-- The keyword of a command, with its colon.
abbrev pub keyword : IfchState → Bytes
keyword state_nothing = []
keyword state_router = b'r' ∷ b'o' ∷ b'u' ∷ b't' ∷ b'r' ∷ b':' ∷ []
keyword state_ip4set = b'i' ∷ b'p' ∷ b'4' ∷ b':' ∷ []
keyword state_dns = b'd' ∷ b'n' ∷ b's' ∷ b':' ∷ []
keyword state_lprsvr = b'l' ∷ b'p' ∷ b'r' ∷ b':' ∷ []
keyword state_ntpsvr = b'n' ∷ b't' ∷ b'p' ∷ b':' ∷ []
keyword state_wins = b'w' ∷ b'i' ∷ b'n' ∷ b's' ∷ b':' ∷ []
keyword state_hostname = b'h' ∷ b'o' ∷ b's' ∷ b't' ∷ b':' ∷ []
keyword state_domain = b'd' ∷ b'o' ∷ b'm' ∷ b':' ∷ []
keyword state_timezone = b't' ∷ b'z' ∷ b'o' ∷ b'n' ∷ b'e' ∷ b':' ∷ []
keyword state_mtu = b'm' ∷ b't' ∷ b'u' ∷ b':' ∷ []
keyword state_ipttl = b'i' ∷ b'p' ∷ b't' ∷ b't' ∷ b'l' ∷ b':' ∷ []
keyword state_carrier = b'c' ∷ b'a' ∷ b'r' ∷ b'r' ∷ b'i' ∷ b'e' ∷ b'r' ∷ b':' ∷ []

-- The argument's automaton accepts the text, which fits into `tb`, and a semicolon ends it.
abbrev pub ArgFrom : IfchState → Arg → Bytes → Type 0
ArgFrom s a text =
    (b : Arg) × (run (arg_step (kind s)) a text ≡ some b)
    × (arg_done (kind s) b ≡ true)
    × (arg_step (kind s) b b';' ≡ none)

abbrev pub IsArg : IfchState → Bytes → Type 0
IsArg s text = (s ≢ state_nothing) × (length text < 1024) × ArgFrom s (arg_start (kind s)) text

abbrev in_state : Ifch → IfchState → Ifch
in_state w s = record w { state = s }

pub exec-keyword :
    (first cmdf : Bool) (s : IfchState) (rest : Bytes) (w : Ifch)
    → s ≢ state_nothing
    → exec first cmdf (in_keyword keywords) (keyword s ++ rest) w
      ≡ exec true cmdf (in_argument s (arg_start (kind s)) []) rest (in_state w state_nothing)
unfolding exec act parser_step keyword_step behind entry_state
exec-keyword first cmdf state_nothing rest w h = absurd (h refl)
exec-keyword first cmdf state_router rest w h = refl
exec-keyword first cmdf state_ip4set rest w h = refl
exec-keyword first cmdf state_dns rest w h = refl
exec-keyword first cmdf state_lprsvr rest w h = refl
exec-keyword first cmdf state_ntpsvr rest w h = refl
exec-keyword first cmdf state_wins rest w h = refl
exec-keyword first cmdf state_hostname rest w h = refl
exec-keyword first cmdf state_domain rest w h = refl
exec-keyword first cmdf state_timezone rest w h = refl
exec-keyword first cmdf state_mtu rest w h = refl
exec-keyword first cmdf state_ipttl rest w h = refl
exec-keyword first cmdf state_carrier rest w h = refl

-- The command that is performed, and what follows it.
abbrev dispatched : Bool → IfchState → Bytes → (Bool → I Code) → I Code
dispatched cmdf s text k = perform s text >>= λ pr. after cmdf (cmdf_of pr) k

fits_tb : (n : ℕ) → n < 1024 → ltb 1023 n ≡ false
fits_tb n h = ground arith

fits_buf : (n : ℕ) → n < 2048 → leb 2048 n ≡ false
fits_buf n h = ground arith

exec-semicolon :
    (first cmdf : Bool) (s : IfchState) (a : Arg) (text rest : Bytes) (w : Ifch)
    → length text < 1024
    → arg_done (kind s) a ≡ true
    → arg_step (kind s) a b';' ≡ none
    → exec first cmdf (in_argument s a text) (b';' ∷ rest) w
      ≡ dispatched cmdf s text (λ c. exec false c (in_keyword keywords) rest) (in_state w s)
unfolding exec act parser_step argument_step dispatch_work
exec-semicolon first cmdf s a text rest w l d n =
    rw
      (
        exec,
        act,
        parser_step,
        argument_step,
        n,
        d,
        dispatch_work,
        fits_tb (length text) l,
        access-in {W = Ifch} 1024 (length text) l,
      )
      (onward-map (perform s text (in_state w s)) cmdf_of
        (λ r. after cmdf r (λ c. exec false c (in_keyword keywords) rest)))

-- The text that is read up to one more octet.
exec-step :
    (first cmdf : Bool) (s : IfchState) (a b : Arg) (text rest : Bytes) (x : ℕ) (w : Ifch)
    → arg_step (kind s) a x ≡ some b
    → exec first cmdf (in_argument s a text) (x ∷ rest) w
      ≡ exec true cmdf (in_argument s b (text ++ (x ∷ []))) rest (in_state w s)
unfolding exec act parser_step argument_step entry_state
exec-step first cmdf s a b text rest x w e = rw (exec, act, parser_step, argument_step, e)

exec-argument :
    (first cmdf : Bool) (s : IfchState) (xs : Bytes) (a : Arg) (text rest : Bytes) (w : Ifch)
    → length (text ++ xs) < 1024
    → ArgFrom s a xs
    → exec first cmdf (in_argument s a text) (xs ++ (b';' ∷ rest)) w
      ≡ dispatched cmdf s (text ++ xs) (λ c. exec false c (in_keyword keywords) rest) (in_state w s)
unfolding run
exec-argument first cmdf s [] a text rest w l (b, r, d, n) =
    rw (append-nil text)
      (exec-semicolon first cmdf s a text rest w (rw (sym (append-nil text)) l) (cc) (cc))
exec-argument first cmdf s (x ∷ xs) a text rest w l (b, r, d, n) =
    elim (Option-cases (arg_step (kind s) a x)) [
      | inl e ↦ absurd (cc (run-stuck (arg_step (kind s)) a x xs e))
      | inr (c, e) ↦
          exec-step first cmdf s a c text (xs ++ (b';' ∷ rest)) x w e
          ∙ rw (sym (append_assoc text (x ∷ []) xs)) (
              exec-argument true cmdf s xs c (text ++ (x ∷ [])) rest (in_state w s)
                (rw (append_assoc text (x ∷ []) xs) l)
                (b, sym (run-step (arg_step (kind s)) a c x xs e) ∙ r, d, n))
    ]

-- A command is its state and its argument; its text is what ndhc-ifch receives.
abbrev pub Command : Type 0
Command = IfchState × Bytes

abbrev pub text_of : List Command → Bytes
text_of [] = []
text_of ((s, text) ∷ cmds) = keyword s ++ (text ++ (b';' ∷ text_of cmds))

abbrev pub AreCommands : List Command → Type 0
AreCommands [] = Unit {0}
AreCommands ((s, text) ∷ cmds) = IsArg s text × AreCommands cmds

-- The specification: all commands are performed in order, up to one that is fatal; a result that
-- differs from 0 makes the whole fail.
unfoldable pub perform_all : Bool → List Command → I Code
perform_all cmdf [] = pure (if cmdf then failed else ok)
perform_all cmdf ((s, text) ∷ cmds) =
    λ w. dispatched cmdf s text (λ c. perform_all c cmds) (in_state w s)

exec-command :
    (first cmdf : Bool) (s : IfchState) (text rest : Bytes) (w : Ifch)
    → IsArg s text
    → exec first cmdf (in_keyword keywords) (keyword s ++ (text ++ (b';' ∷ rest))) w
      ≡ dispatched cmdf s text (λ c. exec false c (in_keyword keywords) rest) (in_state w s)
exec-command first cmdf s text rest w (h, l, a) =
    exec-keyword first cmdf s (text ++ (b';' ∷ rest)) w h
    ∙ exec-argument true cmdf s text (arg_start (kind s)) [] rest (in_state w state_nothing) l a

exec-text_of :
    (cmdf : Bool) (cmds : List Command) (w : Ifch)
    → AreCommands cmds
    → exec false cmdf (in_keyword keywords) (text_of cmds) w ≡ perform_all cmdf cmds w
unfolding exec perform_all
exec-text_of cmdf [] w h = refl
exec-text_of cmdf ((s, text) ∷ cmds) w (h, hs) =
    exec-command false cmdf s text (text_of cmds) w h ∙ λ i.
    dispatched cmdf s text (λ c v. exec-text_of c cmds v hs i) (in_state w s)

pub execute_buffer-exec :
    (buf : Bytes) (w : Ifch)
    → length buf < 2048
    → w.ibuf ≡ []
    → execute_buffer buf w ≡ exec true false (in_keyword keywords) buf w
unfolding execute_buffer
execute_buffer-exec buf w l e =
    ap
      (λ b. (if leb 2048 (length b) then pure fatal else exec true false (in_keyword keywords) b) w)
      {x = w.ibuf ++ buf} {y = buf} (ap (λ b. b ++ buf) e)
    ∙ rw (fits_buf (length buf) l) refl

pub execute_buffer-perform_all :
    (cmd : Command) (cmds : List Command) (w : Ifch)
    → AreCommands (cmd ∷ cmds)
    → length (text_of (cmd ∷ cmds)) < 2048
    → w.ibuf ≡ []
    → execute_buffer (text_of (cmd ∷ cmds)) w ≡ perform_all false (cmd ∷ cmds) w
unfolding execute_buffer perform_all
execute_buffer-perform_all (s, text) cmds w (h, hs) l e =
    execute_buffer-exec (text_of ((s, text) ∷ cmds)) w l e
    ∙ exec-command true false s text (text_of cmds) w h
    ∙ (λ i. dispatched false s text (λ c v. exec-text_of c cmds v hs i) (in_state w s))
