-- ===== src/Ifchd/Injection.antt =====
-- A host name from the server, in `ifchd_cmd` of src/ifchange.c, and what src/ifchd-parse.rl makes of it.
use ndhc.Common.{
  ℕ, ◌+◌, ◌≤◌, ◌<◌, Bytes, false, some, List, [], ◌∷◌, ◌++◌, ◌≡◌, ap, ◌∙◌, subst, length,
  length-append, arith,
}
use ndhc.Ifchange.Command.{ifchd_cmd, ifcmd_bytes}
use ndhc.Ifchange.Text.{until_nul}
use ndhc.Ifchd.AddressTexts.{ifcmd_raw-text}
use ndhc.Ifchd.Execute.{execute_buffer}
use ndhc.Ifchd.Refinement.{Command, AreCommands, text_of, perform_all, execute_buffer-perform_all}
use ndhc.Ifchd.World.{state_hostname, Ifch}
use ndhc.Options.Dcode

-- "host"
abbrev host_name : Bytes
host_name = b'h' ∷ b'o' ∷ b's' ∷ b't' ∷ []

hostname-text :
    (bl : ℕ) (od out : Bytes)
    → until_nul od ≡ od
    → ifchd_cmd bl od Dcode.hostname ≡ some out
    → (out ≡ host_name ++ (b':' ∷ (od ++ (b';' ∷ [])))) × (length host_name + length od + 3 ≤ bl)
unfolding ifchd_cmd ifcmd_bytes
hostname-text bl od out n e = ifcmd_raw-text bl host_name od out e n

hostname-length :
    (bl : ℕ) (od out : Bytes)
    → until_nul od ≡ od
    → ifchd_cmd bl od Dcode.hostname ≡ some out
    → bl ≤ 2048
    → length out < 2048
hostname-length bl od out n e l =
    let (o, h) = hostname-text bl od out n e in
    rw o (omega (arith, h, l, length-append od (b';' ∷ [])))

-- For a host name `od` without a NUL that reads, with the semicolon that the master puts behind it, as
-- a name, a semicolon, and the text of further commands, all of them with arguments that the automata
-- accept: where the master has a command for it in the rest of its buffer of 2048 octets, and nothing is
-- left over from before, `execute_buffer` sets the name on this command and then performs the others.
pub execute_buffer-hostname :
    (bl : ℕ) (od out name : Bytes) (cmds : List Command) (w : Ifch)
    → until_nul od ≡ od
    → od ++ (b';' ∷ []) ≡ name ++ (b';' ∷ text_of cmds)
    → AreCommands ((state_hostname, name) ∷ cmds)
    → ifchd_cmd bl od Dcode.hostname ≡ some out
    → bl ≤ 2048
    → w.ibuf ≡ []
    → execute_buffer out w ≡ perform_all false ((state_hostname, name) ∷ cmds) w
execute_buffer-hostname bl od out name cmds w n r h e l i =
    let o =
      (hostname-text bl od out n e).0
      ∙ ap (λ t. host_name ++ (b':' ∷ t)) {x = od ++ (b';' ∷ [])}
          {y = name ++ (b';' ∷ text_of cmds)} r in
    ap (λ t. execute_buffer t w) {x = out} {y = text_of ((state_hostname, name) ∷ cmds)} o
    ∙ execute_buffer-perform_all (state_hostname, name) cmds w h
        (subst (λ t. length t < 2048) {x = out} {y = text_of ((state_hostname, name) ∷ cmds)} o
          (hostname-length bl od out n e l))
        i
