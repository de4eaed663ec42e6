-- ===== src/Ifchd/Mtu.antt =====
-- The command "mtu": src/ifchange.c prints a number of up to five digits, src/ifchd-parse.rl takes two
-- octets.
use ndhc.Common.{
  ℕ, ◌+◌, ◌*◌, ◌/◌, ◌%◌, ◌^◌, ◌≤◌, ◌<◌, Bytes, Bool, true, false, some, [], ◌∷◌, ◌++◌, ◌≡◌, refl,
  sym, ap, ◌∙◌, inl, inr, lt_or_le, ◌==◌, length, take, of_be, arith,
}
use ndhc.Common.Process.{returned}
use ndhc.Ifchange.Command.{ifchd_cmd, ifcmd_u16}
use ndhc.Ifchange.Text.{show_u32, until_nul}
use ndhc.Ifchd.AddressTexts.{ifcmd_raw-text}
use ndhc.Ifchd.Execute.{act, entry_state, exec, execute_buffer}
use ndhc.Ifchd.Grammar.{
  kind, arg_start, arg_step, arg_done, keywords, in_keyword, parser_step, argument_step,
}
use ndhc.Ifchd.Performs.{left_over_lem}
use ndhc.Ifchd.Refinement.{keyword, exec-keyword, execute_buffer-exec}
use ndhc.Ifchd.Texts.{digits_one, digits_more}
use ndhc.Ifchd.World.{Ifch, state_mtu, fatal}
use ndhc.Options.Dcode

-- A digit, which is no semicolon and no NUL.
is_plain : (n : ℕ) → ((b'0' + n % 10) == b';') ≡ false
is_plain n = ground arith

-- A number with three digits or more.
show_u32-long :
    (n : ℕ)
    → 100 ≤ n
    → n < 2 ^ 16
    → (x y z : ℕ) × (t : Bytes) × (show_u32 n ≡ x ∷ y ∷ z ∷ t)
      × ((z == b';') ≡ false)
      × (until_nul (x ∷ y ∷ z ∷ t) ≡ x ∷ y ∷ z ∷ t)
unfolding show_u32 until_nul
show_u32-long n g h = elim (lt_or_le n 1000) [
  | inl l ↦ (
    b'0' + n / 10 / 10,
    b'0' + n / 10 % 10,
    b'0' + n % 10,
    [],
    rw
        (
          digits_more 9 n (omega arith),
          digits_more 8 (n / 10) (omega arith),
          digits_one 7 (n / 10 / 10) (omega arith),
        )
        refl,
    is_plain n,
    ground arith,
  )
  | inr k ↦ elim (lt_or_le n 10000) [
    | inl l ↦ (
      b'0' + n / 10 / 10 / 10,
      b'0' + n / 10 / 10 % 10,
      b'0' + n / 10 % 10,
      (b'0' + n % 10) ∷ [],
      rw
          (
            digits_more 9 n (omega arith),
            digits_more 8 (n / 10) (omega arith),
            digits_more 7 (n / 10 / 10) (omega arith),
            digits_one 6 (n / 10 / 10 / 10) (omega arith),
          )
          refl,
      is_plain (n / 10),
      ground arith,
    )
    | inr m ↦ (
      b'0' + n / 10 / 10 / 10 / 10,
      b'0' + n / 10 / 10 / 10 % 10,
      b'0' + n / 10 / 10 % 10,
      (b'0' + n / 10 % 10) ∷ (b'0' + n % 10) ∷ [],
      rw
          (
            digits_more 9 n (omega arith),
            digits_more 8 (n / 10) (omega arith),
            digits_more 7 (n / 10 / 10) (omega arith),
            digits_more 6 (n / 10 / 10 / 10) (omega arith),
            digits_one 5 (n / 10 / 10 / 10 / 10) (omega arith),
          )
          refl,
      is_plain (n / 10 / 10),
      ground arith,
    )
  ]
]

-- The third octet of the argument ends the automaton, unless it is the semicolon.
exec-mtu :
    (first cmdf : Bool) (x y z : ℕ) (rest : Bytes) (w : Ifch)
    → (z == b';') ≡ false
    → (v : Ifch) × (exec first cmdf
          (in_keyword keywords)
          (keyword state_mtu ++ (x ∷ y ∷ z ∷ rest))
          w
        ≡ returned fatal v)
unfolding exec act parser_step argument_step entry_state arg_step kind arg_start arg_done
exec-mtu first cmdf x y z rest w n = (
  record w { state = state_mtu; ibuf = take 1023 (z ∷ rest) },
  exec-keyword first cmdf state_mtu (x ∷ y ∷ z ∷ rest) w (λ q. cc q)
      ∙ rw n (left_over_lem (z ∷ rest) (record w { state = state_mtu })),
)

-- For every MTU of 100 or more in the option's two octets: the master's command for it, with whatever
-- commands follow in the same message of less than 2048 octets, is invalid for ndhc-ifch when
-- nothing is left over from before. The result is -99, on which ndhc-ifch ends itself.
pub ifchd_cmd-fatal :
    (bl a b : ℕ) (od out more : Bytes) (w : Ifch)
    → a < 256
    → b < 256
    → 100 ≤ a * 256 + b
    → ifchd_cmd bl (a ∷ b ∷ od) Dcode.mtu ≡ some out
    → length (out ++ more) < 2048
    → w.ibuf ≡ []
    → (v : Ifch) × (execute_buffer (out ++ more) w ≡ returned fatal v)
unfolding ifchd_cmd ifcmd_u16
ifchd_cmd-fatal bl a b od out more w ha hb g e l i =
    let n = of_be 0 (a ∷ b ∷ []) in
    let (x, y, z, t, s, p, u) = show_u32-long n (omega arith) (omega arith) in
    let (o, _) =
      ifcmd_raw-text bl (b'm' ∷ b't' ∷ b'u' ∷ []) (show_u32 n) out e (ap until_nul s ∙ u ∙ sym s) in
    let (v, f) = exec-mtu true false x y z ((t ++ (b';' ∷ [])) ++ more) w p in
    let m = b'm' ∷ b't' ∷ b'u' ∷ b':' ∷ [] in
    (
      v,
      execute_buffer-exec (out ++ more) w l i
          ∙ ap (λ c. exec true false (in_keyword keywords) (c ++ more) w) o
          ∙ ap (λ c. exec true false (in_keyword keywords) (m ++ ((c ++ (b';' ∷ [])) ++ more)) w) s
          ∙ f,
    )
