-- ===== src/Ifchd/AddressTexts.antt =====
-- The addresses in the commands of src/ifchange.c, and the automata of src/ifchd-parse.rl on them.
use ndhc.Common.{
  ℕ, ◌*◌, ◌+◌, ◌≤◌, ◌<◌, Bytes, true, false, Option, none, some, [], ◌∷◌, ◌++◌, ◌≡◌, refl, sym, ap,
  ◌∙◌, inl, inr, Option-cases, ◌==◌, length, arith, of_be,
}
use ndhc.Common.Automata.{run, run-step, run-append, run-stuck}
use ndhc.Ifchange.Command.{ifcmd_raw, iplist_rest}
use ndhc.Ifchange.Text.{until_nul, inet_ntop}
use ndhc.Ifchd.Grammar.{addresses, Arg, v4, octets, arg_step, arg_done}
use ndhc.Ifchd.Texts.{v4-inet_ntop}

module _ (most : Option ℕ) where
  abbrev step : Arg → ℕ → Option Arg
  step = arg_step (addresses 1 most)

  -- No address contains a NUL.
  pub until_nul-run : (xs : Bytes) (a b : Arg) → run step a xs ≡ some b → until_nul xs ≡ xs
  unfolding until_nul arg_step
  until_nul-run [] a b e = refl
  until_nul-run (x ∷ xs) (octets n) b e = absurd (cc (run-stuck step (octets n) x xs refl))
  until_nul-run (x ∷ xs) (v4 k dots digits) b e = elim (Option-cases (step (v4 k dots digits) x)) [
    | inl n ↦ absurd (cc (run-stuck step (v4 k dots digits) x xs n))
    | inr (c, s) ↦
        rw (nonzero x k dots digits c s)
          (ap (◌∷◌ x) (until_nul-run xs c b (sym (run-step step (v4 k dots digits) c x xs s) ∙ e)))
  ]
    where
      nonzero :
          (x k dots digits : ℕ) (c : Arg)
          → arg_step (addresses 1 most) (v4 k dots digits) x ≡ some c
          → (x == 0) ≡ false
      nonzero x k dots digits c s = ground arith

  -- An upper bound for the octets that were read, and what makes it one.
  abbrev pub size_of : Arg → ℕ
  size_of (v4 k dots digits) = 16 * k + 4 * dots + digits
  size_of (octets n) = n

  abbrev pub Short : Arg → Type 0
  Short (v4 k dots digits) = digits ≤ 3
  Short (octets n) = ⊥

  step-size :
      (k dots digits x : ℕ) (c : Arg)
      → digits ≤ 3
      → step (v4 k dots digits) x ≡ some c
      → (size_of (v4 k dots digits) + 1 ≤ size_of c) × Short c
  unfolding arg_step
  step-size k dots digits x c h s = ground (arith, h, s)

  pub length-run :
      (xs : Bytes) (a b : Arg)
      → Short a
      → run step a xs ≡ some b
      → (length xs + size_of a ≤ size_of b) × Short b
  unfolding run
  length-run [] a b h e = ground (arith, h, e)
  length-run (x ∷ xs) (v4 k dots digits) b h e = elim (Option-cases (step (v4 k dots digits) x)) [
    | inl n ↦ absurd (cc (run-stuck step (v4 k dots digits) x xs n))
    | inr (c, s) ↦
        let (l, g) = step-size k dots digits x c h s in
        let (m, f) = length-run xs c b g (sym (run-step step (v4 k dots digits) c x xs s) ∙ e) in
        (omega (arith, l, m), f)
  ]
  length-run (x ∷ xs) (octets n) b h e = absurd h

  -- What is needed of an automaton's last state.
  abbrev pub Complete : Arg → Type 0
  Complete b = (arg_done (addresses 1 most) b ≡ true) × (arg_step (addresses 1 most) b b';' ≡ none)

  pub v4-Complete : (k d : ℕ) → 0 < d → Complete (v4 k 3 d)
  unfolding arg_done arg_step
  v4-Complete k d h = ground (arith, h)

pub until_nul-inet_ntop : (ip : ℕ) → until_nul (inet_ntop ip) ≡ inet_ntop ip
until_nul-inet_ntop ip =
    let (d, e, _) = v4-inet_ntop 1 none 0 ip in
    until_nul-run none (inet_ntop ip) (v4 0 0 0) (v4 0 3 d) e

-- The addresses behind the first in a list.
pub iplist_rest-run :
    (more : Bytes) (k d : ℕ)
    → 0 < d
    → (j e : ℕ) × (run (arg_step (addresses 1 none)) (v4 k 3 d) (iplist_rest more)
        ≡ some (v4 j 3 e))
      × (0 < e)
      × (4 * j ≤ 4 * k + length more)
unfolding iplist_rest run arg_step
iplist_rest-run (x ∷ y ∷ z ∷ u ∷ more) k d h =
    let (c, r, g) = v4-inet_ntop 1 none (k + 1) (of_be 0 (x ∷ y ∷ z ∷ u ∷ [])) in
    let (j, e, q, i, l) = iplist_rest-run more (k + 1) c g in
    (
      j,
      e,
      run-step (arg_step (addresses 1 none)) (v4 k 3 d) (v4 (k + 1) 0 0) b','
            (inet_ntop (of_be 0 (x ∷ y ∷ z ∷ u ∷ [])) ++ iplist_rest more) (comma k d h)
          ∙ run-append (arg_step (addresses 1 none)) (v4 (k + 1) 0 0) (v4 (k + 1) 3 c)
              (inet_ntop (of_be 0 (x ∷ y ∷ z ∷ u ∷ []))) (iplist_rest more) r
          ∙ q,
      i,
      omega (arith, l),
    )
  where
    comma : (k d : ℕ) → 0 < d → arg_step (addresses 1 none) (v4 k 3 d) b',' ≡ some (v4 (k + 1) 0 0)
    comma k d h = ground (arith, h)
iplist_rest-run [] k d h = (k, d, refl, h, omega arith)
iplist_rest-run (x ∷ []) k d h = (k, d, refl, h, omega arith)
iplist_rest-run (x ∷ y ∷ []) k d h = (k, d, refl, h, omega arith)
iplist_rest-run (x ∷ y ∷ z ∷ []) k d h = (k, d, refl, h, omega arith)

pub ifcmd_raw-text :
    (bl : ℕ) (name optdata out : Bytes)
    → ifcmd_raw bl name optdata ≡ some out
    → until_nul optdata ≡ optdata
    → (out ≡ name ++ (b':' ∷ (optdata ++ (b';' ∷ [])))) × (length name + length optdata + 3 ≤ bl)
unfolding ifcmd_raw
ifcmd_raw-text bl name optdata out e n =
    (ground (arith, e) ∙ ap (λ t. name ++ (b':' ∷ (t ++ (b';' ∷ [])))) n, ground (arith, e))
