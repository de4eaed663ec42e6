-- ===== src/Ifchd/AddressParts.antt =====
-- The parts of an argument of `perform_ip4set` in src/ifchd-parse.rl fit into their arrays.
use ndhc.Common.{
  ℕ, ◌*◌, ◌+◌, ◌≤◌, Bytes, true, false, Option, some, List, [], ◌∷◌, ◌≡◌, sym, ◌∙◌, ◌⊎◌, inl, inr,
  Option-cases, Bool-cases, ◌==◌, length, arith,
}
use ndhc.Common.Automata.{run, run-step, run-stuck}
use ndhc.Ifchd.Execute.{ipv4set_parser}
use ndhc.Ifchd.Grammar.{addresses, Arg, v4, arg_step}
use ndhc.Ifchd.Numbers.{is_digit}
use ndhc.Ifchd.Resolv.{cons_first, pieces}

abbrev pub AllShort : List Bytes → Type 0
AllShort [] = Unit {0}
AllShort (part ∷ parts) = (length part ≤ 15) × AllShort parts

-- `n` octets of the first part were read before.
abbrev FirstShort : ℕ → List Bytes → Type 0
FirstShort n [] = Unit {0}
FirstShort n (part ∷ parts) = (n + length part ≤ 15) × AllShort parts

FirstShort-cons :
    (n m x : ℕ) (parts : List Bytes)
    → n + 1 ≤ m
    → m ≤ 15
    → FirstShort m parts
    → FirstShort n (cons_first x parts)
FirstShort-cons n m x [] h g f = (omega (arith, h, g), tt)
FirstShort-cons n m x (part ∷ parts) h g (f, fs) = (omega (arith, h, f), fs)

FirstShort-all : (parts : List Bytes) → FirstShort 0 parts → AllShort parts
FirstShort-all [] f = tt
FirstShort-all (part ∷ parts) (f, fs) = (omega (arith, f), fs)

module _ (least : ℕ) (most : Option ℕ) where
  abbrev step : Arg → ℕ → Option Arg
  step = arg_step (addresses least most)

  -- A comma begins another address, and each other octet makes the present one longer.
  abbrev Longer : (k dots digits x : ℕ) → Arg → Type 0
  Longer k dots digits x c =
      (((x == b',') ≡ true) × (c ≡ v4 (k + 1) 0 0))
      ⊎ (((x == b',') ≡ false)
          × (d g : ℕ) × (c ≡ v4 k d g)
          × (4 * dots + digits + 1 ≤ 4 * d + g)
          × (d ≤ 3)
          × (g ≤ 3))

  step-Longer :
      (k dots digits x : ℕ) (c : Arg)
      → dots ≤ 3
      → digits ≤ 3
      → step (v4 k dots digits) x ≡ some c
      → Longer k dots digits x c
  unfolding arg_step
  step-Longer k dots digits x c h g e = elim (Bool-cases (is_digit x)) [
    | inl a ↦ inr (
      ground (arith, e, a),
      dots,
      digits + 1,
      ground (arith, e, a),
      omega arith,
      h,
      ground (arith, e, a),
    )
    | inr a ↦ elim (Bool-cases (x == b'.')) [
      | inl b ↦ inr (
        ground (arith, e, a, b),
        dots + 1,
        0,
        ground (arith, e, a, b),
        omega (arith, g),
        ground (arith, e, a, b),
        omega arith,
      )
      | inr b ↦ inl (ground (arith, e, a, b))
    ]
  ]

  pieces-FirstShort :
      (xs : Bytes) (k dots digits : ℕ) (b : Arg)
      → dots ≤ 3
      → digits ≤ 3
      → run step (v4 k dots digits) xs ≡ some b
      → FirstShort (4 * dots + digits) (pieces xs)
  unfolding pieces
  pieces-FirstShort [] k dots digits b h g e = tt
  pieces-FirstShort (x ∷ xs) k dots digits b h g e =
      elim (Option-cases (step (v4 k dots digits) x)) [
        | inl n ↦ absurd (cc (run-stuck step (v4 k dots digits) x xs n))
        | inr (c, s) ↦ elim (step-Longer k dots digits x c h g s) [
          | inl (q, r) ↦
              rw (FirstShort, q)
                (
                  omega (arith, h, g),
                  FirstShort-all (pieces xs) (
                      pieces-FirstShort xs (k + 1) 0 0 b (omega arith) (omega arith) (
                        sym (run-step step (v4 k dots digits) (v4 (k + 1) 0 0) x xs (s ∙ cc)) ∙ e)),
                )
          | inr (q, d, m, r, l, i, j) ↦
              rw (FirstShort, q)
                (FirstShort-cons (4 * dots + digits) (4 * d + m) x (pieces xs) l
                  (omega (arith, i, j))
                  (pieces-FirstShort xs k d m b i j
                    (sym (run-step step (v4 k dots digits) (v4 k d m) x xs (s ∙ cc)) ∙ e)))
        ]
      ]

-- Each address that the automaton finds has 15 octets at most.
pub pieces-AllShort : (buf : Bytes) → ipv4set_parser buf ≡ true → AllShort (pieces buf)
unfolding ipv4set_parser
pieces-AllShort buf e = elim (Option-cases (run (arg_step (addresses 2 (some 3))) (v4 0 0 0) buf)) [
  | inl n ↦ absurd (ground (arith, e, n))
  | inr (a, s) ↦
      FirstShort-all (pieces buf)
        (pieces-FirstShort 2 (some 3) buf 0 0 0 a (omega arith) (omega arith) s)
]
