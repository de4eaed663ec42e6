-- ===== src/Ifchd/Texts.antt =====
-- The texts that src/ifchange.c prints, in the automata of src/ifchd-parse.rl and in `inet_pton`.
use ndhc.Common.{
  ℕ, suc, ◌+◌, ◌*◌, ◌/◌, ◌%◌, ◌^◌, ◌≤◌, ◌<◌, Bytes, Option, some, [], ◌∷◌, ◌++◌, ◌≡◌, refl, ap, ◌∙◌,
  ◌⊎◌, inl, inr, lt_or_le, arith,
}
use ndhc.Common.Automata.{run, run-step, run-append}
use ndhc.Ifchange.Text.{digits, show_u32, inet_ntop}
use ndhc.Ifchd.Grammar.{addresses, Arg, v4, arg_step}
use ndhc.Ifchd.Numbers.{Quad, quad_step, quad_address, inet_pton}

pub digits_one : (k n : ℕ) → n < 10 → digits (suc k) n ≡ (b'0' + n) ∷ []
unfolding digits
digits_one k n h = ground arith

pub digits_more :
    (k n : ℕ) → 10 ≤ n → digits (suc k) n ≡ digits k (n / 10) ++ ((b'0' + n % 10) ∷ [])
unfolding digits
digits_more k n h = ground arith

-- The one to three digits of an octet.
pub show_u32-octet :
    (n : ℕ)
    → n < 256
    → ((n < 10) × (show_u32 n ≡ (b'0' + n) ∷ []))
      ⊎ (((10 ≤ n) × (n < 100) × (show_u32 n ≡ (b'0' + n / 10) ∷ (b'0' + n % 10) ∷ []))
          ⊎ ((100 ≤ n)
              × (show_u32 n ≡ (b'0' + n / 10 / 10) ∷ (b'0' + n / 10 % 10) ∷ (b'0' + n % 10) ∷ [])))
unfolding show_u32
show_u32-octet n h = elim (lt_or_le n 10) [
  | inl l ↦ inl (l, digits_one 9 n l)
  | inr g ↦ elim (lt_or_le n 100) [
    | inl l ↦ inr (inl (g, l, rw (digits_more 9 n g, digits_one 8 (n / 10) (omega arith)) refl))
    | inr k ↦ inr (
        inr (
          k,
          rw
              (
                digits_more 9 n g,
                digits_more 8 (n / 10) (omega arith),
                digits_one 7 (n / 10 / 10) (omega arith),
              )
              refl,
        ))
  ]
]

v4-octet :
    (least : ℕ) (most : Option ℕ) (k dots n : ℕ)
    → n < 256
    → (d : ℕ) × (run (arg_step (addresses least most)) (v4 k dots 0) (show_u32 n)
        ≡ some (v4 k dots d))
      × (0 < d)
unfolding run arg_step
v4-octet least most k dots n h = elim (show_u32-octet n h) [
  | inl (a, e) ↦ (1, rw e (ground arith), omega arith)
  | inr (inl (a, b, e)) ↦ (2, rw e (ground arith), omega arith)
  | inr (inr (a, e)) ↦ (3, rw e (ground arith), omega arith)
]

quad-octet :
    (dots before n : ℕ)
    → n < 256
    → (d : ℕ) × (run quad_step
          (record { dots = dots; digits = 0; value = 0; before = before })
          (show_u32 n)
        ≡ some (record { dots = dots; digits = d; value = n; before = before }))
      × (0 < d)
unfolding run
quad-octet dots before n h = elim (show_u32-octet n h) [
  | inl (a, e) ↦ (1, rw e (ground arith), omega arith)
  | inr (inl (a, b, e)) ↦ (2, rw e (ground arith), omega arith)
  | inr (inr (a, e)) ↦ (3, rw e (ground arith), omega arith)
]

module _ (least : ℕ) (most : Option ℕ) (k : ℕ) where
  abbrev step : Arg → ℕ → Option Arg
  step = arg_step (addresses least most)

  -- An octet of an address and the dot behind it.
  v4-dotted :
      (dots n : ℕ) (rest : Bytes)
      → n < 256
      → dots < 3
      → run step (v4 k dots 0) (show_u32 n ++ (b'.' ∷ rest)) ≡ run step (v4 k (dots + 1) 0) rest
  unfolding arg_step
  v4-dotted dots n rest h l =
      let (d, e, g) = v4-octet least most k dots n h in
      run-append step (v4 k dots 0) (v4 k dots d) (show_u32 n) (b'.' ∷ rest) e
      ∙ run-step step (v4 k dots d) (v4 k (dots + 1) 0) b'.' rest (ground (arith, g, l))

  -- An address as it is printed has four numbers.
  pub v4-inet_ntop :
      (ip : ℕ) → (d : ℕ) × (run step (v4 k 0 0) (inet_ntop ip) ≡ some (v4 k 3 d)) × (0 < d)
  unfolding inet_ntop
  v4-inet_ntop ip =
      let (d, e, g) = v4-octet least most k 3 (ip % 256) (omega arith) in
      (
        d,
        v4-dotted 0 (ip / 2 ^ 24 % 256)
              (show_u32 (ip / 2 ^ 16 % 256)
                ++ (b'.' ∷ (show_u32 (ip / 2 ^ 8 % 256) ++ (b'.' ∷ show_u32 (ip % 256)))))
              (omega arith) (omega arith)
            ∙ v4-dotted 1 (ip / 2 ^ 16 % 256)
                (show_u32 (ip / 2 ^ 8 % 256) ++ (b'.' ∷ show_u32 (ip % 256))) (omega arith)
                (omega arith)
            ∙ v4-dotted 2 (ip / 2 ^ 8 % 256) (show_u32 (ip % 256)) (omega arith) (omega arith)
            ∙ e,
        g,
      )

abbrev quad_after : ℕ → ℕ → Quad
quad_after dots before = record { dots = dots; digits = 0; value = 0; before = before }

quad-dotted :
    (dots before n next : ℕ) (rest : Bytes)
    → n < 256
    → dots < 3
    → next ≡ before * 256 + n
    → run quad_step (quad_after dots before) (show_u32 n ++ (b'.' ∷ rest))
      ≡ run quad_step (quad_after (dots + 1) next) rest
quad-dotted dots before n next rest h l v =
    let (d, e, g) = quad-octet dots before n h in
    run-append quad_step (quad_after dots before)
      (record { dots = dots; digits = d; value = n; before = before }) (show_u32 n) (b'.' ∷ rest) e
    ∙ run-step quad_step (record { dots = dots; digits = d; value = n; before = before })
        (quad_after (dots + 1) next) b'.' rest (ground (arith, g, l, v))

-- `inet_pton` reads every address that `inet_ntop` printed.
pub inet_pton-inet_ntop : (ip : ℕ) → ip < 2 ^ 32 → inet_pton (inet_ntop ip) ≡ some ip
unfolding inet_pton inet_ntop
inet_pton-inet_ntop ip h =
    let a = ip / 2 ^ 24 % 256 in
    let b = ip / 2 ^ 16 % 256 in
    let c = ip / 2 ^ 8 % 256 in
    let (d, e, g) = quad-octet 3 ((a * 256 + b) * 256 + c) (ip % 256) (omega arith) in
    ap quad_address (
      quad-dotted 0 0 a a (show_u32 b ++ (b'.' ∷ (show_u32 c ++ (b'.' ∷ show_u32 (ip % 256)))))
        (omega arith) (omega arith) (omega arith)
      ∙ quad-dotted 1 a b (a * 256 + b) (show_u32 c ++ (b'.' ∷ show_u32 (ip % 256))) (omega arith)
          (omega arith) (omega arith)
      ∙ quad-dotted 2 (a * 256 + b) c ((a * 256 + b) * 256 + c) (show_u32 (ip % 256)) (omega arith)
          (omega arith) (omega arith)
      ∙ e)
    ∙ ground (arith, g, h)
