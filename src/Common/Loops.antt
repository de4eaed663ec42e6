-- ===== src/Common/Loops.antt =====
-- A loop on fuel over a body that may fault, with the rule for its total correctness.
use Prim.Native.Nat.{ℕ, zero, suc, ◌<◌}
use mathlib.Core.Path.{◌≡◌, refl}
use mathlib.Core.Option.{Option, none, some}
use native.Mathlib.Omega.{arith}

-- What one round of a loop decides: to go on in a state, or to stop with a result.
pub data Round {ℓ} (S R : Type ℓ) : Type ℓ where
  next : S → Round S R
  stop : R → Round S R

-- `none` is a fault of the body, or fuel that ran out.
pub loop {ℓ} : {S R : Type ℓ} → ℕ → (S → Option (Round S R)) → S → Option R
loop zero body s = none
loop (suc fuel) body s = elim (body s) [
  | none ↦ none
  | some (next t) ↦ loop fuel body t
  | some (stop r) ↦ some r
]

-- One round keeps `P` and comes nearer to the end, or stops with `Q`.
module _ {ℓ} {S R : Type ℓ} (P : S → Type 0) (Q : R → Type 0) (measure : S → ℕ) where
  abbrev pub Keeps : S → Option (Round S R) → Type 0
  Keeps s none = ⊥
  Keeps s (some (next t)) = P t × (measure t < measure s)
  Keeps s (some (stop r)) = Q r

  -- With a measure below the fuel the loop neither faults nor runs out of fuel, and `Q` holds of
  -- its result.
  pub loop_total :
      (body : S → Option (Round S R))
      → ((s : S) → P s → Keeps s (body s))
      → (fuel : ℕ) (s : S) → measure s < fuel
      → P s
      → (r : R) × (loop fuel body s ≡ some r) × Q r
  unfolding loop
  loop_total body keep zero s m h = elim m [ ]
  loop_total body keep (suc fuel) s m h =
      step (body s) (keep s h) (λ t p lt. loop_total body keep fuel t (omega arith) p)
    where
      step :
          (o : Option (Round S R))
          → Keeps s o
          → ((t : S) → P t → measure t < measure s → (r : R) × (loop fuel body t ≡ some r) × Q r)
          → (r : R) × (elim o [
            | none ↦ none
            | some (next t) ↦ loop fuel body t
            | some (stop r) ↦ some r
          ]
              ≡ some r)
            × Q r
      step none k go = absurd k
      step (some (next t)) k go = go t k.0 k.1
      step (some (stop r)) k go = (r, refl, k)

module _ {ℓ} {S R : Type ℓ} (body : S → Option (Round S R)) where
  pub loop_next :
      (fuel : ℕ) (s t : S) → body s ≡ some (next t) → loop (suc fuel) body s ≡ loop fuel body t
  unfolding loop
  loop_next fuel s t e = rw (e, loop)

  pub loop_stop :
      (fuel : ℕ) (s : S) (r : R) → body s ≡ some (stop r) → loop (suc fuel) body s ≡ some r
  unfolding loop
  loop_stop fuel s r e = rw (e, loop)
