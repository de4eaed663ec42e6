-- ===== src/Common/Automata.antt =====
-- Automata on octets: a step reads one octet, or there is none for it.
use Prim.Native.Nat.{ℕ}
use mathlib.Core.Path.{◌≡◌}
use mathlib.Core.Option.{Option, none, some}
use mathlib.Core.List.{[], ◌∷◌, ◌++◌}
use native.Mathlib.Omega.{arith}
use ndhc.Common.Octets.{Bytes}

module _ {S : Type 0} (step : S → ℕ → Option S) where
  -- The state after all octets.
  unfoldable pub run : S → Bytes → Option S
  run s [] = some s
  run s (c ∷ cs) = elim (step s c) [ none ↦ none | some t ↦ run t cs ]

  pub run-step : (s t : S) (x : ℕ) (xs : Bytes) → step s x ≡ some t → run s (x ∷ xs) ≡ run t xs
  unfolding run
  run-step s t x xs e = rw (run, e)

  pub run-stuck : (s : S) (x : ℕ) (xs : Bytes) → step s x ≡ none → run s (x ∷ xs) ≡ none
  unfolding run
  run-stuck s x xs e = rw (run, e)

  pub run-append : (s t : S) (xs ys : Bytes) → run s xs ≡ some t → run s (xs ++ ys) ≡ run t ys
  unfolding run
  run-append s t [] ys e = ground (arith, e)
  run-append s t (x ∷ xs) ys e = go (step s x) (λ u. run-append u t xs ys) e
    where
      go :
          (o : Option S)
          → ((u : S) → run u xs ≡ some t → run u (xs ++ ys) ≡ run t ys)
          → elim o [ none ↦ none | some u ↦ run u xs ] ≡ some t
          → elim o [ none ↦ none | some u ↦ run u (xs ++ ys) ] ≡ run t ys
      go none k h = absurd (cc)
      go (some u) k h = k u h
