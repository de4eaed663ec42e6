-- ===== src/Common/Process.antt =====
-- Functions of a process whose state is `W`: they return, end the process, or fault.
use Prim.Native.Nat.{ℕ, ◌<◌}
use native.Mathlib.Omega.{arith}
use mathlib.Core.Bool.{true}
use ndhc.Common.Tests.{ltb, if◌then◌else◌}
use mathlib.Core.Path.{◌≡◌, refl, ap}
use mathlib.Core.Option.{Option, none, some}

-- How the process ends.
pub data End : Type 0 where
  suicide exit_success : End

-- `fault` is an access outside a buffer.
pub data Run (W A : Type 0) : Type 0 where
  returned : A → W → Run W A
  ended : End → W → Run W A
  fault : Run W A

abbrev pub Process : Type 0 → Type 0 → Type 0
Process W A = W → Run W A

module _ {W : Type 0} where
  abbrev pub pure : {A : Type 0} → A → Process W A
  pure a w = returned a w

  abbrev pub onward : {A B : Type 0} → Run W A → (A → Process W B) → Run W B
  onward (returned a v) f = f a v
  onward (ended e v) f = ended e v
  onward fault f = fault

  infixl 5 ◌>>=◌ ◌>>◌
  abbrev pub ◌>>=◌ : {A B : Type 0} → Process W A → (A → Process W B) → Process W B
  ◌>>=◌ m f w = onward (m w) f

  abbrev pub ◌>>◌ : {B : Type 0} → Process W (Unit {0}) → Process W B → Process W B
  m >> k = m >>= λ _. k

  abbrev pub halt : {A : Type 0} → End → Process W A
  halt e w = ended e w

  abbrev pub get : Process W W
  get w = returned w w

  abbrev pub put : W → Process W (Unit {0})
  put v w = returned tt v

  -- An access to one place of an array.
  unfoldable pub access : (size place : ℕ) → Process W (Unit {0})
  access size place = if ltb place size then pure tt else (λ w. fault)

  -- A computation on buffers.
  abbrev pub checked : {A : Type 0} → Option A → Process W A
  checked o w = elim o [ none ↦ fault | some a ↦ returned a w ]

  pub bind-returned :
      {A B : Type 0} (m : Process W A) (k : A → Process W B) (a : A) (w v : W)
      → m w ≡ returned a v
      → (m >>= k) w ≡ k a v
  bind-returned m k a w v e = ap (λ r. onward r k) e

  pub onward-map :
      {A B C : Type 0} (r : Run W A) (f : A → B) (k : B → Process W C)
      → onward (onward r (λ a. pure (f a))) k ≡ onward r (λ a. k (f a))
  onward-map (returned a v) f k = refl
  onward-map (ended e v) f k = refl
  onward-map fault f k = refl

  pub access-in : (size place : ℕ) → place < size → access size place ≡ pure tt
  unfolding access
  access-in size place h = rw (ltb-true place size h) refl
    where
      ltb-true : (a b : ℕ) → a < b → ltb a b ≡ true
      ltb-true a b h = ground (arith, h)
