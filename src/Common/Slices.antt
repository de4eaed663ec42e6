-- ===== src/Common/Slices.antt =====
-- Parts of a list, by the library's `take` and `drop` over native numbers.
use Prim.Native.Nat.{ℕ, zero, suc, ◌+◌, ◌≤◌}
use mathlib.Core.Path.{◌≡◌, refl, sym, ap, ◌∙◌}
use mathlib.Core.List.{List, [], ◌∷◌, ◌++◌}
use mathlib.Core.Option.{some}
use native.Mathlib.Omega.{arith}
use ndhc.Common.Lists.{length, take, drop, length-append, write_all, write_all-at}

module _ {ℓ} {A : Type ℓ} where
  pub take-length : (t r : List A) → take (length t) (t ++ r) ≡ t
  take-length [] r = refl
  take-length (c ∷ t) r = ap (◌∷◌ c) (take-length t r)

  pub drop-length : (t r : List A) (n : ℕ) → drop (length t + n) (t ++ r) ≡ drop n r
  drop-length [] r n = rw (zero_add n) refl
    where
      zero_add : (m : ℕ) → 0 + m ≡ m
      zero_add m = omega arith
  drop-length (c ∷ t) r n = rw (suc_add (length t) n) (drop-length t r n)
    where
      suc_add : (m k : ℕ) → suc m + k ≡ suc (m + k)
      suc_add m k = omega arith

  pub take-drop : (n : ℕ) (t : List A) → take n t ++ drop n t ≡ t
  take-drop zero t = refl
  take-drop (suc n) [] = refl
  take-drop (suc n) (c ∷ t) = ap (◌∷◌ c) (take-drop n t)

  pub length-drop : (n : ℕ) (t : List A) → length (drop n t) ≤ length t
  length-drop zero t = omega arith
  length-drop (suc n) [] = omega arith
  length-drop (suc n) (c ∷ t) = omega (arith, length-drop n t)

  pub length-take : (n : ℕ) (t : List A) → n ≤ length t → length (take n t) ≡ n
  length-take zero t h = refl
  length-take (suc n) [] h = absurd (omega (arith, h))
  length-take (suc n) (c ∷ t) h = omega (arith, length-take n t (omega (arith, h)))

  pub take_bounds : (n : ℕ) (t : List A) → (length (take n t) ≤ n) × (length (take n t) ≤ length t)
  take_bounds zero t = (omega arith, omega arith)
  take_bounds (suc n) [] = (omega arith, omega arith)
  take_bounds (suc n) (c ∷ t) = omega (arith, take_bounds n t)

  pub take-all : (n : ℕ) (t : List A) → length t ≤ n → take n t ≡ t
  take-all zero [] h = refl
  take-all zero (c ∷ cs) h = absurd (omega (arith, h))
  take-all (suc n) [] h = refl
  take-all (suc n) (c ∷ cs) h = ap (◌∷◌ c) (take-all n cs (omega (arith, h)))

  -- memcpy to the beginning of a buffer
  pub write_all-front :
      (buf vs : List A)
      → length vs ≤ length buf
      → write_all buf 0 vs ≡ some (vs ++ drop (length vs) buf)
  write_all-front buf vs h =
      write_all-at vs (take (length vs) buf) buf [] (drop (length vs) buf) 0
        (sym (take-drop (length vs) buf)) (length-take (length vs) buf h) refl

  drop-rest : (n : ℕ) (t : List A) → n ≤ length t → n + length (drop n t) ≡ length t
  drop-rest zero t h = omega arith
  drop-rest (suc n) [] h = absurd (omega (arith, h))
  drop-rest (suc n) (c ∷ t) h = omega (arith, drop-rest n t (omega (arith, h)))

  -- That memcpy leaves the size of the buffer.
  pub length-front :
      (buf vs : List A) → length vs ≤ length buf → length (vs ++ drop (length vs) buf) ≡ length buf
  length-front buf vs h = length-append vs (drop (length vs) buf) ∙ drop-rest (length vs) buf h
