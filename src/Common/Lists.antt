-- ===== src/Common/Lists.antt =====
-- Lists measured and indexed by native numbers, under the library's names, and buffers: a read or
-- a write outside a buffer is `none`.
use Prim.Native.Nat.{ℕ, zero, suc, ◌+◌, ◌≤◌, ◌<◌}
use mathlib.Core.Path.{◌≡◌, refl, ap, ◌∙◌}
use mathlib.Core.List.{List, [], ◌∷◌, ◌++◌, append_assoc}
use mathlib.Core.Option
use mathlib.Core.Option.{Option, none, some}
use native.Mathlib.Omega.{arith}

module _ {ℓ} {A : Type ℓ} where
  abbrev pub length : List A → ℕ
  length [] = 0
  length (x ∷ xs) = suc (length xs)

  abbrev pub get_elem? : List A → ℕ → Option A
  get_elem? [] i = none
  get_elem? (x ∷ xs) zero = some x
  get_elem? (x ∷ xs) (suc i) = get_elem? xs i

  abbrev pub take : ℕ → List A → List A
  take zero xs = []
  take (suc n) [] = []
  take (suc n) (x ∷ xs) = x ∷ take n xs

  abbrev pub drop : ℕ → List A → List A
  drop zero xs = xs
  drop (suc n) [] = []
  drop (suc n) (x ∷ xs) = drop n xs

  abbrev pub replicate : ℕ → A → List A
  replicate zero a = []
  replicate (suc n) a = a ∷ replicate n a

  -- buf[i] = v
  unfoldable pub write : List A → ℕ → A → Option (List A)
  write [] i v = none
  write (x ∷ xs) zero v = some (v ∷ xs)
  write (x ∷ xs) (suc i) v = Option.map (◌∷◌ x) (write xs i v)

  -- memcpy of `n` items from `buf + i`
  unfoldable pub read_range : ℕ → ℕ → List A → Option (List A)
  read_range zero zero xs = some []
  read_range zero (suc n) [] = none
  read_range zero (suc n) (x ∷ xs) = Option.map (◌∷◌ x) (read_range zero n xs)
  read_range (suc i) n [] = none
  read_range (suc i) n (x ∷ xs) = read_range i n xs

  pub length-append : (xs ys : List A) → length (xs ++ ys) ≡ length xs + length ys
  length-append [] ys = omega arith
  length-append (x ∷ xs) ys = omega (arith, length-append xs ys)

module _ {ℓ} {A : Type ℓ} where
  -- memcpy to `buf + i`
  unfoldable pub write_all : List A → ℕ → List A → Option (List A)
  write_all buf i [] = some buf
  write_all buf i (v ∷ vs) = elim (write buf i v) [ none ↦ none | some b ↦ write_all b (suc i) vs ]

  pub get_elem?-lt : (xs : List A) (i : ℕ) → i < length xs → (x : A) × (get_elem? xs i ≡ some x)
  get_elem?-lt [] i h = elim h [ ]
  get_elem?-lt (x ∷ xs) zero h = (x, refl)
  get_elem?-lt (x ∷ xs) (suc i) h = get_elem?-lt xs i (omega arith)

  pub get_elem?-append :
      (xs ys : List A) (i : ℕ) → get_elem? (xs ++ ys) (length xs + i) ≡ get_elem? ys i
  get_elem?-append [] ys i = ap (get_elem? ys) (omega arith)
  get_elem?-append (x ∷ xs) ys i =
      ap (get_elem? (x ∷ xs ++ ys)) {x = suc (length xs) + i} {y = suc (length xs + i)}
        (omega arith)
      ∙ get_elem?-append xs ys i

  pub read_range-length :
      (xs : List A) (i n : ℕ)
      → i + n ≤ length xs
      → (v : List A) × (read_range i n xs ≡ some v) × (length v ≡ n)
  unfolding read_range
  read_range-length xs zero zero h = ([], refl, refl)
  read_range-length [] zero (suc n) h = absurd (omega arith)
  read_range-length (x ∷ xs) zero (suc n) h =
      let (v, e, l) = read_range-length xs zero n (omega arith) in (x ∷ v, rw e, ap suc l)
  read_range-length [] (suc i) n h = absurd (omega arith)
  read_range-length (x ∷ xs) (suc i) n h = read_range-length xs i n (omega arith)

module _ {ℓ} {A : Type ℓ} where
  -- What stands behind a prefix of a buffer.
  pub get_elem?-first :
      (buf pre xs : List A) (x : A) (i : ℕ)
      → buf ≡ pre ++ (x ∷ xs)
      → i ≡ length pre
      → get_elem? buf i ≡ some x
  get_elem?-first buf pre xs x i e n =
      rw (e, n)
        (ap (get_elem? (pre ++ (x ∷ xs))) {x = length pre} {y = length pre + 0} (omega arith)
          ∙ get_elem?-append pre (x ∷ xs) 0)

  pub get_elem?-second :
      (buf pre xs : List A) (x y : A) (i : ℕ)
      → buf ≡ pre ++ (x ∷ y ∷ xs)
      → i ≡ length pre
      → get_elem? buf (i + 1) ≡ some y
  get_elem?-second buf pre xs x y i e n = rw (e, n) (get_elem?-append pre (x ∷ y ∷ xs) 1)

  read_range-append :
      (pre v xs : List A) → read_range (length pre) (length v) (pre ++ (v ++ xs)) ≡ some v
  unfolding read_range
  read_range-append [] [] xs = refl
  read_range-append [] (x ∷ v) xs = rw (read_range-append [] v xs)
  read_range-append (p ∷ pre) v xs = read_range-append pre v xs

  pub read_range-at :
      (buf pre v xs : List A) (i : ℕ)
      → buf ≡ pre ++ (v ++ xs)
      → i ≡ length pre
      → read_range i (length v) buf ≡ some v
  read_range-at buf pre v xs i e n = rw (e, n) (read_range-append pre v xs)

module _ {ℓ} {A : Type ℓ} where
  write-append :
      (pre xs : List A) (x v : A) → write (pre ++ (x ∷ xs)) (length pre) v ≡ some (pre ++ (v ∷ xs))
  unfolding write
  write-append [] xs x v = refl
  write-append (p ∷ pre) xs x v = rw (write-append pre xs x v)

  pub write-at :
      (buf pre xs : List A) (x v : A) (i : ℕ)
      → buf ≡ pre ++ (x ∷ xs)
      → i ≡ length pre
      → write buf i v ≡ some (pre ++ (v ∷ xs))
  write-at buf pre xs x v i e n = rw (e, n) (write-append pre xs x v)

  pub write_all-at :
      (vs old : List A) (buf pre xs : List A) (i : ℕ)
      → buf ≡ pre ++ (old ++ xs)
      → length old ≡ length vs
      → i ≡ length pre
      → write_all buf i vs ≡ some (pre ++ (vs ++ xs))
  unfolding write_all
  write_all-at [] [] buf pre xs i e l n = ap some e
  write_all-at [] (o ∷ old) buf pre xs i e l n = absurd (omega (arith, l))
  write_all-at (v ∷ vs) [] buf pre xs i e l n = absurd (omega (arith, l))
  write_all-at (v ∷ vs) (o ∷ old) buf pre xs i e l n =
      rw (write-at buf pre (old ++ xs) o v i e n, write_all)
        (write_all-at vs old (pre ++ (v ∷ (old ++ xs))) (pre ++ (v ∷ [])) xs (suc i)
            (simp append_assoc) (omega (arith, l)) (omega (arith, n, length-append pre (v ∷ [])))
          ∙ ap some (simp append_assoc))

  pub write_all_one : (buf : List A) (i : ℕ) (v : A) → write_all buf i (v ∷ []) ≡ write buf i v
  unfolding write_all
  write_all_one buf i v = ground arith

  -- A list is long enough to be cut after one item, `n` items and one more.
  pub split_room :
      (n : ℕ) (xs : List A)
      → 2 + n ≤ length xs
      → (a z : A) × (old r : List A) × (xs ≡ a ∷ (old ++ (z ∷ r))) × (length old ≡ n)
  split_room n [] h = absurd (omega arith)
  split_room zero (a ∷ []) h = absurd (omega arith)
  split_room zero (a ∷ z ∷ r) h = (a, z, [], r, refl, refl)
  split_room (suc n) (a ∷ []) h = absurd (omega arith)
  split_room (suc n) (a ∷ b ∷ r) h =
      let (c, z, old, s, e, l) = split_room n (a ∷ r) (omega arith) in
      (a, z, b ∷ old, s, cc, ap suc l)
