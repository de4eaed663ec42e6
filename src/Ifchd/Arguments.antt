-- ===== src/Ifchd/Arguments.antt =====
-- Arguments that the automata of src/ifchd-parse.rl accept or not, and prefix lengths of src/ifset.c.
use ndhc.Common.{
  ℕ, zero, suc, ◌-◌, ◌^◌, ◌≤◌, ◌<◌, Bool, true, false, ◌&&◌, Option, none, some, ◌≡◌, refl, ap, inl,
  inr, lt_or_le, subst, ◌==◌, arith,
}
use ndhc.Ifchd.Numbers.{trailz, subnet4_to_prefixlen}

-- The number of a mask of `n` ones.
abbrev pub netmask : ℕ → ℕ
netmask n = 2 ^ 32 - 2 ^ (32 - n)

abbrev all_below : ℕ → (ℕ → Bool) → Bool
all_below zero test = true
all_below (suc n) test = test n && all_below n test

at_below : (test : ℕ → Bool) (m n : ℕ) → all_below m test ≡ true → n < m → test n ≡ true
at_below test zero n h l = absurd (omega arith)
at_below test (suc m) n h l = elim (lt_or_le n m) [
  | inl k ↦ at_below test m n (and_right (test m) h) k
  | inr k ↦ subst (λ j. test j ≡ true) (omega arith) (and_left (test m) h)
]
  where
    and_left : (a : Bool) → (a && all_below m test) ≡ true → a ≡ true
    and_left true e = refl
    and_left false e = e

    and_right : (a : Bool) → (a && all_below m test) ≡ true → all_below m test ≡ true
    and_right true e = e
    and_right false e = absurd (cc)

abbrev is_value : ℕ → Option ℕ → Bool
is_value n none = false
is_value n (some p) = p == n

some_of_is_value : (n : ℕ) (o : Option ℕ) → is_value n o ≡ true → o ≡ some n
some_of_is_value n none e = absurd (cc)
some_of_is_value n (some p) e = ap some (ground arith)

-- The prefix length of each contiguous mask, that of no ones included, is the number of its ones.
pub subnet4_to_prefixlen-netmask : (n : ℕ) → n ≤ 32 → subnet4_to_prefixlen (netmask n) ≡ some n
unfolding subnet4_to_prefixlen trailz
subnet4_to_prefixlen-netmask n h =
    some_of_is_value n (subnet4_to_prefixlen (netmask n))
      (at_below (λ j. is_value j (subnet4_to_prefixlen (netmask j))) 33 n refl (omega arith))
