-- ===== src/Common/Octets.antt =====
-- Octets of a 16-bit or 32-bit number, in network byte order.
use Prim.Native.Nat.{ℕ, ◌+◌, ◌*◌, ◌/◌, ◌%◌, ◌^◌, ◌<◌}
use mathlib.Core.Path.{◌≡◌}
use mathlib.Core.List.{List, [], ◌∷◌}
use native.Mathlib.Omega.{arith}

abbrev pub Bytes : Type 0
Bytes = List ℕ

abbrev pub AreOctets : Bytes → Type 0
AreOctets [] = Unit {0}
AreOctets (b ∷ bs) = (b < 256) × AreOctets bs

abbrev pub be16 : ℕ → Bytes
be16 n = (n / 2 ^ 8 % 256) ∷ (n % 256) ∷ []

abbrev pub be32 : ℕ → Bytes
be32 n = (n / 2 ^ 24 % 256) ∷ (n / 2 ^ 16 % 256) ∷ (n / 2 ^ 8 % 256) ∷ (n % 256) ∷ []

-- The number that octets stand for.
abbrev pub of_be : ℕ → Bytes → ℕ
of_be acc [] = acc
of_be acc (b ∷ bs) = of_be (acc * 256 + b) bs

pub of_be-be32 : (n : ℕ) → n < 2 ^ 32 → of_be 0 (be32 n) ≡ n
of_be-be32 n h = omega arith
