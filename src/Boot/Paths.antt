-- ===== src/Boot/Paths.antt =====
-- The names of the files of src/duiaid.c.
use ndhc.Common.{
  ℕ, ◌/◌, ◌%◌, ◌<◌, Bytes, false, [], ◌∷◌, ◌++◌, ◌≡◌, refl, sym, ap, ◌∙◌, ◌⊎◌, inl, inr, ◌==◌,
  Bool-cases, leb, length, AreOctets, arith,
}
use ndhc.Common.Process.{returned, suicide, pure, halt}
use ndhc.Ifchange.Changes.{same_bytes}
use ndhc.Boot.Identifiers.{
  get_duid_path, get_iaid_path, duid_path, iaid_path, duid_name, iaid_name, hex_octets, hex_digit,
}
use ndhc.Boot.World.{Boot, path_max}

same_bytes-append : (d a b : Bytes) → same_bytes (d ++ a) (d ++ b) ≡ same_bytes a b
unfolding same_bytes
same_bytes-append [] a b = refl
same_bytes-append (c ∷ d) a b = ground (arith, same_bytes-append d a b)

-- The two files are different ones.
pub iaid_path-duid_path : (d hwaddr : Bytes) → same_bytes (iaid_path d hwaddr) (duid_path d) ≡ false
unfolding same_bytes
iaid_path-duid_path d hwaddr = same_bytes-append d (iaid_name ++ hex_octets hwaddr) duid_name ∙ refl

pub get_duid_path-cases :
    (d : Bytes) → (get_duid_path d ≡ halt suicide) ⊎ (get_duid_path d ≡ pure (duid_path d))
unfolding get_duid_path
get_duid_path-cases d = elim (Bool-cases (leb path_max (length (duid_path d)))) [
  | inl e ↦ inl (rw e refl)
  | inr e ↦ inr (rw e refl)
]

pub get_iaid_path-cases :
    (d hwaddr : Bytes)
    → (get_iaid_path d hwaddr ≡ halt suicide) ⊎ (get_iaid_path d hwaddr ≡ pure (iaid_path d hwaddr))
unfolding get_iaid_path
get_iaid_path-cases d hwaddr = elim (Bool-cases (length hwaddr == 6)) [
  | inr e ↦ inl (rw e refl)
  | inl e ↦ elim (Bool-cases (leb path_max (length (iaid_path d hwaddr)))) [
    | inl g ↦ inl (rw (e, g) refl)
    | inr g ↦ inr (rw (e, g) refl)
  ]
]

hex_digit-injective : (m n : ℕ) → m < 16 → n < 16 → hex_digit m ≡ hex_digit n → m ≡ n
hex_digit-injective m n h k e = ground (arith, h, k, e)

octet-injective :
    (c d : ℕ)
    → c < 256
    → d < 256
    → hex_digit (c / 16) ≡ hex_digit (d / 16)
    → hex_digit (c % 16) ≡ hex_digit (d % 16)
    → c ≡ d
octet-injective c d h k high low =
    let quotient = hex_digit-injective (c / 16) (d / 16) (omega arith) (omega arith) high in
    let rest = hex_digit-injective (c % 16) (d % 16) (omega arith) (omega arith) low in
    omega (arith, quotient, rest)

hex_octets-injective :
    (a b : Bytes)
    → AreOctets a
    → AreOctets b
    → length a ≡ length b
    → hex_octets a ≡ hex_octets b
    → a ≡ b
unfolding hex_octets
hex_octets-injective [] [] oa ob l e = refl
hex_octets-injective [] (d ∷ b) oa ob l e = absurd (omega (arith, l))
hex_octets-injective (c ∷ a) [] oa ob l e = absurd (omega (arith, l))
hex_octets-injective (c ∷ []) (d ∷ []) (oc, _) (od, _) l e =
    ap (λ x. x ∷ []) (octet-injective c d oc od (cc) (cc))
hex_octets-injective (c ∷ []) (d ∷ d2 ∷ b) oa ob l e = absurd (omega (arith, l))
hex_octets-injective (c ∷ c2 ∷ a) (d ∷ []) oa ob l e = absurd (omega (arith, l))
hex_octets-injective (c ∷ c2 ∷ a) (d ∷ d2 ∷ b) (oc, oa) (od, ob) l e =
    let first = octet-injective c d oc od (cc) (cc) in
    let rest = hex_octets-injective (c2 ∷ a) (d2 ∷ b) oa ob (omega (arith, l)) (cc) in cc

append-cancel : (d a b : Bytes) → d ++ a ≡ d ++ b → a ≡ b
append-cancel [] a b e = e
append-cancel (c ∷ d) a b e = append-cancel d a b (cc)

get_iaid_path-name :
    (d a path : Bytes) (u u' : Boot)
    → get_iaid_path d a u ≡ returned path u'
    → (length a ≡ 6) × (path ≡ iaid_path d a)
unfolding get_iaid_path
get_iaid_path-name d a path u u' e = ground (arith, e)

-- Two hardware addresses of six octets whose files for the identifier have one name, in whatever
-- directory, are the same: two interfaces of a host never share an identifier.
get_iaid_path-injective :
    (d a b path : Bytes) (u v u' v' : Boot)
    → AreOctets a
    → AreOctets b
    → get_iaid_path d a u ≡ returned path u'
    → get_iaid_path d b v ≡ returned path v'
    → a ≡ b
get_iaid_path-injective d a b path u v u' v' oa ob e g =
    let (la, pa) = get_iaid_path-name d a path u u' e in
    let (lb, pb) = get_iaid_path-name d b path v v' g in
    hex_octets-injective a b oa ob (la ∙ sym lb) (
      append-cancel iaid_name (hex_octets a) (hex_octets b)
        (append-cancel d (iaid_name ++ hex_octets a) (iaid_name ++ hex_octets b) (sym pa ∙ pb)))
