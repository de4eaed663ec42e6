-- ===== src/Sockd/Endianness.antt =====
-- What the constants of `arp_set_bpf_defense` of src/sockd.c mean on the two kinds of hosts. The source
-- copies octets in network order into integers, and the kernel compares them with numbers that it
-- has converted to the order of the host.
use ndhc.Common.{
  AreOctets, ℕ, zero, ◌+◌, ◌*◌, ◌^◌, ◌<◌, Bytes, Bool, true, false, not, ◌&&◌, [], ◌∷◌, ◌≡◌, ◌≢◌,
  refl, ◌∙◌, subst, ◌==◌, length, take, drop, of_be, be32, of_be-be32, arith, if◌then◌else◌,
}
use ndhc.Arp.Message.{arp_validate_bpf, arp_validate_bpf_defense}
use ndhc.Ifchange.Changes.{same_bytes}
use ndhc.Master.Client.{ArpMsg, ClientState, Config}
use ndhc.Sockd.ArpFilters.{pass_all, arp_set_bpf_defense, frame}
use ndhc.Sockd.ArpFiltersSound.{IsArpMsg}
use ndhc.Sockd.Bpf.{Program, Registers, registers, Laws}
use ndhc.Sockd.DefenseFilter.{run-defense}

-- The number that octets are on a little-endian host; on a big-endian one it is `of_be 0`.
abbrev pub of_le : Bytes → ℕ
of_le [] = 0
of_le (b ∷ bs) = b + 256 * of_le bs

six : (xs : Bytes) → length xs ≡ 6 → (a b c d e f : ℕ) × (xs ≡ a ∷ b ∷ c ∷ d ∷ e ∷ f ∷ [])
six (a ∷ b ∷ c ∷ d ∷ e ∷ f ∷ []) h = (a, b, c, d, e, f, refl)
six [] h = absurd (omega (arith, h))
six (a ∷ []) h = absurd (omega (arith, h))
six (a ∷ b ∷ []) h = absurd (omega (arith, h))
six (a ∷ b ∷ c ∷ []) h = absurd (omega (arith, h))
six (a ∷ b ∷ c ∷ d ∷ []) h = absurd (omega (arith, h))
six (a ∷ b ∷ c ∷ d ∷ e ∷ []) h = absurd (omega (arith, h))
six (a ∷ b ∷ c ∷ d ∷ e ∷ f ∷ g ∷ r) h = absurd (omega (arith, h))

four_octets :
    (a b c d a' b' c' d' : ℕ)
    → AreOctets (a ∷ b ∷ c ∷ d ∷ [])
    → AreOctets (a' ∷ b' ∷ c' ∷ d' ∷ [])
    → (of_be 0 (a ∷ b ∷ c ∷ d ∷ []) == of_be 0 (a' ∷ b' ∷ c' ∷ d' ∷ []))
      ≡ (a == a' && (b == b' && (c == c' && d == d')))
four_octets a b c d a' b' c' d' o p = ground (arith, o, p)

two_octets :
    (a b a' b' : ℕ)
    → AreOctets (a ∷ b ∷ [])
    → AreOctets (a' ∷ b' ∷ [])
    → (of_be 0 (a ∷ b ∷ []) == of_be 0 (a' ∷ b' ∷ [])) ≡ (a == a' && b == b')
two_octets a b a' b' o p = ground (arith, o, p)

if_and :
    {A : Type 0} (a b c d e f : Bool) (x y : A)
    → (if a && (b && (c && d)) then (if e && f then x else y) else y)
      ≡ (if a && (b && (c && (d && (e && (f && true))))) then x else y)
if_and false b c d e f x y = refl
if_and true false c d e f x y = refl
if_and true true false d e f x y = refl
if_and true true true false e f x y = refl
if_and true true true true false f x y = refl
if_and true true true true true false x y = refl
if_and true true true true true true x y = refl

-- Two hardware addresses are the same if their first four and their last two octets are.
mac_parts :
    {A : Type 0} (xs ys : Bytes) (x y : A)
    → length xs ≡ 6
    → length ys ≡ 6
    → AreOctets xs
    → AreOctets ys
    → (if of_be 0 (take 4 xs) == of_be 0 (take 4 ys)
        then (if of_be 0 (drop 4 xs) == of_be 0 (drop 4 ys) then x else y)
        else y)
      ≡ (if same_bytes xs ys then x else y)
unfolding same_bytes
mac_parts xs ys x y l k o p =
    let (a, b, c, d, e, f, i) = six xs l in
    let (a', b', c', d', e', f', j) = six ys k in
    let (oa, (ob, (oc, (od, (oe, (of, _)))))) = subst AreOctets i o in
    let (pa, (pb, (pc, (pd, (pe, (pf, _)))))) = subst AreOctets j p in
    rw
      (
        i,
        j,
        four_octets a b c d a' b' c' d' (oa, (ob, (oc, (od, tt)))) (pa, (pb, (pc, (pd, tt)))),
        two_octets e f e' f' (oe, (of, tt)) (pe, (pf, tt)),
      )
      (if_and (a == a') (b == b') (c == c') (d == d') (e == e') (f == f') x y)

module _ (run : Program → Registers → Bytes → ℕ) (laws : Laws run) where
  -- With the documented machine of the kernel, on a big-endian host, for our address and hardware
  -- address, and for every message with fields in the ranges of their types, the program passes
  -- all octets of the frame if both `arp_validate_bpf` and `arp_validate_bpf_defense` accept the
  -- message, and none otherwise.
  pub arp_set_bpf_defense-validate :
      (conf : Config) (cs : ClientState) (m : ArpMsg) (rest : Bytes)
      → IsArpMsg m
      → length conf.arp ≡ 6
      → AreOctets conf.arp
      → cs.client_addr < 2 ^ 32
      → run (arp_set_bpf_defense (of_be 0) (be32 cs.client_addr) conf.arp) registers (frame m rest)
        ≡ (if arp_validate_bpf m && arp_validate_bpf_defense conf cs m then pass_all else 0)
  unfolding arp_validate_bpf_defense
  arp_set_bpf_defense-validate conf cs m rest w l o b =
      run-defense run laws (of_be 0) (be32 cs.client_addr) conf.arp m rest w
      ∙ rw (of_be-be32 cs.client_addr b, mac_parts m.smac conf.arp 0 pass_all (w.7) l (w.8) o)
          (join (arp_validate_bpf m) (m.sip4 == cs.client_addr) (same_bytes m.smac conf.arp))
    where
      join :
          (v s h : Bool)
          → (if v then (if s then (if h then 0 else pass_all) else 0) else 0)
            ≡ (if v && (if not s then false else if h then false else true) then pass_all else 0)
      join false s h = refl
      join true false h = refl
      join true true false = refl
      join true true true = refl

  -- With the documented machine of the kernel, on a little-endian host, where our address differs
  -- from the number that its octets are there, the program drops every message that claims our
  -- address.
  pub arp_set_bpf_defense-drops :
      (mac : Bytes) (m : ArpMsg) (rest : Bytes)
      → IsArpMsg m
      → m.sip4 ≢ of_le (be32 m.sip4)
      → run (arp_set_bpf_defense of_le (be32 m.sip4) mac) registers (frame m rest) ≡ 0
  arp_set_bpf_defense-drops mac m rest w d =
      run-defense run laws of_le (be32 m.sip4) mac m rest w
      ∙ rw (differs m.sip4 (of_le (be32 m.sip4)) d) (both (arp_validate_bpf m))
    where
      differs : (a b : ℕ) → a ≢ b → (a == b) ≡ false
      differs a b h = ground (arith, h)

      both : (v : Bool) → (if v then zero else zero) ≡ zero
      both true = refl
      both false = refl
