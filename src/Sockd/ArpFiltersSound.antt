-- ===== src/Sockd/ArpFiltersSound.antt =====
-- The programs of src/sockd.c against the checks of src/arp.c.
use ndhc.Common.{
  ℕ, ◌+◌, ◌*◌, ◌^◌, ◌<◌, Bytes, some, [], ◌∷◌, ◌++◌, ◌≡◌, refl, sym, ap, ◌∙◌, append_assoc, ◌==◌,
  length, length-append, of_be, be16, be32, AreOctets, arith, if◌then◌else◌,
}
use ndhc.Arp.Message.{arp_validate_bpf}
use ndhc.Master.Client.{ArpMsg}
use ndhc.Sockd.ArpFilters.{arp_ether, ip_lengths, pass_all, basic_tests, arp_set_bpf_basic, frame}
use ndhc.Sockd.Bpf.{Program, Registers, registers, Laws, load, load-at, run-test, ld, jeq, ret}

-- The fields of a message are in the ranges of their types.
abbrev pub IsArpMsg : ArpMsg → Type 0
IsArpMsg m =
    (length m.h_dest ≡ 6)
    × (length m.h_source ≡ 6)
    × (m.h_proto < 2 ^ 16)
    × (m.htype < 2 ^ 16)
    × (m.ptype < 2 ^ 16)
    × (m.hlen < 256)
    × (m.plen < 256)
    × (length m.smac ≡ 6)
    × AreOctets m.smac
    × (m.sip4 < 2 ^ 32)

two_be16 : (a b : ℕ) → a < 2 ^ 16 → b < 2 ^ 16 → of_be 0 (be16 a ++ be16 b) ≡ a * 65536 + b
two_be16 a b h k = omega arith

be16_lengths : (a b c : ℕ) → a < 2 ^ 16 → of_be 0 (be16 a ++ (b ∷ c ∷ [])) ≡ a * 65536 + b * 256 + c
be16_lengths a b c h = omega arith

-- The two words of the tests, and the fields.
words-validate :
    {A : Type 0} (m : ArpMsg) (x y : A)
    → IsArpMsg m
    → (if (m.h_proto * 65536 + m.htype) == arp_ether
        then (if (m.ptype * 65536 + m.hlen * 256 + m.plen) == ip_lengths then x else y)
        else y)
      ≡ (if arp_validate_bpf m then x else y)
unfolding arp_validate_bpf
words-validate m x y (d, s, p, h, q, hl, pl, _, _, _) = ground (arith, p, h, q, hl, pl)

module _ (m : ArpMsg) (rest : Bytes) (w : IsArpMsg m) where
  abbrev pub types : Bytes
  types = be16 m.h_proto ++ be16 m.htype

  abbrev pub lengths : Bytes
  lengths = be16 m.ptype ++ (m.hlen ∷ m.plen ∷ [])

  -- What stands behind the addresses.
  abbrev behind_lengths : Bytes
  behind_lengths =
      be16 m.operation ++ (m.smac ++ (be32 m.sip4 ++ (m.dmac ++ (be32 m.dip4 ++ rest))))

  pub load-types : load 4 12 (frame m rest) ≡ some (m.h_proto * 65536 + m.htype)
  load-types =
      load-at 4 12 (frame m rest) (m.h_dest ++ m.h_source) types (lengths ++ behind_lengths)
        (sym (append_assoc m.h_dest m.h_source (types ++ (lengths ++ behind_lengths))))
        (omega (arith, length-append m.h_dest m.h_source, w.0, w.1)) refl
      ∙ ap some (two_be16 m.h_proto m.htype (w.2) (w.3))

  load-lengths : load 4 16 (frame m rest) ≡ some (m.ptype * 65536 + m.hlen * 256 + m.plen)
  load-lengths =
      load-at 4 16 (frame m rest) (m.h_dest ++ (m.h_source ++ types)) lengths behind_lengths
        (simp append_assoc)
        (omega (
          arith,
          length-append m.h_dest (m.h_source ++ types),
          length-append m.h_source types,
          w.0,
          w.1,
        ))
        refl
      ∙ ap some (be16_lengths m.ptype m.hlen m.plen (w.4))

module _ (run : Program → Registers → Bytes → ℕ) (laws : Laws run) where
  abbrev pub loaded_lengths : ArpMsg → Registers
  loaded_lengths m = record registers { a = m.ptype * 65536 + m.hlen * 256 + m.plen }

  -- The tests of the types and of the lengths are those of `arp_validate_bpf`.
  pub basic_tests-validate :
      (prog : Program) (m : ArpMsg) (rest : Bytes)
      → IsArpMsg m
      → run (basic_tests prog) registers (frame m rest)
        ≡ (if arp_validate_bpf m then run prog (loaded_lengths m) (frame m rest) else 0)
  basic_tests-validate prog m rest w =
      let r = record registers { a = m.h_proto * 65536 + m.htype } in
      run-test run laws 4 12 arp_ether 0 (m.h_proto * 65536 + m.htype)
        (ld 4 16 ∷ jeq ip_lengths 1 0 ∷ ret 0 ∷ prog) registers (frame m rest) (load-types m rest w)
      ∙ ap (λ t. if (m.h_proto * 65536 + m.htype) == arp_ether then t else 0)
          (run-test run laws 4 16 ip_lengths 0 (m.ptype * 65536 + m.hlen * 256 + m.plen) prog r
            (frame m rest) (load-lengths m rest w))
      ∙ words-validate m (run prog (loaded_lengths m) (frame m rest)) 0 w

  -- With the documented machine of the kernel, and for every message with fields in the ranges of
  -- their types, whatever stands behind it in the frame, the basic program passes all octets of
  -- the frame if `arp_validate_bpf` accepts the message, and none otherwise.
  arp_set_bpf_basic-validate :
      (m : ArpMsg) (rest : Bytes)
      → IsArpMsg m
      → run arp_set_bpf_basic registers (frame m rest)
        ≡ (if arp_validate_bpf m then pass_all else 0)
  unfolding arp_set_bpf_basic
  arp_set_bpf_basic-validate m rest w =
      basic_tests-validate (ret pass_all ∷ []) m rest w
      ∙ ap (λ t. if arp_validate_bpf m then t else 0)
          (laws.run_ret pass_all [] (loaded_lengths m) (frame m rest))
