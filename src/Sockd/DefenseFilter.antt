-- ===== src/Sockd/DefenseFilter.antt =====
-- The program of `arp_set_bpf_defense` of src/sockd.c against `arp_validate_bpf_defense` of src/arp.c.
use ndhc.Common.{
  length-take, ℕ, zero, suc, ◌-◌, Bytes, some, [], ◌∷◌, ◌++◌, ◌≡◌, refl, sym, ap, ◌∙◌, append_assoc,
  ◌==◌, length, length-append, take, drop, of_be, be16, be32, of_be-be32, arith, if◌then◌else◌,
}
use ndhc.Arp.Message.{arp_validate_bpf}
use ndhc.Master.Client.{ArpMsg}
use ndhc.Sockd.ArpFilters.{pass_all, arp_set_bpf_defense, frame}
use ndhc.Sockd.ArpFiltersSound.{IsArpMsg, types, lengths, loaded_lengths, basic_tests-validate}
use ndhc.Sockd.Bpf.{Program, Registers, registers, Laws, load, load-at, run-test, ld, jeq, ret}

take-drop : (n : ℕ) (xs : Bytes) → take n xs ++ drop n xs ≡ xs
take-drop zero xs = refl
take-drop (suc n) [] = refl
take-drop (suc n) (x ∷ xs) = ap (◌∷◌ x) (take-drop n xs)

length-drop : (n : ℕ) (xs : Bytes) → length (drop n xs) ≡ length xs - n
length-drop zero xs = omega arith
length-drop (suc n) [] = omega arith
length-drop (suc n) (x ∷ xs) = omega (arith, length-drop n xs)

module _ (m : ArpMsg) (rest : Bytes) (w : IsArpMsg m) where
  -- What stands before the hardware address of the sender, and behind its protocol address.
  abbrev before_smac : Bytes
  before_smac =
      m.h_dest ++ (m.h_source ++ (types m rest w ++ (lengths m rest w ++ be16 m.operation)))

  abbrev behind_sip4 : Bytes
  behind_sip4 = m.dmac ++ (be32 m.dip4 ++ rest)

  length-before_smac : length before_smac ≡ 22
  length-before_smac = omega (
    arith,
    length-append m.h_dest
        (m.h_source ++ (types m rest w ++ (lengths m rest w ++ be16 m.operation))),
    length-append m.h_source (types m rest w ++ (lengths m rest w ++ be16 m.operation)),
    w.0,
    w.1,
  )

  frame-smac : frame m rest ≡ before_smac ++ (m.smac ++ (be32 m.sip4 ++ behind_sip4))
  frame-smac = simp append_assoc

  load-sip4 : load 4 28 (frame m rest) ≡ some m.sip4
  load-sip4 =
      load-at 4 28 (frame m rest) (before_smac ++ m.smac) (be32 m.sip4) behind_sip4
        (frame-smac ∙ sym (append_assoc before_smac m.smac (be32 m.sip4 ++ behind_sip4)))
        (omega (arith, length-append before_smac m.smac, length-before_smac, w.7)) refl
      ∙ ap some (of_be-be32 m.sip4 (w.9))

  smac_parts :
      m.smac ++ (be32 m.sip4 ++ behind_sip4)
      ≡ take 4 m.smac ++ (drop 4 m.smac ++ (be32 m.sip4 ++ behind_sip4))
  smac_parts =
      ap (λ s. s ++ (be32 m.sip4 ++ behind_sip4)) (sym (take-drop 4 m.smac))
      ∙ append_assoc (take 4 m.smac) (drop 4 m.smac) (be32 m.sip4 ++ behind_sip4)

  load-mac4b : load 4 22 (frame m rest) ≡ some (of_be 0 (take 4 m.smac))
  load-mac4b =
      load-at 4 22 (frame m rest) before_smac (take 4 m.smac)
        (drop 4 m.smac ++ (be32 m.sip4 ++ behind_sip4))
        (frame-smac ∙ ap (λ t. before_smac ++ t) smac_parts) (omega (arith, length-before_smac))
        (sym (length-take 4 m.smac (omega (arith, w.7))))

  load-mac2b : load 2 26 (frame m rest) ≡ some (of_be 0 (drop 4 m.smac))
  load-mac2b =
      load-at 2 26 (frame m rest) (before_smac ++ take 4 m.smac) (drop 4 m.smac)
        (be32 m.sip4 ++ behind_sip4)
        (frame-smac
          ∙ ap (λ t. before_smac ++ t) smac_parts
          ∙ sym (
              append_assoc before_smac (take 4 m.smac)
                (drop 4 m.smac ++ (be32 m.sip4 ++ behind_sip4))))
        (omega (
          arith,
          length-append before_smac (take 4 m.smac),
          length-before_smac,
          length-take 4 m.smac (omega (arith, w.7)),
        ))
        (omega (arith, length-drop 4 m.smac, w.7))

-- What the last tests of the program decide, with the constants that it holds.
abbrev pub defense_tests : ℕ → ℕ → ℕ → ArpMsg → ℕ
defense_tests addr mac4b mac2b m =
    if m.sip4 == addr
    then (if of_be 0 (take 4 m.smac) == mac4b
        then (if of_be 0 (drop 4 m.smac) == mac2b then 0 else pass_all)
        else pass_all)
    else 0

module _ (run : Program → Registers → Bytes → ℕ) (laws : Laws run) where
  pub run-defense :
      (native : Bytes → ℕ) (addr mac : Bytes) (m : ArpMsg) (rest : Bytes)
      → IsArpMsg m
      → run (arp_set_bpf_defense native addr mac) registers (frame m rest) ≡ (
          if arp_validate_bpf m
          then defense_tests (native addr) (native (take 4 mac)) (native (drop 4 mac)) m
          else 0)
  unfolding arp_set_bpf_defense
  run-defense native addr mac m rest w =
      let f = frame m rest in
      let k2 = native (drop 4 mac) in
      let k4 = native (take 4 mac) in
      let last = ld 2 26 ∷ jeq k2 1 0 ∷ ret pass_all ∷ ret 0 ∷ [] in
      let middle = ld 4 22 ∷ jeq k4 1 0 ∷ ret pass_all ∷ last in
      let r0 = loaded_lengths run laws m in
      let r1 = record r0 { a = m.sip4 } in
      let r2 = record r1 { a = of_be 0 (take 4 m.smac) } in
      let r3 = record r2 { a = of_be 0 (drop 4 m.smac) } in
      basic_tests-validate run laws (ld 4 28 ∷ jeq (native addr) 1 0 ∷ ret 0 ∷ middle) m rest w
      ∙ ap (λ t. if arp_validate_bpf m then t else 0)
          (run-test run laws 4 28 (native addr) 0 m.sip4 middle r0 f (load-sip4 m rest w)
            ∙ ap (λ t. if m.sip4 == native addr then t else 0)
                (run-test run laws 4 22 k4 pass_all (of_be 0 (take 4 m.smac)) last r1 f
                    (load-mac4b m rest w)
                  ∙ ap (λ t. if of_be 0 (take 4 m.smac) == k4 then t else pass_all)
                      (run-test run laws 2 26 k2 pass_all (of_be 0 (drop 4 m.smac)) (ret 0 ∷ []) r2
                          f (load-mac2b m rest w)
                        ∙ ap (λ t. if of_be 0 (drop 4 m.smac) == k2 then t else pass_all)
                            (laws.run_ret 0 [] r3 f))))
