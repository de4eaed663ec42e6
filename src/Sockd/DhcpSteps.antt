-- ===== src/Sockd/DhcpSteps.antt =====
-- Parts of the program of `create_raw_listen_socket` in src/sockd.c, on a machine.
use ndhc.Common.{
  ℕ, ◌+◌, ◌-◌, ◌%◌, ◌^◌, Bytes, Bool, true, false, some, [], ◌∷◌, ◌≡◌, refl, ap, ◌∙◌, ◌==◌, drop,
  bit_and, if◌then◌else◌,
}
use ndhc.Sockd.Bpf.{
  Program, Registers, Laws, load, loaded, ld, ld_ind, jeq, jset, jeq_x, sub, tax, st, ld_mem, ret,
  ret_a,
}

module _ (run : Program → Registers → Bytes → ℕ) (laws : Laws run) where
  pub run-jset :
      (n k v found : ℕ) (prog : Program) (r : Registers) (p : Bytes)
      → load n k p ≡ some found
      → run (ld n k ∷ jset v 0 1 ∷ ret 0 ∷ prog) r p
        ≡ (if bit_and found v == 0 then run prog (record r { a = found }) p else 0)
  run-jset n k v found prog r p e =
      laws.run_ld n k (jset v 0 1 ∷ ret 0 ∷ prog) r p
      ∙ ap (λ o. loaded o (λ w. run (jset v 0 1 ∷ ret 0 ∷ prog) (record r { a = w }) p)) e
      ∙ laws.run_jset v 0 1 (ret 0 ∷ prog) (record r { a = found }) p
      ∙ go (bit_and found v == 0)
    where
      go :
          (b : Bool)
          → run (drop (if b then 1 else 0) (ret 0 ∷ prog)) (record r { a = found }) p
            ≡ (if b then run prog (record r { a = found }) p else 0)
      go true = refl
      go false = laws.run_ret 0 prog (record r { a = found }) p

  -- A test of a number behind X.
  pub run-test_ind :
      (n k v found : ℕ) (prog : Program) (r : Registers) (p : Bytes)
      → load n (r.x + k) p ≡ some found
      → run (ld_ind n k ∷ jeq v 1 0 ∷ ret 0 ∷ prog) r p
        ≡ (if found == v then run prog (record r { a = found }) p else 0)
  run-test_ind n k v found prog r p e =
      laws.run_ld_ind n k (jeq v 1 0 ∷ ret 0 ∷ prog) r p
      ∙ ap (λ o. loaded o (λ w. run (jeq v 1 0 ∷ ret 0 ∷ prog) (record r { a = w }) p)) e
      ∙ laws.run_jeq v 1 0 (ret 0 ∷ prog) (record r { a = found }) p
      ∙ go (found == v)
    where
      go :
          (b : Bool)
          → run (drop (if b then 1 else 0) (ret 0 ∷ prog)) (record r { a = found }) p
            ≡ (if b then run prog (record r { a = found }) p else 0)
      go true = refl
      go false = laws.run_ret 0 prog (record r { a = found }) p

  -- The comparison of the two lengths, where X is 20.
  pub run-lengths :
      (l t : ℕ) (r : Registers) (p : Bytes)
      → r.x ≡ 20
      → load 2 24 p ≡ some l
      → load 2 2 p ≡ some t
      → run (ld_ind 2 4 ∷ tax ∷ ld 2 2 ∷ st ∷ sub 20 ∷ jeq_x 1 0 ∷ ret 0 ∷ ld_mem ∷ ret_a ∷ []) r p
        ≡ (if ((t + (2 ^ 32 - 20)) % 2 ^ 32) == l then t else 0)
  run-lengths l t r p x e f =
      let r1 = record r { a = l } in
      let r2 = record r1 { x = l } in
      let r3 = record r2 { a = t } in
      let r4 = record r3 { m = t } in
      let r5 = record r4 { a = (t + (2 ^ 32 - 20)) % 2 ^ 32 } in
      let p5 = jeq_x 1 0 ∷ ret 0 ∷ ld_mem ∷ ret_a ∷ [] in
      let p4 = sub 20 ∷ p5 in
      let p2 = ld 2 2 ∷ st ∷ p4 in
      laws.run_ld_ind 2 4 (tax ∷ p2) r p
      ∙ ap (λ o. loaded o (λ w. run (tax ∷ p2) (record r { a = w }) p))
          (ap (λ j. load 2 (j + 4) p) x ∙ e)
      ∙ laws.run_tax p2 r1 p
      ∙ laws.run_ld 2 2 (st ∷ p4) r2 p
      ∙ ap (λ o. loaded o (λ w. run (st ∷ p4) (record r2 { a = w }) p)) f
      ∙ laws.run_st p4 r3 p
      ∙ laws.run_sub 20 p5 r4 p
      ∙ laws.run_jeq_x 1 0 (ret 0 ∷ ld_mem ∷ ret_a ∷ []) r5 p
      ∙ go (((t + (2 ^ 32 - 20)) % 2 ^ 32) == l) r5 refl
    where
      go :
          (b : Bool) (s : Registers)
          → s.m ≡ t
          → run (drop (if b then 1 else 0) (ret 0 ∷ ld_mem ∷ ret_a ∷ [])) s p ≡ (if b then t else 0)
      go true s h =
          laws.run_ld_mem (ret_a ∷ []) s p ∙ laws.run_ret_a [] (record s { a = s.m }) p ∙ h
      go false s h = laws.run_ret 0 (ld_mem ∷ ret_a ∷ []) s p
