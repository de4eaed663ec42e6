-- ===== src/Sockd/Bpf.antt =====
-- The instructions of the classic BPF that src/sockd.c uses, and what it relies on of the kernel's
-- machine for them.
use ndhc.Common.{
  ℕ, ◌+◌, ◌-◌, ◌*◌, ◌%◌, ◌^◌, Bytes, Bool, true, false, Option, none, some, List, ◌∷◌, ◌++◌, ◌≡◌,
  refl, ap, ◌∙◌, ◌==◌, length, drop, read_range, read_range-at, of_be, bit_and, if◌then◌else◌,
}

-- `ld n k` is BPF_LD of `n` octets at `k`, `ld_ind n k` at X + `k`; `ldx_msh k` is BPF_LDX with
-- BPF_MSH; a jump skips the first or the second number of instructions; the arguments are unsigned.
pub data SockFilter : Type 0 where
  ld ld_ind : (n k : ℕ) → SockFilter
  ldx_msh : ℕ → SockFilter
  jeq jset : (k jt jf : ℕ) → SockFilter
  jeq_x : (jt jf : ℕ) → SockFilter
  sub : ℕ → SockFilter
  tax st ld_mem ret_a : SockFilter
  ret : ℕ → SockFilter

abbrev pub Program : Type 0
Program = List SockFilter

-- The accumulator, the index register, and M[0].
pub record Registers : Type 0 where
  pub a : ℕ
  pub x : ℕ
  pub m : ℕ

abbrev pub registers : Registers
registers = record { a = 0; x = 0; m = 0 }

-- The number of `n` octets in network order, where the packet has them.
abbrev pub number : Option Bytes → Option ℕ
number none = none
number (some v) = some (of_be 0 v)

abbrev pub load : ℕ → ℕ → Bytes → Option ℕ
load n k packet = number (read_range k n packet)

-- A load outside the packet ends the program with 0.
abbrev pub loaded : Option ℕ → (ℕ → ℕ) → ℕ
loaded none k = 0
loaded (some v) k = k v

-- What the kernel documents of its machine: `run` gives the number of octets that pass, for the rest
-- of a program.
pub record Laws (run : Program → Registers → Bytes → ℕ) : Type 0 where
  pub run_ld :
      (n k : ℕ) (prog : Program) (r : Registers) (p : Bytes)
      → run (ld n k ∷ prog) r p ≡ loaded (load n k p) (λ v. run prog (record r { a = v }) p)
  pub run_ld_ind :
      (n k : ℕ) (prog : Program) (r : Registers) (p : Bytes)
      → run (ld_ind n k ∷ prog) r p
        ≡ loaded (load n (r.x + k) p) (λ v. run prog (record r { a = v }) p)
  pub run_ldx_msh :
      (k : ℕ) (prog : Program) (r : Registers) (p : Bytes)
      → run (ldx_msh k ∷ prog) r p
        ≡ loaded (load 1 k p) (λ v. run prog (record r { x = 4 * bit_and v 0xf }) p)
  pub run_jeq :
      (k jt jf : ℕ) (prog : Program) (r : Registers) (p : Bytes)
      → run (jeq k jt jf ∷ prog) r p ≡ run (drop (if r.a == k then jt else jf) prog) r p
  pub run_jset :
      (k jt jf : ℕ) (prog : Program) (r : Registers) (p : Bytes)
      → run (jset k jt jf ∷ prog) r p ≡ run (drop (if bit_and r.a k == 0 then jf else jt) prog) r p
  pub run_jeq_x :
      (jt jf : ℕ) (prog : Program) (r : Registers) (p : Bytes)
      → run (jeq_x jt jf ∷ prog) r p ≡ run (drop (if r.a == r.x then jt else jf) prog) r p
  pub run_sub :
      (k : ℕ) (prog : Program) (r : Registers) (p : Bytes)
      → run (sub k ∷ prog) r p ≡ run prog (record r { a = (r.a + (2 ^ 32 - k)) % 2 ^ 32 }) p
  pub run_tax :
      (prog : Program) (r : Registers) (p : Bytes)
      → run (tax ∷ prog) r p ≡ run prog (record r { x = r.a }) p
  pub run_st :
      (prog : Program) (r : Registers) (p : Bytes)
      → run (st ∷ prog) r p ≡ run prog (record r { m = r.a }) p
  pub run_ld_mem :
      (prog : Program) (r : Registers) (p : Bytes)
      → run (ld_mem ∷ prog) r p ≡ run prog (record r { a = r.m }) p
  pub run_ret : (k : ℕ) (prog : Program) (r : Registers) (p : Bytes) → run (ret k ∷ prog) r p ≡ k
  pub run_ret_a : (prog : Program) (r : Registers) (p : Bytes) → run (ret_a ∷ prog) r p ≡ r.a

-- The number that stands behind a part of a packet.
pub load-at :
    (n k : ℕ) (packet pre v rest : Bytes)
    → packet ≡ pre ++ (v ++ rest)
    → k ≡ length pre
    → n ≡ length v
    → load n k packet ≡ some (of_be 0 v)
load-at n k packet pre v rest e i l =
    ap (λ j. load j k packet) l ∙ ap number (read_range-at packet pre v rest k e i)

module _ (run : Program → Registers → Bytes → ℕ) (laws : Laws run) where
  -- A test of the programs: a number is loaded and compared, and another one ends the program.
  pub run-test :
      (n k v result found : ℕ) (prog : Program) (r : Registers) (packet : Bytes)
      → load n k packet ≡ some found
      → run (ld n k ∷ jeq v 1 0 ∷ ret result ∷ prog) r packet
        ≡ (if found == v then run prog (record r { a = found }) packet else result)
  run-test n k v result found prog r packet e =
      laws.run_ld n k (jeq v 1 0 ∷ ret result ∷ prog) r packet
      ∙ ap (λ o. loaded o (λ w. run (jeq v 1 0 ∷ ret result ∷ prog) (record r { a = w }) packet)) e
      ∙ laws.run_jeq v 1 0 (ret result ∷ prog) (record r { a = found }) packet
      ∙ go (found == v)
    where
      go :
          (b : Bool)
          → run (drop (if b then 1 else 0) (ret result ∷ prog)) (record r { a = found }) packet
            ≡ (if b then run prog (record r { a = found }) packet else result)
      go true = refl
      go false = laws.run_ret result prog (record r { a = found }) packet
