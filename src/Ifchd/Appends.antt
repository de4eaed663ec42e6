-- ===== src/Ifchd/Appends.antt =====
-- What the writers of src/ifchd.c leave in resolv.conf where every call works: each one appends its
-- text at the offset, behind what is there.
use ndhc.Common.{
  ℕ, zero, suc, ◌+◌, ◌≤◌, Bytes, true, Option, none, some, List, [], ◌∷◌, ◌++◌, ◌≡◌, refl, sym, ap,
  subst, ◌∙◌, append_assoc, append-nil, arith, length, take, drop, length-append, take-length,
  drop-length, take-drop, length-drop,
}
use ndhc.Common.Process.{returned, pure, ◌>>=◌, onward}
use ndhc.Ifchd.Resolv.{
  writeordie, writeordie_all, append_parts, write_append_fd, overwrite, finish_resolve_conf,
}
use ndhc.Ifchd.World.{Ifch, Kernel, I, ok}

-- The calls on files work.
pub record Works (k : Kernel) : Type 0 where
  pub lseek : (n : ℕ) → k.lseek n ≡ true
  pub read : (n : ℕ) → k.read n ≡ true
  pub write : (n : ℕ) → k.write n ≡ true
  pub ftruncate : (n : ℕ) → k.ftruncate n ≡ true
  pub fsync : (n : ℕ) → k.fsync n ≡ true

-- The text of a file that may be absent.
abbrev pub contents : Option Bytes → Bytes
contents none = []
contents (some text) = text

unfoldable pub concat : List Bytes → Bytes
concat [] = []
concat (buf ∷ bufs) = buf ++ concat bufs

overwrite-length :
    (t r buf : Bytes) → overwrite (t ++ r) (length t) buf ≡ (t ++ buf) ++ drop (length buf) r
overwrite-length t r buf =
    rw (take-length t r, drop-length t r (length buf))
      (sym (append_assoc t buf (drop (length buf) r)))

shorter :
    (k c : ℕ) (cs : Bytes) (fuel : ℕ)
    → suc (length cs) ≤ suc fuel
    → length (drop (suc k) (c ∷ cs)) ≤ fuel
shorter k c cs fuel h = omega (arith, h, length-drop k cs)

module _ (w : Ifch) (works : Works w.kernel) where
  -- The process with this file, after `n` questions.
  abbrev pub at : Bytes → ℕ → Ifch
  at file n = record w { resolv_conf = some file; tick = n }

  abbrev pub Appends : (ℕ → I ℕ) → Bytes → Type 0
  Appends m buf =
      (t rest : Bytes) (n : ℕ)
      → (rest' : Bytes) × (n' : ℕ) × (m (length t) (at (t ++ rest) n)
          ≡ returned (length (t ++ buf)) (at ((t ++ buf) ++ rest') n'))

  Appends-none : Appends (λ p. pure p) []
  Appends-none t rest n = (rest, n, rw append-nil refl)

  pub Appends-then :
      (m k : ℕ → I ℕ) (a b : Bytes) → Appends m a → Appends k b → Appends (λ p. m p >>= k) (a ++ b)
  Appends-then m k a b h g t rest n =
      let (r1, n1, e1) = h t rest n in
      let (r2, n2, e2) = g (t ++ a) r1 n1 in
      (r2, n2, ap (λ r. onward r k) e1 ∙ e2 ∙ rw (append_assoc t a b) refl)

  pub writeordie-Appends : (buf : Bytes) → Appends (λ p. writeordie p buf) buf
  unfolding writeordie
  writeordie-Appends buf t rest n = (
    drop (length buf) rest,
    n + 1,
    rw (works.write n, overwrite-length t rest buf, length-append t buf) refl,
  )

  pub writeordie_all-Appends :
      (bufs : List Bytes) → Appends (λ p. writeordie_all p bufs) (concat bufs)
  unfolding writeordie_all concat
  writeordie_all-Appends [] t rest n = Appends-none t rest n
  writeordie_all-Appends (buf ∷ bufs) t rest n =
      Appends-then (λ p. writeordie p buf) (λ p. writeordie_all p bufs) buf (concat bufs)
        (writeordie-Appends buf) (writeordie_all-Appends bufs) t rest n

  -- A text of `n` octets needs at most `n` rounds.
  append_parts-Appends :
      (fuel : ℕ) (text : Bytes) → length text ≤ fuel → Appends (λ p. append_parts fuel p text) text
  unfolding append_parts
  append_parts-Appends zero [] h t rest n = Appends-none t rest n
  append_parts-Appends zero (c ∷ cs) h t rest n = absurd (omega (arith, h))
  append_parts-Appends (suc fuel) [] h t rest n = Appends-none t rest n
  append_parts-Appends (suc fuel) (c ∷ cs) h t rest n =
      let (r, n', e) =
        Appends-then (λ p. writeordie p (take 4096 (c ∷ cs)))
          (λ p. append_parts fuel p (drop 4096 (c ∷ cs))) (take 4096 (c ∷ cs)) (drop 4096 (c ∷ cs))
          (writeordie-Appends (take 4096 (c ∷ cs)))
          (append_parts-Appends fuel (drop 4096 (c ∷ cs)) (shorter 4095 c cs fuel h)) t rest
          (n + 1) in
      (
        r,
        n',
        rw (works.read n) (
            subst
              (λ x.
                (writeordie (length t) (take 4096 (c ∷ cs)) >>= λ p.
                append_parts fuel p (drop 4096 (c ∷ cs)))
                  (at (t ++ rest) (n + 1))
                ≡ returned (length (t ++ x)) (at ((t ++ x) ++ r) n'))
              (take-drop 4096 (c ∷ cs)) e),
      )

  pub write_append_fd-Appends :
      (file : Option Bytes) → Appends (λ p. write_append_fd p file) (contents file)
  unfolding write_append_fd
  write_append_fd-Appends none t rest n = Appends-none t rest n
  write_append_fd-Appends (some text) t rest n =
      rw (works.lseek n, works.lseek (n + 1))
        (append_parts-Appends (length text) text (omega arith) t rest (n + 1 + 1))

  -- The end of the file is behind the last write.
  pub finish_resolve_conf_lem :
      (t rest : Bytes) (n : ℕ)
      → (n' : ℕ) × (finish_resolve_conf (length t) (at (t ++ rest) n) ≡ returned ok (at t n'))
  unfolding finish_resolve_conf
  finish_resolve_conf_lem t rest n = (
    n + 1 + 1 + 1,
    rw (works.lseek n, works.ftruncate (n + 1), works.fsync (n + 1 + 1), take-length t rest) refl,
  )
