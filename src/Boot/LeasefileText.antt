-- ===== src/Boot/LeasefileText.antt =====
-- What `write_leasefile` of src/leasefile.c leaves in the file.
use ndhc.Common.{
  ℕ, zero, suc, ◌+◌, ◌/◌, ◌%◌, ◌^◌, ◌≤◌, ◌<◌, Bytes, true, false, some, [], ◌∷◌, ◌++◌, ◌≡◌, refl,
  ltb, leb, length, take-all, length-append, arith,
}
use ndhc.Common.Process.{returned}
use ndhc.Ifchange.Text.{inet_ntop, show_u32, digits}
use ndhc.Boot.Leasefile.{write_leasefile, write_at_pos, retry_trunc}
use ndhc.Boot.World.{Boot, Kernel, update}

-- The calls on the file work; some may be interrupted.
pub record Works (k : Kernel) : Type 0 where
  pub truncate : (n : ℕ) → k.truncate n ≡ true
  pub lseek : (n : ℕ) → k.lseek n ≡ true
  pub write : (n len : ℕ) → k.write n len ≡ some len

retry_trunc_lem :
    (n : ℕ) (w : Boot)
    → Works w.kernel
    → (m : ℕ) × (retry_trunc n w ≡ returned true (record w { tick = m }))
unfolding retry_trunc
retry_trunc_lem zero w h = (w.tick + 1, rw (h.truncate w.tick) refl)
retry_trunc_lem (suc n) w h = retry_trunc_lem n (record w { tick = w.tick + 1 }) h

three_digits : (n : ℕ) → 100 ≤ n → n < 256 → length (show_u32 n) ≡ 3
unfolding show_u32 digits
three_digits n h k =
    let e1 : ltb n 10 ≡ false = ground (arith, h) in
    let e2 : ltb (n / 10) 10 ≡ false = ground (arith, h) in
    let e3 : ltb (n / 10 / 10) 10 ≡ true = ground (arith, k) in rw (e1, e2, e3) refl

write_at_pos_lem :
    (leasefile out : Bytes) (w : Boot)
    → Works w.kernel
    → write_at_pos leasefile out w
      ≡ returned tt (record w {
        files = update leasefile out w.files;
        leasefile_pos = length out;
        tick = w.tick + 1 + 1;
      })
unfolding write_at_pos
write_at_pos_lem leasefile out w h =
    let zero_add : 0 + length out ≡ length out = omega arith in
    rw
      (
        h.write (w.tick + 1) (length out),
        h.lseek w.tick,
        take-all (length out) out (omega arith),
        zero_add,
      )
      refl

fits_out : (n m : ℕ) → m ≡ n + 1 → n ≤ 14 → leb 16 m ≡ false
fits_out n m e h = ground (arith, e, h)

-- Where every call works, however often the call of `ftruncate` is interrupted, and for an address whose
-- text has at most 14 octets: the file holds the text and a newline, whatever it held before.
pub write_leasefile_lem :
    (w : Boot) (leasefile : Bytes) (ip : ℕ)
    → Works w.kernel
    → length (inet_ntop ip) ≤ 14
    → let out = inet_ntop ip ++ (10 ∷ []) in
      (n : ℕ) × (write_leasefile ip (record w { leasefile = some leasefile })
        ≡ returned tt (record w {
          leasefile = some leasefile;
          files = update leasefile out (update leasefile [] w.files);
          leasefile_pos = length out;
          tick = n;
        }))
unfolding write_leasefile
write_leasefile_lem w leasefile ip h fits =
    let out = inet_ntop ip ++ (10 ∷ []) in
    let short =
      fits_out (length (inet_ntop ip)) (length out) (length-append (inet_ntop ip) (10 ∷ [])) fits in
    let u = record w { leasefile = some leasefile; tick = w.tick + 1 } in
    let (m, g) = retry_trunc_lem (w.kernel.interruptions w.tick) u h in
    (
      m + 1 + 1,
      rw (short, g)
          (write_at_pos_lem leasefile out
            (record u { files = update leasefile [] w.files; tick = m }) h),
    )

long_text :
    (a b c d : ℕ)
    → length (show_u32 a) ≡ 3
    → length (show_u32 b) ≡ 3
    → length (show_u32 c) ≡ 3
    → length (show_u32 d) ≡ 3
    → length (
        (show_u32 a ++ (b'.' ∷ (show_u32 b ++ (b'.' ∷ (show_u32 c ++ (b'.' ∷ show_u32 d))))))
        ++ (10 ∷ []))
      ≡ 16
long_text a b c d ha hb hc hd =
    let t3 = show_u32 c ++ (b'.' ∷ show_u32 d) in
    let t2 = show_u32 b ++ (b'.' ∷ t3) in
    let t1 = show_u32 a ++ (b'.' ∷ t2) in
    omega (
      arith,
      ha,
      hb,
      hc,
      hd,
      length-append t1 (10 ∷ []),
      length-append (show_u32 a) (b'.' ∷ t2),
      length-append (show_u32 b) (b'.' ∷ t3),
      length-append (show_u32 c) (b'.' ∷ show_u32 d),
    )

-- An address with three digits in each of its four parts is not written, whatever the kernel would
-- answer: the file stays as it is, with the address of an earlier lease.
pub write_leasefile-lost :
    (w : Boot) (leasefile : Bytes) (ip : ℕ)
    → 100 ≤ ip / 2 ^ 24 % 256
    → 100 ≤ ip / 2 ^ 16 % 256
    → 100 ≤ ip / 2 ^ 8 % 256
    → 100 ≤ ip % 256
    → write_leasefile ip (record w { leasefile = some leasefile })
      ≡ returned tt (record w { leasefile = some leasefile })
unfolding write_leasefile inet_ntop
write_leasefile-lost w leasefile ip a b c d =
    let part = λ (n : ℕ) (h : 100 ≤ n) (k : n < 256). three_digits n h k in
    let e =
      long_text (ip / 2 ^ 24 % 256) (ip / 2 ^ 16 % 256) (ip / 2 ^ 8 % 256) (ip % 256)
        (part _ a (omega arith)) (part _ b (omega arith)) (part _ c (omega arith))
        (part _ d (omega arith)) in
    rw e refl
