-- ===== src/Boot/Persists.antt =====
-- `get_clientid` of src/duiaid.c as a whole, and what a later start of the program finds.
use ndhc.Common.{
  ℕ, ◌+◌, Bytes, ◌++◌, ◌≡◌, refl, sym, ap, subst, inl, inr, length, length-append, arith,
}
use ndhc.Common.Process.{Run, returned, ended, fault, pure, ◌>>=◌, onward}
use ndhc.Boot.Identifiers.{
  iaid_path, duid_path, get_duid_path, get_iaid_path, open_duidfile_read, open_duidfile_write,
  open_iaidfile_read, open_iaidfile_write, stored, generate_iaid, generate_duid, get_iaid, get_duid,
}
use ndhc.Boot.Paths.{get_duid_path-cases, get_iaid_path-cases}
use ndhc.Boot.Stored.{Generates, Stored, stored-Stored, stored-at, stored-suicide}
use ndhc.Boot.World.{Boot, B, open_read, open_write}

-- The name of the file is this one, and the result is what it holds.
abbrev pub Found : B Bytes → Bytes → Boot → Run Boot Bytes → Type 0
Found get_path path w (returned id v) = (get_path ≡ pure path) × Stored path w (returned id v)
Found get_path path w (ended e v) = Unit {0}
Found get_path path w fault = ⊥

Found-Stored :
    (get_path : B Bytes) (path : Bytes) (w : Boot) (r : Run Boot Bytes)
    → get_path ≡ pure path
    → Stored path w r
    → Found get_path path w r
Found-Stored get_path path w (returned id v) e h = (e, h)
Found-Stored get_path path w (ended x v) e h = tt
Found-Stored get_path path w fault e h = h

module _ (native : ℕ → Bytes) (native_length : (n : ℕ) → length (native n) ≡ 4) where
  pub generate_iaid-Generates : Generates (generate_iaid native)
  unfolding generate_iaid
  generate_iaid-Generates w = (_, _, refl, omega (arith, native_length (w.kernel.random w.tick)))

  pub generate_duid-Generates : Generates (generate_duid native)
  unfolding generate_duid
  generate_duid-Generates w =
      let r = λ (n : ℕ). native (w.kernel.random n) in
      let n = w.tick in
      (
        _,
        _,
        refl,
        omega (
          arith,
          native_length (w.kernel.random n),
          native_length (w.kernel.random (n + 1)),
          native_length (w.kernel.random (n + 1 + 1)),
          native_length (w.kernel.random (n + 1 + 1 + 1)),
          length-append (r n) (r (n + 1) ++ (r (n + 1 + 1) ++ r (n + 1 + 1 + 1))),
          length-append (r (n + 1)) (r (n + 1 + 1) ++ r (n + 1 + 1 + 1)),
          length-append (r (n + 1 + 1)) (r (n + 1 + 1 + 1)),
        ),
      )

  pub get_iaid-at :
      (w : Boot)
      → get_iaid_path w.state_dir w.arp ≡ pure (iaid_path w.state_dir w.arp)
      → let path = iaid_path w.state_dir w.arp in
        get_iaid native w
        ≡ stored (open_read path) (generate_iaid native) (open_write path >>= λ _. pure path) w
  unfolding get_iaid open_iaidfile_read open_iaidfile_write
  get_iaid-at w e =
      stored-at (iaid_path w.state_dir w.arp) open_iaidfile_read open_iaidfile_write
        (generate_iaid native) generate_iaid-Generates w
        (λ n. ap (λ (g : B Bytes). onward (g (record w { tick = n })) open_read) e)
        (λ n.
          ap
            (λ (g : B Bytes).
              onward (g (record w { tick = n })) (λ p. open_write p >>= λ _. pure p))
            e)

  pub get_duid-at :
      (w : Boot)
      → get_duid_path w.state_dir ≡ pure (duid_path w.state_dir)
      → let path = duid_path w.state_dir in
        get_duid native w
        ≡ stored (open_read path) (generate_duid native) (open_write path >>= λ _. pure path) w
  unfolding get_duid open_duidfile_read open_duidfile_write
  get_duid-at w e =
      stored-at (duid_path w.state_dir) open_duidfile_read open_duidfile_write
        (generate_duid native) generate_duid-Generates w
        (λ n. ap (λ (g : B Bytes). onward (g (record w { tick = n })) open_read) e)
        (λ n.
          ap
            (λ (g : B Bytes).
              onward (g (record w { tick = n })) (λ p. open_write p >>= λ _. pure p))
            e)

  pub get_iaid-Found :
      (w : Boot)
      → Found (get_iaid_path w.state_dir w.arp) (iaid_path w.state_dir w.arp) w (get_iaid native w)
  unfolding get_iaid open_iaidfile_read
  get_iaid-Found w =
      let path = iaid_path w.state_dir w.arp in
      let get_path = get_iaid_path w.state_dir w.arp in
      elim (get_iaid_path-cases w.state_dir w.arp) [
        | inl e ↦
            subst (Found get_path path w)
              (sym (
                stored-suicide open_iaidfile_read (generate_iaid native) open_iaidfile_write w
                  (ap (λ (g : B Bytes). onward (g w) open_read) e)))
              tt
        | inr e ↦ subst (Found get_path path w) (sym (get_iaid-at w e)) (
            Found-Stored get_path path w _ e
              (stored-Stored path (generate_iaid native) generate_iaid-Generates w))
      ]

  pub get_duid-Found :
      (w : Boot) → Found (get_duid_path w.state_dir) (duid_path w.state_dir) w (get_duid native w)
  unfolding get_duid open_duidfile_read
  get_duid-Found w =
      let path = duid_path w.state_dir in
      let get_path = get_duid_path w.state_dir in
      elim (get_duid_path-cases w.state_dir) [
        | inl e ↦
            subst (Found get_path path w)
              (sym (
                stored-suicide open_duidfile_read (generate_duid native) open_duidfile_write w
                  (ap (λ (g : B Bytes). onward (g w) open_read) e)))
              tt
        | inr e ↦ subst (Found get_path path w) (sym (get_duid-at w e)) (
            Found-Stored get_path path w _ e
              (stored-Stored path (generate_duid native) generate_duid-Generates w))
      ]
