-- ===== src/Boot/Clientid.antt =====
-- The client's identifier of src/duiaid.c, and what a later start of the program finds.
use ndhc.Common.{
  ℕ, ◌≤◌, Bytes, true, false, Option, some, ◌++◌, ◌≡◌, refl, sym, ap, subst, ◌∙◌, inl, inr, ltb,
  Bool-cases, take, drop, length, take-length, write_all-front, arith,
}
use ndhc.Common.Process.{Run, returned, ended, fault, suicide, pure, ◌>>=◌, onward}
use ndhc.Boot.Identifiers.{
  iaid_path, duid_path, get_duid_path, get_iaid_path, get_iaid, get_duid, get_clientid,
  join_clientid, generate_iaid, generate_duid, cid_octets,
}
use ndhc.Boot.Paths.{iaid_path-duid_path}
use ndhc.Boot.Persists.{Found, get_iaid-Found, get_duid-Found, get_iaid-at, get_duid-at}
use ndhc.Boot.Stored.{stored-again}
use ndhc.Boot.World.{Kernel, Boot, B}

-- What the files of the identifiers hold, `iaid` and `duid`, makes the client's identifier.
abbrev pub Identified : Boot → Run Boot (Unit {0}) → Type 0
Identified w (returned _ v) =
    (iaid duid : Bytes) × (get_iaid_path w.state_dir w.arp ≡ pure (iaid_path w.state_dir w.arp))
    × (get_duid_path w.state_dir ≡ pure (duid_path w.state_dir))
    × (v.files (iaid_path w.state_dir w.arp) ≡ some iaid)
    × (v.files (duid_path w.state_dir) ≡ some duid)
    × (length (cid_octets (take 64 iaid) (take 64 duid)) ≤ 64)
    × (v ≡ record w {
      clientid =
          cid_octets (take 64 iaid) (take 64 duid)
          ++ drop (length (cid_octets (take 64 iaid) (take 64 duid))) w.clientid;
      clientid_len = length (cid_octets (take 64 iaid) (take 64 duid));
      files = v.files;
      tick = v.tick;
    })
Identified w (ended e v) = Unit {0}
Identified w fault = ⊥

join_clientid_lem :
    (iaid duid : Bytes) (w : Boot)
    → length w.clientid ≡ 64
    → length (cid_octets iaid duid) ≤ 64
    → join_clientid iaid duid w
      ≡ returned tt (record w {
        clientid = cid_octets iaid duid ++ drop (length (cid_octets iaid duid)) w.clientid;
        clientid_len = length (cid_octets iaid duid);
      })
unfolding join_clientid
join_clientid_lem iaid duid w size fits =
    let small : ltb 64 (length (cid_octets iaid duid)) ≡ false = ground (arith, fits) in
    rw (small, write_all-front w.clientid (cid_octets iaid duid) (omega (arith, size, fits))) refl

join_clientid_long :
    (iaid duid : Bytes) (w : Boot)
    → ltb 64 (length (cid_octets iaid duid)) ≡ true
    → join_clientid iaid duid w ≡ ended suicide w
unfolding join_clientid
join_clientid_long iaid duid w long = rw long refl

short-le : (n : ℕ) → ltb 64 n ≡ false → n ≤ 64
short-le n h = ground (arith, h)

-- A later start of the program, on the same files, with anything in the array.
abbrev pub restarted : Boot → Kernel → Bytes → Boot
restarted v k clientid = record v { clientid = clientid; clientid_len = 0; kernel = k; tick = 0 }

-- That start where it has the identifier of the earlier one.
abbrev pub identified_again : Boot → Kernel → Bytes → Boot
identified_again v k clientid = record v {
  clientid = take v.clientid_len v.clientid ++ drop v.clientid_len clientid;
  kernel = k;
  tick = 4;
}

module _ (native : ℕ → Bytes) (native_length : (n : ℕ) → length (native n) ≡ 4) where
  new_clientid : B (Unit {0})
  new_clientid = get_iaid native >>= λ iaid. get_duid native >>= λ duid. join_clientid iaid duid

  get_clientid-new : (w : Boot) → w.clientid_len ≡ 0 → get_clientid native w ≡ new_clientid w
  unfolding get_clientid new_clientid
  get_clientid-new w e = rw e refl

  join-Identified :
      (w : Boot) (iaid duid : Bytes) (files : Bytes → Option Bytes) (n : ℕ)
      → length w.clientid ≡ 64
      → get_iaid_path w.state_dir w.arp ≡ pure (iaid_path w.state_dir w.arp)
      → get_duid_path w.state_dir ≡ pure (duid_path w.state_dir)
      → files (iaid_path w.state_dir w.arp) ≡ some iaid
      → files (duid_path w.state_dir) ≡ some duid
      → Identified w
          (join_clientid (take 64 iaid) (take 64 duid) (record w { files = files; tick = n }))
  join-Identified w iaid duid files n size p q i d =
      let cid = cid_octets (take 64 iaid) (take 64 duid) in
      let u = record w { files = files; tick = n } in
      elim (Bool-cases (ltb 64 (length cid))) [
        | inl long ↦ rw (join_clientid_long (take 64 iaid) (take 64 duid) u long) tt
        | inr short ↦
            let fits = short-le (length cid) short in
            rw (join_clientid_lem (take 64 iaid) (take 64 duid) u size fits)
              (iaid, duid, p, q, i, d, fits, refl)
      ]

  with_duid :
      (w : Boot) (iaid : Bytes) (files : Bytes → Option Bytes) (n : ℕ)
      → length w.clientid ≡ 64
      → get_iaid_path w.state_dir w.arp ≡ pure (iaid_path w.state_dir w.arp)
      → files (iaid_path w.state_dir w.arp) ≡ some iaid
      → (r : Run Boot Bytes)
      → Found
          (get_duid_path w.state_dir)
          (duid_path w.state_dir)
          (record w { files = files; tick = n })
          r
      → Identified w (onward r (join_clientid (take 64 iaid)))
  with_duid w iaid files n size p i (returned id v) (q, (duid, d, cut, others, same)) =
      let kept = others (iaid_path w.state_dir w.arp) (iaid_path-duid_path w.state_dir w.arp) ∙ i in
      subst (λ x. Identified w (join_clientid (take 64 iaid) x v)) (sym cut)
        (subst (λ u. Identified w (join_clientid (take 64 iaid) (take 64 duid) u)) (sym same)
          (join-Identified w iaid duid v.files v.tick size p q kept d))
  with_duid w iaid files n size p i (ended e v) h = tt
  with_duid w iaid files n size p i fault h = h

  with_iaid :
      (w : Boot)
      → length w.clientid ≡ 64
      → (r : Run Boot Bytes)
      → Found (get_iaid_path w.state_dir w.arp) (iaid_path w.state_dir w.arp) w r
      → Identified w (onward r (λ iaid. get_duid native >>= join_clientid iaid))
  with_iaid w size (returned id v) (p, (iaid, i, cut, others, same)) =
      subst (λ x. Identified w ((get_duid native >>= join_clientid x) v)) (sym cut)
        (subst (λ u. Identified w ((get_duid native >>= join_clientid (take 64 iaid)) u)) (sym same)
          (with_duid w iaid v.files v.tick size p i
            (get_duid native (record w { files = v.files; tick = v.tick }))
            (get_duid-Found native native_length (record w { files = v.files; tick = v.tick }))))
  with_iaid w size (ended e v) h = tt
  with_iaid w size fault h = h

  -- Without an identifier from the configuration, whatever the kernel answers: `get_clientid` does
  -- not write outside the array, and unless it ends the process, it makes the identifier of the
  -- octet 255 and what the two files then hold, the IAID and the DUID, and nothing but the files and the identifier has changed.
  pub get_clientid-Identified :
      (w : Boot)
      → w.clientid_len ≡ 0
      → length w.clientid ≡ 64
      → Identified w (get_clientid native w)
  unfolding new_clientid
  get_clientid-Identified w unset size =
      subst (Identified w) (sym (get_clientid-new w unset))
        (with_iaid w size (get_iaid native w) (get_iaid-Found native native_length w))

  again :
      (w : Boot) (k : Kernel) (clientid iaid duid : Bytes)
      → get_iaid_path w.state_dir w.arp ≡ pure (iaid_path w.state_dir w.arp)
      → get_duid_path w.state_dir ≡ pure (duid_path w.state_dir)
      → w.files (iaid_path w.state_dir w.arp) ≡ some iaid
      → w.files (duid_path w.state_dir) ≡ some duid
      → length (cid_octets (take 64 iaid) (take 64 duid)) ≤ 64
      → ((n : ℕ) → k.open_read n ≡ true)
      → ((n : ℕ) → k.read n ≡ true)
      → length clientid ≡ 64
      → let cid = cid_octets (take 64 iaid) (take 64 duid) in
        get_clientid native (restarted w k clientid)
        ≡ returned tt (record w {
          clientid = cid ++ drop (length cid) clientid;
          clientid_len = length cid;
          kernel = k;
          tick = 4;
        })
  unfolding new_clientid
  again w k clientid iaid duid p q i d fits opens reads size =
      let u = restarted w k clientid in
      let u2 = record u { tick = 2 } in
      let e1 =
        get_iaid-at native native_length u p
        ∙ stored-again (iaid_path w.state_dir w.arp) iaid (generate_iaid native) u i (opens 0)
            (reads 1) in
      let e2 =
        get_duid-at native native_length u2 q
        ∙ stored-again (duid_path w.state_dir) duid (generate_duid native) u2 d (opens 2)
            (reads 3) in
      get_clientid-new u refl
      ∙ ap (λ r. onward r (λ x. get_duid native >>= join_clientid x)) e1
      ∙ ap (λ r. onward r (join_clientid (take 64 iaid))) e2
      ∙ join_clientid_lem (take 64 iaid) (take 64 duid) (record u { tick = 4 }) size fits

  -- Where `get_clientid` has made an identifier, and the program starts again on the same files,
  -- which it can open and read: `get_clientid` makes the same identifier, over whatever 64 octets the
  -- array holds, and writes no file.
  pub get_clientid-again :
      (w v : Boot) (k : Kernel) (clientid : Bytes)
      → w.clientid_len ≡ 0
      → length w.clientid ≡ 64
      → get_clientid native w ≡ returned tt v
      → ((n : ℕ) → k.open_read n ≡ true)
      → ((n : ℕ) → k.read n ≡ true)
      → length clientid ≡ 64
      → get_clientid native (restarted v k clientid) ≡ returned tt (identified_again v k clientid)
  get_clientid-again w v k clientid unset size made opens reads size' =
      moved (subst (Identified w) made (get_clientid-Identified w unset size))
    where
      moved :
          Identified w (returned tt v)
          → get_clientid native (restarted v k clientid)
            ≡ returned tt (identified_again v k clientid)
      moved (iaid, duid, p, q, i, d, fits, same) =
          let cid = cid_octets (take 64 iaid) (take 64 duid) in
          subst
            (λ x.
              get_clientid native (restarted x k clientid)
              ≡ returned tt (identified_again x k clientid))
            (sym same)
            (again (record w { files = v.files }) k clientid iaid duid p q i d fits opens reads
                size'
              ∙ ap
                  (λ t. returned tt (record w {
                    clientid = t ++ drop (length cid) clientid;
                    clientid_len = length cid;
                    files = v.files;
                    kernel = k;
                    tick = 4;
                  }))
                  (sym (take-length cid (drop (length cid) w.clientid))))
