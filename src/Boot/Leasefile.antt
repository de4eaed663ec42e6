-- ===== src/Boot/Leasefile.antt =====
-- src/leasefile.c: the file with the address of the lease.
use ndhc.Common.{
  ℕ, zero, suc, ◌+◌, Bytes, Bool, not, none, some, [], ◌∷◌, ◌++◌, leb, length, take, replicate,
  if◌then◌else◌,
}
use ndhc.Common.Process.{suicide, pure, ◌>>=◌, ◌>>◌, get, put, halt}
use ndhc.Ifchange.Text.{inet_ntop}
use ndhc.Boot.World.{B, ask, path_max, set_file, open_write}

-- "/LEASE-"
abbrev pub lease_name : Bytes
lease_name = b'/' ∷ b'L' ∷ b'E' ∷ b'A' ∷ b'S' ∷ b'E' ∷ b'-' ∷ []

abbrev pub leasefile_path : Bytes → Bytes → Bytes
leasefile_path state_dir ifname = state_dir ++ (lease_name ++ ifname)

unfoldable pub get_leasefile_path : Bytes → Bytes → B Bytes
get_leasefile_path state_dir ifname =
    if leb path_max (length (leasefile_path state_dir ifname))
    then halt suicide
    else pure (leasefile_path state_dir ifname)

unfoldable pub open_leasefile : B (Unit {0})
unfolding get_leasefile_path
open_leasefile = do
  w ← get
  leasefile ← get_leasefile_path w.state_dir w.interface
  open_write leasefile
  v ← get
  put (record v { leasefile = some leasefile; leasefile_pos = 0 })

-- INET_ADDRSTRLEN
abbrev pub inet_addrstrlen : ℕ
inet_addrstrlen = 16

-- The calls of `ftruncate` that are interrupted, and the last one.
unfoldable pub retry_trunc : ℕ → B Bool
retry_trunc zero = ask (λ k. k.truncate)
retry_trunc (suc n) = do interrupted ← ask (λ k. k.truncate); retry_trunc n

-- The text is written at the offset of the descriptor; the result of `lseek` is not looked at.
unfoldable pub write_at_pos : Bytes → Bytes → B (Unit {0})
write_at_pos leasefile out = do
  sought ← ask (λ k. k.lseek)
  w ← get
  let pos = if sought then 0 else w.leasefile_pos
  wrote ← ask (λ k n. k.write n (length out))
  elim wrote [
    | none ↦ pure tt
    | some n ↦ do
      set_file leasefile (replicate pos 0 ++ take n out)
      v ← get
      put (record v { leasefile_pos = pos + n })
  ]

unfoldable pub write_leasefile : ℕ → B (Unit {0})
unfolding inet_ntop retry_trunc write_at_pos
write_leasefile ipnum = do
  w ← get
  elim w.leasefile [
    | none ↦ pure tt
    | some leasefile ↦
        let out = inet_ntop ipnum ++ (10 ∷ []) in
        if leb inet_addrstrlen (length out) then pure tt else (do
          interruptions ← ask (λ k. k.interruptions)
          ret ← retry_trunc interruptions
          if not ret then pure tt else (do set_file leasefile []; write_at_pos leasefile out))
  ]
