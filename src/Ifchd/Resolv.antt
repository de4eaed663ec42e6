-- ===== src/Ifchd/Resolv.antt =====
-- `write_resolve_conf` of src/ifchd.c, its helpers, and the commands that need no netlink.
use ndhc.Common.{
  ℕ, zero, suc, ◌+◌, ◌-◌, Bytes, Option, none, some, List, [], ◌∷◌, ◌++◌, ◌==◌, ltb, length, take,
  drop, if◌then◌else◌,
}
use ndhc.Common.Process.{suicide, pure, ◌>>=◌, ◌>>◌, get, put, halt}
use ndhc.Ifchd.World.{I, ask, Code, ok, failed}

abbrev pub max_buf : ℕ
max_buf = 1024

abbrev pub set_file : Bytes → I (Unit {0})
set_file file = do w ← get; put (record w { resolv_conf = some file })

-- The octets of a file after a write at an offset that it reaches.
abbrev pub overwrite : Bytes → ℕ → Bytes → Bytes
overwrite file pos buf = take pos file ++ (buf ++ drop (pos + length buf) file)

-- One write at the file's offset, and the offset behind it. Where it fails the process ends, and
-- what was written of the text does not matter.
unfoldable pub writeordie : ℕ → Bytes → I ℕ
writeordie pos buf = do
  wrote ← ask (λ k. k.write)
  if wrote
      then (do
        w ← get
        elim w.resolv_conf [
          | none ↦ halt suicide
          | some file ↦ do set_file (overwrite file pos buf); pure (pos + length buf)
        ])
      else halt suicide

unfoldable pub writeordie_all : ℕ → List Bytes → I ℕ
unfolding writeordie
writeordie_all pos [] = pure pos
writeordie_all pos (buf ∷ bufs) = do next ← writeordie pos buf; writeordie_all next bufs

-- The loop of `write_append_fd`; a text of `n` octets has at most `n` parts of 4096 octets.
unfoldable pub append_parts : ℕ → ℕ → Bytes → I ℕ
unfolding writeordie
append_parts zero pos text = pure pos
append_parts (suc fuel) pos [] = pure pos
append_parts (suc fuel) pos (c ∷ cs) = do
  r ← ask (λ k. k.read)
  if r
      then (do
        next ← writeordie pos (take 4096 (c ∷ cs))
        append_parts fuel next (drop 4096 (c ∷ cs)))
      else halt suicide

-- The result is not used by the callers.
unfoldable pub write_append_fd : ℕ → Option Bytes → I ℕ
unfolding append_parts
write_append_fd pos none = pure pos
write_append_fd pos (some text) = do
  to_end ← ask (λ k. k.lseek)
  if to_end
      then (do
        to_start ← ask (λ k. k.lseek)
        if to_start then append_parts (length text) pos text else pure pos)
      else pure pos

abbrev pub cons_first : ℕ → List Bytes → List Bytes
cons_first c [] = (c ∷ []) ∷ []
cons_first c (piece ∷ pieces) = (c ∷ piece) ∷ pieces

-- The strings that the loops cut a list into; nothing stands behind a comma at its end.
unfoldable pub pieces : Bytes → List Bytes
pieces [] = []
pieces (c ∷ cs) = if c == b',' then [] ∷ pieces cs else cons_first c (pieces cs)

-- The loops put a NUL where a comma was.
unfoldable pub before_comma : Bytes → Bytes
before_comma [] = []
before_comma (c ∷ cs) = let rest = before_comma cs in if c == b',' then [] else c ∷ rest

abbrev pub newline : Bytes
newline = 10 ∷ []

-- "nameserver "
abbrev pub ns_str : Bytes
ns_str = b'n' ∷ b'a' ∷ b'm' ∷ b'e' ∷ b's' ∷ b'e' ∷ b'r' ∷ b'v' ∷ b'e' ∷ b'r' ∷ b' ' ∷ []

-- "domain "
abbrev pub dom_str : Bytes
dom_str = b'd' ∷ b'o' ∷ b'm' ∷ b'a' ∷ b'i' ∷ b'n' ∷ b' ' ∷ []

-- "search "
abbrev pub srch_str : Bytes
srch_str = b's' ∷ b'e' ∷ b'a' ∷ b'r' ∷ b'c' ∷ b'h' ∷ b' ' ∷ []

-- What the first loop gives to `writeordie`.
unfoldable pub nameserver_writes : List Bytes → List Bytes
nameserver_writes [] = []
nameserver_writes (p ∷ ps) = ns_str ∷ p ∷ newline ∷ nameserver_writes ps

-- What the second loop gives to it.
unfoldable pub domain_writes : ℕ → List Bytes → List Bytes
domain_writes numdoms [] = []
domain_writes numdoms (p ∷ ps) =
    let rest = domain_writes (numdoms + 1) ps in
    (if numdoms == 0
      then dom_str ∷ p ∷ []
      else if numdoms == 1
      then newline ∷ srch_str ∷ p ∷ []
      else (b' ' ∷ []) ∷ p ∷ [])
    ++ (if ltb 6 (numdoms + 1) then [] else rest)

-- The end of `write_resolve_conf`.
unfoldable pub finish_resolve_conf : ℕ → I Code
finish_resolve_conf pos = do
  off ← ask (λ k. k.lseek)
  if off
      then (do
        cut ← ask (λ k. k.ftruncate)
        if cut
            then (do
              w ← get
              elim w.resolv_conf [
                | none ↦ pure failed
                | some file ↦ do
                  set_file (take pos file)
                  synced ← ask (λ k. k.fsync)
                  pure (if synced then ok else failed)
              ])
            else pure failed)
      else pure failed

-- The strings that are left in the buffers.
unfoldable pub cut_strings : Bytes → Bytes → I (Unit {0})
unfolding before_comma
cut_strings namesvrs domains = do
  w ← get
  put (record w { namesvrs = before_comma namesvrs; domains = before_comma domains })

-- The writes, from the file's beginning on.
unfoldable pub write_contents : Bytes → Bytes → Option Bytes → Option Bytes → I Code
unfolding write_append_fd writeordie_all nameserver_writes domain_writes pieces finish_resolve_conf
    cut_strings
write_contents namesvrs domains head tail = do
  p1 ← write_append_fd 0 head
  p2 ← writeordie_all p1 (nameserver_writes (pieces namesvrs))
  p3 ← writeordie_all p2 (domain_writes 0 (pieces domains))
  p4 ← writeordie p3 newline
  p5 ← write_append_fd p4 tail
  cut_strings namesvrs domains
  finish_resolve_conf p5

unfoldable pub write_resolve_conf : I Code
unfolding write_contents
write_resolve_conf = do
  w ← get
  elim w.resolv_conf [
    | none ↦ pure ok
    | some _ ↦ elim w.namesvrs [
      | [] ↦ pure failed
      | _ ∷ _ ↦ do
        to_start ← ask (λ k. k.lseek)
        if to_start then write_contents w.namesvrs w.domains w.head w.tail else pure failed
    ]
  ]

-- Without the file there is nothing to do.
abbrev with_file : I Code → I Code
with_file k = do w ← get; elim w.resolv_conf [ none ↦ pure ok | some _ ↦ k ]

unfoldable pub perform_dns : Bytes → I Code
perform_dns str = with_file (
    if ltb max_buf (length str)
    then pure failed
    else (do w ← get; put (record w { namesvrs = take (max_buf - 1) str }); write_resolve_conf))

unfoldable pub perform_domain : Bytes → I Code
perform_domain str = with_file (
    if ltb max_buf (length str)
    then pure failed
    else (do w ← get; put (record w { domains = take (max_buf - 1) str }); write_resolve_conf))

unfoldable pub perform_hostname : Bytes → I Code
perform_hostname str = do
  w ← get
  if w.allow_hostname
      then (do
        set ← ask (λ k. k.sethostname)
        if set
            then (do v ← get; put (record v { hostnames = str ∷ v.hostnames }); pure ok)
            else pure failed)
      else pure ok
