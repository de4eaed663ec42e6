-- ===== src/Boot/Identifiers.antt =====
-- src/duiaid.c: the identifiers of the host and of the interface, and the client's identifier.
use ndhc.Common.{
  ℕ, ◌+◌, ◌-◌, ◌/◌, ◌%◌, Bytes, not, Option, none, some, [], ◌∷◌, ◌++◌, ltb, leb, ◌==◌, length,
  write_all, be16, if◌then◌else◌,
}
use ndhc.Common.Process.{suicide, pure, ◌>>=◌, ◌>>◌, get, put, halt, checked}
use ndhc.Boot.World.{
  B, ask, path_max, clientid_size, open_read, open_write, read_or_die, write_or_die,
}

-- "/DUID"
abbrev pub duid_name : Bytes
duid_name = b'/' ∷ b'D' ∷ b'U' ∷ b'I' ∷ b'D' ∷ []

-- "/IAID-"
abbrev pub iaid_name : Bytes
iaid_name = b'/' ∷ b'I' ∷ b'A' ∷ b'I' ∷ b'D' ∷ b'-' ∷ []

abbrev pub hex_digit : ℕ → ℕ
hex_digit n = if ltb n 10 then b'0' + n else b'a' + (n - 10)

-- `%2.2x` of each octet, with colons between.
unfoldable pub hex_octets : Bytes → Bytes
hex_octets [] = []
hex_octets (c ∷ []) = hex_digit (c / 16) ∷ hex_digit (c % 16) ∷ []
hex_octets (c ∷ d ∷ cs) = hex_digit (c / 16) ∷ hex_digit (c % 16) ∷ b':' ∷ hex_octets (d ∷ cs)

abbrev pub duid_path : Bytes → Bytes
duid_path state_dir = state_dir ++ duid_name

abbrev pub iaid_path : Bytes → Bytes → Bytes
iaid_path state_dir hwaddr = state_dir ++ (iaid_name ++ hex_octets hwaddr)

unfoldable pub get_duid_path : Bytes → B Bytes
get_duid_path state_dir =
    if leb path_max (length (duid_path state_dir)) then halt suicide else pure (duid_path state_dir)

unfoldable pub get_iaid_path : Bytes → Bytes → B Bytes
get_iaid_path state_dir hwaddr =
    if not (length hwaddr == 6)
    then halt suicide
    else if leb path_max (length (iaid_path state_dir hwaddr))
    then halt suicide
    else pure (iaid_path state_dir hwaddr)

unfoldable pub open_duidfile_read : B (Option Bytes)
unfolding get_duid_path
open_duidfile_read = do w ← get; path ← get_duid_path w.state_dir; open_read path

unfoldable pub open_duidfile_write : B Bytes
unfolding get_duid_path
open_duidfile_write = do w ← get; path ← get_duid_path w.state_dir; open_write path; pure path

unfoldable pub open_iaidfile_read : B (Option Bytes)
unfolding get_iaid_path
open_iaidfile_read = do w ← get; path ← get_iaid_path w.state_dir w.arp; open_read path

unfoldable pub open_iaidfile_write : B Bytes
unfolding get_iaid_path
open_iaidfile_write = do w ← get; path ← get_iaid_path w.state_dir w.arp; open_write path; pure path

-- What a file holds, or what is generated and written to it; the buffer has 64 octets.
unfoldable pub stored : B (Option Bytes) → B Bytes → B Bytes → B Bytes
stored open_file_read generate open_file_write = do
  fd ← open_file_read
  elim fd [
    | some text ↦ read_or_die clientid_size text
    | none ↦ do id ← generate; path ← open_file_write; write_or_die path id; pure id
  ]

-- The type 255, and both identifiers behind it.
abbrev pub cid_octets : Bytes → Bytes → Bytes
cid_octets iaid duid = 255 ∷ (iaid ++ duid)

-- The last part of `get_clientid`.
unfoldable pub join_clientid : Bytes → Bytes → B (Unit {0})
join_clientid iaid duid =
    let cid = cid_octets iaid duid in
    if ltb clientid_size (length cid) then halt suicide else (do
      v ← get
      clientid ← checked (write_all v.clientid 0 cid)
      put (record v { clientid = clientid; clientid_len = length cid }))

-- The octets of a 32-bit number as the host stores them.
module _ (native : ℕ → Bytes) where
  abbrev random_octets : B Bytes
  random_octets = do r32 ← ask (λ k. k.random); pure (native r32)

  -- The type of the identifier, 4, in network order, and 16 random octets; the buffer has room.
  unfoldable pub generate_duid : B Bytes
  generate_duid = do
    r0 ← random_octets
    r1 ← random_octets
    r2 ← random_octets
    r3 ← random_octets
    pure (be16 4 ++ (r0 ++ (r1 ++ (r2 ++ r3))))

  unfoldable pub generate_iaid : B Bytes
  generate_iaid = random_octets

  -- The identifier of the interface.
  unfoldable pub get_iaid : B Bytes
  unfolding stored
  get_iaid = stored open_iaidfile_read generate_iaid open_iaidfile_write

  -- The identifier of the host.
  unfoldable pub get_duid : B Bytes
  unfolding stored
  get_duid = stored open_duidfile_read generate_duid open_duidfile_write

  unfoldable pub get_clientid : B (Unit {0})
  get_clientid = do
    w ← get
    if ltb 0 w.clientid_len
        then pure tt
        else (do iaid ← get_iaid; duid ← get_duid; join_clientid iaid duid)
