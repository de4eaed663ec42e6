-- ===== src/Master/Ipc.antt =====
-- How ndhc-master asks the other processes: `request_sockd_fd` of src/sockd.c, `ifchwrite` and
-- `carrier_isup` of src/ifchange.c.
use ndhc.Common.{ℕ, Bytes, Bool, false, Option, [], ◌∷◌, ◌==◌, if◌then◌else◌}
use ndhc.Master.World.{
  M, pure, ◌>>=◌, ◌>>◌, halt, emit, ask, no_reply, reply, write_failed, hung_up, recv_failed,
  answer, asked_sockd, told_ifch, suicide, exit_success,
}

-- `request_sockd_fd`, for a request whose first octet is `c`; `want` says whether the caller takes
-- the octet of the reply.
unfoldable pub request_sockd_fd : ℕ → Bytes → Bool → M (ℕ × Option ℕ)
request_sockd_fd c args want = do
  emit (asked_sockd (c ∷ args))
  r ← ask (λ e. e.sockd)
  elim r [
    | no_reply ↦ halt suicide
    | reply repc fd ↦
        if want then pure (repc, fd) else if repc == c then pure (repc, fd) else halt suicide
  ]

-- "carrier:;"
abbrev pub carrier_command : Bytes
carrier_command = b'c' ∷ b'a' ∷ b'r' ∷ b'r' ∷ b'i' ∷ b'e' ∷ b'r' ∷ b':' ∷ b';' ∷ []

-- Whether ndhc-ifch answered the one octet '+'.
unfoldable pub ifchwrite : Bytes → M Bool
ifchwrite buf = do
  emit (told_ifch buf)
  r ← ask (λ e. e.ifch)
  elim r [
    | write_failed ↦ pure false
    | hung_up ↦ halt exit_success
    | recv_failed ↦ halt suicide
    | answer (c ∷ []) ↦ pure (c == b'+')
    | answer _ ↦ pure false
  ]

unfoldable pub carrier_isup : M Bool
carrier_isup = ifchwrite carrier_command
