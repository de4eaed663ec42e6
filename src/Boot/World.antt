-- ===== src/Boot/World.antt =====
-- The state of ndhc before it splits into processes: the part of `client_config` that is filled in,
-- the directory `state_dir`, and the files, by their paths.
--
-- The kernel is `Kernel`: each question is numbered by `tick`, and the answer may be anything.
use ndhc.Common.{
  ℕ, ◌+◌, Bytes, Bool, Option, List, none, some, [], take, ◌==◌, length, if◌then◌else◌,
}
use ndhc.Common.Process.{Process, returned, suicide, pure, ◌>>=◌, ◌>>◌, get, put, halt}
use ndhc.Ifchd.World.{NlMsg}
use ndhc.Ifchange.Changes.{same_bytes}

-- What `safe_recvmsg` on a netlink socket gives: nothing yet, an error, or the messages of a datagram,
-- with the flag MSG_TRUNC and the length of the sender's address.
pub data Recvmsg : Type 0 where
  nothing_yet recv_error : Recvmsg
  datagram : Bool → ℕ → List NlMsg → Recvmsg

-- What `poll` without a timeout gives: 1, or an error, which may be EINTR.
pub data Poll : Type 0 where
  ready interrupted poll_error : Poll

-- `interruptions` is how often a call of `ftruncate` ends with EINTR before it has the result
-- `truncate`. `write` gets the number of octets, and gives how many were written.
pub record Kernel : Type 0 where
  pub open_read : ℕ → Bool
  pub open_write : ℕ → Bool
  pub read : ℕ → Bool
  pub write : ℕ → ℕ → Option ℕ
  pub random : ℕ → ℕ
  pub socket : ℕ → Bool
  pub clock : ℕ → Option ℕ
  pub sendto : ℕ → Bool
  pub poll : ℕ → Poll
  pub answer : ℕ → List Recvmsg
  pub interruptions : ℕ → ℕ
  pub truncate : ℕ → Bool
  pub lseek : ℕ → Bool

-- `clientid` is the whole array of 64 octets, `interface` the name without its NUL, and `sockets` the
-- number of sockets that are open. `leasefile` is the name of the open file for the lease, and
-- `leasefile_pos` the offset of its descriptor. The last request to netlink comes first in `requests`.
pub record Boot : Type 0 where
  pub clientid : Bytes
  pub clientid_len : ℕ
  pub arp : Bytes
  pub state_dir : Bytes
  pub interface : Bytes
  pub ifindex : ℕ
  pub sockets : ℕ
  pub requests : List NlMsg
  pub leasefile : Option Bytes
  pub leasefile_pos : ℕ
  pub files : Bytes → Option Bytes
  pub kernel : Kernel
  pub tick : ℕ

abbrev pub B : Type 0 → Type 0
B A = Process Boot A

abbrev pub ask : {A : Type 0} → (Kernel → ℕ → A) → B A
ask q w = returned (q w.kernel w.tick) (record w { tick = w.tick + 1 })

-- PATH_MAX, and the size of the array for the client's identifier
abbrev pub path_max : ℕ
path_max = 4096

abbrev pub clientid_size : ℕ
clientid_size = 64

abbrev pub update : Bytes → Bytes → (Bytes → Option Bytes) → Bytes → Option Bytes
update path text files p = if same_bytes p path then some text else files p

abbrev pub set_file : Bytes → Bytes → B (Unit {0})
set_file path text = do w ← get; put (record w { files = update path text w.files })

-- `open` with O_RDONLY: the octets of the file, if there is one.
abbrev pub open_read : Bytes → B (Option Bytes)
open_read path = do
  allowed ← ask (λ k. k.open_read)
  w ← get
  pure (if allowed then w.files path else none)

-- `open` with O_WRONLY, O_TRUNC and O_CREAT
abbrev pub open_write : Bytes → B (Unit {0})
open_write path = do
  allowed ← ask (λ k. k.open_write)
  if allowed then set_file path [] else halt suicide

-- `safe_read`, and the end of the process where it fails
abbrev pub read_or_die : ℕ → Bytes → B Bytes
read_or_die size text = do
  worked ← ask (λ k. k.read)
  if worked then pure (take size text) else halt suicide

-- `safe_write`, and the end of the process where not all was written
abbrev pub write_or_die : Bytes → Bytes → B (Unit {0})
write_or_die path text = do
  wrote ← ask (λ k n. k.write n (length text))
  elim wrote [
    | none ↦ halt suicide
    | some n ↦ do set_file path (take n text); if n == length text then pure tt else halt suicide
  ]
