-- ===== src/Ifchd/Work.antt =====
-- `ifch_main` of src/ifchd.c: the files that are opened before the privileges are dropped, and the loop.
use ndhc.Common.{
  ℕ, Bytes, Bool, Option, none, some, List, [], ◌∷◌, ◌++◌, leb, length, if◌then◌else◌,
}
use ndhc.Common.Process.{suicide, pure, ◌>>=◌, ◌>>◌, get, put, halt}
use ndhc.Common.Subprocess.{Waited, subprocess_rounds}
use ndhc.Ifchd.Execute.{process_client_socket}
use ndhc.Ifchd.World.{I, state_nothing}

-- ".head" and ".tail"
abbrev pub head_name : Bytes
head_name = b'.' ∷ b'h' ∷ b'e' ∷ b'a' ∷ b'd' ∷ []

abbrev pub tail_name : Bytes
tail_name = b'.' ∷ b't' ∷ b'a' ∷ b'i' ∷ b'l' ∷ []

abbrev pub path_max : ℕ
path_max = 4096

-- `opened` gives what a file holds that can be opened; a name that does not fit the buffer is left out.
unfoldable pub open_beside : (Bytes → Option Bytes) → Bytes → Bytes → Option Bytes
open_beside opened resolv_conf_d name =
    if leb path_max (length (resolv_conf_d ++ name)) then none else opened (resolv_conf_d ++ name)

unfoldable pub setup_resolv_conf : (Bytes → Option Bytes) → Bytes → I (Unit {0})
setup_resolv_conf opened [] = pure tt
setup_resolv_conf opened (c ∷ cs) = elim (opened (c ∷ cs)) [
  | none ↦ halt suicide
  | some file ↦ do
    w ← get
    put (record w {
      resolv_conf = some file;
      head = open_beside opened (c ∷ cs) head_name;
      tail = open_beside opened (c ∷ cs) tail_name;
    })
]

-- The array for `epoll_wait` has two places, while three descriptors are waited for. `epoll_works` is
-- whether the calls before the loop do.
unfoldable pub do_ifch_work : Bool → List Waited → I (Unit {0})
unfolding subprocess_rounds process_client_socket
do_ifch_work epoll_works waits =
    if epoll_works
    then (do
      w ← get
      put (record w { state = state_nothing; ibuf = []; namesvrs = []; domains = [] })
      subprocess_rounds 2 process_client_socket waits)
    else halt suicide

unfoldable pub ifch_main : (Bytes → Option Bytes) → Bytes → Bool → List Waited → I (Unit {0})
unfolding setup_resolv_conf do_ifch_work
ifch_main opened resolv_conf_d epoll_works waits = do
  setup_resolv_conf opened resolv_conf_d
  do_ifch_work epoll_works waits
