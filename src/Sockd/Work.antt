-- ===== src/Sockd/Work.antt =====
-- `do_sockd_work` of src/sockd.c, the loop of ndhc-sockd.
use ndhc.Common.{ℕ, Bytes, Bool, List, if◌then◌else◌}
use ndhc.Common.Process.{suicide, halt}
use ndhc.Common.Subprocess.{Waited, subprocess_rounds}
use ndhc.Sockd.Execute.{process_client_socket}
use ndhc.Sockd.World.{S}

-- The array for `epoll_wait` has two places, while three descriptors are waited for. `epoll_works` is
-- whether the calls before the loop do.
unfoldable pub do_sockd_work : (Bytes → ℕ) → Bool → List Waited → S (Unit {0})
unfolding subprocess_rounds process_client_socket
do_sockd_work native epoll_works waits =
    if epoll_works then subprocess_rounds 2 (process_client_socket native) waits else halt suicide
