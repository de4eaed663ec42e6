-- ===== src/Sockd/World.antt =====
-- The state of ndhc-sockd: the buffer of `process_client_socket` in src/sockd.c, and the calls of the
-- kernel that it made, the last one first.
use ndhc.Common.{ℕ, ◌+◌, Bytes, Bool, List, ◌∷◌}
use ndhc.Common.Process.{Process, returned}
use ndhc.Sockd.Bpf.{Program}

-- The addresses of `bind`: `struct sockaddr_ll` with its protocol, and the flag of the broadcast
-- address, or `struct sockaddr_in`.
pub data Address : Type 0 where
  sockaddr_ll : (sll_protocol sll_ifindex : ℕ) → (broadcast : Bool) → Address
  sockaddr_in : (sin_addr : Bytes) → (sin_port : ℕ) → Address

-- The calls, with what matters of their arguments. Each is one question to the kernel; `socket` also
-- gives a descriptor.
pub data Call : Type 0 where
  socket_arp socket_udp socket_raw : Call
  so_broadcast so_reuseaddr so_dontroute so_bindtodevice so_lock_filter : Call
  so_attach_filter : Program → Call
  set_nonblock : Call
  bind : Address → Call
  close : Call
  send_fd : ℕ → Call

-- What `safe_recv` gives.
pub data Received : Type 0 where
  received : Bytes → Received
  hung_up would_block recv_error : Received

pub record Kernel : Type 0 where
  pub works : ℕ → Bool
  pub recv : ℕ → Received

-- The static variables of `process_client_socket`. `octets` are those at the beginning of the array that
-- were ever in use, `buflen` of type `size_t` says how many count.
pub record Buffer : Type 0 where
  pub octets : Bytes
  pub buflen : ℕ

pub record Sockd : Type 0 where
  pub buf : Buffer
  pub ifindex : ℕ
  pub calls : List Call
  pub kernel : Kernel
  pub tick : ℕ

abbrev pub S : Type 0 → Type 0
S A = Process Sockd A

-- A call, and whether it has a result that is not negative.
abbrev pub call : Call → S Bool
call c w = returned (w.kernel.works w.tick) (record w { calls = c ∷ w.calls; tick = w.tick + 1 })
