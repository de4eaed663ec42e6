-- ===== src/Sockd/Execute.antt =====
-- `xfer_fd`, `execute_sockd` and `process_client_socket` of src/sockd.c.
use ndhc.Common.{
  ℕ, ◌+◌, ◌-◌, ◌%◌, ◌^◌, Bytes, Bool, not, [], ◌∷◌, ◌++◌, ◌==◌, ltb, length, take, drop,
  if◌then◌else◌,
}
use ndhc.Common.Process.{fault, suicide, exit_success, pure, ◌>>=◌, ◌>>◌, get, put, halt}
use ndhc.Sockd.Sockets.{
  create_raw_listen_socket, create_arp_basic_socket, create_arp_defense_socket,
  create_raw_broadcast_socket, create_udp_socket,
}
use ndhc.Sockd.World.{send_fd, close, Received, received, hung_up, would_block, recv_error, S, call}

-- The descriptor goes to the client with the letter `cmd`.
unfoldable pub xfer_fd : ℕ → S (Unit {0})
xfer_fd cmd = do
  sent ← call (send_fd cmd)
  if not sent then halt suicide else (do closed ← call close; pure tt)

-- The letter with the descriptor tells the client if it need not filter itself.
abbrev pub xfer_bpf : (using_bpf not_using : ℕ) → S (Bool × Bool) → ℕ → S ℕ
xfer_bpf upper lower create taken = do
  r ← create
  xfer_fd (if r.1 then upper else lower)
  pure taken

unfoldable pub sockd_command : (Bytes → ℕ) → ℕ → Bytes → S ℕ
sockd_command native c args =
    if c == b'L'
    then xfer_bpf b'L' b'l' create_raw_listen_socket 1
    else if c == b'a'
    then xfer_bpf b'A' b'a' create_arp_basic_socket 1
    else if c == b'd'
    then (if ltb (1 + length args) 11
        then halt suicide
        else xfer_bpf b'D' b'd'
            (create_arp_defense_socket native (take 4 args) (take 6 (drop 4 args))) 11)
    else if c == b's'
    then (do fd ← create_raw_broadcast_socket; xfer_fd b's'; pure 1)
    else if c == b'u'
    then (if ltb (1 + length args) 5
        then halt suicide
        else (do fd ← create_udp_socket (take 4 args); xfer_fd b'u'; pure 5))
    else halt suicide

-- The number of octets that the command took. `native` reads numbers as the host does.
unfoldable pub execute_sockd : (Bytes → ℕ) → Bytes → S ℕ
unfolding sockd_command
execute_sockd native [] = pure 0
execute_sockd native (c ∷ args) = sockd_command native c args

abbrev pub max_buf : ℕ
max_buf = 1024

-- `buflen -= taken`, in a type that wraps around.
unfoldable pub take_off : ℕ → S (Unit {0})
take_off taken = do
  v ← get
  put (record v {
    buf = record { octets = v.buf.octets; buflen = (v.buf.buflen + 2 ^ 64 - taken) % 2 ^ 64 };
  })

-- The octets are received behind those that count; where `buflen` is more than the array's size, that is
-- outside it. The octets that a command leaves are still those at the buffer's beginning: what was
-- taken is cut off at its end.
unfoldable pub add_received : (Bytes → ℕ) → Received → S (Unit {0})
unfolding execute_sockd take_off
add_received native hung_up = halt exit_success
add_received native would_block = pure tt
add_received native recv_error = halt suicide
add_received native (received octets) = do
  w ← get
  if ltb max_buf w.buf.buflen then (λ v. fault) else (do
    let added = take (max_buf - w.buf.buflen) octets
    let buf = take w.buf.buflen w.buf.octets ++ added
    put (record w { buf = record { octets = buf; buflen = w.buf.buflen + length added } })
    taken ← execute_sockd native buf
    take_off taken)

unfoldable pub process_client_socket : (Bytes → ℕ) → S (Unit {0})
unfolding add_received
process_client_socket native = do
  w ← get
  if w.buf.buflen == max_buf
      then halt suicide
      else (do put (record w { tick = w.tick + 1 }); add_received native (w.kernel.recv w.tick))
