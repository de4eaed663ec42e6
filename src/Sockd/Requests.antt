-- ===== src/Sockd/Requests.antt =====
-- How ndhc-sockd answers the requests of the master.
use ndhc.Common.{
  take-all, ◌%◌, ◌^◌, if◌then◌else◌, ℕ, ◌+◌, ◌-◌, ◌≤◌, Bytes, Bool, true, false, Option, none, some,
  List, [], ◌∷◌, ◌++◌, ◌≡◌, sym, ap, subst, ◌∙◌, ◌⊎◌, ltb, length, length-append, take, drop, arith,
}
use ndhc.Common.Process.{Run, returned, ended, fault, pure, ◌>>=◌, ◌>>◌, onward}
use ndhc.Sockd.Bpf.{Program}
use ndhc.Sockd.Execute.{xfer_bpf, xfer_fd, sockd_command, execute_sockd, take_off, add_received}
use ndhc.Sockd.Sockets.{
  create_udp_socket, attach_filter, create_raw_socket, create_raw_listen_socket,
  create_raw_broadcast_socket, create_arp_defense_socket, create_arp_basic_socket,
}
use ndhc.Sockd.World.{Buffer, Address, Call, send_fd, close, received, Sockd, S}
use ndhc.Sockd.Replies.{
  Replies, xfer_bpf-Replies, plain-Replies, create_udp_socket-KeepsBuf,
  create_arp_basic_socket-KeepsBuf, create_arp_defense_socket-KeepsBuf,
  create_raw_listen_socket-KeepsBuf, create_raw_broadcast_socket-KeepsBuf,
}

-- The filter of the socket for DHCP messages is reported only if it is attached and locked.
create_raw_socket-filtered :
    (sa : Address) (prog : Option Program) (w v : Sockd) (fd : Bool)
    → create_raw_socket sa prog w ≡ returned (fd, true) v
    → (w.kernel.works (w.tick + 1) ≡ true) × (w.kernel.works (w.tick + 2) ≡ true)
unfolding create_raw_socket attach_filter
create_raw_socket-filtered sa none w v fd e = ground (arith, e)
create_raw_socket-filtered sa (some prog) w v fd e = ground (arith, e)

-- The requests of the master.
pub data Request : Type 0 where
  listen basic broadcast : Request
  defense : (addr mac : Bytes) → Request
  udp : (addr : Bytes) → Request

abbrev pub request_octets : Request → Bytes
request_octets listen = b'L' ∷ []
request_octets basic = b'a' ∷ []
request_octets broadcast = b's' ∷ []
request_octets (defense addr mac) = b'd' ∷ (addr ++ mac)
request_octets (udp addr) = b'u' ∷ addr

-- The letters of the replies: the kernel filters, or not.
abbrev pub filtered_letter : Request → ℕ
filtered_letter listen = b'L'
filtered_letter basic = b'A'
filtered_letter broadcast = b's'
filtered_letter (defense addr mac) = b'D'
filtered_letter (udp addr) = b'u'

abbrev pub plain_letter : Request → ℕ
plain_letter listen = b'l'
plain_letter basic = b'a'
plain_letter broadcast = b's'
plain_letter (defense addr mac) = b'd'
plain_letter (udp addr) = b'u'

abbrev pub IsRequest : Request → Type 0
IsRequest (defense addr mac) = (length addr ≡ 4) × (length mac ≡ 6)
IsRequest (udp addr) = length addr ≡ 4
IsRequest _ = Unit {0}

execute_sockd-Replies :
    (native : Bytes → ℕ) (q : Request) (w : Sockd)
    → IsRequest q
    → Replies
        (filtered_letter q)
        (plain_letter q)
        (length (request_octets q))
        w.buf
        (execute_sockd native (request_octets q) w)
unfolding execute_sockd sockd_command
execute_sockd-Replies native listen w h =
    xfer_bpf-Replies b'L' b'l' 1 create_raw_listen_socket create_raw_listen_socket-KeepsBuf w
execute_sockd-Replies native basic w h =
    xfer_bpf-Replies b'A' b'a' 1 create_arp_basic_socket create_arp_basic_socket-KeepsBuf w
execute_sockd-Replies native broadcast w h =
    plain-Replies b's' 1 create_raw_broadcast_socket create_raw_broadcast_socket-KeepsBuf w
execute_sockd-Replies native (defense addr mac) w (a, m) =
    let l = length-append addr mac in
    let create =
      create_arp_defense_socket native (take 4 (addr ++ mac)) (take 6 (drop 4 (addr ++ mac))) in
    rw (long (length (addr ++ mac)) 10 (omega (arith, l, a, m))) (
      subst (λ n. Replies b'D' b'd' n w.buf (xfer_bpf b'D' b'd' create 11 w))
        (omega (arith, l, a, m))
        (xfer_bpf-Replies b'D' b'd' 11 create
          (create_arp_defense_socket-KeepsBuf native (take 4 (addr ++ mac))
            (take 6 (drop 4 (addr ++ mac))))
          w))
  where
    long : (n k : ℕ) → n ≡ k → ltb (1 + n) (1 + k) ≡ false
    long n k e = ground (arith, e)
execute_sockd-Replies native (udp addr) w a = rw (long (length addr) 4 a) (
    subst
      (λ n.
        Replies b'u' b'u' n w.buf
          ((create_udp_socket (take 4 addr) >>= λ _. xfer_fd b'u' >> pure 5) w))
      (omega (arith, a))
      (plain-Replies b'u' 5 (create_udp_socket (take 4 addr))
        (create_udp_socket-KeepsBuf (take 4 addr)) w))
  where
    long : (n k : ℕ) → n ≡ k → ltb (1 + n) (1 + k) ≡ false
    long n k e = ground (arith, e)

-- A buffer with these octets.
abbrev whole : Bytes → Buffer
whole o = record { octets = o; buflen = length o }

-- What is left of a request that was taken whole.
abbrev pub Answered : Request → Run Sockd (Unit {0}) → Type 0
Answered q (returned _ v) =
    (v.buf.buflen ≡ 0)
    × (letter : ℕ) × (rest : List Call) × (v.calls ≡ close ∷ send_fd letter ∷ rest)
    × ((letter ≡ filtered_letter q) ⊎ (letter ≡ plain_letter q))
Answered q (ended e v) = Unit {0}
Answered q fault = ⊥

take_off-Answered :
    (q : Request) (r : Run Sockd ℕ)
    → length (request_octets q) ≤ 1024
    → Replies
        (filtered_letter q)
        (plain_letter q)
        (length (request_octets q))
        (whole (request_octets q))
        r
    → Answered q (onward r take_off)
unfolding take_off
take_off-Answered q (returned taken v) h (t, s, letter, rest, c, l) =
    (nothing_left v.buf (request_octets q) taken s t h, letter, rest, c, l)
  where
    nothing_left :
        (b : Buffer) (o : Bytes) (n : ℕ)
        → b ≡ whole o
        → n ≡ length o
        → length o ≤ 1024
        → (b.buflen + 2 ^ 64 - n) % 2 ^ 64 ≡ 0
    nothing_left b o n e t h =
        ap (λ c. (c.buflen + 2 ^ 64 - n) % 2 ^ 64) {x = b} {y = whole o} e ∙ omega (arith, t, h)
take_off-Answered q (ended e v) m h = tt
take_off-Answered q fault m h = h

length-request_octets : (q : Request) → IsRequest q → length (request_octets q) ≤ 1024
length-request_octets listen h = omega arith
length-request_octets basic h = omega arith
length-request_octets broadcast h = omega arith
length-request_octets (defense addr mac) h = omega (arith, length-append addr mac, h.0, h.1)
length-request_octets (udp addr) h = omega (arith, h)

zero_add : (n : ℕ) → 0 + n ≡ n
zero_add n = omega arith

add_received-whole :
    (native : Bytes → ℕ) (o : Bytes) (w : Sockd)
    → w.buf.buflen ≡ 0
    → length o ≤ 1024
    → add_received native (received o) w
      ≡ onward (execute_sockd native o (record w { buf = whole o })) take_off
unfolding add_received
add_received-whole native o w e h =
    let step : Bytes → Bytes → ℕ → S (Unit {0}) = λ buf octets n v.
      onward (execute_sockd native buf (record w { buf = record { octets = octets; buflen = n } }))
        take_off in
    ap
      (λ n.
        (if ltb 1024 n
            then (λ v. fault)
            else step (take n w.buf.octets ++ take (1024 - n) o)
                (take n w.buf.octets ++ take (1024 - n) o) (n + length (take (1024 - n) o)))
          w)
      {x = w.buf.buflen} {y = 0} e
    ∙ ap (λ x. step x x (0 + length x) w) (take-all 1024 o h)
    ∙ ap (λ n. step o o n w) (zero_add (length o))

-- For each request of the master, which comes whole into an empty buffer, and for all answers of the
-- kernel: if one round of ndhc-sockd returns, it took the whole request, and its last calls sent
-- one descriptor with a letter that the request allows, and closed it.
pub add_received-Answered :
    (native : Bytes → ℕ) (q : Request) (w : Sockd)
    → IsRequest q
    → w.buf.buflen ≡ 0
    → Answered q (add_received native (received (request_octets q)) w)
add_received-Answered native q w h e =
    let fits = length-request_octets q h in
    subst (Answered q) (sym (add_received-whole native (request_octets q) w e fits)) (
      take_off-Answered q
        (execute_sockd native (request_octets q) (record w { buf = whole (request_octets q) })) fits
        (execute_sockd-Replies native q (record w { buf = whole (request_octets q) }) h))
