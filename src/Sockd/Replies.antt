-- ===== src/Sockd/Replies.antt =====
-- How the functions of src/sockd.c that open sockets reply, and that they leave the buffer alone.
use ndhc.Common.{
  ℕ, ◌+◌, Bytes, Bool, true, false, not, Option, none, some, List, ◌∷◌, ◌≡◌, refl, subst, ◌⊎◌, inl,
  inr, if◌then◌else◌, arith,
}
use ndhc.Common.Process.{Run, returned, ended, fault, pure, ◌>>=◌, ◌>>◌, halt, onward, suicide}
use ndhc.Sockd.Bpf.{Program}
use ndhc.Sockd.Execute.{xfer_bpf, xfer_fd}
use ndhc.Sockd.Sockets.{
  create_arp_socket, create_udp_socket, attach_filter, create_raw_socket, create_raw_listen_socket,
  create_raw_broadcast_socket, arp_set_bpf, create_arp_defense_socket, create_arp_basic_socket,
}
use ndhc.Sockd.World.{Buffer, Address, Call, send_fd, close, Sockd, S, call}

-- The buffer is the same where the computation returns.
abbrev pub KeepsBuf : {A : Type 0} → Buffer → Run Sockd A → Type 0
KeepsBuf b (returned a v) = v.buf ≡ b
KeepsBuf b (ended e v) = Unit {0}
KeepsBuf b fault = ⊥

create_arp_socket-KeepsBuf : (w : Sockd) → KeepsBuf w.buf (create_arp_socket w)
unfolding create_arp_socket
create_arp_socket-KeepsBuf w = ground arith

pub create_udp_socket-KeepsBuf : (ip : Bytes) (w : Sockd) → KeepsBuf w.buf (create_udp_socket ip w)
unfolding create_udp_socket
create_udp_socket-KeepsBuf ip w = ground arith

create_raw_socket-KeepsBuf :
    (sa : Address) (prog : Option Program) (w : Sockd)
    → KeepsBuf w.buf (create_raw_socket sa prog w)
unfolding create_raw_socket attach_filter
create_raw_socket-KeepsBuf sa none w = ground arith
create_raw_socket-KeepsBuf sa (some prog) w = ground arith

-- A descriptor was sent with one of two letters and closed, `n` octets were taken, and the buffer is
-- the same.
abbrev pub Replies : (upper lower n : ℕ) → Buffer → Run Sockd ℕ → Type 0
Replies upper lower n b (returned taken v) =
    (taken ≡ n)
    × (v.buf ≡ b)
    × (letter : ℕ) × (rest : List Call) × (v.calls ≡ close ∷ send_fd letter ∷ rest)
    × ((letter ≡ upper) ⊎ (letter ≡ lower))
Replies upper lower n b (ended e v) = Unit {0}
Replies upper lower n b fault = ⊥

xfer_fd-Replies :
    (upper lower letter n : ℕ) (w : Sockd)
    → (letter ≡ upper) ⊎ (letter ≡ lower)
    → Replies upper lower n w.buf ((xfer_fd letter >> pure n) w)
unfolding xfer_fd
xfer_fd-Replies upper lower letter n w l = sent (w.kernel.works w.tick)
  where
    sent :
        (b : Bool)
        → Replies upper lower n w.buf (
            onward
              ((if not b then halt suicide else (do closed ← call close; pure tt))
                (record w { calls = send_fd letter ∷ w.calls; tick = w.tick + 1 }))
              (λ _. pure n))
    sent true = (refl, refl, letter, w.calls, refl, l)
    sent false = tt

pub xfer_bpf-Replies :
    (upper lower n : ℕ) (create : S (Bool × Bool))
    → ((w : Sockd) → KeepsBuf w.buf (create w))
    → (w : Sockd) → Replies upper lower n w.buf (xfer_bpf upper lower create n w)
xfer_bpf-Replies upper lower n create keeps w = go (create w) (keeps w)
  where
    letter :
        (b : Bool) → ((if b then upper else lower) ≡ upper) ⊎ ((if b then upper else lower) ≡ lower)
    letter true = inl refl
    letter false = inr refl

    go :
        (r : Run Sockd (Bool × Bool))
        → KeepsBuf w.buf r
        → Replies upper lower n w.buf
            (onward r (λ p. xfer_fd (if p.1 then upper else lower) >> pure n))
    go (returned (fd, bpf) v) s =
        subst (λ b. Replies upper lower n b ((xfer_fd (if bpf then upper else lower) >> pure n) v))
          s (xfer_fd-Replies upper lower (if bpf then upper else lower) n v (letter bpf))
    go (ended e v) s = tt
    go fault s = s

pub create_arp_basic_socket-KeepsBuf : (w : Sockd) → KeepsBuf w.buf (create_arp_basic_socket w)
unfolding create_arp_basic_socket arp_set_bpf
create_arp_basic_socket-KeepsBuf w = grind (arith, create_arp_socket-KeepsBuf w)

pub create_arp_defense_socket-KeepsBuf :
    (native : Bytes → ℕ) (addr mac : Bytes) (w : Sockd)
    → KeepsBuf w.buf (create_arp_defense_socket native addr mac w)
unfolding create_arp_defense_socket arp_set_bpf
create_arp_defense_socket-KeepsBuf native addr mac w = grind (arith, create_arp_socket-KeepsBuf w)

pub create_raw_listen_socket-KeepsBuf : (w : Sockd) → KeepsBuf w.buf (create_raw_listen_socket w)
unfolding create_raw_listen_socket
create_raw_listen_socket-KeepsBuf w = create_raw_socket-KeepsBuf _ _ w

pub create_raw_broadcast_socket-KeepsBuf :
    (w : Sockd) → KeepsBuf w.buf (create_raw_broadcast_socket w)
unfolding create_raw_broadcast_socket
create_raw_broadcast_socket-KeepsBuf w = grind (arith, create_raw_socket-KeepsBuf)

-- A socket that is sent with one letter.
pub plain-Replies :
    {A : Type 0} (letter n : ℕ) (create : S A)
    → ((w : Sockd) → KeepsBuf w.buf (create w))
    → (w : Sockd) → Replies letter letter n w.buf ((create >>= λ _. xfer_fd letter >> pure n) w)
plain-Replies {A = A} letter n create keeps w = go (create w) (keeps w)
  where
    go :
        (r : Run Sockd A)
        → KeepsBuf w.buf r
        → Replies letter letter n w.buf (onward r (λ _. xfer_fd letter >> pure n))
    go (returned a v) s =
        subst (λ b. Replies letter letter n b ((xfer_fd letter >> pure n) v)) s
          (xfer_fd-Replies letter letter letter n v (inl refl))
    go (ended e v) s = tt
    go fault s = s
