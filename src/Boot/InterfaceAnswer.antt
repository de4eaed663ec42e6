-- ===== src/Boot/InterfaceAnswer.antt =====
-- `nl_getifdata` of src/netlink.c as a whole.
use ndhc.Common.{
  ℕ, ◌+◌, Bytes, Bool, true, false, Option, none, some, List, [], ◌∷◌, ◌≡◌, refl, ◌⊎◌, inl, inr,
  Bool-cases, arith, if◌then◌else◌,
}
use ndhc.Common.Process.{pure, ◌>>=◌}
use ndhc.Boot.Interface.{
  getifdata_loop, handle_getifdata, wait_for_ifdata, nl_getifdata, nl_sendgetlinks, close_socket,
}
use ndhc.Boot.InterfaceFound.{IsOf, Inv, AllIn, getifdata_loop-Returns}
use ndhc.Boot.Walks.{Returns, Returns-onward, AllMsgs, WalkInv}
use ndhc.Boot.World.{
  Boot, B, Recvmsg, nothing_yet, recv_error, datagram, Poll, ready, interrupted, poll_error,
}
use ndhc.Ifchd.World.{NlMsg}

-- A message of a datagram, and one of an answer.
abbrev AmongMsgs : NlMsg → List NlMsg → Type 0
AmongMsgs nlh [] = ⊥
AmongMsgs nlh (m ∷ ms) = (nlh ≡ m) ⊎ AmongMsgs nlh ms

abbrev pub Among : NlMsg → List Recvmsg → Type 0
Among nlh [] = ⊥
Among nlh (nothing_yet ∷ rs) = Among nlh rs
Among nlh (recv_error ∷ rs) = Among nlh rs
Among nlh (datagram truncated namelen msgs ∷ rs) = AmongMsgs nlh msgs ⊎ Among nlh rs

all-AmongMsgs :
    (Q : NlMsg → Type 0) (msgs : List NlMsg)
    → ((nlh : NlMsg) → AmongMsgs nlh msgs → Q nlh)
    → AllMsgs Q msgs
all-AmongMsgs Q [] h = tt
all-AmongMsgs Q (m ∷ ms) h = (h m (inl refl), all-AmongMsgs Q ms (λ nlh i. h nlh (inr i)))

module _ (attributes : NlMsg → List (ℕ × Bytes)) where
  all-Among :
      (Q : NlMsg → Type 0) (interface : Bytes) (sockets : ℕ) (rs : List Recvmsg)
      → ((nlh : NlMsg) → Among nlh rs → Q nlh)
      → AllIn attributes Q interface sockets rs
  all-Among Q interface sockets [] h = tt
  all-Among Q interface sockets (nothing_yet ∷ rs) h = all-Among Q interface sockets rs h
  all-Among Q interface sockets (recv_error ∷ rs) h = all-Among Q interface sockets rs h
  all-Among Q interface sockets (datagram truncated namelen msgs ∷ rs) h = (
    all-AmongMsgs Q msgs (λ nlh i. h nlh (inl i)),
    all-Among Q interface sockets rs (λ nlh i. h nlh (inr i)),
  )

  -- What is found, in a state with the same sockets.
  abbrev pub FoundIn : List Recvmsg → Bytes → ℕ → Bool → Boot → Type 0
  FoundIn rs interface sockets got v =
      (v.sockets ≡ sockets)
      × (got ≡ true → ((nlh : NlMsg) × Among nlh rs × IsOf attributes interface nlh v))

  handle_getifdata-Returns :
      (seq : ℕ) (u : Boot)
      → Returns
          (FoundIn (u.kernel.answer u.tick) u.interface u.sockets)
          (handle_getifdata attributes seq u)
  unfolding handle_getifdata
  handle_getifdata-Returns seq u =
      let rs = u.kernel.answer u.tick in
      let Q = λ (nlh : NlMsg). Among nlh rs in
      Returns-onward (WalkInv (Inv attributes Q u.interface u.sockets))
        (FoundIn rs u.interface u.sockets)
        (getifdata_loop attributes rs seq false (record u { tick = u.tick + 1 }))
        (λ got. pure (elim got [ none ↦ false | some got_ifdata ↦ got_ifdata ]))
        (getifdata_loop-Returns attributes Q u.interface u.sockets rs seq false
          (record u { tick = u.tick + 1 }) (all-Among Q u.interface u.sockets rs (λ nlh i. i))
          (refl, refl, (λ e. cc)))
        on
    where
      on :
          (o : Option Bool) (v : Boot)
          → WalkInv
              (Inv attributes (λ nlh. Among nlh (u.kernel.answer u.tick)) u.interface u.sockets)
              o
              v
          → Returns
              (FoundIn (u.kernel.answer u.tick) u.interface u.sockets)
              (pure (elim o as (λ _. Bool) [ none ↦ false | some got_ifdata ↦ got_ifdata ]) v)
      on none v (got, (i, s, h)) = (s, (λ e. cc))
      on (some got) v (i, s, h) = (s, h)

  wait_for_ifdata-Returns :
      (seq : ℕ) (u : Boot)
      → Returns
          (FoundIn (u.kernel.answer (u.tick + 1)) u.interface u.sockets)
          (wait_for_ifdata attributes seq u)
  unfolding wait_for_ifdata
  wait_for_ifdata-Returns seq u = by_poll (u.kernel.poll u.tick)
    where
      by_poll :
          (p : Poll)
          → Returns (FoundIn (u.kernel.answer (u.tick + 1)) u.interface u.sockets) (
              elim p as (λ _. B Bool) [
                | ready ↦ handle_getifdata attributes seq
                | interrupted ↦ pure false
                | poll_error ↦ pure false
              ]
                (record u { tick = u.tick + 1 }))
      by_poll ready = handle_getifdata-Returns seq (record u { tick = u.tick + 1 })
      by_poll interrupted = (refl, (λ e. cc))
      by_poll poll_error = (refl, (λ e. cc))

  request-Returns :
      (o : Option ℕ) (u : Boot)
      → Returns (FoundIn (u.kernel.answer (u.tick + 1 + 1)) u.interface u.sockets) (
          elim o as (λ _. B Bool) [
            | none ↦ pure false
            | some seq ↦ nl_sendgetlinks seq >>= λ sent.
                if sent then wait_for_ifdata attributes seq else pure false
          ]
            u)
  unfolding nl_sendgetlinks
  request-Returns none u = (refl, (λ e. cc))
  request-Returns (some seq) u = elim (Bool-cases (u.kernel.sendto u.tick)) [
    | inr failed ↦ rw (Returns, failed) (refl, (λ e. cc))
    | inl sent ↦ rw (Returns, sent) (wait_for_ifdata-Returns seq _)
  ]

  -- Unless the process ends: `nl_getifdata` leaves as many sockets open as there were, and where it
  -- succeeds, the index and the hardware address, of six octets, are those of a new link with the name of
  -- the interface, in a message that the kernel sent.
  pub nl_getifdata-Returns :
      (w : Boot)
      → Returns
          (FoundIn (w.kernel.answer (w.tick + 1 + 1 + 1 + 1)) w.interface w.sockets)
          (nl_getifdata attributes w)
  unfolding nl_getifdata
  nl_getifdata-Returns w = elim (Bool-cases (w.kernel.socket w.tick)) [
    | inr failed ↦ rw (Returns, failed) (refl, (λ e. cc))
    | inl opened ↦
        let u = record w { tick = w.tick + 1 + 1; sockets = w.sockets + 1 } in
        rw (Returns, opened)
          (Returns-onward
            (FoundIn (w.kernel.answer (w.tick + 1 + 1 + 1 + 1)) w.interface (w.sockets + 1))
            (FoundIn (w.kernel.answer (w.tick + 1 + 1 + 1 + 1)) w.interface w.sockets) _
            (λ ret. close_socket >>= λ _. pure ret)
            (request-Returns (w.kernel.clock (w.tick + 1)) u)
            (λ got v (s, h). (omega (arith, s), h)))
  ]
