-- ===== src/Ifchd/Performs.antt =====
-- The commands of src/ifchd.c keep the invariant.
use ndhc.Common.{
  Bool-cases, inl, inr, refl, ◌≡◌, take_bounds, ℕ, zero, suc, ◌<◌, ◌≤◌, Bytes, Option, none, some,
  List, [], ◌∷◌, length, take, arith,
}
use ndhc.Common.Process.{returned, access-in}
use ndhc.Ifchd.Execute.{
  ip4set_addresses, perform_ip4set, ipv4set_parser, store_addresses, perform, left_over,
  dispatch_work, inform_execute,
}
use ndhc.Ifchd.AddressParts.{AllShort, pieces-AllShort}
use ndhc.Ifchd.Keeps.{Keeps, Keeps-bind, Keeps-pure, Keeps-ask, Keeps-if}
use ndhc.Ifchd.Resolv.{
  writeordie, writeordie_all, append_parts, write_append_fd, pieces, before_comma,
  finish_resolve_conf, write_resolve_conf, cut_strings, write_contents, perform_dns, perform_domain,
  perform_hostname, newline,
}
use ndhc.Ifchd.Sound.{
  perform_carrier-Keeps, perform_mtu-Keeps, perform_router-Keeps, perform_ip_subnet_bcast-Keeps,
}
use ndhc.Ifchd.World.{
  IfchState, state_nothing, state_ip4set, state_timezone, state_router, state_dns, state_lprsvr,
  state_hostname, state_domain, state_ipttl, state_mtu, state_ntpsvr, state_wins, state_carrier,
  Ifch, ask, ok, failed, fatal,
}

pub length-take_max : (text : Bytes) → length (take 1023 text) < 1024
length-take_max text = omega (arith, (take_bounds 1023 text).0)

-- The text that is left fits into `ibuf`.
pub left_over_lem :
    (text : Bytes) (w : Ifch)
    → left_over text w ≡ returned fatal (record w { ibuf = take 1023 text })
unfolding left_over
left_over_lem text w =
    rw (access-in {W = Ifch} 1024 (length (take 1023 text)) (length-take_max text)) refl

length-before_comma : (xs : Bytes) → length (before_comma xs) ≤ length xs
unfolding before_comma
length-before_comma [] = omega arith
length-before_comma (x ∷ xs) = ground (arith, length-before_comma xs)

module _ (i : ℕ) where
  writeordie-Keeps : (pos : ℕ) (buf : Bytes) → Keeps i (writeordie pos buf)
  unfolding writeordie Keeps
  writeordie-Keeps pos buf w h = ground arith

  writeordie_all-Keeps : (bufs : List Bytes) (pos : ℕ) → Keeps i (writeordie_all pos bufs)
  unfolding writeordie_all
  writeordie_all-Keeps [] pos = Keeps-pure i pos
  writeordie_all-Keeps (buf ∷ bufs) pos =
      Keeps-bind i (writeordie pos buf) _ (writeordie-Keeps pos buf) (writeordie_all-Keeps bufs)

  append_parts-Keeps : (fuel pos : ℕ) (text : Bytes) → Keeps i (append_parts fuel pos text)
  unfolding append_parts Keeps
  append_parts-Keeps zero pos text w h = h
  append_parts-Keeps (suc fuel) pos [] w h = h
  append_parts-Keeps (suc fuel) pos (c ∷ cs) w h =
      grind (arith, writeordie-Keeps, append_parts-Keeps fuel)

  write_append_fd-Keeps : (text : Option Bytes) (pos : ℕ) → Keeps i (write_append_fd pos text)
  unfolding write_append_fd
  write_append_fd-Keeps none pos = Keeps-pure i pos
  write_append_fd-Keeps (some text) pos =
      Keeps-bind i (ask (λ k. k.lseek)) _ (Keeps-ask i (λ k. k.lseek)) (λ a.
        Keeps-if i a _ _
          (Keeps-bind i (ask (λ k. k.lseek)) _ (Keeps-ask i (λ k. k.lseek))
            (λ b. Keeps-if i b _ _ (append_parts-Keeps (length text) pos text) (Keeps-pure i pos)))
          (Keeps-pure i pos))

  finish_resolve_conf-Keeps : (pos : ℕ) → Keeps i (finish_resolve_conf pos)
  unfolding finish_resolve_conf Keeps
  finish_resolve_conf-Keeps pos w h = ground arith

  perform_hostname-Keeps : (str : Bytes) → Keeps i (perform_hostname str)
  unfolding perform_hostname Keeps
  perform_hostname-Keeps str w h = ground arith

  pub inform_execute-Keeps : (c : ℕ) → Keeps i (inform_execute c)
  unfolding inform_execute Keeps
  inform_execute-Keeps c w h = ground arith

  cut_strings-Keeps :
      (namesvrs domains : Bytes)
      → length namesvrs < 1024
      → length domains < 1024
      → Keeps i (cut_strings namesvrs domains)
  unfolding cut_strings Keeps
  cut_strings-Keeps namesvrs domains n d w (e, r, b, _, _) = (
    e,
    r,
    b,
    omega (arith, length-before_comma namesvrs),
    omega (arith, length-before_comma domains),
  )

  write_contents-Keeps :
      (namesvrs domains : Bytes) (head tail : Option Bytes)
      → length namesvrs < 1024
      → length domains < 1024
      → Keeps i (write_contents namesvrs domains head tail)
  unfolding write_contents
  write_contents-Keeps namesvrs domains head tail n d =
      Keeps-bind i (write_append_fd 0 head) _ (write_append_fd-Keeps head 0) (λ p1.
        Keeps-bind i (writeordie_all p1 _) _ (writeordie_all-Keeps _ p1) (λ p2.
          Keeps-bind i (writeordie_all p2 _) _ (writeordie_all-Keeps _ p2) (λ p3.
            Keeps-bind i (writeordie p3 newline) _ (writeordie-Keeps p3 newline) (λ p4.
              Keeps-bind i (write_append_fd p4 tail) _ (write_append_fd-Keeps tail p4) (λ p5.
                Keeps-bind i (cut_strings namesvrs domains) _
                  (cut_strings-Keeps namesvrs domains n d) (λ _. finish_resolve_conf-Keeps p5))))))

  write_resolve_conf-Keeps : Keeps i write_resolve_conf
  unfolding write_resolve_conf Keeps
  write_resolve_conf-Keeps w (e, r, b, n, d) =
      grind (arith, write_contents-Keeps w.namesvrs w.domains w.head w.tail n d)

  perform_dns-Keeps : (str : Bytes) → Keeps i (perform_dns str)
  unfolding perform_dns Keeps
  perform_dns-Keeps str w h = grind (arith, write_resolve_conf-Keeps, (take_bounds 1023 str).0)

  perform_domain-Keeps : (str : Bytes) → Keeps i (perform_domain str)
  unfolding perform_domain Keeps
  perform_domain-Keeps str w h = grind (arith, write_resolve_conf-Keeps, (take_bounds 1023 str).0)

  ip4set_addresses-Keeps : (parts : List Bytes) → Keeps i (ip4set_addresses parts)
  unfolding ip4set_addresses
  ip4set_addresses-Keeps [] = Keeps-pure i failed
  ip4set_addresses-Keeps (a ∷ []) = Keeps-pure i failed
  ip4set_addresses-Keeps (a ∷ b ∷ []) = perform_ip_subnet_bcast-Keeps i a b none
  ip4set_addresses-Keeps (a ∷ b ∷ c ∷ []) = perform_ip_subnet_bcast-Keeps i a b none
  ip4set_addresses-Keeps (a ∷ b ∷ c ∷ d ∷ r) = Keeps-pure i failed

  store_addresses-Keeps : (parts : List Bytes) → AllShort parts → Keeps i (store_addresses parts)
  unfolding store_addresses
  store_addresses-Keeps [] h = Keeps-pure i tt
  store_addresses-Keeps (part ∷ parts) (h, hs) =
      rw (access-in {W = Ifch} 16 (length part) (omega (arith, h))) (store_addresses-Keeps parts hs)

  perform_ip4set-Keeps : (buf : Bytes) → Keeps i (perform_ip4set buf)
  unfolding perform_ip4set
  perform_ip4set-Keeps buf = elim (Bool-cases (ipv4set_parser buf)) [
    | inl e ↦ rw e (
        Keeps-bind i (store_addresses (pieces buf)) (λ _. ip4set_addresses (pieces buf))
          (store_addresses-Keeps (pieces buf) (pieces-AllShort buf e))
          (λ _. ip4set_addresses-Keeps (pieces buf)))
    | inr e ↦ rw e (Keeps-pure i failed)
  ]

  perform-Keeps : (s : IfchState) (tb : Bytes) → Keeps i (perform s tb)
  unfolding perform
  perform-Keeps state_ip4set tb = perform_ip4set-Keeps tb
  perform-Keeps state_timezone tb = Keeps-pure i ok
  perform-Keeps state_router tb = perform_router-Keeps i tb
  perform-Keeps state_dns tb = perform_dns-Keeps tb
  perform-Keeps state_lprsvr tb = Keeps-pure i ok
  perform-Keeps state_hostname tb = perform_hostname-Keeps tb
  perform-Keeps state_domain tb = perform_domain-Keeps tb
  perform-Keeps state_ipttl tb = Keeps-pure i ok
  perform-Keeps state_mtu tb = perform_mtu-Keeps i tb
  perform-Keeps state_ntpsvr tb = Keeps-pure i ok
  perform-Keeps state_wins tb = Keeps-pure i ok
  perform-Keeps state_carrier tb = perform_carrier-Keeps i
  perform-Keeps state_nothing tb = Keeps-pure i fatal

  pub dispatch_work-Keeps : (s : IfchState) (text : Bytes) → Keeps i (dispatch_work s text)
  unfolding dispatch_work Keeps
  dispatch_work-Keeps s text w h = grind (arith, perform-Keeps)
