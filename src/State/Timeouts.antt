-- ===== src/State/Timeouts.antt =====
-- The timers of a lease, of src/state.c. Times are in milliseconds, a lease is in seconds.
use ndhc.Common.{
  ℕ, ◌+◌, ◌*◌, ◌/◌, ◌%◌, ◌^◌, Bool, false, not, ◌&&◌, some, [], ◌∷◌, ◌==◌, ltb, leb, is_some,
  get_elem?, value_or, if◌then◌else◌, replicate,
}
use ndhc.Arp.Socket.{arp_reset_state}
use ndhc.Dhcp.Send.{start_dhcp_listen, send_discover, send_selecting, send_renew, send_rebind}
use ndhc.Master.Client.{ClientState}
use ndhc.Master.World.{
  M, pure, ◌>>=◌, ◌>>◌, halt, checked, get_cs, get_conf, put_cs, emit, curms, nk_random_u32, forked,
  suicide,
}
use ndhc.Options.Getters.{get_option_leasetime}
use ndhc.Options.Packet.{Dhcpmsg}
use ndhc.State.Result.{
  Sel, sel_success, sel_fail, Req, req_success, req_timeout, req_fail, Bto, bto_wait, bto_expired,
  bto_hardfail,
}

abbrev pub u32 : ℕ → ℕ
u32 n = n % 2 ^ 32

unfoldable pub delay_timeout : ℕ → M ℕ
delay_timeout numpackets = do
  r ← nk_random_u32
  let to = value_or (get_elem? (4 ∷ 8 ∷ 16 ∷ 32 ∷ 64 ∷ []) numpackets) 64
  pure (to * 1000 + r % 1000)

unfoldable pub reinit_shared_deconfig : M (Unit {0})
reinit_shared_deconfig = do
  cs ← get_cs
  put_cs (record cs {
    client_addr = 0;
    num_dhcp_requests = 0;
    got_router_arp = false;
    got_server_arp = false;
    check_fingerprint = false;
    sent_gw_query = false;
    sent_first_announce = false;
    sent_second_announce = false;
    init_fingerprint_inprogress = false;
    router_arp = replicate 6 0;
    server_arp = replicate 6 0;
  })
  arp_reset_state

unfoldable pub reinit_selecting : ℕ → M (Unit {0})
unfolding reinit_shared_deconfig
reinit_selecting timeout = do
  reinit_shared_deconfig
  now ← curms
  cs ← get_cs
  put_cs (record cs { dhcp_wake_ts = some (now + timeout) })
  start_dhcp_listen

unfoldable pub requesting_timeout : ℕ → M Req
requesting_timeout nowts = do
  cs ← get_cs
  if leb 5 cs.num_dhcp_requests then (do reinit_selecting 0; pure req_timeout) else (do
    sent ← send_selecting
    if not (is_some sent) then pure req_fail else (do
      delay ← delay_timeout cs.num_dhcp_requests
      c ← get_cs
      put_cs (record c {
        dhcp_wake_ts = some (nowts + delay);
        num_dhcp_requests = c.num_dhcp_requests + 1;
      })
      pure req_success))

unfoldable pub renew_at : ClientState → ℕ
renew_at cs = cs.lease_start_time + cs.renew_time * 1000

unfoldable pub rebind_at : ClientState → ℕ
rebind_at cs = cs.lease_start_time + cs.rebind_time * 1000

-- `cs->lease * 1000` is a product of 32-bit unsigned numbers.
unfoldable pub expires_at : ClientState → ℕ
expires_at cs = cs.lease_start_time + u32 (cs.lease * 1000)

unfoldable pub is_renewing : ClientState → ℕ → Bool
unfolding renew_at
is_renewing cs nowts = leb (renew_at cs) nowts

unfoldable pub is_rebinding : ClientState → ℕ → Bool
unfolding rebind_at
is_rebinding cs nowts = leb (rebind_at cs) nowts

-- The next attempt, but not after `limit`.
abbrev pub retry_before : ℕ → ℕ → M Bto
retry_before nowts limit = do
  r ← nk_random_u32
  let ts0 = nowts + (50 + r % 20) * 1000
  cs ← get_cs
  put_cs (record cs { dhcp_wake_ts = some (if ltb ts0 limit then ts0 else limit) })
  pure bto_wait

unfoldable pub rebinding_timeout : ℕ → M Bto
unfolding expires_at
rebinding_timeout nowts = do
  cs ← get_cs
  let elt = expires_at cs
  if leb elt nowts then (do reinit_selecting 0; pure bto_expired) else (do
    start_dhcp_listen
    sent ← send_rebind
    if not (is_some sent) then pure bto_hardfail else retry_before nowts elt)

unfoldable pub renewing_timeout : ℕ → M Bto
unfolding rebind_at
renewing_timeout nowts = do
  cs ← get_cs
  let rbt = rebind_at cs
  if leb rbt nowts then rebinding_timeout nowts else (do
    start_dhcp_listen
    sent ← send_renew
    if not (is_some sent) then pure bto_hardfail else retry_before nowts rbt)

unfoldable pub bound_timeout : ℕ → M Bto
unfolding renew_at
bound_timeout nowts = do
  cs ← get_cs
  let rnt = renew_at cs
  if ltb nowts rnt
      then (do put_cs (record cs { dhcp_wake_ts = some rnt }); pure bto_wait)
      else renewing_timeout nowts

-- The lease that the source settles on for the value of the option; 0 is an absent one.
unfoldable pub lease_of : ℕ → ℕ
lease_of sent = if sent == 0 then 60 * 60 else if ltb sent 60 then 60 else sent

unfoldable pub get_leasetime : Dhcpmsg → M (Unit {0})
unfolding lease_of
get_leasetime packet = do
  sent ← checked (get_option_leasetime packet)
  start ← curms
  let lease = lease_of sent
  let renew = lease / 2
  cs ← get_cs
  put_cs (record cs {
    lease = lease;
    lease_start_time = start;
    renew_time = renew;
    rebind_time = u32 (lease / 8 * 7);
    dhcp_wake_ts = some (start + renew * 1000);
  })

-- `background` forks at its first call, and is called once: it clears `program_init` before.
unfoldable pub selecting_timeout : ℕ → M Sel
selecting_timeout nowts = do
  c0 ← get_cs
  conf ← get_conf
  if c0.program_init && leb 2 c0.num_dhcp_requests
      then (if conf.background_if_no_lease
          then (do put_cs (record c0 { program_init = false }); emit forked)
          else if conf.abort_if_no_lease
          then halt suicide
          else pure tt)
      else pure tt
  c1 ← get_cs
  if c1.num_dhcp_requests == 0
      then (do xid ← nk_random_u32; put_cs (record c1 { xid = xid }))
      else pure tt
  sent ← send_discover
  if not (is_some sent) then pure sel_fail else (do
    cs ← get_cs
    delay ← delay_timeout cs.num_dhcp_requests
    put_cs (record cs {
      dhcp_wake_ts = some (nowts + delay);
      num_dhcp_requests = cs.num_dhcp_requests + 1;
    })
    pure sel_success)
