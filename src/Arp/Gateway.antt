-- ===== src/Arp/Gateway.antt =====
-- The fingerprint of a network: the hardware addresses of its gateway and its DHCP agent, asked for
-- after a lease (`query`) and compared after the carrier came back (`check`), of src/arp.c.
use ndhc.Common.{ℕ, ◌+◌, Bool, true, false, not, Option, none, some, ◌==◌, ltb, leb, if◌then◌else◌}
use ndhc.Arp.Announce.{waited_of}
use ndhc.Arp.Message.{arp_ping, arp_announcement, arp_is_query_reply}
use ndhc.Arp.Result.{
  Arpr, arpr_ok, arpr_free, arpr_conflict, arpr_fail, Waited, not_yet, timed_out, arp_retrans_delay,
}
use ndhc.Arp.Socket.{arp_open_fd}
use ndhc.Ifchange.Changes.{same_bytes}
use ndhc.Master.World.{M, pure, ◌>>=◌, ◌>>◌, get_cs, get_garp, get_conf, put_cs, put_garp, curms}

abbrev pub wake_gw_check : Option ℕ → M (Unit {0})
wake_gw_check t = do
  garp ← get_garp
  put_garp (record garp { wake_ts = record garp.wake_ts { gw_check = t } })

abbrev pub wake_gw_query : Option ℕ → M (Unit {0})
wake_gw_query t = do
  garp ← get_garp
  put_garp (record garp { wake_ts = record garp.wake_ts { gw_query = t } })

abbrev pub wake_query_gw_send : Option ℕ → M (Unit {0})
wake_query_gw_send t = do
  garp ← get_garp
  put_garp (record garp { wake_ts = record garp.wake_ts { query_gw_send = t } })

unfoldable pub arp_gw_check : M Bool
arp_gw_check = do
  opened ← arp_open_fd false
  if not opened then pure false else (do
    g0 ← get_garp
    put_garp (record g0 { gw_check_initpings = g0.sent_gw_ping.count; server_replied = false })
    c0 ← get_cs
    put_cs (record c0 { check_fingerprint = true })
    asked_server ← arp_ping c0.src_addr
    if not asked_server then pure false else (do
      cs ← get_cs
      g1 ← get_garp
      asked_router ←
          (if not (cs.router_addr == 0)
            then (do put_garp (record g1 { router_replied = false }); arp_ping cs.router_addr)
            else (do put_garp (record g1 { router_replied = true }); pure true))
      if not asked_router then pure false else (do
        garp ← get_garp
        wake_gw_check (some (garp.sent_gw_ping.ts + arp_retrans_delay + 250))
        pure true)))

unfoldable pub arp_get_gw_hwaddr : M Bool
arp_get_gw_hwaddr = do
  opened ← arp_open_fd false
  if not opened then pure false else (do
    c0 ← get_cs
    put_cs (record c0 { got_server_arp = false })
    asked_server ← arp_ping c0.src_addr
    if not asked_server then pure false else (do
      cs ← get_cs
      asked_router ←
          (if not (cs.router_addr == 0)
            then (do put_cs (record cs { got_router_arp = false }); arp_ping cs.router_addr)
            else (do put_cs (record cs { got_router_arp = true }); pure true))
      if not asked_router then pure false else (do
        garp ← get_garp
        wake_gw_query (some (garp.sent_gw_ping.ts + arp_retrans_delay + 250))
        pure true)))

unfoldable pub arp_gw_success : M Arpr
arp_gw_success = do
  opened ← arp_open_fd true
  if not opened then pure arpr_fail else (do
    wake_gw_check none
    sent ← arp_announcement
    pure (if not sent then arpr_fail else arpr_free))

unfoldable pub arp_query_gateway : M Arpr
arp_query_gateway = do
  cs ← get_cs
  if cs.sent_gw_query then (do wake_query_gw_send none; pure arpr_ok) else (do
    asked ← arp_get_gw_hwaddr
    if not asked
        then (do now ← curms; wake_query_gw_send (some (now + arp_retrans_delay)); pure arpr_fail)
        else (do
          c ← get_cs
          put_cs (record c { sent_gw_query = true; init_fingerprint_inprogress = true })
          wake_query_gw_send none
          pure arpr_ok))

unfoldable pub arp_query_gateway_timeout : ℕ → M Waited
arp_query_gateway_timeout nowts = do
  garp ← get_garp
  elim garp.wake_ts.query_gw_send [
    | none ↦ pure timed_out
    | some rtts ↦
        if ltb nowts rtts then pure not_yet else (do r ← arp_query_gateway; pure (waited_of r))
  ]

-- One more ping, where it is wanted; the flag is false if the ping failed.
unfoldable pub ping_again : Bool → ℕ → M Bool
ping_again wanted ip = if wanted then arp_ping ip else pure true

unfoldable pub arp_gw_check_timeout : ℕ → M Arpr
arp_gw_check_timeout nowts = do
  g0 ← get_garp
  if leb (g0.gw_check_initpings + 6) g0.sent_gw_ping.count
      then (do wake_gw_check none; pure arpr_conflict)
      else (do
        let rtts = g0.sent_gw_ping.ts + arp_retrans_delay
        if ltb nowts rtts then (do wake_gw_check (some rtts); pure arpr_ok) else (do
          cs ← get_cs
          router ← ping_again (not g0.router_replied) cs.router_addr
          if not router then pure arpr_fail else (do
            server ← ping_again (not g0.server_replied) cs.src_addr
            if not server then pure arpr_fail else (do
              garp ← get_garp
              wake_gw_check (some (garp.sent_gw_ping.ts + arp_retrans_delay))
              pure arpr_ok))))

unfoldable pub arp_gw_query_timeout : ℕ → M Arpr
arp_gw_query_timeout nowts = do
  g0 ← get_garp
  let rtts = g0.sent_gw_ping.ts + arp_retrans_delay
  if ltb nowts rtts then (do wake_gw_query (some rtts); pure arpr_ok) else (do
    cs ← get_cs
    router ← ping_again (not cs.got_router_arp) cs.router_addr
    if not router then pure arpr_fail else (do
      server ← ping_again (not cs.got_server_arp) cs.src_addr
      if not server then pure arpr_fail else (do
        garp ← get_garp
        wake_gw_query (some (garp.sent_gw_ping.ts + arp_retrans_delay))
        pure arpr_ok)))

-- Both addresses are known: the socket turns to defense.
abbrev pub query_done : M Arpr
query_done = do
  wake_gw_query none
  opened ← arp_open_fd true
  pure (if not opened then arpr_fail else arpr_free)

-- The label `server_is_router` of `arp_do_gw_query`.
abbrev pub query_server : M Arpr
query_server = do
  cs ← get_cs
  garp ← get_garp
  put_cs (record cs { server_arp = garp.reply.smac; got_server_arp = true })
  if cs.got_router_arp then query_done else pure arpr_ok

unfoldable pub arp_do_gw_query : M Arpr
arp_do_gw_query = do
  cs ← get_cs
  garp ← get_garp
  conf ← get_conf
  if not (arp_is_query_reply conf garp.reply)
      then pure arpr_ok
      else if garp.reply.sip4 == cs.router_addr
      then (do
        put_cs (record cs { router_arp = garp.reply.smac; got_router_arp = true })
        if cs.router_addr == cs.src_addr
            then query_server
            else if cs.got_server_arp
            then query_done
            else pure arpr_ok)
      else if garp.reply.sip4 == cs.src_addr
      then query_server
      else pure arpr_ok

-- The label `server_is_router` of `arp_do_gw_check`.
abbrev pub check_server : M Arpr
check_server = do
  cs ← get_cs
  garp ← get_garp
  if same_bytes cs.server_arp garp.reply.smac
      then (do
        put_garp (record garp { server_replied = true })
        if garp.router_replied then arp_gw_success else pure arpr_ok)
      else (do wake_gw_check none; pure arpr_conflict)

unfoldable pub arp_do_gw_check : M Arpr
arp_do_gw_check = do
  cs ← get_cs
  garp ← get_garp
  conf ← get_conf
  if not (arp_is_query_reply conf garp.reply)
      then pure arpr_ok
      else if garp.reply.sip4 == cs.router_addr
      then (if same_bytes cs.router_arp garp.reply.smac
          then (do
            put_garp (record garp { router_replied = true })
            if cs.router_addr == cs.src_addr
                then check_server
                else if garp.server_replied
                then arp_gw_success
                else pure arpr_ok)
          else (do wake_gw_check none; pure arpr_conflict))
      else if garp.reply.sip4 == cs.src_addr
      then check_server
      else pure arpr_ok
