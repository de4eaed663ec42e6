-- ===== src/MainLoop/Round.antt =====
-- One round of `do_ndhc_work` of src/ndhc.c.
use ndhc.Common.{
  ℕ, ◌+◌, ◌%◌, Bool, true, false, not, Option, none, some, List, leb, if◌then◌else◌, is_some, ◌==◌,
  value_or,
}
use ndhc.Common.Subprocess.{SignalRead, not_read, signo}
use ndhc.Arp.Packets.{ReadArp, arp_packet_get, arp_get_wake_ts}
use ndhc.Dhcp.Receive.{Received, payload, dhcp_packet_get}
use ndhc.Ifchd.World.{NlMsg}
use ndhc.MainLoop.Events.{
  Ifs, ifs_none, ifs_up, ifs_removed, nl_event_get, Rfk, rfk_none, rfk_enabled, rfk_disabled,
  RfkillRead, rfkill_get,
}
use ndhc.MainLoop.Timeout.{next_timeout}
use ndhc.Master.Ipc.{carrier_isup}
use ndhc.Master.World.{
  M, pure, ◌>>=◌, halt, get_cs, get_garp, curms, nk_random_u32, suicide, exit_success, exit_failure,
}
use ndhc.Options.Packet.{Dhcpmsg}
use ndhc.State.Machine.{dhcp_handle}
use ndhc.State.Result.{Signal, signal_none, signal_renew, signal_release, Inputs}
use ndhc.State.Search.{Pc}

-- What `epoll_wait` gives, and what the descriptor then holds. `failed` is another error than EINTR;
-- `closed` a descriptor that has an event but no input, or one that is not known; `peer_gone` the
-- end of ndhc-ifch or of ndhc-sockd; `peer_event` another event of theirs.
pub data Polled : Type 0 where
  timed_out interrupted failed closed peer_gone peer_event : Polled
  signal_ready : SignalRead → Polled
  listen_ready : Received → Polled
  arp_ready : ReadArp → Polled
  nl_ready : List (Option (List NlMsg)) → Polled
  rfkill_ready : RfkillRead → Polled

-- The variables `sev_*`. `dhcp_packet` keeps its content between the rounds.
pub record Seen : Type 0 where
  pub had_event : Bool
  pub sev_dhcp : Bool
  pub dhcp_packet : Dhcpmsg
  pub dhcp_msgtype : ℕ
  pub dhcp_srcaddr : ℕ
  pub sev_arp : Bool
  pub sev_nl : Ifs
  pub sev_rfk : Rfk
  pub sev_signal : Signal

-- The values that do not change, and the variables that outlive a round.
pub record Constants : Type 0 where
  pub ifindex : ℕ
  pub nl_port_id : ℕ
  pub rfkill_idx : ℕ

pub record Loop : Type 0 where
  pub pc : Pc
  pub rfkill_set : Bool
  pub rfkill_nl_carrier_wentup : Bool
  pub dhcp_packet : Dhcpmsg
  pub timeout : Option ℕ

abbrev pub nothing_seen : Bool → Dhcpmsg → Seen
nothing_seen had_event packet = record {
  had_event = had_event;
  sev_dhcp = false;
  dhcp_packet = packet;
  dhcp_msgtype = 0;
  dhcp_srcaddr = 0;
  sev_arp = false;
  sev_nl = ifs_none;
  sev_rfk = rfk_none;
  sev_signal = signal_none;
}

abbrev pub received_packet : Dhcpmsg → Received → Dhcpmsg
received_packet old (payload packet srcaddr len) = packet
received_packet old _ = old

abbrev received_srcaddr : Received → ℕ
received_srcaddr (payload packet srcaddr len) = srcaddr
received_srcaddr _ = 0

-- SIGUSR1, SIGUSR2, SIGCHLD and SIGTERM are 10, 12, 17 and 15.
unfoldable pub signal_dispatch : SignalRead → M Signal
signal_dispatch not_read = pure signal_none
signal_dispatch (signo n) =
    if n == 10
    then pure signal_renew
    else if n == 12
    then pure signal_release
    else if n == 17
    then halt suicide
    else if n == 15
    then halt exit_success
    else pure signal_none

-- The loop over the events; `epoll_wait` gives at most one.
unfoldable pub see : Constants → Dhcpmsg → Polled → M Seen
unfolding signal_dispatch
see k packet timed_out = pure (nothing_seen false packet)
see k packet interrupted = pure (nothing_seen false packet)
see k packet failed = halt suicide
see k packet closed = halt suicide
see k packet peer_gone = halt exit_failure
see k packet peer_event = pure (nothing_seen true packet)
see k packet (signal_ready r) = do
  s ← signal_dispatch r
  pure (record (nothing_seen true packet) { sev_signal = s })
see k packet (listen_ready r) = do
  msgtype ← dhcp_packet_get r
  pure (record (nothing_seen true (received_packet packet r)) {
    sev_dhcp = is_some msgtype;
    dhcp_msgtype = value_or msgtype 0;
    dhcp_srcaddr = received_srcaddr r;
  })
see k packet (arp_ready r) = do
  sev_arp ← arp_packet_get r
  pure (record (nothing_seen true packet) { sev_arp = sev_arp })
see k packet (nl_ready bufs) =
    pure (record (nothing_seen true packet) { sev_nl = nl_event_get k.ifindex k.nl_port_id bufs })
see k packet (rfkill_ready r) =
    pure (record (nothing_seen true packet) { sev_rfk = rfkill_get (some k.rfkill_idx) r })

-- The flags after an event of the switch, and `force_fingerprint`.
unfoldable pub after_rfkill : Rfk → Loop → M (Loop × Bool)
after_rfkill rfk_enabled l =
    pure (record l { rfkill_set = true; rfkill_nl_carrier_wentup = false }, false)
after_rfkill rfk_disabled l =
    if l.rfkill_nl_carrier_wentup
    then (do up ← carrier_isup; pure (record l { rfkill_set = false }, up))
    else pure (record l { rfkill_set = false }, false)
after_rfkill _ l = pure (l, false)

unfoldable pub nl_event_carrier_wentup : Ifs → M Bool
nl_event_carrier_wentup ifs_up = pure true
nl_event_carrier_wentup ifs_removed = halt exit_success
nl_event_carrier_wentup _ = pure false

abbrev pub after_carrier : Bool → Loop → Bool → Loop × Bool
after_carrier wentup l force =
    if not wentup
    then (l, force)
    else if not l.rfkill_set
    then (l, true)
    else (record l { rfkill_nl_carrier_wentup = true }, force)

-- A wait of 2000 to 4999 milliseconds.
unfoldable pub wait_for_interface : Loop → M Loop
wait_for_interface l = do r ← nk_random_u32; pure (record l { timeout = some (2000 + r % 3000) })

-- A time of -1 is before every other.
abbrev pub is_due : Option ℕ → ℕ → Bool
is_due none nowts = true
is_due (some t) nowts = leb t nowts

abbrev pub inputs : Seen → Bool → ℕ → Option ℕ → Option ℕ → Inputs
inputs s force_fingerprint nowts dhcp_wake_ts arp_wake_ts = record {
  nowts = nowts;
  sev_dhcp = s.sev_dhcp;
  dhcp_packet = s.dhcp_packet;
  dhcp_msgtype = s.dhcp_msgtype;
  dhcp_srcaddr = s.dhcp_srcaddr;
  sev_arp = s.sev_arp;
  force_fingerprint = force_fingerprint;
  dhcp_timeout = is_due dhcp_wake_ts nowts;
  arp_timeout = is_due arp_wake_ts nowts;
  sev_signal = s.sev_signal;
}

-- The call of the state machine, and the timeout behind it. COR_ERROR is `false`.
unfoldable pub handle : Loop → Seen → Bool → M Loop
unfolding wait_for_interface
handle l s force_fingerprint = do
  nowts ← curms
  garp ← get_garp
  cs ← get_cs
  answer ←
      dhcp_handle l.pc
        (inputs s force_fingerprint nowts cs.dhcp_wake_ts (arp_get_wake_ts garp.wake_ts))
  if not answer.1 then wait_for_interface (record l { pc = answer.0 }) else (do
    garp2 ← get_garp
    cs2 ← get_cs
    pure (record l {
      pc = answer.0;
      timeout =
          next_timeout l.timeout s.had_event nowts (arp_get_wake_ts garp2.wake_ts) cs2.dhcp_wake_ts;
    }))

-- While the radio is blocked or the carrier is down, what was seen is dropped.
unfoldable pub handle_if_up : Loop → Seen → Bool → M Loop
unfolding handle
handle_if_up l s force_fingerprint = if l.rfkill_set then wait_for_interface l else (do
  up ← carrier_isup
  if not up then wait_for_interface l else handle l s force_fingerprint)

unfoldable pub handle_seen : Loop → Seen → M Loop
unfolding after_rfkill nl_event_carrier_wentup handle_if_up
handle_seen l0 s = do
  r ← after_rfkill s.sev_rfk (record l0 { dhcp_packet = s.dhcp_packet })
  wentup ← nl_event_carrier_wentup s.sev_nl
  handle_if_up (after_carrier wentup r.0 r.1).0 s (after_carrier wentup r.0 r.1).1

-- After EINTR the loop calls `epoll_wait` again.
unfoldable pub round : Constants → Loop → Polled → M Loop
unfolding see handle_seen
round k l interrupted = pure l
round k l polled = do s ← see k l.dhcp_packet polled; handle_seen l s
