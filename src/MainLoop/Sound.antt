-- ===== src/MainLoop/Sound.antt =====
-- No round of the main loop leaves a buffer.
use ndhc.Common.{◌==◌, Bool, true, false, not, if◌then◌else◌, arith}
use ndhc.Common.Subprocess.{SignalRead, not_read, signo}
use ndhc.Arp.Packets.{ReadArp, nothing, read_error, message, arp_packet_get}
use ndhc.Arp.Sound.{arp_min_close_fd-EndsSound, arp_open_fd-EndsSound}
use ndhc.Dhcp.Accepts.{dhcp_packet_get-EndsSound}
use ndhc.Dhcp.Receive
use ndhc.Dhcp.Receive.{Received, transient, payload, dhcp_packet_get}
use ndhc.Dhcp.Sound.{
  carrier_isup-EndsSound, start_dhcp_listen-EndsSound, stop_dhcp_listen-EndsSound,
}
use ndhc.MainLoop.Events.{
  Ifs, ifs_none, ifs_up, ifs_down, ifs_shut, ifs_removed, Rfk, rfk_none, rfk_fail, rfk_enabled,
  rfk_disabled,
}
use ndhc.MainLoop.Round.{
  Polled, timed_out, interrupted, failed, closed, peer_gone, peer_event, signal_ready, listen_ready,
  arp_ready, nl_ready, rfkill_ready, Seen, Constants, Loop, see, after_rfkill,
  nl_event_carrier_wentup, after_carrier, wait_for_interface, received_packet, signal_dispatch,
}
use ndhc.Master.Ipc.{carrier_isup}
use ndhc.Master.Sound.{IsSound, EndsSound}
use ndhc.Master.World.{M, ◌>>=◌, pure, World, Outcome, returned, halted, fault}
use ndhc.Options.Packet.{Dhcpmsg, HasSizes}

-- The computation ends without a fault, in a sound world, with a result that has `Q`.
abbrev pub Ends : {A : Type 0} → (A → Type 0) → Outcome A → Type 0
Ends Q (returned a w) = IsSound w × Q a
Ends Q (halted h w) = Unit {0}
Ends Q fault = ⊥

pub Ends-bind :
    {A B : Type 0} (P : A → Type 0) (Q : B → Type 0) (m : M A) (k : A → M B) (w : World)
    → Ends P (m w)
    → ((a : A) (v : World) → IsSound v → P a → Ends Q (k a v))
    → Ends Q ((m >>= k) w)
Ends-bind {A = A} P Q m k w s go = after (m w) s
  where
    after :
        (o : Outcome A)
        → Ends P o
        → Ends Q (elim o [ returned a v ↦ k a v | halted h v ↦ halted h v | fault ↦ fault ])
    after (returned a v) (i, p) = go a v i p
    after (halted h v) s = tt
    after fault s = s

pub Ends-if :
    {A : Type 0} (Q : A → Type 0) (b : Bool) (m k : M A) (w : World)
    → Ends Q (m w)
    → Ends Q (k w)
    → Ends Q ((if b then m else k) w)
Ends-if Q true m k w p q = p
Ends-if Q false m k w p q = q

-- Every result of a sound computation.
pub Ends-sound : {A : Type 0} (o : Outcome A) → EndsSound o → Ends (λ (_ : A). Unit {0}) o
Ends-sound (returned a w) s = (s, tt)
Ends-sound (halted h w) s = tt
Ends-sound fault s = s

-- The packet of an event, and the packet that the loop keeps, have the sizes of their type.
abbrev pub ReceivedHasSizes : Received → Type 0
ReceivedHasSizes (payload packet srcaddr len) = HasSizes packet
ReceivedHasSizes _ = Unit {0}

abbrev pub PolledHasSizes : Polled → Type 0
PolledHasSizes (listen_ready r) = ReceivedHasSizes r
PolledHasSizes _ = Unit {0}

abbrev pub SeenHasSizes : Seen → Type 0
SeenHasSizes s = HasSizes s.dhcp_packet

abbrev pub LoopHasSizes : Loop → Type 0
LoopHasSizes l = HasSizes l.dhcp_packet

abbrev pub PairHasSizes : Loop × Bool → Type 0
PairHasSizes (l, force) = HasSizes l.dhcp_packet

dhcp_received-EndsSound :
    (r : Received) (w : World) → ReceivedHasSizes r → IsSound w → EndsSound (dhcp_packet_get r w)
unfolding dhcp_packet_get
dhcp_received-EndsSound transient w h s = s
dhcp_received-EndsSound Receive.read_error w h s =
    grind (arith, stop_dhcp_listen-EndsSound, start_dhcp_listen-EndsSound)
dhcp_received-EndsSound (payload packet srcaddr len) w h s =
    dhcp_packet_get-EndsSound packet srcaddr len w h s

arp_packet_get-EndsSound : (r : ReadArp) (w : World) → IsSound w → EndsSound (arp_packet_get r w)
unfolding arp_packet_get
arp_packet_get-EndsSound nothing w s = s
arp_packet_get-EndsSound read_error w s =
    grind (arith, arp_min_close_fd-EndsSound, arp_open_fd-EndsSound)
arp_packet_get-EndsSound (message amsg n) w s = ground arith

signal_dispatch-Ends :
    (r : SignalRead) (w : World) → IsSound w → Ends (λ _. Unit {0}) (signal_dispatch r w)
unfolding signal_dispatch
signal_dispatch-Ends not_read w s = (s, tt)
signal_dispatch-Ends (signo n) w s =
    Ends-if (λ _. Unit {0}) (n == 10) _ _ w (s, tt)
      (Ends-if (λ _. Unit {0}) (n == 12) _ _ w (s, tt)
        (Ends-if (λ _. Unit {0}) (n == 17) _ _ w tt
          (Ends-if (λ _. Unit {0}) (n == 15) _ _ w tt (s, tt))))

pub see-Ends :
    (k : Constants) (packet : Dhcpmsg) (p : Polled) (w : World)
    → HasSizes packet
    → PolledHasSizes p
    → IsSound w
    → Ends SeenHasSizes (see k packet p w)
unfolding see
see-Ends k packet timed_out w h q s = (s, h)
see-Ends k packet interrupted w h q s = (s, h)
see-Ends k packet failed w h q s = tt
see-Ends k packet closed w h q s = tt
see-Ends k packet peer_gone w h q s = tt
see-Ends k packet peer_event w h q s = (s, h)
see-Ends k packet (signal_ready r) w h q s =
    Ends-bind (λ _. Unit {0}) SeenHasSizes (signal_dispatch r) _ w (signal_dispatch-Ends r w s)
      (λ t v i _. (i, h))
see-Ends k packet (listen_ready r) w h q s =
    Ends-bind (λ _. Unit {0}) SeenHasSizes (dhcp_packet_get r) _ w
      (Ends-sound (dhcp_packet_get r w) (dhcp_received-EndsSound r w q s))
      (λ t v i _. (i, packet_sizes r q))
  where
    packet_sizes : (r : Received) → ReceivedHasSizes r → HasSizes (received_packet packet r)
    packet_sizes transient q = h
    packet_sizes Receive.read_error q = h
    packet_sizes (payload p a n) q = q
see-Ends k packet (arp_ready r) w h q s =
    Ends-bind (λ _. Unit {0}) SeenHasSizes (arp_packet_get r) _ w
      (Ends-sound (arp_packet_get r w) (arp_packet_get-EndsSound r w s)) (λ t v i _. (i, h))
see-Ends k packet (nl_ready bufs) w h q s = (s, h)
see-Ends k packet (rfkill_ready r) w h q s = (s, h)

pub after_rfkill-Ends :
    (r : Rfk) (l : Loop) (w : World)
    → LoopHasSizes l
    → IsSound w
    → Ends PairHasSizes (after_rfkill r l w)
unfolding after_rfkill
after_rfkill-Ends rfk_enabled l w h s = (s, h)
after_rfkill-Ends rfk_none l w h s = (s, h)
after_rfkill-Ends rfk_fail l w h s = (s, h)
after_rfkill-Ends rfk_disabled l w h s = went l.rfkill_nl_carrier_wentup
  where
    went :
        (b : Bool)
        → Ends PairHasSizes (
            (if b
                then (do up ← carrier_isup; pure (record l { rfkill_set = false }, up))
                else pure (record l { rfkill_set = false }, false))
              w)
    went true =
        Ends-bind (λ _. Unit {0}) PairHasSizes carrier_isup _ w
          (Ends-sound (carrier_isup w) (carrier_isup-EndsSound w s)) (λ t v i _. (i, h))
    went false = (s, h)

pub nl_event_carrier_wentup-Ends :
    (i : Ifs) (w : World) → IsSound w → Ends (λ _. Unit {0}) (nl_event_carrier_wentup i w)
unfolding nl_event_carrier_wentup
nl_event_carrier_wentup-Ends ifs_none w s = (s, tt)
nl_event_carrier_wentup-Ends ifs_up w s = (s, tt)
nl_event_carrier_wentup-Ends ifs_down w s = (s, tt)
nl_event_carrier_wentup-Ends ifs_shut w s = (s, tt)
nl_event_carrier_wentup-Ends ifs_removed w s = tt

pub wait_for_interface-Ends :
    (l : Loop) (w : World) → LoopHasSizes l → IsSound w → Ends LoopHasSizes (wait_for_interface l w)
unfolding wait_for_interface
wait_for_interface-Ends l w h s = (ground arith, h)

pub after_carrier-sizes :
    (wentup : Bool) (l : Loop) (force : Bool)
    → LoopHasSizes l
    → PairHasSizes (after_carrier wentup l force)
after_carrier-sizes false l force h = h
after_carrier-sizes true l force h = set l.rfkill_set
  where
    set :
        (b : Bool)
        → PairHasSizes
            (if not b then (l, true) else (record l { rfkill_nl_carrier_wentup = true }, force))
    set true = h
    set false = h
