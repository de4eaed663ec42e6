-- ===== src/MainLoop/Safety.antt =====
-- The calls of the state machine in the main loop, and its rounds.
use ndhc.Common.{ℕ, ◌+◌, Bool, true, false, not, List, [], ◌∷◌, if◌then◌else◌, arith}
use ndhc.Arp.Packets.{arp_get_wake_ts}
use ndhc.Dhcp.Sound.{carrier_isup-EndsSound}
use ndhc.MainLoop.Round.{
  Polled, timed_out, interrupted, failed, closed, peer_gone, peer_event, signal_ready, listen_ready,
  arp_ready, nl_ready, rfkill_ready, Seen, Constants, Loop, see, after_rfkill,
  nl_event_carrier_wentup, after_carrier, wait_for_interface, inputs, handle, handle_if_up,
  handle_seen, round,
}
use ndhc.MainLoop.Sound.{
  Ends, Ends-bind, Ends-if, Ends-sound, PolledHasSizes, SeenHasSizes, LoopHasSizes, PairHasSizes,
  see-Ends, after_rfkill-Ends, nl_event_carrier_wentup-Ends, wait_for_interface-Ends,
  after_carrier-sizes,
}
use ndhc.Master.Ipc.{carrier_isup}
use ndhc.Master.Sound.{IsSound}
use ndhc.Master.World.{M, ◌>>=◌, pure, World, get_cs, get_garp}
use ndhc.MainLoop.Timeout.{next_timeout}
use ndhc.State.Machine.{dhcp_handle}
use ndhc.State.Safety.{dhcp_handle-EndsSound}
use ndhc.State.Search.{Answer}

-- What follows the state machine's answer.
abbrev behind_answer : Loop → Seen → ℕ → Answer → M Loop
behind_answer l s nowts answer =
    if not answer.1 then wait_for_interface (record l { pc = answer.0 }) else (do
      garp2 ← get_garp
      cs2 ← get_cs
      pure (record l {
        pc = answer.0;
        timeout =
            next_timeout l.timeout s.had_event nowts (arp_get_wake_ts garp2.wake_ts)
              cs2.dhcp_wake_ts;
      }))

behind_answer-Ends :
    (l : Loop) (s : Seen) (nowts : ℕ) (answer : Answer) (w : World)
    → LoopHasSizes l
    → IsSound w
    → Ends LoopHasSizes (behind_answer l s nowts answer w)
behind_answer-Ends l s nowts (pc, false) w h i =
    wait_for_interface-Ends (record l { pc = pc }) w h i
behind_answer-Ends l s nowts (pc, true) w h i = (i, h)

handle-Ends :
    (l : Loop) (s : Seen) (force : Bool) (w : World)
    → LoopHasSizes l
    → SeenHasSizes s
    → IsSound w
    → Ends LoopHasSizes (handle l s force w)
unfolding handle
handle-Ends l s force w h q i =
    let v = record w { tick = w.tick + 1 } in
    let input =
      inputs s force (w.env.now w.tick) w.cs.dhcp_wake_ts (arp_get_wake_ts w.garp.wake_ts) in
    Ends-bind (λ _. Unit {0}) LoopHasSizes (dhcp_handle l.pc input)
      (behind_answer l s (w.env.now w.tick)) v
      (Ends-sound (dhcp_handle l.pc input v) (dhcp_handle-EndsSound l.pc input v q (ground arith)))
      (λ answer u j _. behind_answer-Ends l s (w.env.now w.tick) answer u h j)

handle_if_up-Ends :
    (l : Loop) (s : Seen) (force : Bool) (w : World)
    → LoopHasSizes l
    → SeenHasSizes s
    → IsSound w
    → Ends LoopHasSizes (handle_if_up l s force w)
unfolding handle_if_up
handle_if_up-Ends l s force w h q i =
    Ends-if LoopHasSizes l.rfkill_set (wait_for_interface l) _ w (wait_for_interface-Ends l w h i) (
      Ends-bind (λ _. Unit {0}) LoopHasSizes carrier_isup
        (λ up. if not up then wait_for_interface l else handle l s force) w
        (Ends-sound (carrier_isup w) (carrier_isup-EndsSound w i))
        (λ up v j _.
          Ends-if LoopHasSizes (not up) (wait_for_interface l) (handle l s force) v
            (wait_for_interface-Ends l v h j) (handle-Ends l s force v h q j)))

handle_seen-Ends :
    (l : Loop) (s : Seen) (w : World)
    → SeenHasSizes s
    → IsSound w
    → Ends LoopHasSizes (handle_seen l s w)
unfolding handle_seen
handle_seen-Ends l s w q i =
    Ends-bind PairHasSizes LoopHasSizes
      (after_rfkill s.sev_rfk (record l { dhcp_packet = s.dhcp_packet })) _ w
      (after_rfkill-Ends s.sev_rfk (record l { dhcp_packet = s.dhcp_packet }) w q i)
      (λ r v j h.
        Ends-bind (λ _. Unit {0}) LoopHasSizes (nl_event_carrier_wentup s.sev_nl) _ v
          (nl_event_carrier_wentup-Ends s.sev_nl v j)
          (λ wentup u o _.
            handle_if_up-Ends (after_carrier wentup r.0 r.1).0 s (after_carrier wentup r.0 r.1).1 u
              (after_carrier-sizes wentup r.0 r.1 h) q o))

seen :
    (k : Constants) (l : Loop) (p : Polled) (w : World)
    → LoopHasSizes l
    → PolledHasSizes p
    → IsSound w
    → Ends LoopHasSizes ((see k l.dhcp_packet p >>= handle_seen l) w)
seen k l p w h q i =
    Ends-bind SeenHasSizes LoopHasSizes (see k l.dhcp_packet p) (handle_seen l) w
      (see-Ends k l.dhcp_packet p w h q i) (λ s v j g. handle_seen-Ends l s v g j)

-- One round, for everything that `epoll_wait` gives.
round-Ends :
    (k : Constants) (l : Loop) (p : Polled) (w : World)
    → LoopHasSizes l
    → PolledHasSizes p
    → IsSound w
    → Ends LoopHasSizes (round k l p w)
unfolding round
round-Ends k l interrupted w h q i = (i, h)
round-Ends k l timed_out w h q i = seen k l timed_out w h q i
round-Ends k l failed w h q i = seen k l failed w h q i
round-Ends k l closed w h q i = seen k l closed w h q i
round-Ends k l peer_gone w h q i = seen k l peer_gone w h q i
round-Ends k l peer_event w h q i = seen k l peer_event w h q i
round-Ends k l (signal_ready g) w h q i = seen k l (signal_ready g) w h q i
round-Ends k l (listen_ready r) w h q i = seen k l (listen_ready r) w h q i
round-Ends k l (arp_ready r) w h q i = seen k l (arp_ready r) w h q i
round-Ends k l (nl_ready b) w h q i = seen k l (nl_ready b) w h q i
round-Ends k l (rfkill_ready r) w h q i = seen k l (rfkill_ready r) w h q i

-- The rounds for a sequence of events.
unfoldable pub rounds : Constants → Loop → List Polled → M Loop
rounds k l [] = pure l
rounds k l (p ∷ ps) = do next ← round k l p; rounds k next ps

abbrev pub AllHaveSizes : List Polled → Type 0
AllHaveSizes [] = Unit {0}
AllHaveSizes (p ∷ ps) = PolledHasSizes p × AllHaveSizes ps

-- For every sequence of events in which each message for the DHCP socket has the sizes of its type,
-- from a sound world and a kept packet with these sizes: the rounds of the main loop come to an
-- end, none of them reads or writes outside a buffer, and the world and the packet are such again,
-- unless the process ended.
pub rounds-Ends :
    (ps : List Polled) (k : Constants) (l : Loop) (w : World)
    → LoopHasSizes l
    → AllHaveSizes ps
    → IsSound w
    → Ends LoopHasSizes (rounds k l ps w)
unfolding rounds
rounds-Ends [] k l w h q i = (i, h)
rounds-Ends (p ∷ ps) k l w h (q, qs) i =
    Ends-bind LoopHasSizes LoopHasSizes (round k l p) _ w (round-Ends k l p w h q i)
      (λ next v j g. rounds-Ends ps k next v g qs j)
