-- ===== src/State/Sound.antt =====
-- The timers, the messages of servers and the signals of src/state.c keep the state sound.
use ndhc.Common.{
  ℕ, ◌≡◌, refl, Bool, some, arith, false, not, value_or, Bool-cases, inl, inr, ◌==◌, if◌then◌else◌,
}
use ndhc.Arp.GatewaySound.{arp_gw_check-EndsSound}
use ndhc.Arp.Sound.{arp_reset_state-EndsSound, arp_set_defense_mode-EndsSound}
use ndhc.Dhcp.Sound.{
  start_dhcp_listen-EndsSound, stop_dhcp_listen-EndsSound, send_discover-EndsSound,
  send_selecting-EndsSound, send_renew-EndsSound, send_rebind-EndsSound, send_release-EndsSound,
}
use ndhc.Master.Client.{ClientState}
use ndhc.Master.Sound.{IsSound, EndsSound, EndsSound-bind}
use ndhc.Master.World.{World}
use ndhc.Options.Dcode
use ndhc.Options.Getters.{get_option_leasetime, get_option_serverid}
use ndhc.Options.Packet.{Dhcpmsg, HasSizes, max_dopt_size}
use ndhc.Options.Safety.{get_dhcp_opt_safe}
use ndhc.State.Offers.{
  validate_serverid, extend_valid_ack, extend_ack, extend_nak, extend_packet, take_offer, take_ack,
  selecting_packet,
}
use ndhc.State.Signals.{print_release, xmit_release, frenew, ifup_action}
use ndhc.State.Timeouts.{
  delay_timeout, reinit_shared_deconfig, reinit_selecting, requesting_timeout, rebinding_timeout,
  renewing_timeout, bound_timeout, get_leasetime, selecting_timeout,
}

get_option_leasetime_safe : (p : Dhcpmsg) → HasSizes p → (r : ℕ) × (get_option_leasetime p ≡ some r)
unfolding get_option_leasetime
get_option_leasetime_safe p sizes =
    let (buf, e, _) = get_dhcp_opt_safe p Dcode.leaset max_dopt_size sizes in
    (value_or (get_option_leasetime p) 0, rw e refl)

get_option_serverid_safe :
    (p : Dhcpmsg) → HasSizes p → (r : ℕ × Bool) × (get_option_serverid p ≡ some r)
unfolding get_option_serverid
get_option_serverid_safe p sizes =
    let (buf, e, _) = get_dhcp_opt_safe p Dcode.server_id max_dopt_size sizes in
    (value_or (get_option_serverid p) (0, false), rw e refl)

IsSound-cs : (w : World) (c : ClientState) → IsSound w → IsSound (record w { cs = c })
IsSound-cs w c s = record {
  valid = s.valid;
  stays = s.stays;
  cfg_sizes = s.cfg_sizes;
  offer_sizes = s.offer_sizes;
}

pub reinit_shared_deconfig-EndsSound :
    (w : World) → IsSound w → EndsSound (reinit_shared_deconfig w)
unfolding reinit_shared_deconfig
reinit_shared_deconfig-EndsSound w s = grind (arith, arp_reset_state-EndsSound)

pub reinit_selecting-EndsSound :
    (timeout : ℕ) (w : World) → IsSound w → EndsSound (reinit_selecting timeout w)
unfolding reinit_selecting
reinit_selecting-EndsSound timeout w s =
    grind (arith, reinit_shared_deconfig-EndsSound, start_dhcp_listen-EndsSound)

pub requesting_timeout-EndsSound :
    (nowts : ℕ) (w : World) → IsSound w → EndsSound (requesting_timeout nowts w)
unfolding requesting_timeout delay_timeout
requesting_timeout-EndsSound nowts w s =
    grind (arith, reinit_selecting-EndsSound, send_selecting-EndsSound w s)

pub rebinding_timeout-EndsSound :
    (nowts : ℕ) (w : World) → IsSound w → EndsSound (rebinding_timeout nowts w)
unfolding rebinding_timeout
rebinding_timeout-EndsSound nowts w s =
    grind (arith, reinit_selecting-EndsSound, start_dhcp_listen-EndsSound, send_rebind-EndsSound)

pub renewing_timeout-EndsSound :
    (nowts : ℕ) (w : World) → IsSound w → EndsSound (renewing_timeout nowts w)
unfolding renewing_timeout
renewing_timeout-EndsSound nowts w s =
    grind (arith, rebinding_timeout-EndsSound, start_dhcp_listen-EndsSound, send_renew-EndsSound)

pub bound_timeout-EndsSound :
    (nowts : ℕ) (w : World) → IsSound w → EndsSound (bound_timeout nowts w)
unfolding bound_timeout
bound_timeout-EndsSound nowts w s = grind (arith, renewing_timeout-EndsSound)

pub get_leasetime-EndsSound :
    (packet : Dhcpmsg) (w : World)
    → HasSizes packet
    → IsSound w
    → EndsSound (get_leasetime packet w)
unfolding get_leasetime
get_leasetime-EndsSound packet w sizes s =
    let (r, e) = get_option_leasetime_safe packet sizes in ground (arith, e)

pub selecting_timeout-EndsSound :
    (nowts : ℕ) (w : World) → IsSound w → EndsSound (selecting_timeout nowts w)
unfolding selecting_timeout delay_timeout
selecting_timeout-EndsSound nowts w s = grind (arith, send_discover-EndsSound)

validate_serverid-EndsSound :
    (packet : Dhcpmsg) (w : World)
    → HasSizes packet
    → IsSound w
    → EndsSound (validate_serverid packet w)
unfolding validate_serverid
validate_serverid-EndsSound packet w sizes s =
    let (r, e) = get_option_serverid_safe packet sizes in ground (arith, e)

extend_valid_ack-EndsSound :
    (packet : Dhcpmsg) (w : World)
    → HasSizes packet
    → IsSound w
    → EndsSound (extend_valid_ack packet w)
unfolding extend_valid_ack
extend_valid_ack-EndsSound packet w sizes s =
    EndsSound-bind (get_leasetime packet) _ w (get_leasetime-EndsSound packet w sizes s)
      (λ _ v t. grind (arith, arp_set_defense_mode-EndsSound v t, stop_dhcp_listen-EndsSound))

extend_ack-EndsSound :
    (packet : Dhcpmsg) (w : World) → HasSizes packet → IsSound w → EndsSound (extend_ack packet w)
unfolding extend_ack
extend_ack-EndsSound packet w sizes s =
    EndsSound-bind (validate_serverid packet) _ w (validate_serverid-EndsSound packet w sizes s)
      (λ valid v t. ground (arith, extend_valid_ack-EndsSound packet v sizes t))

extend_nak-EndsSound :
    (packet : Dhcpmsg) (w : World) → HasSizes packet → IsSound w → EndsSound (extend_nak packet w)
unfolding extend_nak
extend_nak-EndsSound packet w sizes s =
    grind (arith, validate_serverid-EndsSound packet w sizes, reinit_selecting-EndsSound)

pub extend_packet-EndsSound :
    (packet : Dhcpmsg) (msgtype : ℕ) (w : World)
    → HasSizes packet
    → IsSound w
    → EndsSound (extend_packet packet msgtype w)
unfolding extend_packet
extend_packet-EndsSound packet msgtype w sizes s =
    ground (arith, extend_ack-EndsSound packet w sizes s, extend_nak-EndsSound packet w sizes s)

take_offer-EndsSound :
    (packet : Dhcpmsg) (srcaddr : ℕ) (w : World)
    → HasSizes packet
    → IsSound w
    → EndsSound (take_offer packet srcaddr w)
unfolding take_offer
take_offer-EndsSound packet srcaddr w sizes s =
    let (r, e) = get_option_serverid_safe packet sizes in ground (arith, e)

take_ack-EndsSound :
    (packet : Dhcpmsg) (srcaddr : ℕ) (w : World)
    → HasSizes packet
    → IsSound w
    → EndsSound (take_ack packet srcaddr w)
unfolding take_ack
take_ack-EndsSound packet srcaddr w sizes s =
    let (r, e) = get_option_serverid_safe packet sizes in
    let lease = λ (v : World) (t : IsSound v). get_leasetime-EndsSound packet v sizes t in
    elim (Bool-cases (packet.yiaddr == w.cs.client_addr)) [
      | inl same ↦ ground (
        arith,
        e,
        lease
            (record w {
              cs =
                  if not (w.cs.server_addr == r.0)
                  then record w.cs { server_addr = r.0; src_addr = srcaddr }
                  else w.cs;
            })
            (IsSound-cs w _ s),
      )
      | inr other ↦ rw other s
    ]

pub selecting_packet-EndsSound :
    (packet : Dhcpmsg) (msgtype : ℕ) (srcaddr : ℕ) (is_requesting : Bool) (w : World)
    → HasSizes packet
    → IsSound w
    → EndsSound (selecting_packet packet msgtype srcaddr is_requesting w)
unfolding selecting_packet
selecting_packet-EndsSound packet msgtype srcaddr is_requesting w sizes s = ground (
  arith,
  take_offer-EndsSound packet srcaddr w sizes s,
  take_ack-EndsSound packet srcaddr w sizes s,
)

pub print_release-EndsSound : (w : World) → IsSound w → EndsSound (print_release w)
unfolding print_release
print_release-EndsSound w s =
    grind (arith, reinit_shared_deconfig-EndsSound, stop_dhcp_listen-EndsSound)

pub xmit_release-EndsSound : (w : World) → IsSound w → EndsSound (xmit_release w)
unfolding xmit_release
xmit_release-EndsSound w s = grind (arith, send_release-EndsSound w s, print_release-EndsSound)

pub frenew-EndsSound : (is_bound : Bool) (w : World) → IsSound w → EndsSound (frenew is_bound w)
unfolding frenew
frenew-EndsSound is_bound w s =
    grind (arith, start_dhcp_listen-EndsSound, send_renew-EndsSound, reinit_selecting-EndsSound)

pub ifup_action-EndsSound : (w : World) → IsSound w → EndsSound (ifup_action w)
unfolding ifup_action
ifup_action-EndsSound w s = grind (arith, arp_gw_check-EndsSound w s)
