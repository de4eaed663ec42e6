-- ===== src/State/Bound.antt =====
-- The states BOUND, RENEWING and REBINDING of `dhcp_handle` in src/state.c: each part of the loop's
-- body, and their order. A part either goes on with the next one or answers.
use ndhc.Common.{ℕ, Bool, true, false, not, ◌&&◌, ◌||◌, Option, none, some, if◌then◌else◌}
use ndhc.Arp.Announce.{arp_announce_timeout}
use ndhc.Arp.Defense.{arp_do_defense, arp_defense_timeout}
use ndhc.Arp.Gateway.{
  arp_query_gateway_timeout, arp_do_gw_query, arp_do_gw_check, arp_gw_query_timeout,
  arp_gw_check_timeout,
}
use ndhc.Arp.Probe.{arp_check}
use ndhc.Arp.Result.{arpr_ok, arpr_free, arpr_conflict, arpr_fail}
use ndhc.Ifchange.Bind.{ifchange_deconfig}
use ndhc.Master.Client.{ClientState}
use ndhc.Master.World.{M, pure, ◌>>=◌, ◌>>◌, halt, get_cs, put_cs, suicide}
use ndhc.State.Offers.{extend_packet}
use ndhc.State.Result.{
  anp_success, anp_ignore, anp_rejected, anp_check_ip, Bto, bto_wait, bto_expired, bto_hardfail,
  ifup_revalidate, ifup_newlease, ifup_fail, signal_none, signal_renew, signal_release, Inputs,
}
use ndhc.State.Search.{bound, bound_deconfig, released, Answer, reinit}
use ndhc.State.Signals.{xmit_release, frenew, ifup_action}
use ndhc.State.Timeouts.{
  reinit_selecting, is_renewing, is_rebinding, rebinding_timeout, renewing_timeout, bound_timeout,
}

-- `none` goes on with the next part.
abbrev pub Part : Type 0
Part = M (Option Answer)

abbrev pub go_on : Part
go_on = pure none

abbrev pub stay : Bool → Part
stay result = pure (some (bound, result))

abbrev pub leave : Inputs → Part
leave i = do a ← reinit i; pure (some a)

-- A new search from the start.
unfoldable pub search_again : ℕ → Inputs → Part
search_again delay i = do reinit_selecting delay; leave i

infixr 4 ◌then◌
abbrev pub ◌then◌ : Part → Part → Part
p then q = p >>= λ r. elim r [ none ↦ q | some a ↦ pure (some a) ]

unfoldable pub on_signal : Inputs → Part
on_signal i = elim i.sev_signal [
  | signal_none ↦ go_on
  | signal_release ↦ (do
    sent ← xmit_release
    if sent then pure (some (released, true)) else stay false)
  | signal_renew ↦ (do sent ← frenew true; if sent then go_on else stay false)
]

unfoldable pub check_again : Inputs → Part
unfolding search_again
check_again i = do made ← arp_check i.dhcp_packet; if made then go_on else search_again 3000 i

unfoldable pub on_dhcp : Inputs → Part
on_dhcp i = do
  cs ← get_cs
  if i.sev_dhcp && is_renewing cs i.nowts
      then (do
        r ← extend_packet i.dhcp_packet i.dhcp_msgtype
        elim r [
          | anp_success ↦ go_on
          | anp_ignore ↦ go_on
          | anp_rejected ↦ leave i
          | anp_check_ip ↦ check_again i
        ])
      else go_on

unfoldable pub on_defense : Inputs → Part
on_defense i = do
  r ← arp_do_defense
  elim r [
    | arpr_ok ↦ go_on
    | arpr_conflict ↦ search_again 0 i
    | arpr_fail ↦ stay false
    | arpr_free ↦ halt suicide
  ]

-- The gateway is asked for, or checked.
unfoldable pub on_gateway : Inputs → Part
on_gateway i = do
  cs ← get_cs
  if not cs.got_router_arp || not cs.got_server_arp
      then (do
        r ← arp_do_gw_query
        elim r [
          | arpr_ok ↦ go_on
          | arpr_free ↦ (do
            c ← get_cs
            put_cs (record c { init_fingerprint_inprogress = false })
            go_on)
          | arpr_fail ↦ stay false
          | arpr_conflict ↦ halt suicide
        ])
      else if cs.check_fingerprint
      then (do
        r ← arp_do_gw_check
        elim r [
          | arpr_ok ↦ go_on
          | arpr_free ↦ (do c ← get_cs; put_cs (record c { check_fingerprint = false }); go_on)
          | arpr_conflict ↦ (do
            c ← get_cs
            put_cs (record c { check_fingerprint = false })
            search_again 0 i)
          | arpr_fail ↦ stay false
        ])
      else go_on

unfoldable pub on_arp : Inputs → Part
unfolding on_defense on_gateway
on_arp i = if i.sev_arp then (on_defense i then on_gateway i) else go_on

-- The results of the announcements and of `arp_query_gateway_timeout` are dropped.
unfoldable pub on_announce : Inputs → M (Unit {0})
on_announce i = do
  cs ← get_cs
  if cs.sent_first_announce && cs.sent_second_announce
      then (do _ ← arp_defense_timeout; pure tt)
      else (do _ ← arp_announce_timeout i.nowts; pure tt)

unfoldable pub on_gateway_timeout : Inputs → Part
on_gateway_timeout i = do
  cs ← get_cs
  if not cs.sent_gw_query
      then (do _ ← arp_query_gateway_timeout i.nowts; go_on)
      else if not cs.got_router_arp || not cs.got_server_arp
      then (do
        r ← arp_gw_query_timeout i.nowts
        elim r [ arpr_ok ↦ go_on | arpr_fail ↦ stay false | _ ↦ halt suicide ])
      else if cs.check_fingerprint
      then (do
        r ← arp_gw_check_timeout i.nowts
        elim r [
          | arpr_ok ↦ go_on
          | arpr_conflict ↦ (do
            c ← get_cs
            put_cs (record c { check_fingerprint = false })
            search_again 0 i)
          | arpr_fail ↦ stay false
          | arpr_free ↦ halt suicide
        ])
      else go_on

unfoldable pub on_arp_timeout : Inputs → Part
unfolding on_announce on_gateway_timeout
on_arp_timeout i = if i.arp_timeout then (do on_announce i; on_gateway_timeout i) else go_on

unfoldable pub on_carrier : Inputs → Part
on_carrier i =
    if i.force_fingerprint
    then (do
      r ← ifup_action
      elim r [
        | ifup_revalidate ↦ go_on
        | ifup_newlease ↦ (do
          done ← ifchange_deconfig
          if done then search_again 0 i else pure (some (bound_deconfig, false)))
        | ifup_fail ↦ stay false
      ])
    else go_on

unfoldable pub lease_timeout : ClientState → ℕ → M Bto
lease_timeout cs nowts =
    if is_rebinding cs nowts
    then rebinding_timeout nowts
    else if is_renewing cs nowts
    then renewing_timeout nowts
    else bound_timeout nowts

unfoldable pub on_lease_timeout : Inputs → M Answer
on_lease_timeout i =
    if i.dhcp_timeout
    then (do
      cs ← get_cs
      r ← lease_timeout cs i.nowts
      elim r [
        | bto_wait ↦ pure (bound, true)
        | bto_expired ↦ reinit i
        | bto_hardfail ↦ pure (bound, false)
      ])
    else pure (bound, true)

unfoldable pub bound_step : Inputs → M Answer
bound_step i = do
  r ← (on_signal i then on_dhcp i then on_arp i then on_arp_timeout i then on_carrier i)
  elim r [ some a ↦ pure a | none ↦ on_lease_timeout i ]
