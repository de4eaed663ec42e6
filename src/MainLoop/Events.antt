-- ===== src/MainLoop/Events.antt =====
-- `nl_event_get` of src/netlink.c and `rfkill_get` of src/rfkill.c: events of the interface and of the
-- radio switch.
use ndhc.Common.{
  ℕ, Bool, false, not, ◌&&◌, ◌||◌, Option, none, some, List, [], ◌∷◌, ◌==◌, if◌then◌else◌, bit_and,
}
use ndhc.Common.Process.{Process, Run, returned, ended, fault, pure, ◌>>=◌, put}
use ndhc.Ifchd.Links.{iff_up, iff_running}
use ndhc.Ifchd.Netlink.{nl_foreach_nlmsg, rtm_newlink, rtm_dellink}
use ndhc.Ifchd.World.{NlMsg, ifinfomsg}

-- IFS_*
pub data Ifs : Type 0 where
  ifs_none ifs_up ifs_down ifs_shut ifs_removed : Ifs

abbrev pub link_state : ℕ → Ifs
link_state ifi_flags =
    if bit_and ifi_flags iff_up == 0
    then ifs_shut
    else if bit_and ifi_flags iff_running == 0
    then ifs_down
    else ifs_up

-- What a message says of the interface, if it is about it.
unfoldable pub link_event : ℕ → NlMsg → Option Ifs
link_event ifindex nlh = elim nlh.body [
  | ifinfomsg ifi_index ifi_flags ↦
      if not (ifi_index == ifindex)
      then none
      else if nlh.nlmsg_type == rtm_newlink
      then some (link_state ifi_flags)
      else if nlh.nlmsg_type == rtm_dellink
      then some ifs_removed
      else none
  | _ ↦ none
]

-- The state of the walk is the static variable `nl_process_msgs_return`.
unfoldable pub nl_process_msgs : ℕ → NlMsg → Unit {0} → Process Ifs (Unit {0})
unfolding link_event
nl_process_msgs ifindex nlh seen = elim (link_event ifindex nlh) [
  | none ↦ pure tt
  | some ifs ↦ put ifs
]

-- The loop ends where nothing is left, and after an error.
unfoldable pub nl_event_loop : ℕ → ℕ → List (Option (List NlMsg)) → Process Ifs (Unit {0})
unfolding nl_foreach_nlmsg nl_process_msgs
nl_event_loop ifindex portid [] = pure tt
nl_event_loop ifindex portid (none ∷ bufs) = pure tt
nl_event_loop ifindex portid (some msgs ∷ bufs) = do
  r ← nl_foreach_nlmsg msgs 0 portid (nl_process_msgs ifindex) tt
  elim r [ none ↦ pure tt | some _ ↦ nl_event_loop ifindex portid bufs ]

abbrev final_state : Run Ifs (Unit {0}) → Ifs
final_state (returned _ ifs) = ifs
final_state (ended _ ifs) = ifs
final_state fault = ifs_none

unfoldable pub nl_event_get : ℕ → ℕ → List (Option (List NlMsg)) → Ifs
unfolding nl_event_loop
nl_event_get ifindex portid bufs = final_state (nl_event_loop ifindex portid bufs ifs_none)

-- RFK_*
pub data Rfk : Type 0 where
  rfk_none rfk_fail rfk_enabled rfk_disabled : Rfk

-- What `safe_read` gives: `struct rfkill_event`, or an error or another length.
pub data RfkillRead : Type 0 where
  not_an_event : RfkillRead
  rfkill_event : (idx op : ℕ) → (soft hard : Bool) → RfkillRead

abbrev is_other : Option ℕ → ℕ → Bool
is_other none idx = false
is_other (some rfkidx) idx = not (idx == rfkidx)

-- RFKILL_OP_CHANGE and RFKILL_OP_CHANGE_ALL are 2 and 3.
-- The switch to look for is `none` where `check_idx` is 0.
unfoldable pub rfkill_get : Option ℕ → RfkillRead → Rfk
rfkill_get checked not_an_event = rfk_fail
rfkill_get checked (rfkill_event idx op soft hard) =
    if is_other checked idx
    then rfk_none
    else if not (op == 2) && not (op == 3)
    then rfk_none
    else if soft || hard
    then rfk_enabled
    else rfk_disabled
