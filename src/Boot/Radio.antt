-- ===== src/Boot/Radio.antt =====
-- How `main` of src/ndhc.c brings the interface up, and `wait_for_rfkill`. The messages to the kernel are
-- those of ndhc-ifch, which runs the same functions later.
use ndhc.Common.{Bool, true, false, none, List, [], ◌∷◌, ◌≡◌, ◌⊎◌, inl, inr, refl, if◌then◌else◌}
use ndhc.Common.Process.{Run, returned, ended, fault, suicide, pure, ◌>>=◌, halt, onward}
use ndhc.Ifchd.Links.{perform_ifup}
use ndhc.Ifchd.World.{Ifch, I, Code, ok, already, failed, unconfirmed, rf_killed, fatal}
use ndhc.MainLoop.Events.{
  Rfk, rfk_none, rfk_fail, rfk_enabled, rfk_disabled, RfkillRead, rfkill_get,
}

-- An event for the switch, with the flag EPOLLIN and what is read then, or for another descriptor.
pub data RadioEvent : Type 0 where
  radio_ready : Bool → RfkillRead → RadioEvent
  unknown_fd : RadioEvent

-- What `epoll_wait` gives.
pub data RadioWait : Type 0 where
  wait_interrupted wait_failed : RadioWait
  events : List RadioEvent → RadioWait

-- The switch over the result of `perform_ifup`, after which the wait ends or goes on.
unfoldable pub is_gone : Code → I Bool
is_gone ok = pure true
is_gone already = pure true
is_gone rf_killed = pure false
is_gone _ = halt suicide

unfoldable pub on_radio : Rfk → I Bool
unfolding is_gone
on_radio rfk_disabled = do c ← perform_ifup; is_gone c
on_radio _ = pure false

unfoldable pub see_radio : RadioEvent → I Bool
unfolding on_radio
see_radio (radio_ready epollin r) = if epollin then on_radio (rfkill_get none r) else pure false
see_radio unknown_fd = halt suicide

-- The loop over the events, left by the `goto`.
unfoldable pub see_all : List RadioEvent → I Bool
unfolding see_radio
see_all [] = pure false
see_all (e ∷ es) = do gone ← see_radio e; if gone then pure true else see_all es

-- The loop around `epoll_wait`; `false` stands for a wait that lasts longer than these events.
unfoldable pub wait_rounds : List RadioWait → I Bool
unfolding see_all
wait_rounds [] = pure false
wait_rounds (wait_interrupted ∷ ws) = wait_rounds ws
wait_rounds (wait_failed ∷ ws) = halt suicide
wait_rounds (events es ∷ ws) = do gone ← see_all es; if gone then pure true else wait_rounds ws

-- `opened` is whether the switch is enabled and can be opened, `epoll_works` whether the calls before
-- the loop work.
unfoldable pub wait_for_rfkill : (opened epoll_works : Bool) → List RadioWait → I Bool
unfolding wait_rounds
wait_for_rfkill opened epoll_works ws =
    if opened then (if epoll_works then wait_rounds ws else halt suicide) else halt suicide

-- The switch of `main`.
unfoldable pub is_up : (opened epoll_works : Bool) → List RadioWait → Code → I Bool
unfolding wait_for_rfkill
is_up opened epoll_works ws ok = pure true
is_up opened epoll_works ws already = pure true
is_up opened epoll_works ws rf_killed = wait_for_rfkill opened epoll_works ws
is_up opened epoll_works ws _ = halt suicide

unfoldable pub bring_up : (opened epoll_works : Bool) → List RadioWait → I Bool
unfolding is_up
bring_up opened epoll_works ws = do c ← perform_ifup; is_up opened epoll_works ws c

-- The state is what a successful `perform_ifup` left.
abbrev LastUp : Ifch → Type 0
LastUp v = (u : Ifch) × (c : Code) × (perform_ifup u ≡ returned c v) × ((c ≡ ok) ⊎ (c ≡ already))

-- Where the result is `true`, the interface was brought up last.
abbrev UpIf : Run Ifch Bool → Type 0
UpIf (returned true v) = LastUp v
UpIf _ = Unit {0}

UpIf-more :
    (r : Run Ifch Bool) (k : I Bool)
    → UpIf r
    → ((v : Ifch) → UpIf (k v))
    → UpIf (onward r (λ gone. if gone then pure true else k))
UpIf-more (returned true v) k h g = h
UpIf-more (returned false v) k h g = g v
UpIf-more (ended e v) k h g = tt
UpIf-more fault k h g = tt

-- What follows `perform_ifup` is `false`, the end, or success.
UpIf-code :
    (w : Ifch) (rest : Code → I Bool)
    → ((v : Ifch) → LastUp v → UpIf (rest ok v))
    → ((v : Ifch) → LastUp v → UpIf (rest already v))
    → ((v : Ifch) → UpIf (rest failed v))
    → ((v : Ifch) → UpIf (rest unconfirmed v))
    → ((v : Ifch) → UpIf (rest rf_killed v))
    → ((v : Ifch) → UpIf (rest fatal v))
    → UpIf ((perform_ifup >>= rest) w)
UpIf-code w rest o a f n k x = go (perform_ifup w) refl
  where
    go : (r : Run Ifch Code) → perform_ifup w ≡ r → UpIf (onward r rest)
    go (returned ok v) e = o v (w, ok, e, inl refl)
    go (returned already v) e = a v (w, already, e, inr refl)
    go (returned failed v) e = f v
    go (returned unconfirmed v) e = n v
    go (returned rf_killed v) e = k v
    go (returned fatal v) e = x v
    go (ended d v) e = tt
    go fault e = tt

on_radio-UpIf : (r : Rfk) (w : Ifch) → UpIf (on_radio r w)
unfolding on_radio is_gone
on_radio-UpIf rfk_disabled w =
    UpIf-code w is_gone (λ v h. h) (λ v h. h) (λ v. tt) (λ v. tt) (λ v. tt) (λ v. tt)
on_radio-UpIf rfk_none w = tt
on_radio-UpIf rfk_fail w = tt
on_radio-UpIf rfk_enabled w = tt

see_radio-UpIf : (e : RadioEvent) (w : Ifch) → UpIf (see_radio e w)
unfolding see_radio
see_radio-UpIf (radio_ready true r) w = on_radio-UpIf (rfkill_get none r) w
see_radio-UpIf (radio_ready false r) w = tt
see_radio-UpIf unknown_fd w = tt

see_all-UpIf : (es : List RadioEvent) (w : Ifch) → UpIf (see_all es w)
unfolding see_all
see_all-UpIf [] w = tt
see_all-UpIf (e ∷ es) w =
    UpIf-more (see_radio e w) (see_all es) (see_radio-UpIf e w) (see_all-UpIf es)

wait_rounds-UpIf : (ws : List RadioWait) (w : Ifch) → UpIf (wait_rounds ws w)
unfolding wait_rounds
wait_rounds-UpIf [] w = tt
wait_rounds-UpIf (wait_interrupted ∷ ws) w = wait_rounds-UpIf ws w
wait_rounds-UpIf (wait_failed ∷ ws) w = tt
wait_rounds-UpIf (events es ∷ ws) w =
    UpIf-more (see_all es w) (wait_rounds ws) (see_all-UpIf es w) (wait_rounds-UpIf ws)

wait_for_rfkill-UpIf :
    (opened epoll_works : Bool) (ws : List RadioWait) (w : Ifch)
    → UpIf (wait_for_rfkill opened epoll_works ws w)
unfolding wait_for_rfkill
wait_for_rfkill-UpIf true true ws w = wait_rounds-UpIf ws w
wait_for_rfkill-UpIf true false ws w = tt
wait_for_rfkill-UpIf false epoll_works ws w = tt

-- For all answers of the kernel and every sequence of events of the switch: where `main` goes on behind
-- its `perform_ifup` and the wait for the radio, the last thing that it did was a `perform_ifup` that
-- succeeded, or that found the interface up.
bring_up-UpIf :
    (opened epoll_works : Bool) (ws : List RadioWait) (w : Ifch)
    → UpIf (bring_up opened epoll_works ws w)
unfolding bring_up is_up
bring_up-UpIf opened epoll_works ws w =
    UpIf-code w (is_up opened epoll_works ws) (λ v h. h) (λ v h. h) (λ v. tt) (λ v. tt)
      (wait_for_rfkill-UpIf opened epoll_works ws) (λ v. tt)
