-- ===== src/MainLoop/Timeout.antt =====
-- The timeout of `epoll_wait` that `do_ndhc_work` of src/ndhc.c computes. -1, for no timeout and for a
-- timer that is not set, is `none`.
use ndhc.Common.{
  ℕ, ◌-◌, ◌^◌, Bool, false, not, ◌&&◌, Option, none, some, ◌≡◌, ◌↔◌, ltb, ◌==◌, if◌then◌else◌,
  arith,
}

abbrev pub int_max : ℕ
int_max = 2 ^ 31 - 1

-- The timer that is due first.
abbrev pub first_wake : Option ℕ → Option ℕ → Option ℕ
first_wake none none = none
first_wake none (some dhcp) = some dhcp
first_wake (some arp) none = some arp
first_wake (some arp) (some dhcp) = some (if ltb arp dhcp then arp else dhcp)

-- `tt` is negative where a timer is overdue; the timeout is then 0, as the difference here.
abbrev pub clamped : ℕ → ℕ
clamped tt = if ltb int_max tt then int_max else tt

abbrev is_zero : Option ℕ → Bool
is_zero none = false
is_zero (some t) = t == 0

unfoldable pub next_timeout : Option ℕ → Bool → ℕ → Option ℕ → Option ℕ → Option ℕ
next_timeout prev_timeout had_event nowts arp_wake_ts dhcp_wake_ts =
    elim (first_wake arp_wake_ts dhcp_wake_ts) [
      | none ↦ none
      | some wake ↦
          let timeout = clamped (wake - nowts) in
          some (if timeout == 0 && (is_zero prev_timeout && not had_event) then 10000 else timeout)
    ]

-- The wait is unbounded exactly if no timer is set.
pub next_timeout-none :
    (prev : Option ℕ) (had_event : Bool) (nowts : ℕ) (arp dhcp : Option ℕ)
    → (next_timeout prev had_event nowts arp dhcp ≡ none) ↔ ((arp ≡ none) × (dhcp ≡ none))
unfolding next_timeout
next_timeout-none prev had_event nowts arp dhcp = ground arith
