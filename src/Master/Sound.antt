-- ===== src/Master/Sound.antt =====
-- The condition under which no function of ndhc-master faults, and that each of them keeps.
use ndhc.Common.{◌≡◌, Bool, true, false, if◌then◌else◌}
use ndhc.Dhcp.Contents.{IsConfig}
use ndhc.Master.World.{M, ◌>>=◌, World, Outcome, returned, halted, fault}
use ndhc.Options.Packet.{HasSizes}

-- The configuration fits its arrays and does not ask to quit after a lease, and the packets that the
-- process keeps have the sizes of their type.
pub record IsSound (w : World) : Type 0 where
  pub valid : IsConfig w.conf
  pub stays : w.conf.quit_after_lease ≡ false
  pub cfg_sizes : HasSizes w.cfg_packet
  pub offer_sizes : HasSizes w.garp.dhcp_packet

-- The computation ends without a fault, and the condition holds afterwards.
abbrev pub EndsSound : {A : Type 0} → Outcome A → Type 0
EndsSound (returned a w) = IsSound w
EndsSound (halted h w) = Unit {0}
EndsSound fault = ⊥

EndsSound-after :
    {A B : Type 0} (o : Outcome A) (k : A → M B)
    → EndsSound o
    → ((a : A) (v : World) → IsSound v → EndsSound (k a v))
    → EndsSound (elim o [ returned a v ↦ k a v | halted h v ↦ halted h v | fault ↦ fault ])
EndsSound-after (returned a v) k s go = go a v s
EndsSound-after (halted h v) k s go = tt
EndsSound-after fault k s go = s

-- The second of two computations starts in a sound state.
pub EndsSound-bind :
    {A B : Type 0} (m : M A) (k : A → M B) (w : World)
    → EndsSound (m w)
    → ((a : A) (v : World) → IsSound v → EndsSound (k a v))
    → EndsSound ((m >>= k) w)
EndsSound-bind m k w s go = EndsSound-after (m w) k s go

pub EndsSound-if :
    {A : Type 0} (b : Bool) (m k : M A) (w : World)
    → EndsSound (m w)
    → EndsSound (k w)
    → EndsSound ((if b then m else k) w)
EndsSound-if true m k w p q = p
EndsSound-if false m k w p q = q
