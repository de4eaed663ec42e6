-- ===== src/Ifchange/Sound.antt =====
-- The functions of src/ifchange.c keep the state sound.
use ndhc.Common.{ℕ, ◌-◌, ◌≡◌, refl, Bytes, Option, none, some, length, arith, ◌>>=◌}
use ndhc.Dhcp.Build.{blank}
use ndhc.Dhcp.Sound.{ifchwrite-EndsSound}
use ndhc.Ifchange.Bind.{ifchange_deconfig, ifchange_bind}
use ndhc.Ifchange.Changes.{
  address_option, send_client_ip, send_cmd, then_cmd, bind_commands, bind_size,
}
use ndhc.Master.Sound.{IsSound, EndsSound}
use ndhc.Master.World.{World}
use ndhc.Options.Dcode
use ndhc.Options.Packet.{Dhcpmsg, HasSizes, max_dopt_size}
use ndhc.Options.Safety.{get_dhcp_opt_safe}

HasSizes-blank : HasSizes (blank 0)
unfolding blank
HasSizes-blank = record { options_length = refl; file_length = refl; sname_length = refl }

-- A computation on buffers that does not fault.
abbrev Safe {ℓ} : {A : Type ℓ} → Option A → Type 0
Safe none = ⊥
Safe (some a) = Unit {0}

Safe-bind :
    {A B : Type 0} (o : Option A) (k : A → Option B)
    → Safe o
    → ((a : A) → Safe (k a))
    → Safe (o >>= k)
Safe-bind none k h go = absurd h
Safe-bind (some a) k h go = go a

some_of_Safe : {A : Type 0} (o : Option A) → Safe o → (a : A) × (o ≡ some a)
some_of_Safe none h = absurd h
some_of_Safe (some a) h = (a, refl)

module _ (old new : Dhcpmsg) (old_sizes : HasSizes old) (sizes : HasSizes new) where
  send_cmd-Safe : (olen c : ℕ) → Safe (send_cmd olen old new c)
  unfolding send_cmd
  send_cmd-Safe olen c =
      let (a, ea, _) = get_dhcp_opt_safe new c max_dopt_size sizes in
      let (b, eb, _) = get_dhcp_opt_safe old c max_dopt_size old_sizes in ground (arith, ea, eb)

  address_option-Safe : (c : ℕ) → Safe (address_option old new c)
  unfolding address_option
  address_option-Safe c =
      let (a, ea, _) = get_dhcp_opt_safe new c max_dopt_size sizes in
      let (b, eb, _) = get_dhcp_opt_safe old c max_dopt_size old_sizes in ground (arith, ea, eb)

  send_client_ip-Safe : (olen : ℕ) → Safe (send_client_ip olen old new)
  unfolding send_client_ip
  send_client_ip-Safe olen =
      ground (arith, address_option-Safe Dcode.subnet, address_option-Safe Dcode.broadcast)

  then_cmd-Safe : (c : ℕ) (buf : Bytes) → Safe (then_cmd old new c buf)
  unfolding then_cmd
  then_cmd-Safe c buf = ground (arith, send_cmd-Safe (bind_size - length buf) c)

  bind_commands-Safe : Safe (bind_commands old new)
  unfolding bind_commands
  bind_commands-Safe = Safe-bind _ _ (send_client_ip-Safe bind_size) (λ b0.
      Safe-bind _ _ (then_cmd-Safe Dcode.router b0) (λ b1.
        Safe-bind _ _ (then_cmd-Safe Dcode.dns b1) (λ b2.
          Safe-bind _ _ (then_cmd-Safe Dcode.hostname b2) (λ b3.
            Safe-bind _ _ (then_cmd-Safe Dcode.domain b3) (λ b4.
              Safe-bind _ _ (then_cmd-Safe Dcode.mtu b4) (λ b5. then_cmd-Safe Dcode.wins b5))))))

pub ifchange_deconfig-EndsSound : (w : World) → IsSound w → EndsSound (ifchange_deconfig w)
unfolding ifchange_deconfig
ifchange_deconfig-EndsSound w s = grind (arith, ifchwrite-EndsSound, HasSizes-blank)

pub ifchange_bind-EndsSound :
    (p : Dhcpmsg) (w : World) → HasSizes p → IsSound w → EndsSound (ifchange_bind p w)
unfolding ifchange_bind
ifchange_bind-EndsSound p w sizes s =
    let (buf, e) = some_of_Safe _ (bind_commands-Safe w.cfg_packet p s.cfg_sizes sizes) in
    ground (arith, e, ifchwrite-EndsSound buf w s)
