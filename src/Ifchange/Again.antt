-- ===== src/Ifchange/Again.antt =====
-- The same lease a second time: src/ifchange.c has no command to send, and the client ends.
use ndhc.Common.{
  ℕ, ◌≡◌, refl, Bytes, Bool, true, false, none, some, [], ◌∷◌, length, take, leb, of_be, Bool-cases,
  inl, inr, arith,
}
use ndhc.Arp.Collision.{collision_free, take_lease}
use ndhc.Ifchange.Bind.{ifchange_bind}
use ndhc.Ifchange.Text.{inet_ntop}
use ndhc.Ifchange.Changes.{
  same_bytes, address_option, send_client_ip, send_cmd, then_cmd, bind_commands, bind_size,
}
use ndhc.Master.World.{World, returned, halted, suicide, bind-returned}
use ndhc.Options.Dcode
use ndhc.Options.Packet.{Dhcpmsg, HasSizes, max_dopt_size}
use ndhc.Options.Safety.{get_dhcp_opt_safe}

pub same_bytes_self : (xs : Bytes) → same_bytes xs xs ≡ true
unfolding same_bytes
same_bytes_self [] = refl
same_bytes_self (x ∷ xs) = ground (arith, same_bytes_self xs)

module _ (p : Dhcpmsg) (sizes : HasSizes p) where
  send_cmd-same : (olen c : ℕ) → send_cmd olen p p c ≡ some []
  unfolding send_cmd
  send_cmd-same olen c =
      let (buf, e, _) = get_dhcp_opt_safe p c max_dopt_size sizes in
      ground (arith, e, same_bytes_self buf)

  then_cmd-same : (c : ℕ) → then_cmd p p c [] ≡ some []
  unfolding then_cmd
  then_cmd-same c = rw send_cmd-same refl

  address_option-same :
      (c : ℕ) → (b : Bool) × (t : Bytes) × (address_option p p c ≡ some (b, t, false))
  unfolding address_option
  address_option-same c =
      let (buf, e, _) = get_dhcp_opt_safe p c max_dopt_size sizes in
      let t = inet_ntop (of_be 0 (take 4 buf)) in
      elim (Bool-cases (leb 4 (length buf))) [
        | inl there ↦ (true, t, rw (e, there, same_bytes_self buf) refl)
        | inr absent ↦ (false, [], rw (e, absent) refl)
      ]

  send_client_ip-same : (olen : ℕ) → send_client_ip olen p p ≡ some []
  unfolding send_client_ip
  send_client_ip-same olen =
      let (b1, t1, e1) = address_option-same Dcode.subnet in
      let (b2, t2, e2) = address_option-same Dcode.broadcast in rw (e1, e2) (ground arith)

  pub bind_commands-same : bind_commands p p ≡ some []
  unfolding bind_commands
  bind_commands-same =
      rw
        (
          send_client_ip-same bind_size,
          then_cmd-same Dcode.router,
          then_cmd-same Dcode.dns,
          then_cmd-same Dcode.hostname,
          then_cmd-same Dcode.domain,
          then_cmd-same Dcode.mtu,
          then_cmd-same Dcode.wins,
        )
        refl

ifchange_bind-same :
    (p : Dhcpmsg) (w : World) → HasSizes p → w.cfg_packet ≡ p → ifchange_bind p w ≡ returned false w
unfolding ifchange_bind
ifchange_bind-same p w sizes same = rw (same, bind_commands-same p sizes) refl

-- When the collision check of an offer passes and the configuration in force comes from the same
-- message, the client ends: there is no command to send, which counts as a failure.
pub collision_free-same :
    (w : World)
    → HasSizes w.garp.dhcp_packet
    → w.cfg_packet ≡ w.garp.dhcp_packet
    → (w' : World) × (collision_free w ≡ halted suicide w')
unfolding collision_free
collision_free-same w sizes same =
    let p = w.garp.dhcp_packet in
    let w' = record w {
      cs = record w.cs { client_addr = p.yiaddr; program_init = false };
      garp = record w.garp {
        last_conflict_ts = 0;
        wake_ts = record w.garp.wake_ts { collision_check = none };
      };
    } in
    (
      w',
      bind-returned (ifchange_bind p) (take_lease p) false w' w'
          (ifchange_bind-same p w' sizes same),
    )
