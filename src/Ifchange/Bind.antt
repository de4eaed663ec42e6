-- ===== src/Ifchange/Bind.antt =====
-- `ifchange_deconfig` and `ifchange_bind` of src/ifchange.c; `true` stands for 0 and `false` for a
-- negative result.
use ndhc.Common.{Bytes, Bool, true, false, not, [], ◌∷◌, ◌++◌, length, ◌==◌, if◌then◌else◌}
use ndhc.Dhcp.Build.{blank}
use ndhc.Ifchange.Changes.{bind_commands, ip4_prefix}
use ndhc.Ifchange.Text.{inet_ntop}
use ndhc.Master.Ipc.{ifchwrite}
use ndhc.Master.World.{M, pure, ◌>>=◌, ◌>>◌, checked, gets, get_cs, put_cs, returned}
use ndhc.Options.Packet.{Dhcpmsg}

abbrev put_cfg_packet : Dhcpmsg → M (Unit {0})
put_cfg_packet p w = returned tt (record w { cfg_packet = p })

-- "ip4:0.0.0.0,255.255.255.255;"
abbrev pub deconfig_command : Bytes
deconfig_command = ip4_prefix ++ (inet_ntop 0 ++ (b',' ∷ (inet_ntop 0xffffffff ++ (b';' ∷ []))))

-- The cleared packet is the one that `memset` leaves.
unfoldable pub ifchange_deconfig : M Bool
ifchange_deconfig = do
  cs ← get_cs
  if cs.if_deconfig then pure true else (do
    done ← ifchwrite deconfig_command
    if done
        then (do
          cs' ← get_cs
          put_cs (record cs' { if_deconfig = true })
          put_cfg_packet (blank 0)
          pure true)
        else pure false)

-- With no command to send the result is negative.
unfoldable pub ifchange_bind : Dhcpmsg → M Bool
ifchange_bind packet = do
  cfg_packet ← gets (λ w. w.cfg_packet)
  buf ← checked (bind_commands cfg_packet packet)
  done ← (if not (length buf == 0) then ifchwrite buf else pure false)
  if done
      then (do
        cs ← get_cs
        put_cs (record cs { if_deconfig = false })
        put_cfg_packet packet
        pure true)
      else pure false
