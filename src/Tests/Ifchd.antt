-- ===== src/Tests/Ifchd.antt =====
-- The theorems on ndhc-ifch, at concrete messages and states.
use ndhc.Common.{List, Bytes, true, false, none, some, [], ◌∷◌, ◌++◌, ◌≡◌, refl, arith}
use ndhc.Common.Automata.{run}
use ndhc.Common.Process.{access, returned}
use ndhc.Ifchange.Command.{
  ifchd_cmd, ifcmd_raw, ifcmd_bytes, ifcmd_iplist, ifcmd_u16, ifcmd_ip, iplist_rest,
}
use ndhc.Ifchange.Text.{inet_ntop, show_u32, until_nul, digits}
use ndhc.Common.Subprocess.{
  Waited, not_read, socket_ready, stream_ready, signal_ready, wait_interrupted, events,
}
use ndhc.Ifchd.Arguments.{netmask, subnet4_to_prefixlen-netmask}
use ndhc.Ifchd.Commands.{ifchd_cmd-IsArg}
use ndhc.Ifchd.Execute.{exec, act, dispatch_work, entry_state, perform, execute_buffer}
use ndhc.Ifchd.Grammar.{
  parser_step, keyword_step, behind, argument_step, kind, arg_start, arg_step, arg_done, v4, octets,
}
use ndhc.Ifchd.Keeps.{SoundRun}
use ndhc.Ifchd.Mtu.{ifchd_cmd-fatal}
use ndhc.Ifchd.Numbers.{subnet4_to_prefixlen}
use ndhc.Ifchd.Refinement.{Command, text_of, IsArg, perform_all}
use ndhc.Ifchd.Work.{ifch_main}
use ndhc.Ifchd.WorkSound.{ifch_main-SoundRun}
use ndhc.Ifchd.Gateway.{ifchd_cmd-router}
use ndhc.Ifchd.Injection.{execute_buffer-hostname}
use ndhc.Ifchd.Links.{perform_router, rtnl_set_default_gw_v4, with_socket, or_fatal}
use ndhc.Ifchd.World.{
  Ifch, Kernel, nlmsg_error, received, written, state_nothing, state_router, state_hostname,
  state_wins, state_dns, fatal,
}
use ndhc.Options.Dcode

-- "carrier:;" comes, and every call works.
abbrev pub kernel : Kernel
kernel = record {
  socket = λ _. true;
  sendto = λ _. true;
  dump = λ _. [];
  ack = λ _. nlmsg_error 0;
  sethostname = λ _. true;
  lseek = λ _. true;
  read = λ _. true;
  write = λ _. true;
  ftruncate = λ _. true;
  fsync = λ _. true;
  recv = λ _. received (b'c' ∷ b'a' ∷ b'r' ∷ b'r' ∷ b'i' ∷ b'e' ∷ b'r' ∷ b':' ∷ b';' ∷ []);
  inform = λ _. written;
}

abbrev pub ifch : Ifch
ifch = record {
  state = state_nothing;
  ibuf = [];
  namesvrs = [];
  domains = [];
  resolv_conf = some [];
  head = none;
  tail = none;
  allow_hostname = true;
  ifindex = 2;
  metric = 0;
  ifset_nl_seq = 1;
  requests = [];
  hostnames = [];
  answers = [];
  kernel = kernel;
  tick = 0;
}

-- "host:a;wins:1.2.3.4;"
abbrev address_text : Bytes
address_text = b'1' ∷ b'.' ∷ b'2' ∷ b'.' ∷ b'3' ∷ b'.' ∷ b'4' ∷ []

abbrev host : Command
host = (state_hostname, b'a' ∷ [])

abbrev wins : Command
wins = (state_wins, address_text)

host-IsArg : IsArg state_hostname (b'a' ∷ [])
unfolding kind arg_start arg_step arg_done run
host-IsArg = ((λ q. cc q), omega arith, (octets 1, refl, refl, refl))

wins-IsArg : IsArg state_wins address_text
unfolding kind arg_start arg_step arg_done run
wins-IsArg = ((λ q. cc q), omega arith, (v4 0 3 1, refl, refl, refl))

-- The host name "a;wins:1.2.3.4".
abbrev host_option : Bytes
host_option = b'a' ∷ b';' ∷ b'w' ∷ b'i' ∷ b'n' ∷ b's' ∷ b':' ∷ address_text

abbrev host_command : Bytes
host_command = b'h' ∷ b'o' ∷ b's' ∷ b't' ∷ b':' ∷ (host_option ++ (b';' ∷ []))

host_option-text : until_nul host_option ≡ host_option
unfolding until_nul
host_option-text = refl

host_cmd : ifchd_cmd 1024 host_option Dcode.hostname ≡ some host_command
unfolding ifchd_cmd ifcmd_bytes ifcmd_raw until_nul
host_cmd = refl

hostname_example : execute_buffer host_command ifch ≡ perform_all false (host ∷ wins ∷ []) ifch
hostname_example =
    execute_buffer-hostname 1024 host_option host_command (b'a' ∷ []) (wins ∷ []) ifch
      host_option-text refl (host-IsArg, (wins-IsArg, tt)) host_cmd (omega arith) refl

-- A router at 192.168.1.1.
abbrev router_text : Bytes
router_text =
    b'r' ∷ b'o' ∷ b'u' ∷ b't' ∷ b'r' ∷ b':' ∷ b'1' ∷ b'9' ∷ b'2' ∷ b'.' ∷ b'1' ∷ b'6' ∷ b'8' ∷ b'.'
    ∷ b'1' ∷ b'.' ∷ b'1' ∷ b';' ∷ []

router_cmd : ifchd_cmd 1024 (192 ∷ 168 ∷ 1 ∷ 1 ∷ []) Dcode.router ≡ some router_text
unfolding ifchd_cmd ifcmd_ip ifcmd_raw inet_ntop show_u32 digits until_nul
router_cmd = refl

router_example :
    (text : Bytes) × (router_text ≡ text_of ((state_router, text) ∷ []))
    × (perform_router text ≡ with_socket fatal (or_fatal (rtnl_set_default_gw_v4 0xc0a80101)))
router_example =
    ifchd_cmd-router 1024 192 168 1 1 [] router_text (omega arith) (omega arith) (omega arith)
      (omega arith) router_cmd

netmask_example : subnet4_to_prefixlen (netmask 24) ≡ some 24
netmask_example = subnet4_to_prefixlen-netmask 24 (omega arith)

-- An interrupted wait, a message, and a signal without a number that could be read.
abbrev waits : List Waited
waits =
    wait_interrupted
    ∷ events (socket_ready true ∷ stream_ready false ∷ [])
    ∷ events (signal_ready true not_read ∷ [])
    ∷ []

ifch_main_example : SoundRun 2 (ifch_main (λ _. some []) (b'r' ∷ []) true waits ifch)
ifch_main_example =
    ifch_main-SoundRun 2 (λ _. some []) (b'r' ∷ []) true waits ifch (omega arith, (omega arith, tt))
      (refl, tt)

-- Two name servers.
abbrev servers : Bytes
servers = 10 ∷ 0 ∷ 0 ∷ 1 ∷ 10 ∷ 0 ∷ 0 ∷ 2 ∷ []

abbrev servers_text : Bytes
servers_text =
    b'd' ∷ b'n' ∷ b's' ∷ b':' ∷ b'1' ∷ b'0' ∷ b'.' ∷ b'0' ∷ b'.' ∷ b'0' ∷ b'.' ∷ b'1' ∷ b',' ∷ b'1'
    ∷ b'0' ∷ b'.' ∷ b'0' ∷ b'.' ∷ b'0' ∷ b'.' ∷ b'2' ∷ b';' ∷ []

servers_cmd : ifchd_cmd 1024 servers Dcode.dns ≡ some servers_text
unfolding ifchd_cmd ifcmd_iplist iplist_rest ifcmd_raw inet_ntop show_u32 digits until_nul
servers_cmd = refl

command_example :
    (text : Bytes) × (servers_text ≡ text_of ((state_dns, text) ∷ []))
    × IsArg state_dns text
    × (execute_buffer servers_text ifch ≡ perform_all false ((state_dns, text) ∷ []) ifch)
command_example =
    ifchd_cmd-IsArg 1024 Dcode.dns servers servers_text state_dns ifch refl servers_cmd
      (omega arith) refl

-- "ipttl:a;dn" ends inside a keyword, which is invalid.
partial_command :
    (v : Ifch) × (execute_buffer
        (b'i' ∷ b'p' ∷ b't' ∷ b't' ∷ b'l' ∷ b':' ∷ b'a' ∷ b';' ∷ b'd' ∷ b'n' ∷ [])
        ifch
      ≡ returned fatal v)
unfolding execute_buffer exec act parser_step keyword_step behind argument_step dispatch_work
    entry_state perform arg_step arg_done arg_start kind access
partial_command = (_, refl)

-- An MTU of 1500.
abbrev mtu_text : Bytes
mtu_text = b'm' ∷ b't' ∷ b'u' ∷ b':' ∷ b'1' ∷ b'5' ∷ b'0' ∷ b'0' ∷ b';' ∷ []

mtu_cmd : ifchd_cmd 1024 (5 ∷ 220 ∷ []) Dcode.mtu ≡ some mtu_text
unfolding ifchd_cmd ifcmd_u16 ifcmd_raw show_u32 digits until_nul
mtu_cmd = refl

mtu_example : (v : Ifch) × (execute_buffer (mtu_text ++ []) ifch ≡ returned fatal v)
mtu_example =
    ifchd_cmd-fatal 1024 5 220 [] mtu_text [] ifch (omega arith) (omega arith) (omega arith) mtu_cmd
      (omega arith) refl
