-- ===== src/Ifchd/Execute.antt =====
-- `execute_buffer` and the other actions of src/ifchd-parse.rl, and `process_client_socket` of
-- src/ifchd.c.
use ndhc.Common.{
  not, ℕ, ◌-◌, ◌*◌, Bytes, Bool, true, false, ◌||◌, Option, none, some, List, [], ◌∷◌, ◌++◌, ltb,
  leb, length, take, if◌then◌else◌,
}
use ndhc.Common.Process.{suicide, exit_success, pure, ◌>>=◌, ◌>>◌, get, put, halt, access}
use ndhc.Ifchange.Text.{until_nul}
use ndhc.Ifchd.Address.{perform_ip_subnet_bcast}
use ndhc.Common.Automata.{run}
use ndhc.Ifchd.Grammar.{
  addresses, v4, arg_step, arg_done, Parser, in_keyword, in_argument, keywords, parser_step, Move,
  go_on, dispatch, mismatch,
}
use ndhc.Ifchd.Links.{perform_carrier, perform_mtu, perform_router}
use ndhc.Ifchd.Resolv.{max_buf, pieces, perform_dns, perform_domain, perform_hostname}
use ndhc.Ifchd.World.{
  IfchState, state_nothing, state_ip4set, state_timezone, state_router, state_dns, state_lprsvr,
  state_hostname, state_domain, state_ipttl, state_mtu, state_ntpsvr, state_wins, state_carrier, I,
  ask, Code, ok, already, failed, fatal, Received, received, hung_up, would_block, recv_error,
  written, write_hung_up, write_error,
}

-- What follows the automaton, on the addresses that it found. `have_bcast` is never set: the action
-- BcEn sets `have_ip`.
unfoldable pub ip4set_addresses : List Bytes → I Code
ip4set_addresses (ip ∷ subnet ∷ []) = perform_ip_subnet_bcast ip subnet none
ip4set_addresses (ip ∷ subnet ∷ bcast ∷ []) = perform_ip_subnet_bcast ip subnet none
ip4set_addresses _ = pure failed

-- The automaton, which is that of the argument in `ifchd_parser`.
unfoldable pub ipv4set_parser : Bytes → Bool
unfolding run arg_step arg_done
ipv4set_parser buf = elim (run (arg_step (addresses 2 (some 3))) (v4 0 0 0) buf) [
  | none ↦ false
  | some a ↦ arg_done (addresses 2 (some 3)) a
]

-- INET_ADDRSTRLEN
abbrev pub inet_addrstrlen : ℕ
inet_addrstrlen = 16

-- The actions IpEn, SnEn and BcEn, which put a NUL behind each address.
unfoldable pub store_addresses : List Bytes → I (Unit {0})
unfolding access
store_addresses [] = pure tt
store_addresses (part ∷ parts) = do access inet_addrstrlen (length part); store_addresses parts

unfoldable pub perform_ip4set : Bytes → I Code
unfolding pieces ip4set_addresses ipv4set_parser store_addresses
perform_ip4set buf =
    if not (ipv4set_parser buf)
    then pure failed
    else (do store_addresses (pieces buf); ip4set_addresses (pieces buf))

-- The switch of the action Dispatch.
unfoldable pub perform : IfchState → Bytes → I Code
perform state_ip4set tb = perform_ip4set tb
perform state_timezone tb = pure ok
perform state_router tb = perform_router tb
perform state_dns tb = perform_dns tb
perform state_lprsvr tb = pure ok
perform state_hostname tb = perform_hostname tb
perform state_domain tb = perform_domain tb
perform state_ipttl tb = pure ok
perform state_mtu tb = perform_mtu tb
perform state_ntpsvr tb = pure ok
perform state_wins tb = pure ok
perform state_carrier tb = perform_carrier
perform state_nothing tb = pure fatal

abbrev pub set_state : IfchState → I (Unit {0})
set_state s = do w ← get; put (record w { state = s })

-- The actions on an octet that is accepted: Reset on a command's first, the keyword's action on the
-- octet behind the colon.
unfoldable pub entry_state : Parser → Parser → I (Unit {0})
entry_state (in_keyword k) q = set_state state_nothing
entry_state (in_argument s a text) q = set_state s

-- The results that make `cmdf` differ from 0.
-- A result of -99 has none.
abbrev pub cmdf_of : Code → Option Bool
cmdf_of fatal = none
cmdf_of ok = some false
cmdf_of _ = some true

-- The text that is left where no transition is possible; `execute_buffer` then fails.
unfoldable pub left_over : Bytes → I Code
unfolding access
left_over text = do
  let left = take (max_buf - 1) text
  access max_buf (length left)
  w ← get
  put (record w { ibuf = left })
  pure fatal

-- The actions ArgEn and Dispatch: `none` where they return -99, else whether the result is not 0. A NUL is
-- written behind the argument in `tb`.
unfoldable pub dispatch_work : IfchState → Bytes → I (Option Bool)
unfolding perform access
dispatch_work s text =
    if ltb (max_buf - 1) (length text)
    then pure none
    else (do access max_buf (length text); set_state s; pr ← perform s text; pure (cmdf_of pr))

-- What follows a command: nothing where it was fatal.
abbrev pub after : Bool → Option Bool → (Bool → I Code) → I Code
after cmdf none k = pure fatal
after cmdf (some nonzero) k = k (cmdf || nonzero)

-- The actions of one move. `within` is not set exactly behind the end of a command, where the state is
-- final; `k` goes on behind the octet.
unfoldable pub act : Bool → Parser → Bytes → Move → (Bool → Bool → Parser → I Code) → I Code
unfolding dispatch_work left_over
act cmdf p text (go_on q) k = do entry_state p q; k true cmdf q
act cmdf p text (dispatch s arg) k = do
  pr ← dispatch_work s arg
  after cmdf pr (λ c. k false c (in_keyword keywords))
act cmdf p text mismatch k = left_over text

-- The automaton on the rest of the buffer. Where that ends and the state is not final, the result is -99.
unfoldable pub exec : (within cmdf : Bool) → Parser → Bytes → I Code
unfolding act
exec within cmdf p [] = pure (if within then fatal else if cmdf then failed else ok)
exec within cmdf p (c ∷ cs) = act cmdf p (c ∷ cs) (parser_step p c) (λ f d q. exec f d q cs)

unfoldable pub execute_buffer : Bytes → I Code
unfolding exec
execute_buffer newbuf = do
  w ← get
  if leb (max_buf * 2) (length (w.ibuf ++ newbuf))
      then pure fatal
      else exec true false (in_keyword keywords) (w.ibuf ++ newbuf)

unfoldable pub inform_execute : ℕ → I (Unit {0})
inform_execute c = do
  r ← ask (λ k. k.inform)
  elim r [
    | write_hung_up ↦ halt exit_success
    | write_error ↦ halt suicide
    | written ↦ do w ← get; put (record w { answers = c ∷ w.answers })
  ]

-- The answer is '-' or '+'.
unfoldable pub answer_result : Code → I (Unit {0})
unfolding inform_execute
answer_result ok = inform_execute b'+'
answer_result already = inform_execute b'+'
answer_result fatal = do inform_execute b'-'; halt suicide
answer_result _ = inform_execute b'-'

unfoldable pub execute_and_answer : Bytes → I (Unit {0})
execute_and_answer buf = do ebr ← execute_buffer buf; answer_result ebr

-- What was received goes into a buffer of 1024 octets that ends with a NUL.
unfoldable pub answer_message : Received → I (Unit {0})
unfolding execute_and_answer access
answer_message hung_up = halt exit_success
answer_message would_block = pure tt
answer_message recv_error = halt suicide
answer_message (received buf) = do
  let text = take (max_buf - 1) buf
  access max_buf (length text)
  execute_and_answer (until_nul text)

unfoldable pub process_client_socket : I (Unit {0})
unfolding answer_message
process_client_socket = do r ← ask (λ k. k.recv); answer_message r
