-- ===== src/Ifchd/World.antt =====
-- The state of ndhc-ifch: `struct ifchd_client` of src/ifchd.h and the static variables of
-- src/ifchd.c and src/ifset.c, with the netlink messages that it sends and receives.
--
-- The kernel is `Kernel`: each question is numbered by `tick`, and the answer may be anything. A
-- received buffer is the list of messages that the macros NLMSG_OK and NLMSG_NEXT find in it, with
-- the attributes that RTA_OK and RTA_NEXT find; the four octets of an address are a number.
use ndhc.Common.{ℕ, ◌+◌, ◌%◌, ◌^◌, Bytes, Bool, Option, List}
use ndhc.Common.Process.{Process, returned}

-- STATE_*
pub data IfchState : Type 0 where
  state_nothing state_ip4set state_timezone state_router state_dns state_lprsvr : IfchState
  state_hostname state_domain state_ipttl state_mtu state_ntpsvr state_wins : IfchState
  state_carrier : IfchState

-- The structures that follow a netlink header.
pub data Body : Type 0 where
  ifinfomsg : (ifi_index ifi_flags : ℕ) → Body
  ifaddrmsg : (ifa_family ifa_prefixlen ifa_flags ifa_scope ifa_index : ℕ) → Body
  rtmsg : (rtm_family rtm_protocol rtm_scope rtm_type : ℕ) → Body

-- `attrs` are the types and the values of the attributes; each value that is sent has four octets.
pub record NlMsg : Type 0 where
  pub nlmsg_len : ℕ
  pub nlmsg_type : ℕ
  pub nlmsg_flags : ℕ
  pub nlmsg_seq : ℕ
  pub nlmsg_pid : ℕ
  pub body : Body
  pub attrs : List (ℕ × ℕ)

-- How `rtnl_do_send` fares: an error of the calls before the answer, or the answer's kind.
pub data Ack : Type 0 where
  no_ack : Ack
  nlmsg_error : ℕ → Ack
  nlmsg_done nlmsg_other : Ack

-- What `safe_recv` gives: the text, the end of the stream, nothing yet, or another error.
pub data Received : Type 0 where
  received : Bytes → Received
  hung_up would_block recv_error : Received

-- How `safe_write` of one octet fares.
pub data Informed : Type 0 where
  written write_hung_up write_error : Informed

-- `dump` is what `nl_recv_buf` gives until nothing is left: messages, or `none` for an error.
pub record Kernel : Type 0 where
  pub socket : ℕ → Bool
  pub sendto : ℕ → Bool
  pub dump : ℕ → List (Option (List NlMsg))
  pub ack : ℕ → Ack
  pub sethostname : ℕ → Bool
  pub lseek : ℕ → Bool
  pub read : ℕ → Bool
  pub write : ℕ → Bool
  pub ftruncate : ℕ → Bool
  pub fsync : ℕ → Bool
  pub recv : ℕ → Received
  pub inform : ℕ → Informed

-- `namesvrs` and `domains` are the strings in these buffers, up to the first NUL. `resolv_conf` is
-- the file behind `resolv_conf_fd`, if that is open, `head` and `tail` are the files beside it.
-- The last request and the last name come first in `requests` and `hostnames`.
pub record Ifch : Type 0 where
  pub state : IfchState
  pub ibuf : Bytes
  pub namesvrs : Bytes
  pub domains : Bytes
  pub resolv_conf : Option Bytes
  pub head : Option Bytes
  pub tail : Option Bytes
  pub allow_hostname : Bool
  pub ifindex : ℕ
  pub metric : ℕ
  pub ifset_nl_seq : ℕ
  pub requests : List NlMsg
  pub hostnames : List Bytes
  pub answers : Bytes
  pub kernel : Kernel
  pub tick : ℕ

abbrev pub I : Type 0 → Type 0
I A = Process Ifch A

-- One question to the kernel.
abbrev pub ask : {A : Type 0} → (Kernel → ℕ → A) → I A
ask q w = returned (q w.kernel w.tick) (record w { tick = w.tick + 1 })

-- `ifset_nl_seq++`
abbrev pub next_seq : I ℕ
next_seq w = returned w.ifset_nl_seq (record w { ifset_nl_seq = (w.ifset_nl_seq + 1) % 2 ^ 32 })

-- The results 0, -1, -2, -3 and -99 of the functions of src/ifset.c and src/ifchd.c.
pub data Code : Type 0 where
  ok already failed unconfirmed rf_killed fatal : Code
