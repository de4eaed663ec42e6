-- ===== src/Arp/Result.antt =====
-- The results ARPR_* of src/arp.h, and the delays of src/arp.c in milliseconds.
use ndhc.Common.{ℕ}

pub data Arpr : Type 0 where
  arpr_ok arpr_free arpr_conflict arpr_fail : Arpr

-- The results 1, 0 and -1 of `arp_query_gateway_timeout` and `arp_announce_timeout`.
pub data Waited : Type 0 where
  not_yet timed_out failed : Waited

abbrev pub arp_msg_size : ℕ
arp_msg_size = 0x2a

abbrev pub arp_retrans_delay : ℕ
arp_retrans_delay = 5000

abbrev pub announce_wait : ℕ
announce_wait = 2000

abbrev pub defend_interval : ℕ
defend_interval = 10000
