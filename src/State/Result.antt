-- ===== src/State/Result.antt =====
-- The results of the steps of src/state.c, and the inputs of `dhcp_handle`.
use ndhc.Common.{ℕ, Bool}
use ndhc.Options.Packet.{Dhcpmsg}

-- SEL_*
pub data Sel : Type 0 where
  sel_success sel_fail : Sel

-- REQ_*
pub data Req : Type 0 where
  req_success req_timeout req_fail : Req

-- ANP_*
pub data Anp : Type 0 where
  anp_success anp_ignore anp_rejected anp_check_ip : Anp

-- BTO_*
pub data Bto : Type 0 where
  bto_wait bto_expired bto_hardfail : Bto

-- IFUP_*
pub data Ifup : Type 0 where
  ifup_revalidate ifup_newlease ifup_fail : Ifup

-- SIGNAL_* of src/state.h
pub data Signal : Type 0 where
  signal_none signal_renew signal_release : Signal

-- The parameters of `dhcp_handle`.
pub record Inputs : Type 0 where
  pub nowts : ℕ
  pub sev_dhcp : Bool
  pub dhcp_packet : Dhcpmsg
  pub dhcp_msgtype : ℕ
  pub dhcp_srcaddr : ℕ
  pub sev_arp : Bool
  pub force_fingerprint : Bool
  pub dhcp_timeout : Bool
  pub arp_timeout : Bool
  pub sev_signal : Signal
