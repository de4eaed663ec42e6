-- ===== src/Options/MsgType.antt =====
-- The message types of src/dhcp.h, DHCPDISCOVER and so on.
use ndhc.Common.{ℕ}

abbrev pub discover : ℕ
discover = 1

abbrev pub offer : ℕ
offer = 2

abbrev pub request : ℕ
request = 3

abbrev pub decline : ℕ
decline = 4

abbrev pub ack : ℕ
ack = 5

abbrev pub nak : ℕ
nak = 6

abbrev pub release : ℕ
release = 7
