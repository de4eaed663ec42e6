-- ===== src/Options/Dcode.antt =====
-- The option codes, DCODE_* of src/options.h.
use ndhc.Common.{ℕ}

abbrev pub padding : ℕ
padding = 0x00

abbrev pub subnet : ℕ
subnet = 0x01

abbrev pub timezone : ℕ
timezone = 0x02

abbrev pub router : ℕ
router = 0x03

abbrev pub dns : ℕ
dns = 0x06

abbrev pub lprsvr : ℕ
lprsvr = 0x09

abbrev pub hostname : ℕ
hostname = 0x0c

abbrev pub domain : ℕ
domain = 0x0f

abbrev pub ipttl : ℕ
ipttl = 0x17

abbrev pub mtu : ℕ
mtu = 0x1a

abbrev pub broadcast : ℕ
broadcast = 0x1c

abbrev pub ntpsvr : ℕ
ntpsvr = 0x2a

abbrev pub wins : ℕ
wins = 0x2c

abbrev pub reqip : ℕ
reqip = 0x32

abbrev pub leaset : ℕ
leaset = 0x33

abbrev pub overload : ℕ
overload = 0x34

abbrev pub msgtype : ℕ
msgtype = 0x35

abbrev pub server_id : ℕ
server_id = 0x36

abbrev pub param_req : ℕ
param_req = 0x37

abbrev pub max_size : ℕ
max_size = 0x39

abbrev pub vendor : ℕ
vendor = 0x3c

abbrev pub client_id : ℕ
client_id = 0x3d

abbrev pub end : ℕ
end = 0xff
