-- ===== src/Tests/Boot.antt =====
-- The theorems on the start of ndhc, at a concrete host.
use ndhc.Common.{
  ℕ, List, false, ◌<◌, Bytes, true, none, some, [], ◌∷◌, ◌++◌, ◌≡◌, refl, length, replicate, be32,
  write, write_all, arith,
}
use ndhc.Common.Process.{returned}
use ndhc.Boot.Clientid.{
  Identified, restarted, identified_again, get_clientid-Identified, get_clientid-again,
}
use ndhc.Boot.Identifiers.{
  get_clientid, get_iaid_path, get_duid_path, hex_octets, stored, open_iaidfile_read,
  open_iaidfile_write, open_duidfile_read, open_duidfile_write, generate_iaid, generate_duid,
  get_iaid, get_duid, join_clientid,
}
use ndhc.Boot.Setting.{get_clientid_string, as_hwaddr, as_text}
use ndhc.Boot.SettingText.{get_clientid_string-hex_octets, get_clientid_string-long}
use ndhc.Boot.World.{Kernel, Boot, ready, datagram, update}
use ndhc.Ifchange.Changes.{same_bytes}
use ndhc.Boot.Interface.{nl_getifdata}
use ndhc.Boot.InterfaceAnswer.{FoundIn, nl_getifdata-Returns}
use ndhc.Boot.Walks.{Returns}
use ndhc.Boot.Leasefile.{write_leasefile}
use ndhc.Boot.LeasefileText.{Works, write_leasefile_lem, write_leasefile-lost}
use ndhc.Ifchange.Text.{inet_ntop, show_u32, digits}
use ndhc.Ifchd.Netlink.{nl_message}
use ndhc.Ifchd.World.{NlMsg, ifinfomsg}
use ndhc.Tests.Data.{our_arp}

-- Every call works, and the random numbers are the questions' own.
abbrev kernel : Kernel
kernel = record {
  open_read = λ _. true;
  open_write = λ _. true;
  read = λ _. true;
  write = λ _ n. some n;
  random = λ n. n;
  socket = λ _. true;
  clock = λ _. some 5;
  sendto = λ _. true;
  poll = λ _. ready;
  answer = λ _. [];
  interruptions = λ _. 1;
  truncate = λ _. true;
  lseek = λ _. true;
}

-- "/n", without files.
abbrev boot : Boot
boot = record {
  clientid = replicate 64 0;
  clientid_len = 0;
  arp = our_arp;
  state_dir = b'/' ∷ b'n' ∷ [];
  interface = b'e' ∷ b't' ∷ b'h' ∷ b'0' ∷ [];
  ifindex = 0;
  sockets = 0;
  requests = [];
  leasefile = none;
  leasefile_pos = 0;
  files = λ _. none;
  kernel = kernel;
  tick = 0;
}

get_clientid_example : Identified boot (get_clientid be32 boot)
get_clientid_example = get_clientid-Identified be32 (λ n. refl) boot refl refl

first_start : (v : Boot) × (get_clientid be32 boot ≡ returned tt v)
unfolding get_clientid get_iaid get_duid stored open_iaidfile_read open_iaidfile_write
    open_duidfile_read open_duidfile_write generate_iaid generate_duid join_clientid get_iaid_path
    get_duid_path hex_octets same_bytes write_all write
first_start = (_, refl)

again_example :
    get_clientid be32 (restarted first_start.0 kernel (replicate 64 1))
    ≡ returned tt (identified_again first_start.0 kernel (replicate 64 1))
again_example =
    get_clientid-again be32 (λ n. refl) boot first_start.0 kernel (replicate 64 1) refl refl
      first_start.1 (λ n. refl) (λ n. refl) refl

hwaddr_example :
    get_clientid_string (hex_octets (2 ∷ 0 ∷ 94 ∷ 16 ∷ 0 ∷ 255 ∷ [])) boot
    ≡ returned as_hwaddr (record boot {
      clientid = (1 ∷ 2 ∷ 0 ∷ 94 ∷ 16 ∷ 0 ∷ 255 ∷ []) ++ replicate 57 0;
      clientid_len = 7;
    })
hwaddr_example =
    get_clientid_string-hex_octets 2 0 94 16 0 255 boot
      (omega arith, (omega arith, (omega arith, (omega arith, (omega arith, (omega arith, tt))))))
      refl

too_long_example :
    (v : Boot) × (get_clientid_string (replicate 100 b'x') boot ≡ returned as_text v)
    × (length v.clientid < v.clientid_len)
too_long_example =
    get_clientid_string-long (replicate 100 b'x') boot (omega arith) (omega arith) refl

-- A new link named eth0, with its name and its address.
abbrev link : NlMsg
link = nl_message 16 0 5 (ifinfomsg 2 0x43)

abbrev named : NlMsg → List (ℕ × Bytes)
named nlh = (3, b'e' ∷ b't' ∷ b'h' ∷ b'0' ∷ 0 ∷ []) ∷ (1, our_arp) ∷ []

abbrev answered : Boot
answered = record boot {
  kernel = record kernel { answer = λ _. datagram false 12 (link ∷ []) ∷ [] };
}

getifdata_example :
    Returns
      (FoundIn named (datagram false 12 (link ∷ []) ∷ []) answered.interface answered.sockets)
      (nl_getifdata named answered)
getifdata_example = nl_getifdata-Returns named answered

kernel-Works : Works kernel
kernel-Works = record { truncate = λ n. refl; lseek = λ n. refl; write = λ n len. refl }

-- "/n/L", for 10.0.0.1 and 192.168.100.100.
abbrev leasefile : Bytes
leasefile = b'/' ∷ b'n' ∷ b'/' ∷ b'L' ∷ []

leasefile_example :
    let out = inet_ntop 0x0a000001 ++ (10 ∷ []) in
    (n : ℕ) × (write_leasefile 0x0a000001 (record boot { leasefile = some leasefile })
      ≡ returned tt (record boot {
        leasefile = some leasefile;
        files = update leasefile out (update leasefile [] boot.files);
        leasefile_pos = length out;
        tick = n;
      }))
unfolding inet_ntop show_u32 digits
leasefile_example = write_leasefile_lem boot leasefile 0x0a000001 kernel-Works (omega arith)

lost_example :
    write_leasefile 0xc0a86464 (record boot { leasefile = some leasefile })
    ≡ returned tt (record boot { leasefile = some leasefile })
lost_example =
    write_leasefile-lost boot leasefile 0xc0a86464 (omega arith) (omega arith) (omega arith)
      (omega arith)
