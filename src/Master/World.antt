-- ===== src/Master/World.antt =====
-- The state of ndhc-master, what the rest of the system answers, and the monad of its functions.
--
-- The kernel, the clock, the random generator of ncmlib and the two other processes are `Env`: each
-- question is numbered by `tick`, and the answer to a question may be anything. A log line is no
-- effect here.
use ndhc.Common.{ℕ, ◌+◌, Bytes, Bool, Option, none, some, List, ◌∷◌, ◌≡◌, ap}
use ndhc.Master.Client.{ClientState, Config, ArpMsg, ArpData}
use ndhc.Options.Packet.{Dhcpmsg}

-- How a request to ndhc-sockd ends: with an octet and a descriptor, or with none of either.
pub data SockdReply : Type 0 where
  no_reply : SockdReply
  reply : ℕ → Option ℕ → SockdReply

-- How a command to ndhc-ifch ends.
pub data IfchReply : Type 0 where
  write_failed hung_up recv_failed : IfchReply
  answer : Bytes → IfchReply

pub record Env : Type 0 where
  pub now : ℕ → ℕ
  pub random : ℕ → ℕ
  pub sockd : ℕ → SockdReply
  pub ifch : ℕ → IfchReply
  pub connect : ℕ → Bool
  pub sendto : ℕ → Option ℕ
  pub patience : ℕ

pub data Event : Type 0 where
  asked_sockd : Bytes → Event
  told_ifch : Bytes → Event
  broadcast : Dhcpmsg → ℕ → Event
  unicast : ℕ → Dhcpmsg → ℕ → Event
  arp_sent : ArpMsg → Event
  wrote_leasefile : ℕ → Event
  forked : Event

-- `cfg_packet` is the static variable of src/ifchange.c. The last event comes first in `trace`.
pub record World : Type 0 where
  pub cs : ClientState
  pub garp : ArpData
  pub cfg_packet : Dhcpmsg
  pub conf : Config
  pub env : Env
  pub tick : ℕ
  pub trace : List Event

-- How the process ends.
pub data Halt : Type 0 where
  suicide exit_success exit_failure : Halt

-- `fault` is an access outside a buffer, or a loop that `patience` did not cover.
pub data Outcome (A : Type 0) : Type 0 where
  returned : A → World → Outcome A
  halted : Halt → World → Outcome A
  fault : Outcome A

abbrev pub M : Type 0 → Type 0
M A = World → Outcome A

abbrev pub pure : {A : Type 0} → A → M A
pure a w = returned a w

infixl 5 ◌>>=◌ ◌>>◌
abbrev pub ◌>>=◌ : {A B : Type 0} → M A → (A → M B) → M B
◌>>=◌ m f w = elim (m w) [ returned a w' ↦ f a w' | halted h w' ↦ halted h w' | fault ↦ fault ]

abbrev pub ◌>>◌ : {B : Type 0} → M (Unit {0}) → M B → M B
m >> k = m >>= λ _. k

abbrev pub halt : {A : Type 0} → Halt → M A
halt h w = halted h w

-- A computation on buffers.
abbrev pub checked : {A : Type 0} → Option A → M A
checked o w = elim o [ none ↦ fault | some a ↦ returned a w ]

abbrev pub gets : {A : Type 0} → (World → A) → M A
gets f w = returned (f w) w

abbrev pub get_cs : M ClientState
get_cs w = returned w.cs w

abbrev pub get_garp : M ArpData
get_garp w = returned w.garp w

abbrev pub get_conf : M Config
get_conf w = returned w.conf w

abbrev pub put_cs : ClientState → M (Unit {0})
put_cs cs w = returned tt (record w { cs = cs })

abbrev pub put_garp : ArpData → M (Unit {0})
put_garp garp w = returned tt (record w { garp = garp })

abbrev pub emit : Event → M (Unit {0})
emit e w = returned tt (record w { trace = e ∷ w.trace })

-- One question to the environment.
abbrev pub ask : {A : Type 0} → (Env → ℕ → A) → M A
ask q w = returned (q w.env w.tick) (record w { tick = w.tick + 1 })

abbrev pub curms : M ℕ
curms = ask (λ e. e.now)

abbrev pub nk_random_u32 : M ℕ
nk_random_u32 = ask (λ e. e.random)

-- A computation that returns hands its result and its world to the next one.
pub bind-returned :
    {A B : Type 0} (m : M A) (k : A → M B) (a : A) (w w' : World)
    → m w ≡ returned a w'
    → (m >>= k) w ≡ k a w'
bind-returned m k a w w' e =
    ap (λ o. elim o [ returned b v ↦ k b v | halted h v ↦ halted h v | fault ↦ fault ]) e
