-- ===== src/Common/Subprocess.antt =====
-- The loop of a subprocess, `do_ifch_work` of src/ifchd.c and `do_sockd_work` of src/sockd.c, over what
-- `epoll_wait` gives, and `signal_dispatch_subprocess` of src/sys.c.
use Prim.Native.Nat.{ℕ, ◌≤◌}
use native.Mathlib.Omega.{arith}
use mathlib.Core.Bool.{Bool, false, ◌||◌}
use mathlib.Core.Path.{◌≡◌}
use mathlib.Core.List.{List, [], ◌∷◌}
use ndhc.Common.Lists.{length}
use ndhc.Common.Process.{Process, suicide, exit_success, fault, pure, ◌>>◌, halt}
use ndhc.Common.Tests.{ltb, ◌==◌, if◌then◌else◌}

-- What is read from the descriptor for signals: an error or too little, or the number of a signal.
pub data SignalRead : Type 0 where
  not_read : SignalRead
  signo : ℕ → SignalRead

-- The descriptors that are ready: the socket, with the flag EPOLLIN; the stream, with whether its other
-- end is gone; the signals, with the flag EPOLLIN; and any other.
pub data Ready : Type 0 where
  socket_ready : Bool → Ready
  stream_ready : Bool → Ready
  signal_ready : Bool → SignalRead → Ready
  unknown_ready : Ready

-- What `epoll_wait` gives.
pub data Waited : Type 0 where
  wait_interrupted wait_failed : Waited
  events : List Ready → Waited

module _ {W : Type 0} where
  -- SIGINT, SIGTERM and SIGHUP are 2, 15 and 1.
  unfoldable pub signal_dispatch_subprocess : SignalRead → Process W (Unit {0})
  signal_dispatch_subprocess not_read = pure tt
  signal_dispatch_subprocess (signo n) =
      if n == 2 || (n == 15 || n == 1) then halt exit_success else pure tt

  unfoldable pub dispatch_ready : Process W (Unit {0}) → Ready → Process W (Unit {0})
  unfolding signal_dispatch_subprocess
  dispatch_ready work (socket_ready epollin) = if epollin then work else pure tt
  dispatch_ready work (stream_ready gone) = if gone then halt exit_success else pure tt
  dispatch_ready work (signal_ready epollin s) =
      if epollin then signal_dispatch_subprocess s else pure tt
  dispatch_ready work unknown_ready = halt suicide

  unfoldable pub dispatch_all : Process W (Unit {0}) → List Ready → Process W (Unit {0})
  unfolding dispatch_ready
  dispatch_all work [] = pure tt
  dispatch_all work (r ∷ rs) = dispatch_ready work r >> dispatch_all work rs

  -- The rounds of the loop; `slots` is the size of the array that `epoll_wait` fills.
  unfoldable pub subprocess_rounds : ℕ → Process W (Unit {0}) → List Waited → Process W (Unit {0})
  unfolding dispatch_all
  subprocess_rounds slots work [] = pure tt
  subprocess_rounds slots work (wait_interrupted ∷ ws) = subprocess_rounds slots work ws
  subprocess_rounds slots work (wait_failed ∷ ws) = halt suicide
  subprocess_rounds slots work (events rs ∷ ws) =
      if ltb slots (length rs)
      then (λ w. fault)
      else (dispatch_all work rs >> subprocess_rounds slots work ws)

-- At most two descriptors are ready at once.
abbrev pub FitSlots : List Waited → Type 0
FitSlots [] = Unit {0}
FitSlots (events rs ∷ ws) = (length rs ≤ 2) × FitSlots ws
FitSlots (_ ∷ ws) = FitSlots ws

pub few-fit : (rs : List Ready) → length rs ≤ 2 → ltb 2 (length rs) ≡ false
few-fit rs h = ground (arith, h)
