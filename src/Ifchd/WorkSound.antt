-- ===== src/Ifchd/WorkSound.antt =====
-- ndhc-ifch as a whole, over any sequence of events.
use ndhc.Common.{
  ℕ, Bytes, Bool, true, false, ◌||◌, Option, none, some, List, [], ◌∷◌, ◌==◌, ◌≡◌, refl, Bool-cases,
  inl, inr, arith,
}
use ndhc.Common.Process.{suicide, ◌>>=◌, ◌>>◌, halt, get, put}
use ndhc.Common.Subprocess.{
  not_read, signo, Ready, socket_ready, stream_ready, signal_ready, unknown_ready, Waited,
  wait_interrupted, wait_failed, events, signal_dispatch_subprocess, dispatch_ready, dispatch_all,
  subprocess_rounds, FitSlots, few-fit,
}
use ndhc.Ifchd.Execute.{process_client_socket}
use ndhc.Ifchd.Keeps.{AllConcern, IsSound, SoundRun, Keeps, Keeps-bind, Keeps-pure}
use ndhc.Ifchd.Safety.{process_client_socket-Keeps}
use ndhc.Ifchd.Work.{head_name, tail_name, open_beside, setup_resolv_conf, do_ifch_work, ifch_main}
use ndhc.Ifchd.World.{state_nothing, Ifch}

module _ (i : ℕ) where
  process-Keeps : Keeps i process_client_socket
  unfolding Keeps
  process-Keeps = process_client_socket-Keeps i

  dispatch_ready-Keeps : (r : Ready) → Keeps i (dispatch_ready process_client_socket r)
  unfolding dispatch_ready signal_dispatch_subprocess Keeps
  dispatch_ready-Keeps (socket_ready true) w h = process_client_socket-Keeps i w h
  dispatch_ready-Keeps (socket_ready false) w h = h
  dispatch_ready-Keeps (stream_ready true) w h = h.1
  dispatch_ready-Keeps (stream_ready false) w h = h
  dispatch_ready-Keeps (signal_ready true not_read) w h = h
  dispatch_ready-Keeps (signal_ready true (signo n)) w h =
      elim (Bool-cases (n == 2 || (n == 15 || n == 1))) [
        | inl e ↦ rw (SoundRun, e) (h.1)
        | inr e ↦ rw (SoundRun, e) h
      ]
  dispatch_ready-Keeps (signal_ready false s) w h = h
  dispatch_ready-Keeps unknown_ready w h = h.1

  dispatch_all-Keeps : (rs : List Ready) → Keeps i (dispatch_all process_client_socket rs)
  unfolding dispatch_all
  dispatch_all-Keeps [] = Keeps-pure i tt
  dispatch_all-Keeps (r ∷ rs) =
      Keeps-bind i (dispatch_ready process_client_socket r)
        (λ _. dispatch_all process_client_socket rs) (dispatch_ready-Keeps r)
        (λ _. dispatch_all-Keeps rs)

  halt-Keeps : Keeps i (halt {A = Unit {0}} suicide)
  unfolding Keeps
  halt-Keeps w h = h.1

  subprocess_rounds-Keeps :
      (ws : List Waited) → FitSlots ws → Keeps i (subprocess_rounds 2 process_client_socket ws)
  unfolding subprocess_rounds
  subprocess_rounds-Keeps [] f = Keeps-pure i tt
  subprocess_rounds-Keeps (wait_interrupted ∷ ws) f = subprocess_rounds-Keeps ws f
  subprocess_rounds-Keeps (wait_failed ∷ ws) f = halt-Keeps
  subprocess_rounds-Keeps (events rs ∷ ws) (f, fs) = rw (few-fit rs f) (
      Keeps-bind i (dispatch_all process_client_socket rs)
        (λ _. subprocess_rounds 2 process_client_socket ws) (dispatch_all-Keeps rs)
        (λ _. subprocess_rounds-Keeps ws fs))

-- A state for the interface with the index `i`, whatever its strings are.
abbrev pub StartsFor : ℕ → Ifch → Type 0
StartsFor i w = (w.ifindex ≡ i) × AllConcern i w.requests

rounds-SoundRun :
    (i : ℕ) (waits : List Waited)
    → FitSlots waits
    → (w : Ifch) → IsSound i w
    → SoundRun i (subprocess_rounds 2 process_client_socket waits w)
unfolding Keeps
rounds-SoundRun i waits f = subprocess_rounds-Keeps i waits f

do_ifch_work-SoundRun :
    (i : ℕ) (epoll_works : Bool) (waits : List Waited) (w : Ifch)
    → FitSlots waits
    → StartsFor i w
    → SoundRun i (do_ifch_work epoll_works waits w)
unfolding do_ifch_work
do_ifch_work-SoundRun i true waits w f (e, r) =
    rounds-SoundRun i waits f
      (record w { state = state_nothing; ibuf = []; namesvrs = []; domains = [] })
      (e, r, refl, omega arith, omega arith)
do_ifch_work-SoundRun i false waits w f (e, r) = r

-- For all files, all waits with at most two ready descriptors each, all messages of the master and all
-- answers of the kernel, and for each state for the interface with the index `i` where only requests for
-- it were sent: ndhc-ifch accesses nothing outside the arrays for a message, for an argument, for what is
-- left over, for the addresses and for the events, and the table of `trailz`; only requests for this
-- interface were sent when it ends; and as long as it runs, its state is sound besides: nothing is left
-- over, and the strings for resolv.conf fit into their arrays.
pub ifch_main-SoundRun :
    (i : ℕ) (opened : Bytes → Option Bytes) (resolv_conf_d : Bytes) (epoll_works : Bool)
    (waits : List Waited) (w : Ifch)
    → FitSlots waits
    → StartsFor i w
    → SoundRun i (ifch_main opened resolv_conf_d epoll_works waits w)
unfolding ifch_main setup_resolv_conf
ifch_main-SoundRun i opened [] epoll_works waits w f s =
    do_ifch_work-SoundRun i epoll_works waits w f s
ifch_main-SoundRun i opened (c ∷ cs) epoll_works waits w f (e, r) = with_file (opened (c ∷ cs))
  where
    with_file :
        (o : Option Bytes)
        → SoundRun i (
            ((elim o [
              | none ↦ halt suicide
              | some file ↦ do
                v ← get
                put (record v {
                  resolv_conf = some file;
                  head = open_beside opened (c ∷ cs) head_name;
                  tail = open_beside opened (c ∷ cs) tail_name;
                })
            ])
                >> do_ifch_work epoll_works waits)
              w)
    with_file none = r
    with_file (some file) =
        do_ifch_work-SoundRun i epoll_works waits
          (record w {
            resolv_conf = some file;
            head = open_beside opened (c ∷ cs) head_name;
            tail = open_beside opened (c ∷ cs) tail_name;
          })
          f (e, r)
