-- ===== src/Ifchd/Keeps.antt =====
-- An invariant of ndhc-ifch, and that the netlink functions of src/nl.c and src/ifset.c keep it.
use ndhc.Common.{
  ℕ, ◌<◌, ◌⊎◌, Bool, true, false, Option, none, some, List, [], ◌∷◌, ◌≡◌, length, if◌then◌else◌,
  arith,
}
use ndhc.Common.Process.{Run, returned, ended, fault, pure, ◌>>=◌, get, onward}
use ndhc.Ifchd.Netlink.{
  nl_foreach_nlmsg, recv_loop, walked, recv_failed, foreach_failed, Walk, request_sent,
  rtnl_do_send, nl_sendgetlink, nl_sendgetaddr4,
}
use ndhc.Ifchd.World.{ifinfomsg, ifaddrmsg, rtmsg, NlMsg, Kernel, Ifch, I, ask, next_seq}

-- An attribute of a message: its type and its value.
abbrev pub HasAttr : ℕ × ℕ → List (ℕ × ℕ) → Type 0
HasAttr x [] = ⊥
HasAttr x (y ∷ ys) = (x ≡ y) ⊎ HasAttr x ys

-- A message for the interface with the index `i`: its structure says so, or its attribute RTA_OIF.
abbrev pub Concerns : ℕ → NlMsg → Type 0
Concerns i msg = elim msg.body [
  | ifinfomsg ifi_index _ ↦ ifi_index ≡ i
  | ifaddrmsg _ _ _ _ ifa_index ↦ ifa_index ≡ i
  | rtmsg _ _ _ _ ↦ HasAttr (4, i) msg.attrs
]

abbrev pub AllConcern : ℕ → List NlMsg → Type 0
AllConcern i [] = Unit {0}
AllConcern i (msg ∷ msgs) = Concerns i msg × AllConcern i msgs

-- The interface is the one with the index `i`, no other was ever changed, nothing is left in the
-- buffer, and the strings are shorter than their buffers.
abbrev pub IsSound : ℕ → Ifch → Type 0
IsSound i w =
    (w.ifindex ≡ i)
    × AllConcern i w.requests
    × (w.ibuf ≡ [])
    × (length w.namesvrs < 1024)
    × (length w.domains < 1024)

-- A computation does not fault, the state that it leaves is sound, and where it ends the process
-- only requests for the interface were sent.
abbrev pub SoundRun : {A : Type 0} → ℕ → Run Ifch A → Type 0
SoundRun i (returned a v) = IsSound i v
SoundRun i (ended e v) = AllConcern i v.requests
SoundRun i fault = ⊥

module _ (i : ℕ) where
  unfoldable pub Keeps : {A : Type 0} → I A → Type 0
  Keeps m = (w : Ifch) → IsSound i w → SoundRun i (m w)

  pub Keeps-bind :
      {A B : Type 0} (m : I A) (f : A → I B) → Keeps m → ((a : A) → Keeps (f a)) → Keeps (m >>= f)
  unfolding Keeps
  Keeps-bind {A = A} {B = B} m f p q w h = go (m w) (p w h)
    where
      go : (r : Run Ifch A) → SoundRun i r → SoundRun i (onward r f)
      go (returned a v) s = q a v s
      go (ended e v) s = s
      go fault s = s

  pub Keeps-pure : {A : Type 0} (a : A) → Keeps (pure a)
  unfolding Keeps
  Keeps-pure a w h = h

  pub Keeps-ask : {A : Type 0} (q : Kernel → ℕ → A) → Keeps (ask q)
  unfolding Keeps
  Keeps-ask q w h = h

  pub Keeps-next_seq : Keeps next_seq
  unfolding Keeps
  Keeps-next_seq w h = h

  pub Keeps-if :
      {A : Type 0} (b : Bool) (m k : I A) → Keeps m → Keeps k → Keeps (if b then m else k)
  Keeps-if true m k p q = p
  Keeps-if false m k p q = q

  pub Keeps-option :
      {A B : Type 0} (o : Option A) (m : I B) (k : A → I B)
      → Keeps m
      → ((a : A) → Keeps (k a))
      → Keeps (elim o [ none ↦ m | some a ↦ k a ])
  Keeps-option none m k p q = p
  Keeps-option (some a) m k p q = q a

  -- A request for the interface may be sent.
  pub Keeps-request_sent : (msg : NlMsg) → Concerns i msg → Keeps (request_sent msg)
  unfolding Keeps
  Keeps-request_sent msg c w (a, r, s, n, d) = (a, (c, r), s, n, d)

  pub Keeps-get :
      {B : Type 0} (f : Ifch → I B)
      → ((w : Ifch) → IsSound i w → SoundRun i (f w w))
      → Keeps (get >>= f)
  unfolding Keeps
  Keeps-get f p = p

  -- A walk over messages keeps what its function keeps.
  pub Keeps-nl_foreach_nlmsg :
      {S : Type 0} (pfn : NlMsg → S → I S)
      → ((nlh : NlMsg) (s : S) → Keeps (pfn nlh s))
      → (msgs : List NlMsg) (seq portid : ℕ) (s : S)
      → Keeps (nl_foreach_nlmsg msgs seq portid pfn s)
  unfolding nl_foreach_nlmsg Keeps
  Keeps-nl_foreach_nlmsg pfn p [] seq portid s = Keeps-pure (some s)
  Keeps-nl_foreach_nlmsg pfn p (nlh ∷ rest) seq portid s =
      let skip = Keeps-nl_foreach_nlmsg pfn p rest seq portid s in
      let call =
        Keeps-bind (pfn nlh s) (λ t. nl_foreach_nlmsg rest seq portid pfn t) (p nlh s)
          (λ t. Keeps-nl_foreach_nlmsg pfn p rest seq portid t) in
      search (Keeps-if, Keeps-pure, skip, call)

  pub Keeps-recv_loop :
      {S : Type 0} (pfn : NlMsg → S → I S)
      → ((nlh : NlMsg) (s : S) → Keeps (pfn nlh s))
      → (bufs : List (Option (List NlMsg))) (seq : ℕ) (s : S) → Keeps (recv_loop bufs seq pfn s)
  unfolding recv_loop Keeps
  Keeps-recv_loop {S = S} pfn p [] seq s = Keeps-pure (walked s)
  Keeps-recv_loop {S = S} pfn p (none ∷ bufs) seq s = Keeps-pure {A = Walk S} recv_failed
  Keeps-recv_loop {S = S} pfn p (some msgs ∷ bufs) seq s =
      Keeps-bind (nl_foreach_nlmsg msgs seq 0 pfn s) _ (Keeps-nl_foreach_nlmsg pfn p msgs seq 0 s)
        (λ r.
          Keeps-option r (pure foreach_failed) (λ t. recv_loop bufs seq pfn t)
            (Keeps-pure {A = Walk S} foreach_failed) (Keeps-recv_loop pfn p bufs seq))

  pub Keeps-rtnl_do_send : (msg : NlMsg) → Concerns i msg → Keeps (rtnl_do_send msg)
  unfolding rtnl_do_send Keeps
  Keeps-rtnl_do_send msg c w h = ground (arith, c, h)

  pub Keeps-nl_sendgetlink : (seq ifindex : ℕ) → ifindex ≡ i → Keeps (nl_sendgetlink seq ifindex)
  unfolding nl_sendgetlink Keeps
  Keeps-nl_sendgetlink seq ifindex e w h = ground (arith, e, h)

  pub Keeps-nl_sendgetaddr4 : (seq ifindex : ℕ) → ifindex ≡ i → Keeps (nl_sendgetaddr4 seq ifindex)
  unfolding nl_sendgetaddr4 Keeps
  Keeps-nl_sendgetaddr4 seq ifindex e w h = ground (arith, e, h)
