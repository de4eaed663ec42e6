-- ===== src/Ifchd/Netlink.antt =====
-- The messages of src/nl.c and src/ifset.c: their attributes, how they are sent, and how the
-- received ones are walked.
use ndhc.Common.{
  ℕ, ◌+◌, ◌*◌, ◌/◌, Bool, not, ◌&&◌, Option, none, some, List, [], ◌∷◌, ◌++◌, ◌==◌, ltb, leb,
  if◌then◌else◌,
}
use ndhc.Common.Process.{Process, pure, ◌>>=◌, ◌>>◌, get, put}
use ndhc.Ifchd.World.{
  Body, ifinfomsg, ifaddrmsg, rtmsg, NlMsg, no_ack, nlmsg_error, nlmsg_done, nlmsg_other, I, ask,
  Code, ok, failed, unconfirmed, rf_killed,
}

-- The numbers of the kernel's headers.
abbrev pub rtm_newlink : ℕ
rtm_newlink = 16

abbrev pub rtm_dellink : ℕ
rtm_dellink = 17

abbrev pub rtm_getlink : ℕ
rtm_getlink = 18

abbrev pub rtm_setlink : ℕ
rtm_setlink = 19

abbrev pub rtm_newaddr : ℕ
rtm_newaddr = 20

abbrev pub rtm_deladdr : ℕ
rtm_deladdr = 21

abbrev pub rtm_getaddr : ℕ
rtm_getaddr = 22

abbrev pub rtm_newroute : ℕ
rtm_newroute = 24

abbrev pub af_inet : ℕ
af_inet = 2

-- NLMSG_ALIGN and RTA_ALIGN
abbrev pub align4 : ℕ → ℕ
align4 n = (n + 3) / 4 * 4

abbrev pub nlmsg_hdrlen : ℕ
nlmsg_hdrlen = 16

abbrev pub body_size : Body → ℕ
body_size (ifinfomsg _ _) = 16
body_size (ifaddrmsg _ _ _ _ _) = 8
body_size (rtmsg _ _ _ _) = 12

-- RTA_LENGTH
abbrev pub rta_length : ℕ → ℕ
rta_length n = 4 + n

-- Every attribute that is sent has four octets of data.
abbrev pub data_length : ℕ
data_length = 4

-- A message with its header and body only: NLMSG_LENGTH.
abbrev pub nl_message : ℕ → ℕ → ℕ → Body → NlMsg
nl_message type flags seq body = record {
  nlmsg_len = nlmsg_hdrlen + body_size body;
  nlmsg_type = type;
  nlmsg_flags = flags;
  nlmsg_seq = seq;
  nlmsg_pid = 0;
  body = body;
  attrs = [];
}

-- `none` is -E2BIG.
unfoldable pub nl_add_rtattr : NlMsg → ℕ → ℕ → ℕ → Option NlMsg
nl_add_rtattr n max_length type value =
    let length = rta_length data_length in
    if ltb max_length (align4 n.nlmsg_len + align4 length)
    then none
    else some (record n {
      nlmsg_len = align4 n.nlmsg_len + align4 length;
      attrs = n.attrs ++ (type, value) ∷ [];
    })

-- The walk over one buffer: -1 is `none`. A message of another sender or of another request is
-- skipped; an error ends the walk, and so does the end of a dump.
unfoldable pub nl_foreach_nlmsg :
    {W S : Type 0} → List NlMsg → ℕ → ℕ → (NlMsg → S → Process W S) → S → Process W (Option S)
nl_foreach_nlmsg [] seq portid pfn s = pure (some s)
nl_foreach_nlmsg (nlh ∷ rest) seq portid pfn s =
    let skip = nl_foreach_nlmsg rest seq portid pfn s in
    let call = (do t ← pfn nlh s; nl_foreach_nlmsg rest seq portid pfn t) in
    if not (nlh.nlmsg_pid == 0) && (not (portid == 0) && not (nlh.nlmsg_pid == portid))
    then skip
    else if not (seq == 0) && not (nlh.nlmsg_seq == seq)
    then skip
    else if leb 16 nlh.nlmsg_type
    then call
    else if nlh.nlmsg_type == 2
    then pure none
    else if nlh.nlmsg_type == 3
    then pure (some s)
    else skip

-- What a walk over all buffers of an answer gives: the state, or a failure of `nl_recv_buf` (-2) or
-- of the walk (-3).
pub data Walk (S : Type 0) : Type 0 where
  walked : S → Walk S
  recv_failed foreach_failed : Walk S

-- The loop around `nl_recv_buf`; it ends where nothing is left.
unfoldable pub recv_loop :
    {W S : Type 0}
    → List (Option (List NlMsg))
    → ℕ
    → (NlMsg → S → Process W S)
    → S
    → Process W (Walk S)
unfolding nl_foreach_nlmsg
recv_loop [] seq pfn s = pure (walked s)
recv_loop (none ∷ bufs) seq pfn s = pure recv_failed
recv_loop (some msgs ∷ bufs) seq pfn s = do
  r ← nl_foreach_nlmsg msgs seq 0 pfn s
  elim r [ none ↦ pure foreach_failed | some t ↦ recv_loop bufs seq pfn t ]

abbrev pub request_sent : NlMsg → I (Unit {0})
request_sent msg = do w ← get; put (record w { requests = msg ∷ w.requests })

unfoldable pub rtnl_do_send : NlMsg → I Code
rtnl_do_send msg = do
  request_sent msg
  r ← ask (λ k. k.ack)
  elim r [
    | no_ack ↦ pure failed
    | nlmsg_error nlerr ↦
        pure (if nlerr == 0 then ok else if nlerr == 132 then rf_killed else failed)
    | nlmsg_done ↦ pure unconfirmed
    | nlmsg_other ↦ pure failed
  ]

-- `nl_sendgetlink` and `nl_sendgetaddr4`; the flags are NLM_F_REQUEST and NLM_F_ROOT.
unfoldable pub nl_sendgetlink : ℕ → ℕ → I Bool
nl_sendgetlink seq ifindex = do
  request_sent (nl_message rtm_getlink 0x101 seq (ifinfomsg ifindex 0))
  ask (λ k. k.sendto)

unfoldable pub nl_sendgetaddr4 : ℕ → ℕ → I Bool
nl_sendgetaddr4 seq ifindex = do
  request_sent (nl_message rtm_getaddr 0x101 seq (ifaddrmsg af_inet 0 0 0 ifindex))
  ask (λ k. k.sendto)
