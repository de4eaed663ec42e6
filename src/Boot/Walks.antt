-- ===== src/Boot/Walks.antt =====
-- The walk over the messages of netlink, `nl_foreach_nlmsg` of src/nl.c, with a condition that each call of
-- its function keeps.
use ndhc.Common.{
  ℕ, Bool, true, false, not, ◌&&◌, leb, Option, none, some, List, [], ◌∷◌, ◌==◌, if◌then◌else◌,
}
use ndhc.Common.Process.{Process, Run, returned, ended, fault, pure, ◌>>=◌, onward}
use ndhc.Ifchd.Netlink.{nl_foreach_nlmsg}
use ndhc.Ifchd.World.{NlMsg}

-- A condition on the result and the state of a computation that returns.
abbrev pub Returns : {W A : Type 0} → (A → W → Type 0) → Run W A → Type 0
Returns P (returned a v) = P a v
Returns P (ended e v) = Unit {0}
Returns P fault = Unit {0}

pub Returns-onward :
    {W A C : Type 0} (P : A → W → Type 0) (Q : C → W → Type 0) (r : Run W A) (k : A → Process W C)
    → Returns P r
    → ((a : A) (v : W) → P a v → Returns Q (k a v))
    → Returns Q (onward r k)
Returns-onward P Q (returned a v) k h f = f a v h
Returns-onward P Q (ended e v) k h f = tt
Returns-onward P Q fault k h f = tt

pub Returns-if :
    {W A : Type 0} (P : A → W → Type 0) (b : Bool) (x y : Process W A) (w : W)
    → Returns P (x w)
    → Returns P (y w)
    → Returns P ((if b then x else y) w)
Returns-if P true x y w h g = h
Returns-if P false x y w h g = g

abbrev pub AllMsgs : (NlMsg → Type 0) → List NlMsg → Type 0
AllMsgs Q [] = Unit {0}
AllMsgs Q (m ∷ ms) = Q m × AllMsgs Q ms

-- The walk keeps what every call of the function keeps.
abbrev pub WalkInv : {W S : Type 0} → (S → W → Type 0) → Option S → W → Type 0
WalkInv {S = S} Inv none v = (s : S) × Inv s v
WalkInv Inv (some s) v = Inv s v

module _ {W S : Type 0} (Q : NlMsg → Type 0) (Inv : S → W → Type 0) (pfn : NlMsg → S → Process W S)
    (keeps : (nlh : NlMsg) (s : S) (w : W) → Q nlh → Inv s w → Returns Inv (pfn nlh s w)) where
  pub nl_foreach_nlmsg-Returns :
      (msgs : List NlMsg) (seq portid : ℕ) (s : S) (w : W)
      → AllMsgs Q msgs
      → Inv s w
      → Returns (WalkInv Inv) (nl_foreach_nlmsg msgs seq portid pfn s w)
  unfolding nl_foreach_nlmsg
  nl_foreach_nlmsg-Returns [] seq portid s w qs h = h
  nl_foreach_nlmsg-Returns (nlh ∷ rest) seq portid s w (q, qs) h =
      let later =
        λ (t : S) (v : W) (g : Inv t v). nl_foreach_nlmsg-Returns rest seq portid t v qs g in
      let P = WalkInv Inv in
      let skip_on = nl_foreach_nlmsg rest seq portid pfn s in
      let call_on = pfn nlh s >>= λ t. nl_foreach_nlmsg rest seq portid pfn t in
      let done : Process W (Option S) = pure (some s) in
      let failed : Process W (Option S) = pure none in
      let skip = later s w h in
      let typed =
        Returns-if P (nlh.nlmsg_type == 2) failed (if nlh.nlmsg_type == 3 then done else skip_on) w
          (s, h) (Returns-if P (nlh.nlmsg_type == 3) done skip_on w h skip) in
      let by_type =
        if nlh.nlmsg_type == 2 then failed else if nlh.nlmsg_type == 3 then done else skip_on in
      let call =
        Returns-onward Inv P (pfn nlh s w) (λ t. nl_foreach_nlmsg rest seq portid pfn t)
          (keeps nlh s w q h) later in
      let handled = Returns-if P (leb 16 nlh.nlmsg_type) call_on by_type w call typed in
      let by_seq =
        if not (seq == 0) && not (nlh.nlmsg_seq == seq)
        then skip_on
        else if leb 16 nlh.nlmsg_type
        then call_on
        else by_type in
      Returns-if P
        (not (nlh.nlmsg_pid == 0) && (not (portid == 0) && not (nlh.nlmsg_pid == portid))) skip_on
        by_seq w skip
        (Returns-if P (not (seq == 0) && not (nlh.nlmsg_seq == seq)) skip_on
          (if leb 16 nlh.nlmsg_type then call_on else by_type) w skip handled)
