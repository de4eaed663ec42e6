-- ===== src/Ifchd/Safety.antt =====
-- The automaton of src/ifchd-parse.rl and the handler of a message in src/ifchd.c keep the invariant.
use ndhc.Common.{
  ℕ, ◌+◌, ◌-◌, Bytes, Bool, true, false, Option, none, some, [], ◌∷◌, ◌++◌, ◌||◌, length, take, leb,
  if◌then◌else◌, arith,
}
use ndhc.Common.Process.{pure, ◌>>=◌, Run, returned, ended, fault, onward, access-in}
use ndhc.Ifchange.Text.{until_nul}
use ndhc.Ifchd.Execute.{
  entry_state, left_over, dispatch_work, act, exec, execute_buffer, inform_execute, answer_result,
  execute_and_answer, answer_message, process_client_socket, after,
}
use ndhc.Ifchd.Grammar.{
  Parser, in_keyword, in_argument, keywords, parser_step, Move, go_on, dispatch, mismatch,
}
use ndhc.Ifchd.Keeps.{AllConcern, IsSound, SoundRun, Keeps}
use ndhc.Ifchd.Performs.{length-take_max, left_over_lem, dispatch_work-Keeps, inform_execute-Keeps}
use ndhc.Ifchd.Resolv.{max_buf}
use ndhc.Ifchd.World.{
  Ifch, I, Received, received, hung_up, would_block, recv_error, Code, ok, already, failed,
  unconfirmed, rf_killed, fatal,
}

-- A result that is not fatal leaves a sound state.
abbrev Fine : ℕ → Run Ifch Code → Type 0
Fine i (returned fatal v) = AllConcern i v.requests
Fine i (returned _ v) = IsSound i v
Fine i (ended e v) = AllConcern i v.requests
Fine i fault = ⊥

module _ (i : ℕ) where
  entry_state-Keeps : (p q : Parser) → Keeps i (entry_state p q)
  unfolding entry_state Keeps
  entry_state-Keeps (in_keyword k) q w h = h
  entry_state-Keeps (in_argument s a text) q w h = h

  Fine-bind :
      {A : Type 0} (m : I A) (f : A → I Code)
      → Keeps i m
      → ((a : A) (w : Ifch) → IsSound i w → Fine i (f a w))
      → (w : Ifch) → IsSound i w
      → Fine i ((m >>= f) w)
  unfolding Keeps
  Fine-bind {A = A} m f p q w h = go (m w) (p w h)
    where
      go : (r : Run Ifch A) → SoundRun i r → Fine i (onward r f)
      go (returned a v) s = q a v s
      go (ended e v) s = s
      go fault s = s

  left_over-Fine : (text : Bytes) (w : Ifch) → IsSound i w → Fine i (left_over text w)
  left_over-Fine text w h = rw (left_over_lem text w) (h.1)

  act-Fine :
      (cmdf : Bool) (p : Parser) (text : Bytes) (m : Move) (k : Bool → Bool → Parser → I Code)
      → ((f d : Bool) (q : Parser) (w : Ifch) → IsSound i w → Fine i (k f d q w))
      → (w : Ifch) → IsSound i w
      → Fine i (act cmdf p text m k w)
  unfolding act
  act-Fine cmdf p text (go_on q) k g =
      Fine-bind (entry_state p q) _ (entry_state-Keeps p q) (λ _. g true cmdf q)
  act-Fine cmdf p text (dispatch s arg) k g =
      Fine-bind (dispatch_work s arg) _ (dispatch_work-Keeps i s arg) next
    where
      next :
          (r : Option Bool) (w : Ifch)
          → IsSound i w
          → Fine i (after cmdf r (λ c. k false c (in_keyword keywords)) w)
      next none w h = h.1
      next (some nonzero) w h = g false (cmdf || nonzero) (in_keyword keywords) w h
  act-Fine cmdf p text mismatch k g = left_over-Fine text

  exec-Fine :
      (cs : Bytes) (within cmdf : Bool) (p : Parser) (w : Ifch)
      → IsSound i w
      → Fine i (exec within cmdf p cs w)
  unfolding exec
  exec-Fine [] true cmdf p w h = h.1
  exec-Fine [] false true p w h = h
  exec-Fine [] false false p w h = h
  exec-Fine (c ∷ cs) within cmdf p w h =
      act-Fine cmdf p (c ∷ cs) (parser_step p c) (λ f d q. exec f d q cs)
        (λ f d q. exec-Fine cs f d q) w h

  execute_buffer-Fine : (buf : Bytes) (w : Ifch) → IsSound i w → Fine i (execute_buffer buf w)
  unfolding execute_buffer
  execute_buffer-Fine buf w h = if-Fine (leb 2048 (length (w.ibuf ++ buf))) (w.ibuf ++ buf)
    where
      if-Fine :
          (b : Bool) (text : Bytes)
          → Fine i ((if b then pure fatal else exec true false (in_keyword keywords) text) w)
      if-Fine true text = h.1
      if-Fine false text = exec-Fine text true false (in_keyword keywords) w h

  -- A fatal result ends the process.
  answer_result-Fine :
      (c : Code) (v : Ifch) → Fine i (returned c v) → SoundRun i (answer_result c v)
  unfolding answer_result inform_execute Keeps
  answer_result-Fine ok v h = inform_execute-Keeps i b'+' v h
  answer_result-Fine already v h = inform_execute-Keeps i b'+' v h
  answer_result-Fine failed v h = inform_execute-Keeps i b'-' v h
  answer_result-Fine unconfirmed v h = inform_execute-Keeps i b'-' v h
  answer_result-Fine rf_killed v h = inform_execute-Keeps i b'-' v h
  answer_result-Fine fatal v h = ground (arith, h)

  execute_and_answer-Keeps :
      (buf : Bytes) (w : Ifch) → IsSound i w → SoundRun i (execute_and_answer buf w)
  unfolding execute_and_answer
  execute_and_answer-Keeps buf w h = go (execute_buffer buf w) (execute_buffer-Fine buf w h)
    where
      go : (r : Run Ifch Code) → Fine i r → SoundRun i (onward r answer_result)
      go (returned c v) s = answer_result-Fine c v s
      go (ended e v) s = s
      go fault s = s

  answer_message-Keeps : (r : Received) (w : Ifch) → IsSound i w → SoundRun i (answer_message r w)
  unfolding answer_message
  answer_message-Keeps hung_up w h = h.1
  answer_message-Keeps would_block w h = h
  answer_message-Keeps recv_error w h = h.1
  answer_message-Keeps (received buf) w h =
      rw (access-in {W = Ifch} 1024 (length (take 1023 buf)) (length-take_max buf))
        (execute_and_answer-Keeps (until_nul (take (max_buf - 1) buf)) w h)

  -- For every message and all answers of the kernel, one round of ndhc-ifch does not fault (the
  -- table of `trailz` is read inside its bounds), and each netlink request that it sends is one for
  -- the interface; unless the round ends the process, nothing is left in the input buffer, and the
  -- strings for resolv.conf are shorter than their buffers.
  pub process_client_socket-Keeps : (w : Ifch) → IsSound i w → SoundRun i (process_client_socket w)
  unfolding process_client_socket
  process_client_socket-Keeps w h =
      answer_message-Keeps (w.kernel.recv w.tick) (record w { tick = w.tick + 1 }) h
