-- ===== src/Runtime/Weave/Count.antt =====
-- crates/runtime/src/weave.rs: what ACTIVE_STRANDS counts of a weave.
use cem.Prelude.{ℕ, ◌+◌, ◌<◌, ◌^◌, Bool, Option, none, some, ◌≡◌, sym, arith, subst}
use cem.Runtime.Value.{Value}
use cem.Runtime.Mpmc.{Mpmc}
use cem.Runtime.Weave.{
  WeaveMessage, value, done, cancel, Reply, yielded, returned, Strand, dormant, woken, cancelling,
  running, yielding, waiting, completing, gone, fetch_add, fetch_sub, Weave, first_message,
  resume_message, send_reply, step_of, advance, resume_send, resume_receive, received, weave_cancel,
}
use cem.Runtime.Weave.Moves.{
  System, initial, Move, strand_moves, resumes, returns, cancels, elsewhere, Reach, here, then_move,
}

-- Whether a strand is counted: from the fetch_add that follows the message that wakes it to the fetch_sub
-- before it waits again or ends. In `woken` the message is received and the fetch_add still to come.
abbrev pub counted : {Body : Type 0} → Strand Body → ℕ
counted (running _) = 1
counted (yielding _) = 1
counted completing = 1
counted _ = 0

module _ (mpmc : Mpmc WeaveMessage) {Body : Type 0} (respond : Body → Value → Reply Body) where
  module _ (w : Weave mpmc respond) (others : ℕ) where
    first_message-CountOf :
        (body : Body) (o : Option (WeaveMessage × mpmc.Chan)) {w' : Weave mpmc respond}
        → w.active_strands ≡ others + 0
        → first_message mpmc respond w body o ≡ some w'
        → w'.active_strands ≡ others + counted w'.strand
    unfolding first_message
    first_message-CountOf body none h e = cc
    first_message-CountOf body (some (value v, rest)) h e = ground arith
    first_message-CountOf body (some (cancel, rest)) h e = ground arith
    first_message-CountOf body (some (done, rest)) h e = ground arith

    resume_message-CountOf :
        (body : Body) (o : Option (WeaveMessage × mpmc.Chan)) {w' : Weave mpmc respond}
        → w.active_strands ≡ others + 0
        → resume_message mpmc respond w body o ≡ some w'
        → w'.active_strands ≡ others + counted w'.strand
    unfolding resume_message
    resume_message-CountOf body none h e = cc
    resume_message-CountOf body (some (value v, rest)) h e = ground arith
    resume_message-CountOf body (some (cancel, rest)) h e = ground arith
    resume_message-CountOf body (some (done, rest)) h e = ground arith

    step_of-CountOf :
        (strand : Strand Body) {w' : Weave mpmc respond}
        → others + 1 < 2 ^ 64
        → w.active_strands ≡ others + counted strand
        → step_of mpmc respond w strand ≡ some w'
        → w'.active_strands ≡ others + counted w'.strand
    unfolding step_of fetch_add fetch_sub send_reply
    step_of-CountOf (dormant body) room h e =
        first_message-CountOf body (mpmc.recv w.resume_chan) h e
    step_of-CountOf (waiting body) room h e =
        resume_message-CountOf body (mpmc.recv w.resume_chan) h e
    step_of-CountOf (woken body v) room h e = ground arith
    step_of-CountOf cancelling room h e = ground arith
    step_of-CountOf (running (yielded v body)) room h e = ground arith
    step_of-CountOf (running returned) room h e = ground arith
    step_of-CountOf (yielding body) room h e = ground arith
    step_of-CountOf completing room h e = ground arith
    step_of-CountOf gone room h e = cc

  received-CountOf :
      (w : Weave mpmc respond) (others : ℕ) (o : Option (WeaveMessage × mpmc.Chan))
      {result : Value × Bool} {w' : Weave mpmc respond}
      → w.active_strands ≡ others + counted w.strand
      → received mpmc respond w o ≡ some (result, w')
      → w'.active_strands ≡ others + counted w'.strand
  unfolding received
  received-CountOf w others none h e = cc
  received-CountOf w others (some (msg, rest)) {w' = w'} h e =
      let same : record w { yield_chan = rest } ≡ w' = ground arith in
      subst (λ w. w.active_strands ≡ others + counted w.strand) same h

  record IsCounted (s : System mpmc respond) : Type 0 where
    room : s.others + 1 < 2 ^ 64
    exact : s.weave.active_strands ≡ s.others + counted s.weave.strand

  Move-IsCounted : {s t : System mpmc respond} → Move mpmc respond s t → IsCounted s → IsCounted t
  unfolding resume_send weave_cancel advance resume_receive
  Move-IsCounted {s} (strand_moves w moved e) h = subst IsCounted (sym e) (record {
    room = h.room;
    exact = step_of-CountOf s.weave s.others s.weave.strand h.room h.exact moved;
  })
  Move-IsCounted (resumes v idle e) h =
      subst IsCounted (sym e) (record { room = h.room; exact = h.exact })
  Move-IsCounted {s} (returns v result w awaiting got e) h = subst IsCounted (sym e) (record {
    room = h.room;
    exact = received-CountOf s.weave s.others (mpmc.recv s.weave.yield_chan) h.exact got;
  })
  Move-IsCounted (cancels idle e) h =
      subst IsCounted (sym e) (record { room = h.room; exact = h.exact })
  Move-IsCounted {s} (elsewhere n active room sums e) h =
      let exact = h.exact in subst IsCounted (sym e) (record { room = room; exact = omega arith })

  -- In every state that a weave and its caller can come to, in any interleaving with each other and with
  -- the strands elsewhere, ACTIVE_STRANDS is the number of the other active strands, plus one exactly
  -- while the weave is between the fetch_add that follows the message that has woken it and the
  -- fetch_sub before its next wait or its end.
  pub Reach-counted :
      (body : Body) (n : ℕ) {s : System mpmc respond}
      → n + 1 < 2 ^ 64
      → Reach mpmc respond (initial mpmc respond body n) s
      → s.weave.active_strands ≡ s.others + counted s.weave.strand
  unfolding initial
  Reach-counted body n room reach = (all reach).exact
    where
      all :
          {s : System mpmc respond}
          → Reach mpmc respond (initial mpmc respond body n) s
          → IsCounted s
      all (here e) = subst IsCounted (sym e) (record { room = room; exact = omega arith })
      all (then_move reach move) = Move-IsCounted move (all reach)
