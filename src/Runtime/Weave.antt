-- ===== src/Runtime/Weave.antt =====
-- crates/runtime/src/weave.rs: a weave, the strand that yields values, and the caller that resumes it. The
-- code of the quotation is machine code, a parameter: from a resume value it runs to its next yield or
-- to its end. Every step is what one side does between two accesses to shared state: a
-- channel or ACTIVE_STRANDS. Blocking forever and having exited are one state, `gone`.
pub mod Moves
pub mod Count
pub mod Phase
pub mod Generator
pub mod Resumed
use cem.Prelude.{ℕ, ◌+◌, ◌-◌, ◌%◌, ◌^◌, Bool, true, false, Option, none, some, List, [], ◌∷◌}
use cem.Runtime.Value.{Value, int}
use cem.Runtime.Mpmc.{Mpmc}

pub data WeaveMessage : Type 0 where
  value : Value → WeaveMessage
  done : WeaveMessage
  cancel : WeaveMessage

-- What the quotation does with a resume value.
pub data Reply (Body : Type 0) : Type 0 where
  yielded : Value → Body → Reply Body
  returned : Reply Body

pub data Strand (Body : Type 0) : Type 0 where
  -- waits for its first message
  dormant : Body → Strand Body
  -- has received a resume value, and is not counted yet
  woken : Body → Value → Strand Body
  -- has received Cancel in a yield
  cancelling : Strand Body
  -- the quotation has come to a yield or to its end
  running : Reply Body → Strand Body
  -- the value is sent, and the strand is still counted
  yielding : Body → Strand Body
  -- waits for the next message
  waiting : Body → Strand Body
  -- Done is sent, and the strand is still counted
  completing : Strand Body
  gone : Strand Body

-- `fetch_add(1)` and `fetch_sub(1)` of an AtomicUsize
unfoldable pub fetch_add : ℕ → ℕ
fetch_add n = (n + 1) % 2 ^ 64

unfoldable pub fetch_sub : ℕ → ℕ
fetch_sub n = (n + 2 ^ 64 - 1) % 2 ^ 64

-- What resume pushes above the handle: the value and the flag.
unfoldable pub resume_result : WeaveMessage → Value × Bool
resume_result (value v) = (v, true)
resume_result done = (int 0, false)
resume_result cancel = (int 0, false)

module _ (mpmc : Mpmc WeaveMessage) {Body : Type 0} (respond : Body → Value → Reply Body) where
  pub record Weave : Type 0 where
    pub yield_chan : mpmc.Chan
    pub resume_chan : mpmc.Chan
    pub strand : Strand Body
    pub active_strands : ℕ

  -- patch_seq_weave: the strand is spawned and not counted.
  unfoldable pub weave : Body → ℕ → Weave
  weave body active = record {
    yield_chan = mpmc.channel;
    resume_chan = mpmc.channel;
    strand = dormant body;
    active_strands = active;
  }

  -- The first message, of the coroutine that patch_seq_weave spawns.
  unfoldable pub first_message : Weave → Body → Option (WeaveMessage × mpmc.Chan) → Option Weave
  first_message w body none = none
  first_message w body (some (value v, rest)) =
      some (record w { resume_chan = rest; strand = woken body v })
  first_message w body (some (cancel, rest)) = some (record w { resume_chan = rest; strand = gone })
  first_message w body (some (done, rest)) = some (record w { resume_chan = rest; strand = gone })

  -- The message that patch_seq_yield waits for.
  unfoldable pub resume_message : Weave → Body → Option (WeaveMessage × mpmc.Chan) → Option Weave
  resume_message w body none = none
  resume_message w body (some (value v, rest)) =
      some (record w { resume_chan = rest; strand = woken body v })
  resume_message w body (some (cancel, rest)) =
      some (record w { resume_chan = rest; strand = cancelling })
  resume_message w body (some (done, rest)) = some (record w { resume_chan = rest; strand = gone })

  -- The send of patch_seq_yield, or of the end of the quotation.
  unfoldable pub send_reply : Weave → Reply Body → Weave
  send_reply w (yielded v body) = record w {
    yield_chan = mpmc.send (value v) w.yield_chan;
    strand = yielding body;
  }
  send_reply w returned = record w { yield_chan = mpmc.send done w.yield_chan; strand = completing }

  -- The next step of the strand, or none if it has to wait.
  unfoldable pub step_of : Weave → Strand Body → Option Weave
  unfolding first_message resume_message send_reply fetch_add fetch_sub
  step_of w (dormant body) = first_message w body (mpmc.recv w.resume_chan)
  step_of w (woken body v) =
      some (record w {
        strand = running (respond body v);
        active_strands = fetch_add w.active_strands;
      })
  step_of w cancelling = some (record w { yield_chan = mpmc.send done w.yield_chan; strand = gone })
  step_of w (running reply) = some (send_reply w reply)
  step_of w (yielding body) =
      some (record w { strand = waiting body; active_strands = fetch_sub w.active_strands })
  step_of w (waiting body) = resume_message w body (mpmc.recv w.resume_chan)
  step_of w completing =
      some (record w { strand = gone; active_strands = fetch_sub w.active_strands })
  step_of w gone = none

  unfoldable pub advance : Weave → Option Weave
  unfolding step_of
  advance w = step_of w w.strand

  -- The two halves of patch_seq_resume.
  unfoldable pub resume_send : Value → Weave → Weave
  resume_send v w = record w { resume_chan = mpmc.send (value v) w.resume_chan }

  unfoldable pub received :
      Weave → Option (WeaveMessage × mpmc.Chan) → Option ((Value × Bool) × Weave)
  unfolding resume_result
  received w none = none
  received w (some (msg, rest)) = some (resume_result msg, record w { yield_chan = rest })

  unfoldable pub resume_receive : Weave → Option ((Value × Bool) × Weave)
  unfolding received
  resume_receive w = received w (mpmc.recv w.yield_chan)

  -- patch_seq_weave_cancel
  unfoldable pub weave_cancel : Weave → Weave
  weave_cancel w = record w { resume_chan = mpmc.send cancel w.resume_chan }
