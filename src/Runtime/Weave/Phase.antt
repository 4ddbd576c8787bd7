-- ===== src/Runtime/Weave/Phase.antt =====
-- crates/runtime/src/weave.rs: the phases of the protocol between a weave and its caller.
pub mod Steps
pub mod Kept
use cem.Prelude.{Bool, Option, none, some, List, [], ◌∷◌, ◌≡◌}
use cem.Runtime.Value.{Value}
use cem.Runtime.Mpmc.{Mpmc}
use cem.Runtime.Weave.{
  WeaveMessage, value, done, cancel, Reply, yielded, returned, Strand, dormant, woken, cancelling,
  running, yielding, waiting, completing, gone, Weave,
}
use cem.Runtime.Weave.Moves.{Caller, idle, awaiting, released, System, Plays}

-- A strand that has come to a yield, or has not begun.
pub data Resting {Body : Type 0} (body : Body) (strand : Strand Body) : Type 0 where
  not_begun : strand ≡ dormant body → Resting body strand
  just_sent : strand ≡ yielding body → Resting body strand
  at_rest : strand ≡ waiting body → Resting body strand

-- A strand whose quotation has returned.
pub data Ended {Body : Type 0} (strand : Strand Body) : Type 0 where
  just_done : strand ≡ completing → Ended strand
  has_gone : strand ≡ gone → Ended strand

module _ (mpmc : Mpmc WeaveMessage) {Body : Type 0} (respond : Body → Value → Reply Body) where
  -- What stands in the two channels.
  abbrev pub Holds : Weave mpmc respond → List WeaveMessage → List WeaveMessage → Type 0
  Holds w to_strand to_caller =
      (mpmc.contents w.resume_chan ≡ to_strand) × (mpmc.contents w.yield_chan ≡ to_caller)

  -- Where the strand is, after a value has been sent to it.
  pub data Answering (body : Body) (v : Value) (w : Weave mpmc respond) : Type 0 where
    asked : Resting body w.strand → Holds w (value v ∷ []) [] → Answering body v w
    wakes : w.strand ≡ woken body v → Holds w [] [] → Answering body v w
    computes : w.strand ≡ running (respond body v) → Holds w [] [] → Answering body v w
    has_yielded :
        (y : Value) (body' : Body)
        → respond body v ≡ yielded y body'
        → Resting body' w.strand
        → Holds w [] (value y ∷ [])
        → Answering body v w
    has_returned :
        respond body v ≡ returned → Ended w.strand → Holds w [] (done ∷ []) → Answering body v w

  -- A generator that has a value to come, or none, between two resumes.
  pub data Phase (start : Body) (s : System mpmc respond) : Type 0 where
    quiet :
        (body : Body)
        → s.caller ≡ idle
        → Plays mpmc respond start s.log (some body)
        → Resting body s.weave.strand
        → Holds s.weave [] []
        → Phase start s
    answering :
        (body : Body) (v : Value)
        → s.caller ≡ awaiting v
        → Plays mpmc respond start s.log (some body)
        → Answering body v s.weave
        → Phase start s
    over :
        s.caller ≡ idle
        → Plays mpmc respond start s.log none
        → Ended s.weave.strand
        → Holds s.weave [] []
        → Phase start s
    -- resumed after its end
    hung :
        (v : Value)
        → s.caller ≡ awaiting v
        → Plays mpmc respond start s.log none
        → Ended s.weave.strand
        → Holds s.weave (value v ∷ []) []
        → Phase start s
    -- cancelled: whatever the strand still does, nobody waits for it
    left_alone :
        (g : Option Body) → s.caller ≡ released → Plays mpmc respond start s.log g → Phase start s
