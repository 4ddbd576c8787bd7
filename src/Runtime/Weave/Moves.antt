-- ===== src/Runtime/Weave/Moves.antt =====
-- A weave, its caller and the other strands of the program as one system: whatever their interleaving, a
-- run is a sequence of these moves. One caller holds the handle. The answers that it has received stand
-- in a log beside the values that it has sent, the latest first.
use cem.Prelude.{ℕ, ◌+◌, ◌<◌, ◌^◌, Bool, true, false, Option, none, some, List, [], ◌∷◌, ◌≡◌}
use cem.Runtime.Value.{Value, int}
use cem.Runtime.Mpmc.{Mpmc}
use cem.Runtime.Weave.{
  WeaveMessage, Reply, yielded, returned, Weave, weave, advance, resume_send, resume_receive,
  weave_cancel,
}

pub data Caller : Type 0 where
  idle : Caller
  -- in strand.resume, between its two halves
  awaiting : Value → Caller
  -- has cancelled, and given up the handle
  released : Caller

abbrev pub Log : Type 0
Log = List (Value × (Value × Bool))

-- The generator that a weave is meant to be: what it answers to a resume value, and what it is then.
abbrev pub answer : {Body : Type 0} → Reply Body → (Value × Bool) × Option Body
answer (yielded v body) = ((v, true), some body)
answer returned = ((int 0, false), none)

module _ (mpmc : Mpmc WeaveMessage) {Body : Type 0} (respond : Body → Value → Reply Body) where
  pub record System : Type 0 where
    pub weave : Weave mpmc respond
    pub caller : Caller
    -- how many other strands are counted
    pub others : ℕ
    pub log : Log

  unfoldable pub initial : Body → ℕ → System
  unfolding weave
  initial body n = record { weave = weave mpmc respond body n; caller = idle; others = n; log = [] }

  pub data Move : System → System → Type 0 where
    strand_moves :
        {s t : System} (w : Weave mpmc respond)
        → advance mpmc respond s.weave ≡ some w
        → t ≡ record s { weave = w }
        → Move s t
    resumes :
        {s t : System} (v : Value)
        → s.caller ≡ idle
        → t ≡ record s { weave = resume_send mpmc respond v s.weave; caller = awaiting v }
        → Move s t
    returns :
        {s t : System} (v : Value) (result : Value × Bool) (w : Weave mpmc respond)
        → s.caller ≡ awaiting v
        → resume_receive mpmc respond s.weave ≡ some (result, w)
        → t ≡ record s { weave = w; caller = idle; log = (v, result) ∷ s.log }
        → Move s t
    cancels :
        {s t : System}
        → s.caller ≡ idle
        → t ≡ record s { weave = weave_cancel mpmc respond s.weave; caller = released }
        → Move s t
    -- other strands start and end
    elsewhere :
        {s t : System} (n active : ℕ)
        → n + 1 < 2 ^ 64
        → active + s.others ≡ s.weave.active_strands + n
        → t ≡ record s { others = n; weave = record (s.weave) { active_strands = active } }
        → Move s t

  pub data Reach (s : System) : System → Type 0 where
    here : {t : System} → t ≡ s → Reach s t
    then_move : {t u : System} → Reach s t → Move t u → Reach s u

  -- The log is what the generator answers from its start, and the generator is then `g`.
  abbrev pub Plays : Body → Log → Option Body → Type 0
  Plays start [] g = g ≡ some start
  Plays start ((v, result) ∷ log) g =
      (body : Body) × Plays start log (some body) × (answer (respond body v) ≡ (result, g))
