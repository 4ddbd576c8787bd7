-- ===== src/Runtime/Weave/Generator.antt =====
-- crates/runtime/src/weave.rs: a weave beside the generator that its quotation is.
use cem.Prelude.{
  ℕ, suc, zero, ◌≤◌, Bool, Option, none, some, List, [], ◌∷◌, ◌++◌, ◌≡◌, refl, sym, ◌∙◌, ap, ap₂,
  subst, arith,
}
use cem.Runtime.Value.{Value}
use cem.Runtime.Mpmc.{Mpmc}
use cem.Runtime.Weave.{
  WeaveMessage, value, done, Reply, yielded, returned, Strand, woken, running, waiting, Weave,
  step_of, advance, resume_result, resume_receive, first_message, resume_message, send_reply,
}
use cem.Runtime.Weave.Moves.{Log, awaiting, answer, System, initial, Reach, Plays}
use cem.Runtime.Weave.Phase.{
  Resting, not_begun, just_sent, at_rest, Answering, asked, wakes, computes, has_yielded,
  has_returned, Phase, quiet, answering, over, hung, left_alone, Holds,
}
use cem.Runtime.Weave.Phase.Steps.{some-injective, none-absurd}
use cem.Runtime.Weave.Phase.Kept.{
  awaiting-injective, idle-awaiting, awaiting-released, resume_receive_lem, Reach-Phase,
}

module _ (mpmc : Mpmc WeaveMessage) {Body : Type 0} (respond : Body → Value → Reply Body) where
  -- A log can be played by one generator only.
  pub Plays-unique :
      (start : Body) (log : Log) {g g' : Option Body}
      → Plays mpmc respond start log g
      → Plays mpmc respond start log g'
      → g ≡ g'
  Plays-unique start [] h h' = h ∙ sym h'
  Plays-unique start ((v, result) ∷ log) (body, plays, e) (body', plays', e') =
      let same = some-injective (Plays-unique start log plays plays') in
      ap (λ p. p.1) (sym e ∙ ap (λ b. answer (respond b v)) same ∙ e')

  -- Whatever the weave, its caller and the other strands do and in whatever order, the values and flags
  -- that the caller has received are those that the generator of the quotation answers to the values
  -- that the caller has sent: each resume gets the value of the next yield with true, or 0 with false at
  -- the end, and there is none after the end.
  pub Reach-Plays :
      (start : Body) (n : ℕ) {s : System mpmc respond}
      → Reach mpmc respond (initial mpmc respond start n) s
      → (g : Option Body) × Plays mpmc respond start s.log g
  Reach-Plays start n reach = played (Reach-Phase mpmc respond start n reach)
    where
      played :
          {s : System mpmc respond}
          → Phase mpmc respond start s
          → (g : Option Body) × Plays mpmc respond start s.log g
      played (quiet body rests plays resting holds) = (some body, plays)
      played (answering body v waits plays a) = (some body, plays)
      played (over rests plays ended holds) = (none, plays)
      played (hung v waits plays ended holds) = (none, plays)
      played (left_alone g gone plays) = (g, plays)

  -- `n` steps of the strand
  abbrev pub Advances : ℕ → Weave mpmc respond → Weave mpmc respond → Type 0
  Advances zero w t = w ≡ t
  Advances (suc n) w t =
      (w' : Weave mpmc respond) × (advance mpmc respond w ≡ some w') × Advances n w' t

  -- The answer is there after at most `bound` steps, with what the caller then has.
  abbrev pub AnsweredIn : ℕ → Value × Bool → Weave mpmc respond → Type 0
  AnsweredIn bound result w =
      (n : ℕ) × (t : Weave mpmc respond) × (w' : Weave mpmc respond) × (n ≤ bound)
      × (Advances n w t)
      × (resume_receive mpmc respond t ≡ some (result, w'))

  advance-AnsweredIn :
      {bound : ℕ} {result : Value × Bool} {w w' : Weave mpmc respond}
      → advance mpmc respond w ≡ some w'
      → AnsweredIn bound result w'
      → AnsweredIn (suc bound) result w
  advance-AnsweredIn {w' = w'} moved (n, t, w'', few, steps, got) =
      (suc n, t, w'', omega arith, (w', moved, steps), got)

  AnsweredIn-more :
      {bound : ℕ} {result : Value × Bool} {w : Weave mpmc respond}
      → bound ≤ 4
      → AnsweredIn bound result w
      → AnsweredIn 4 result w
  AnsweredIn-more most (n, t, w', few, steps, got) = (n, t, w', omega arith, steps, got)

  receives-AnsweredIn :
      {into : List WeaveMessage} (w : Weave mpmc respond) (msg : WeaveMessage)
      → Holds mpmc respond w into (msg ∷ [])
      → AnsweredIn 0 (resume_result msg) w
  receives-AnsweredIn w msg holds =
      let (w', got, e, left) = resume_receive_lem mpmc respond w msg holds in
      (0, w, w', omega arith, refl, got)

  send_reply-AnsweredIn :
      (w : Weave mpmc respond) (reply : Reply Body)
      → Holds mpmc respond w [] []
      → AnsweredIn 0 ((answer reply).0) (send_reply mpmc respond w reply)
  unfolding send_reply resume_result
  send_reply-AnsweredIn w (yielded y body') holds =
      receives-AnsweredIn (send_reply mpmc respond w (yielded y body')) (value y)
        (holds.0, mpmc.contents-send (value y) w.yield_chan ∙ ap (λ l. l ++ value y ∷ []) holds.1)
  send_reply-AnsweredIn w returned holds =
      receives-AnsweredIn (send_reply mpmc respond w returned) done
        (holds.0, mpmc.contents-send done w.yield_chan ∙ ap (λ l. l ++ done ∷ []) holds.1)

  advance_as :
      (w : Weave mpmc respond) {strand : Strand Body}
      → w.strand ≡ strand
      → advance mpmc respond w ≡ step_of mpmc respond w strand
  unfolding advance
  advance_as w e = ap (step_of mpmc respond w) e

  computes-AnsweredIn :
      (body : Body) (v : Value) (w : Weave mpmc respond)
      → w.strand ≡ running (respond body v)
      → Holds mpmc respond w [] []
      → AnsweredIn 1 ((answer (respond body v)).0) w
  unfolding step_of
  computes-AnsweredIn body v w e holds =
      advance-AnsweredIn (advance_as w e) (send_reply-AnsweredIn w (respond body v) holds)

  wakes-AnsweredIn :
      (body : Body) (v : Value) (w : Weave mpmc respond)
      → w.strand ≡ woken body v
      → Holds mpmc respond w [] []
      → AnsweredIn 2 ((answer (respond body v)).0) w
  unfolding step_of
  wakes-AnsweredIn body v w e holds =
      advance-AnsweredIn (advance_as w e) (computes-AnsweredIn body v _ refl holds)

  waiting-AnsweredIn :
      (body : Body) (v : Value) (w : Weave mpmc respond)
      → w.strand ≡ waiting body
      → Holds mpmc respond w (value v ∷ []) []
      → AnsweredIn 3 ((answer (respond body v)).0) w
  unfolding step_of resume_message
  waiting-AnsweredIn body v w e holds =
      let (c, got, left) = mpmc.recv-some w.resume_chan (value v) [] holds.0 in
      advance-AnsweredIn (advance_as w e ∙ ap (resume_message mpmc respond w body) got)
        (wakes-AnsweredIn body v _ refl (left, holds.1))

  asked-AnsweredIn :
      (body : Body) (v : Value) (w : Weave mpmc respond)
      → Resting body w.strand
      → Holds mpmc respond w (value v ∷ []) []
      → AnsweredIn 4 ((answer (respond body v)).0) w
  unfolding step_of first_message
  asked-AnsweredIn body v w (not_begun e) holds =
      let (c, got, left) = mpmc.recv-some w.resume_chan (value v) [] holds.0 in
      AnsweredIn-more (omega arith) (
        advance-AnsweredIn (advance_as w e ∙ ap (first_message mpmc respond w body) got)
          (wakes-AnsweredIn body v _ refl (left, holds.1)))
  asked-AnsweredIn body v w (just_sent e) holds =
      advance-AnsweredIn (advance_as w e) (waiting-AnsweredIn body v _ refl holds)
  asked-AnsweredIn body v w (at_rest e) holds =
      AnsweredIn-more (omega arith) (waiting-AnsweredIn body v w e holds)

  Answering-AnsweredIn :
      (body : Body) (v : Value) (w : Weave mpmc respond)
      → Answering mpmc respond body v w
      → AnsweredIn 4 ((answer (respond body v)).0) w
  unfolding resume_result
  Answering-AnsweredIn body v w (asked resting holds) = asked-AnsweredIn body v w resting holds
  Answering-AnsweredIn body v w (wakes e holds) =
      AnsweredIn-more (omega arith) (wakes-AnsweredIn body v w e holds)
  Answering-AnsweredIn body v w (computes e holds) =
      AnsweredIn-more (omega arith) (computes-AnsweredIn body v w e holds)
  Answering-AnsweredIn body v w (has_yielded y body' e resting holds) =
      subst (λ r. AnsweredIn 4 r w) (ap (λ r. (answer r).0) (sym e))
        (AnsweredIn-more (omega arith) (receives-AnsweredIn w (value y) holds))
  Answering-AnsweredIn body v w (has_returned e ended holds) =
      subst (λ r. AnsweredIn 4 r w) (ap (λ r. (answer r).0) (sym e))
        (AnsweredIn-more (omega arith) (receives-AnsweredIn w done holds))

  -- In every state that can be reached, a caller that waits for the answer to `v`, while the generator
  -- has a value to come, waits for at most four steps of the strand: at most four can be taken
  -- after which the receive succeeds, and it gives what the generator answers to `v`.
  pub Reach-answered :
      (start body : Body) (n : ℕ) (v : Value) {s : System mpmc respond}
      → Reach mpmc respond (initial mpmc respond start n) s
      → s.caller ≡ awaiting v
      → Plays mpmc respond start s.log (some body)
      → AnsweredIn 4 ((answer (respond body v)).0) s.weave
  Reach-answered start body n v reach waits plays =
      answered (Reach-Phase mpmc respond start n reach) waits plays
    where
      answered :
          {s : System mpmc respond}
          → Phase mpmc respond start s
          → s.caller ≡ awaiting v
          → Plays mpmc respond start s.log (some body)
          → AnsweredIn 4 ((answer (respond body v)).0) s.weave
      answered {s} (answering body' v' waits' plays' a) waits plays =
          let same =
            ap₂ (λ body v. (answer (respond body v)).0)
              (some-injective (Plays-unique start s.log plays' plays))
              (awaiting-injective (sym waits' ∙ waits)) in
          subst (λ r. AnsweredIn 4 r s.weave) same (Answering-AnsweredIn body' v' s.weave a)
      answered {s} (hung v' waits' plays' ended holds) waits plays =
          none-absurd (Plays-unique start s.log plays' plays)
      answered {s} (over rests plays' ended holds) waits plays =
          none-absurd (Plays-unique start s.log plays' plays)
      answered (quiet body' rests plays' resting holds) waits plays =
          idle-awaiting (sym rests ∙ waits)
      answered (left_alone g gone plays') waits plays = awaiting-released (sym waits ∙ gone)
