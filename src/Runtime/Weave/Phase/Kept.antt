-- ===== src/Runtime/Weave/Phase/Kept.antt =====
-- No move leaves the phases of the protocol between a weave and its caller.
use cem.Prelude.{ℕ, Bool, none, some, List, [], ◌∷◌, ◌++◌, ◌≡◌, refl, sym, ◌∙◌, ap, subst}
use cem.Runtime.Value.{Value}
use cem.Runtime.Mpmc.{Mpmc}
use cem.Runtime.Weave.{
  WeaveMessage, value, done, Reply, Weave, resume_result, resume_send, received, resume_receive,
  weave_cancel, weave, advance,
}
use cem.Runtime.Weave.Moves.{
  Plays, idle, awaiting, released, answer, System, initial, Move, strand_moves, resumes, returns,
  cancels, elsewhere, Reach, here, then_move,
}
use cem.Runtime.Weave.Phase.{
  Resting, not_begun, at_rest, Ended, Holds, Answering, asked, wakes, computes, has_yielded,
  has_returned, Phase, quiet, answering, over, hung, left_alone,
}
use cem.Runtime.Weave.Phase.Steps.{
  some-injective, none-absurd, Resting-step, Ended-step, Answering-step,
}

pub idle-awaiting : {A : Type 0} {v : Value} → idle ≡ awaiting v → A
idle-awaiting h = cc

idle-released : {A : Type 0} → idle ≡ released → A
idle-released h = cc

pub awaiting-released : {A : Type 0} {v : Value} → awaiting v ≡ released → A
awaiting-released h = cc

pub awaiting-injective : {v v' : Value} → awaiting v ≡ awaiting v' → v ≡ v'
awaiting-injective h = cc

module _ (mpmc : Mpmc WeaveMessage) {Body : Type 0} (respond : Body → Value → Reply Body) where
  pub blocked :
      {A : Type 0} {into : List WeaveMessage} (w : Weave mpmc respond)
      {answer : (Value × Bool) × Weave mpmc respond}
      → Holds mpmc respond w into []
      → resume_receive mpmc respond w ≡ some answer
      → A
  unfolding resume_receive received
  blocked w holds h =
      none-absurd (ap (received mpmc respond w) (sym (mpmc.recv-none w.yield_chan holds.1)) ∙ h)

  -- A message that waits for the caller is what its resume answers with.
  pub resume_receive_lem :
      {into : List WeaveMessage} (w : Weave mpmc respond) (msg : WeaveMessage)
      → Holds mpmc respond w into (msg ∷ [])
      → (w' : Weave mpmc respond) × (resume_receive mpmc respond w ≡ some (resume_result msg, w'))
        × (w'.strand ≡ w.strand)
        × (Holds mpmc respond w' into [])
  unfolding resume_receive received
  resume_receive_lem w msg holds =
      let (c, got, left) = mpmc.recv-some w.yield_chan msg [] holds.1 in
      (record w { yield_chan = c }, ap (received mpmc respond w) got, refl, (holds.0, left))

  module _ (start : Body) where
    strand_moves-Phase :
        {s : System mpmc respond} {w : Weave mpmc respond}
        → advance mpmc respond s.weave ≡ some w
        → Phase mpmc respond start s
        → Phase mpmc respond start (record s { weave = w })
    strand_moves-Phase {s} moved (quiet body rests plays resting holds) =
        let (e, holds') = Resting-step mpmc respond s.weave resting holds moved in
        quiet body rests plays (at_rest e) holds'
    strand_moves-Phase {s} moved (answering body v waits plays a) =
        answering body v waits plays (Answering-step mpmc respond s.weave a moved)
    strand_moves-Phase {s} moved (over rests plays ended holds) =
        let (ended', holds') = Ended-step mpmc respond s.weave ended holds moved in
        over rests plays ended' holds'
    strand_moves-Phase {s} moved (hung v waits plays ended holds) =
        let (ended', holds') = Ended-step mpmc respond s.weave ended holds moved in
        hung v waits plays ended' holds'
    strand_moves-Phase moved (left_alone g gone plays) = left_alone g gone plays

    resumes-Phase :
        {s : System mpmc respond} (v : Value)
        → s.caller ≡ idle
        → Phase mpmc respond start s
        → Phase mpmc respond start
            (record s { weave = resume_send mpmc respond v s.weave; caller = awaiting v })
    unfolding resume_send
    resumes-Phase {s} v rests (quiet body _ plays resting holds) = answering body v refl plays (
        asked resting (
          mpmc.contents-send (value v) s.weave.resume_chan ∙ ap (λ l. l ++ value v ∷ []) holds.0,
          holds.1,
        ))
    resumes-Phase {s} v rests (over _ plays ended holds) = hung v refl plays ended (
      mpmc.contents-send (value v) s.weave.resume_chan ∙ ap (λ l. l ++ value v ∷ []) holds.0,
      holds.1,
    )
    resumes-Phase v rests (answering body v' waits plays a) = idle-awaiting (sym rests ∙ waits)
    resumes-Phase v rests (hung v' waits plays ended holds) = idle-awaiting (sym rests ∙ waits)
    resumes-Phase v rests (left_alone g gone plays) = idle-released (sym rests ∙ gone)

    returns-Answering :
        (s : System mpmc respond) (body : Body) (v : Value) {result : Value × Bool}
        {w : Weave mpmc respond}
        → resume_receive mpmc respond s.weave ≡ some (result, w)
        → Plays mpmc respond start s.log (some body)
        → Answering mpmc respond body v s.weave
        → Phase mpmc respond start
            (record s { weave = w; caller = idle; log = (v, result) ∷ s.log })
    unfolding resume_result
    returns-Answering s body v got plays (asked resting holds) = blocked s.weave holds got
    returns-Answering s body v got plays (wakes e holds) = blocked s.weave holds got
    returns-Answering s body v got plays (computes e holds) = blocked s.weave holds got
    returns-Answering s body v got plays (has_yielded y body' e resting holds) =
        let (w', got', e', holds') = resume_receive_lem s.weave (value y) holds in
        let same = some-injective (sym got' ∙ got) in
        subst
          (λ p.
            Phase mpmc respond start
              (record s { weave = p.1; caller = idle; log = (v, p.0) ∷ s.log }))
          same
          (quiet body' refl (body, plays, ap answer e) (subst (Resting body') (sym e') resting)
            holds')
    returns-Answering s body v got plays (has_returned e ended holds) =
        let (w', got', e', holds') = resume_receive_lem s.weave done holds in
        let same = some-injective (sym got' ∙ got) in
        subst
          (λ p.
            Phase mpmc respond start
              (record s { weave = p.1; caller = idle; log = (v, p.0) ∷ s.log }))
          same (over refl (body, plays, ap answer e) (subst Ended (sym e') ended) holds')

    returns-Phase :
        {s : System mpmc respond} (v : Value) {result : Value × Bool} {w : Weave mpmc respond}
        → s.caller ≡ awaiting v
        → resume_receive mpmc respond s.weave ≡ some (result, w)
        → Phase mpmc respond start s
        → Phase mpmc respond start
            (record s { weave = w; caller = idle; log = (v, result) ∷ s.log })
    returns-Phase {s} v {result} {w} waits got (answering body v' waits' plays a) =
        subst
          (λ v.
            Phase mpmc respond start
              (record s { weave = w; caller = idle; log = (v, result) ∷ s.log }))
          (awaiting-injective (sym waits' ∙ waits)) (returns-Answering s body v' got plays a)
    returns-Phase v waits got (quiet body rests plays resting holds) =
        idle-awaiting (sym rests ∙ waits)
    returns-Phase v waits got (over rests plays ended holds) = idle-awaiting (sym rests ∙ waits)
    returns-Phase {s} v waits got (hung v' waits' plays ended holds) = blocked s.weave holds got
    returns-Phase v waits got (left_alone g gone plays) = awaiting-released (sym waits ∙ gone)

    cancels-Phase :
        {s : System mpmc respond}
        → s.caller ≡ idle
        → Phase mpmc respond start s
        → Phase mpmc respond start
            (record s { weave = weave_cancel mpmc respond s.weave; caller = released })
    cancels-Phase rests (quiet body _ plays resting holds) = left_alone (some body) refl plays
    cancels-Phase rests (over _ plays ended holds) = left_alone none refl plays
    cancels-Phase rests (answering body v waits plays a) = idle-awaiting (sym rests ∙ waits)
    cancels-Phase rests (hung v waits plays ended holds) = idle-awaiting (sym rests ∙ waits)
    cancels-Phase rests (left_alone g gone plays) = left_alone g refl plays

    elsewhere-Phase :
        {s : System mpmc respond} (n active : ℕ)
        → Phase mpmc respond start s
        → Phase mpmc respond start
            (record s { others = n; weave = record (s.weave) { active_strands = active } })
    elsewhere-Phase n active (quiet body rests plays resting holds) =
        quiet body rests plays resting holds
    elsewhere-Phase n active (over rests plays ended holds) = over rests plays ended holds
    elsewhere-Phase n active (hung v waits plays ended holds) = hung v waits plays ended holds
    elsewhere-Phase n active (left_alone g gone plays) = left_alone g gone plays
    elsewhere-Phase n active (answering body v waits plays (asked resting holds)) =
        answering body v waits plays (asked resting holds)
    elsewhere-Phase n active (answering body v waits plays (wakes e holds)) =
        answering body v waits plays (wakes e holds)
    elsewhere-Phase n active (answering body v waits plays (computes e holds)) =
        answering body v waits plays (computes e holds)
    elsewhere-Phase n active (answering body v waits plays (has_yielded y b e resting holds)) =
        answering body v waits plays (has_yielded y b e resting holds)
    elsewhere-Phase n active (answering body v waits plays (has_returned e ended holds)) =
        answering body v waits plays (has_returned e ended holds)

    pub Move-Phase :
        {s t : System mpmc respond}
        → Move mpmc respond s t
        → Phase mpmc respond start s
        → Phase mpmc respond start t
    Move-Phase (strand_moves w moved e) h =
        subst (Phase mpmc respond start) (sym e) (strand_moves-Phase moved h)
    Move-Phase (resumes v rests e) h =
        subst (Phase mpmc respond start) (sym e) (resumes-Phase v rests h)
    Move-Phase (returns v result w waits got e) h =
        subst (Phase mpmc respond start) (sym e) (returns-Phase v waits got h)
    Move-Phase (cancels rests e) h =
        subst (Phase mpmc respond start) (sym e) (cancels-Phase rests h)
    Move-Phase (elsewhere n active room sums e) h =
        subst (Phase mpmc respond start) (sym e) (elsewhere-Phase n active h)

    pub Reach-Phase :
        (n : ℕ) {s : System mpmc respond}
        → Reach mpmc respond (initial mpmc respond start n) s
        → Phase mpmc respond start s
    unfolding initial weave
    Reach-Phase n (here e) =
        subst (Phase mpmc respond start) (sym e)
          (quiet start refl refl (not_begun refl) (mpmc.contents-channel, mpmc.contents-channel))
    Reach-Phase n (then_move reach move) = Move-Phase move (Reach-Phase n reach)
