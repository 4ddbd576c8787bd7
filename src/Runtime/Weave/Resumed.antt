-- ===== src/Runtime/Weave/Resumed.antt =====
-- A resume of a weave that has said that it has no more values.
use cem.Prelude.{ℕ, false, Option, none, ◌∷◌, ◌≡◌, sym, ◌∙◌, ap, subst, arith}
use cem.Runtime.Value.{Value}
use cem.Runtime.Mpmc.{Mpmc}
use cem.Runtime.Weave.{WeaveMessage, Reply, yielded, returned}
use cem.Runtime.Weave.Moves.{
  Log, awaiting, answer, System, initial, Move, Reach, here, then_move, Plays, strand_moves,
  resumes, returns, cancels, elsewhere,
}
use cem.Runtime.Weave.Phase.{Phase, quiet, answering, over, hung, left_alone}
use cem.Runtime.Weave.Phase.Steps.{none-absurd}
use cem.Runtime.Weave.Phase.Kept.{
  blocked, idle-awaiting, awaiting-released, Move-Phase, Reach-Phase,
}
use cem.Runtime.Weave.Generator.{Plays-unique, Reach-Plays}

module _ (mpmc : Mpmc WeaveMessage) {Body : Type 0} (respond : Body → Value → Reply Body) where
  answer-false :
      (reply : Reply Body) {x : Value} {g : Option Body} → answer reply ≡ ((x, false), g) → g ≡ none
  answer-false (yielded v body) h = ground arith
  answer-false returned h = ground arith

  Plays-ended :
      (start : Body) (last : Value) (log : Log) {x : Value} {g : Option Body}
      → Plays mpmc respond start ((last, (x, false)) ∷ log) g
      → g ≡ none
  Plays-ended start last log (body, plays, e) = answer-false (respond body last) e

  -- A caller that waits, with a log that no generator can go on with.
  abbrev Hung : Body → Value → System mpmc respond → Type 0
  Hung start v s =
      Phase mpmc respond start s × (s.caller ≡ awaiting v) × (Plays mpmc respond start s.log none)

  Move-Hung :
      (start : Body) (v : Value) {s t : System mpmc respond}
      → Move mpmc respond s t
      → Phase mpmc respond start s
      → s.caller ≡ awaiting v
      → Plays mpmc respond start s.log none
      → (t.caller ≡ awaiting v) × (t.log ≡ s.log)
  Move-Hung start v (strand_moves w moved e) h waits plays =
      (ap (λ t. t.caller) e ∙ waits, ap (λ t. t.log) e)
  Move-Hung start v (elsewhere n active room sums e) h waits plays =
      (ap (λ t. t.caller) e ∙ waits, ap (λ t. t.log) e)
  Move-Hung start v (resumes v' rests e) h waits plays = idle-awaiting (sym rests ∙ waits)
  Move-Hung start v (cancels rests e) h waits plays = idle-awaiting (sym rests ∙ waits)
  Move-Hung start v {s} (returns v' result w waits' got e) (hung v'' _ _ ended holds) waits plays =
      blocked mpmc respond s.weave holds got
  Move-Hung start v {s} (returns v' result w waits' got e) (answering body _ _ plays' a) waits
        plays =
      none-absurd (Plays-unique mpmc respond start s.log plays plays')
  Move-Hung start v (returns v' result w waits' got e) (quiet body rests _ _ _) waits plays =
      idle-awaiting (sym rests ∙ waits)
  Move-Hung start v (returns v' result w waits' got e) (over rests _ _ _) waits plays =
      idle-awaiting (sym rests ∙ waits)
  Move-Hung start v (returns v' result w waits' got e) (left_alone g gone _) waits plays =
      awaiting-released (sym waits ∙ gone)

  -- A caller that resumes a weave after a resume that has answered false waits forever: in no state that
  -- can be reached from there has the resume returned.
  pub Reach-hung :
      (start : Body) (n : ℕ) (v last x : Value) (log : Log) {s t : System mpmc respond}
      → Reach mpmc respond (initial mpmc respond start n) s
      → s.log ≡ (last, (x, false)) ∷ log
      → s.caller ≡ awaiting v
      → Reach mpmc respond s t
      → t.caller ≡ awaiting v
  Reach-hung start n v last x log {s} reach ends waits more = (all more).1
    where
      over_then :
          (g : Option Body) × Plays mpmc respond start s.log g → Plays mpmc respond start s.log none
      over_then (g, plays) =
          subst (Plays mpmc respond start s.log)
            (Plays-ended start last log (subst (λ l. Plays mpmc respond start l g) ends plays))
            plays

      all : {t : System mpmc respond} → Reach mpmc respond s t → Hung start v t
      all (here e) = subst (Hung start v) (sym e) (
        Reach-Phase mpmc respond start n reach,
        waits,
        over_then (Reach-Plays mpmc respond start n reach),
      )
      all (then_move reach' move) =
          let (h, waits', plays) = all reach' in
          let (waits'', same) = Move-Hung start v move h waits' plays in
          (
            Move-Phase mpmc respond start move h,
            waits'',
            subst (λ l. Plays mpmc respond start l none) (sym same) plays,
          )
