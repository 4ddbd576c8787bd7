-- ===== src/Runtime/Weave/Phase/Steps.antt =====
-- What one step of the strand does to a resting, an answering and an ended weave.
use cem.Prelude.{Option, none, some, List, [], ◌∷◌, ◌++◌, ◌≡◌, refl, sym, ◌∙◌, ap, subst}
use cem.Runtime.Value.{Value}
use cem.Runtime.Mpmc.{Mpmc}
use cem.Runtime.Weave.{
  WeaveMessage, value, done, Reply, yielded, returned, Strand, waiting, Weave, first_message,
  resume_message, send_reply, step_of, advance,
}
use cem.Runtime.Weave.Phase.{
  Resting, not_begun, just_sent, at_rest, Ended, just_done, has_gone, Holds, Answering, asked,
  wakes, computes, has_yielded, has_returned,
}

pub some-injective {ℓ} : {A : Type ℓ} {x y : A} → some x ≡ some y → x ≡ y
some-injective h = cc

pub none-absurd {ℓ ℓ'} : {A : Type ℓ} {B : Type ℓ'} {x : A} → none ≡ some x → B
none-absurd h = cc

module _ (mpmc : Mpmc WeaveMessage) {Body : Type 0} (respond : Body → Value → Reply Body) where
  pub advance-step_of :
      (w : Weave mpmc respond) {strand : Strand Body} {o : Option (Weave mpmc respond)}
      → w.strand ≡ strand
      → advance mpmc respond w ≡ o
      → step_of mpmc respond w strand ≡ o
  unfolding advance
  advance-step_of w e h = ap (step_of mpmc respond w) (sym e) ∙ h

  pub Resting-step :
      {body : Body} {out : List WeaveMessage} (w : Weave mpmc respond) {w' : Weave mpmc respond}
      → Resting body w.strand
      → Holds mpmc respond w [] out
      → advance mpmc respond w ≡ some w'
      → (w'.strand ≡ waiting body) × (Holds mpmc respond w' [] out)
  unfolding step_of first_message resume_message
  Resting-step {body} w (not_begun e) holds h = none-absurd (
      ap (first_message mpmc respond w body) (sym (mpmc.recv-none w.resume_chan holds.0))
      ∙ advance-step_of w e h)
  Resting-step {body} {out} w (just_sent e) holds h =
      subst (λ w'. (w'.strand ≡ waiting body) × (Holds mpmc respond w' [] out))
        (some-injective (advance-step_of w e h)) (refl, holds)
  Resting-step {body} w (at_rest e) holds h = none-absurd (
      ap (resume_message mpmc respond w body) (sym (mpmc.recv-none w.resume_chan holds.0))
      ∙ advance-step_of w e h)

  pub Ended-step :
      {into out : List WeaveMessage} (w : Weave mpmc respond) {w' : Weave mpmc respond}
      → Ended w.strand
      → Holds mpmc respond w into out
      → advance mpmc respond w ≡ some w'
      → Ended w'.strand × Holds mpmc respond w' into out
  unfolding step_of
  Ended-step {into} {out} w (just_done e) holds h =
      subst (λ w'. Ended w'.strand × Holds mpmc respond w' into out)
        (some-injective (advance-step_of w e h)) (has_gone refl, holds)
  Ended-step w (has_gone e) holds h = none-absurd (advance-step_of w e h)

  -- A weave that has its value in the channel wakes with it, unless it has yet to be uncounted.
  pub asked-step :
      {body : Body} {v : Value} (w : Weave mpmc respond) {w' : Weave mpmc respond}
      → Resting body w.strand
      → Holds mpmc respond w (value v ∷ []) []
      → advance mpmc respond w ≡ some w'
      → Answering mpmc respond body v w'
  unfolding step_of first_message resume_message
  asked-step {body} {v} w (not_begun e) holds h =
      let (c, got, left) = mpmc.recv-some w.resume_chan (value v) [] holds.0 in
      subst (Answering mpmc respond body v)
        (some-injective (ap (first_message mpmc respond w body) (sym got) ∙ advance-step_of w e h))
        (wakes refl (left, holds.1))
  asked-step {body} {v} w (just_sent e) holds h =
      subst (Answering mpmc respond body v) (some-injective (advance-step_of w e h))
        (asked (at_rest refl) holds)
  asked-step {body} {v} w (at_rest e) holds h =
      let (c, got, left) = mpmc.recv-some w.resume_chan (value v) [] holds.0 in
      subst (Answering mpmc respond body v)
        (some-injective (ap (resume_message mpmc respond w body) (sym got) ∙ advance-step_of w e h))
        (wakes refl (left, holds.1))

  sent-step :
      {body : Body} {v : Value} (w : Weave mpmc respond) (reply : Reply Body)
      → respond body v ≡ reply
      → Holds mpmc respond w [] []
      → Answering mpmc respond body v (send_reply mpmc respond w reply)
  unfolding send_reply
  sent-step w (yielded y body') e holds =
      has_yielded y body' e (just_sent refl)
        (holds.0, mpmc.contents-send (value y) w.yield_chan ∙ ap (λ l. l ++ value y ∷ []) holds.1)
  sent-step w returned e holds =
      has_returned e (just_done refl)
        (holds.0, mpmc.contents-send done w.yield_chan ∙ ap (λ l. l ++ done ∷ []) holds.1)

  pub Answering-step :
      {body : Body} {v : Value} (w : Weave mpmc respond) {w' : Weave mpmc respond}
      → Answering mpmc respond body v w
      → advance mpmc respond w ≡ some w'
      → Answering mpmc respond body v w'
  unfolding step_of
  Answering-step w (asked resting holds) h = asked-step w resting holds h
  Answering-step {body} {v} w (wakes e holds) h =
      subst (Answering mpmc respond body v) (some-injective (advance-step_of w e h))
        (computes refl holds)
  Answering-step {body} {v} w (computes e holds) h =
      subst (Answering mpmc respond body v) (some-injective (advance-step_of w e h))
        (sent-step w (respond body v) refl holds)
  Answering-step w (has_yielded y body' e resting holds) h =
      let (e', holds') = Resting-step w resting holds h in has_yielded y body' e (at_rest e') holds'
  Answering-step w (has_returned e ended holds) h =
      let (ended', holds') = Ended-step w ended holds h in has_returned e ended' holds'
