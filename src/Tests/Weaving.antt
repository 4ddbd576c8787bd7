-- ===== src/Tests/Weaving.antt =====
-- The theorems on weaves at a run of a generator that yields what it is sent, once, with channels that are
-- lists.
use cem.Prelude.{
  ℕ, ◌+◌, Bool, true, false, Option, none, some, List, [], ◌∷◌, ◌++◌, ◌≡◌, refl, ap, arith,
}
use cem.Runtime.Value.{Value, int}
use cem.Runtime.Mpmc.{Mpmc}
use cem.Runtime.Weave.{
  WeaveMessage, value, Reply, Strand, woken, yielding, completing, gone, yielded, returned, Weave,
  weave, advance, step_of, first_message, resume_message, send_reply, fetch_add, fetch_sub,
  resume_send, received, resume_receive, resume_result,
}
use cem.Runtime.Weave.Moves.{
  System, Caller, Log, idle, initial, Reach, here, then_move, resumes, strand_moves, returns,
  awaiting, Plays,
}
use cem.Runtime.Weave.Count.{Reach-counted}
use cem.Runtime.Weave.Generator.{Reach-Plays, Reach-answered, AnsweredIn}
use cem.Runtime.Weave.Resumed.{Reach-hung}

abbrev pop_front : List WeaveMessage → Option (WeaveMessage × List WeaveMessage)
pop_front [] = none
pop_front (msg ∷ rest) = some (msg, rest)

abbrev queue : Mpmc WeaveMessage
queue = record {
  Chan = List WeaveMessage;
  channel = [];
  send = λ msg c. c ++ msg ∷ [];
  recv = pop_front;
  contents = λ c. c;
  contents-channel = refl;
  contents-send = λ msg c. refl;
  recv-none = λ c h. ap pop_front h;
  recv-some = λ c msg rest h. (rest, ap pop_front h, refl);
}

-- Whether it has yielded
abbrev echo : Bool → Value → Reply Bool
echo false v = yielded v true
echo true v = returned

abbrev state : Weave queue echo → Caller → Log → System queue echo
state w caller log = record { weave = w; caller = caller; others = 2; log = log }

abbrev weave_at : List WeaveMessage → List WeaveMessage → Strand Bool → ℕ → Weave queue echo
weave_at to_caller to_strand strand active = record {
  yield_chan = to_caller;
  resume_chan = to_strand;
  strand = strand;
  active_strands = active;
}

abbrev Run : System queue echo → Type 0
Run s = Reach queue echo (initial queue echo false 2) s

abbrev one_answer : Log
one_answer = (int 7, (int 7, true)) ∷ []

abbrev two_answers : Log
two_answers = (int 8, (int 0, false)) ∷ one_answer

-- The strand takes a step.
strand_step :
    {start : System queue echo} {w w' : Weave queue echo} {caller : Caller} {log : Log}
    → advance queue echo w ≡ some w'
    → Reach queue echo start (state w caller log)
    → Reach queue echo start (state w' caller log)
strand_step {w' = w'} moved run = then_move run (strand_moves w' moved refl)

woken_once : Run (state (weave_at [] [] (woken false (int 7)) 2) (awaiting (int 7)) [])
unfolding initial weave resume_send advance step_of first_message
woken_once = strand_step refl (then_move (here refl) (resumes (int 7) refl refl))

answered_once : Run (state (weave_at [] [] (yielding true) 3) idle one_answer)
unfolding advance step_of fetch_add send_reply resume_receive received resume_result
answered_once =
    then_move (strand_step refl (strand_step refl woken_once)) (returns (int 7) _ _ refl refl refl)

abbrev second_asked : System queue echo
second_asked =
    state (weave_at [] (value (int 8) ∷ []) (yielding true) 3) (awaiting (int 8)) one_answer

asked_twice : Run second_asked
unfolding resume_send
asked_twice = then_move answered_once (resumes (int 8) refl refl)

answered_twice : Run (state (weave_at [] [] completing 3) idle two_answers)
unfolding advance step_of fetch_add fetch_sub send_reply resume_message resume_receive received
    resume_result
answered_twice =
    then_move
      (strand_step refl (strand_step refl (strand_step refl (strand_step refl asked_twice))))
      (returns (int 8) _ _ refl refl refl)

abbrev third_asked : System queue echo
third_asked = state (weave_at [] (value (int 9) ∷ []) completing 3) (awaiting (int 9)) two_answers

asked_again : Run third_asked
unfolding resume_send
asked_again = then_move answered_twice (resumes (int 9) refl refl)

abbrev third_waits : System queue echo
third_waits = state (weave_at [] (value (int 9) ∷ []) gone 2) (awaiting (int 9)) two_answers

goes_on : Reach queue echo third_asked third_waits
unfolding advance step_of fetch_sub
goes_on = strand_step refl (here refl)

Reach-counted_example : second_asked.weave.active_strands ≡ 2 + 1
Reach-counted_example = Reach-counted queue echo false 2 (omega arith) asked_twice

Reach-Plays_example : (g : Option Bool) × Plays queue echo false one_answer g
Reach-Plays_example = Reach-Plays queue echo false 2 asked_twice

Reach-answered_example : AnsweredIn queue echo 4 (int 0, false) (second_asked.weave)
Reach-answered_example =
    Reach-answered queue echo false true 2 (int 8) asked_twice refl (false, refl, refl)

Reach-hung_example : third_waits.caller ≡ awaiting (int 9)
Reach-hung_example =
    Reach-hung queue echo false 2 (int 9) (int 8) (int 0) one_answer asked_again refl refl goes_on
