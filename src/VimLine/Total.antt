-- ===== src/VimLine/Total.antt =====
-- The keys on a text of ASCII characters, outside the operators of Visual mode.
use cem.Prelude.{
  ℕ, ◌≤◌, ◌≡◌, ◌≢◌, refl, inl, inr, Bool, true, false, Option, none, some, arith, ltb, ◌==◌, length,
  Bool-cases,
}
use cem.VimLine.Text.{Text}
use cem.VimLine.Edit.{Key, KeyCode, delete_key, up, down, home, end}
use cem.VimLine.Editor.{
  VimLineEditor, Operator, Mode, normal, visual, replace_char, operator_pending, change, yank,
  clamp_cursor,
}
use cem.VimLine.Motion.{move_left, move_right, move_word_forward, move_word_backward, move_word_end}
use cem.VimLine.Change.{in_mode}
use cem.VimLine.Keys
use cem.VimLine.Normal.{run_normal, handle_normal}
use cem.VimLine.Handlers.{
  handle_key, dispatch, handle_insert, insert_code, handle_operator_pending, pending_go,
  pending_target, operate_between, past, is_escape, handle_visual, run_visual, visual_target,
  handle_replace_char,
}
use cem.VimLine.Words.{move_word_forward_lem, move_word_backward_lem}
use cem.VimLine.Ascii.{IsAscii}
use cem.VimLine.Lands.{
  Lands, move_line_start-Lands, move_first_non_blank-Lands, move_line_end-Lands, move_up-Lands,
  move_down-Lands, move_left-le, move_right-le, move_word_end-le,
}
use cem.VimLine.Answered.{
  Answered, moved-Answered, apply_operator-Answered, apply_operator_line-Answered,
  delete_char-Answered, delete_to_end-Answered, matching-Answered,
}

module _ (text : Text) (ascii : IsAscii text) (e : VimLineEditor)
    (here : e.cursor ≤ length text) where
  run_normal-Answered : (arm : Keys.NormalArm) → Answered (run_normal arm e text)
  unfolding run_normal
  run_normal-Answered Keys.insert_at_line_end =
      moved-Answered text (in_mode e Mode.insert) _
        (move_line_end-Lands text ascii e.cursor here true)
  run_normal-Answered Keys.insert_at_first_non_blank =
      moved-Answered text (in_mode e Mode.insert) _
        (move_first_non_blank-Lands text ascii e.cursor here)
  run_normal-Answered Keys.open_below =
      let (to, found, le) = move_line_end-Lands text ascii e.cursor here false in rw found (_, refl)
  run_normal-Answered Keys.open_above =
      let (to, found, le) = move_line_start-Lands text ascii e.cursor here in rw found (_, refl)
  run_normal-Answered Keys.to_down =
      moved-Answered text e _ (move_down-Lands text ascii e.cursor here)
  run_normal-Answered Keys.to_up = moved-Answered text e _ (move_up-Lands text ascii e.cursor here)
  run_normal-Answered Keys.to_line_start =
      moved-Answered text e _ (move_line_start-Lands text ascii e.cursor here)
  run_normal-Answered Keys.to_first_non_blank =
      moved-Answered text e _ (move_first_non_blank-Lands text ascii e.cursor here)
  run_normal-Answered Keys.to_line_end =
      moved-Answered text e _ (move_line_end-Lands text ascii e.cursor here false)
  run_normal-Answered Keys.to_matching_bracket = matching-Answered text ascii e here
  run_normal-Answered Keys.delete_under = delete_char-Answered text ascii e
  run_normal-Answered Keys.delete_rest = delete_to_end-Answered text ascii e here
  run_normal-Answered Keys.change_rest =
      delete_to_end-Answered text ascii (in_mode e Mode.insert) here
  run_normal-Answered _ = (_, refl)

  insert_code-Answered :
      (code : KeyCode) (ctrl alt : Bool) → Answered (insert_code code ctrl alt e text)
  unfolding insert_code
  insert_code-Answered delete_key ctrl alt = delete_char-Answered text ascii e
  insert_code-Answered up ctrl alt =
      moved-Answered text e _ (move_up-Lands text ascii e.cursor here)
  insert_code-Answered down ctrl alt =
      moved-Answered text e _ (move_down-Lands text ascii e.cursor here)
  insert_code-Answered home ctrl alt =
      moved-Answered text e _ (move_line_start-Lands text ascii e.cursor here)
  insert_code-Answered end ctrl alt =
      moved-Answered text e _ (move_line_end-Lands text ascii e.cursor here true)
  insert_code-Answered _ ctrl alt = (_, refl)

  word_forward-Lands : Lands text (some (move_word_forward text e.cursor))
  word_forward-Lands =
      (move_word_forward text e.cursor, refl, (move_word_forward_lem text e.cursor here).3)

  word_backward-Lands : Lands text (some (move_word_backward text e.cursor))
  word_backward-Lands =
      let before = move_word_backward_lem text e.cursor in
      (move_word_backward text e.cursor, refl, omega (arith, before.1, before.2))

  past-le : (c : ℕ) → c ≤ length text → past text c ≤ length text
  past-le c le = ground arith

  word_end-Lands : Lands text (some (move_word_end text e.cursor))
  word_end-Lands = (move_word_end text e.cursor, refl, move_word_end-le text e.cursor here)

  past_word_end-Lands : Lands text (some (past text (move_word_end text e.cursor)))
  past_word_end-Lands = (
    past text (move_word_end text e.cursor),
    refl,
    past-le (move_word_end text e.cursor) (move_word_end-le text e.cursor here),
  )

  left-Lands : Lands text (some (move_left text e.cursor))
  left-Lands = (move_left text e.cursor, refl, omega (arith, move_left-le text e.cursor))

  right-Lands : Lands text (some (move_right text e.cursor))
  right-Lands = (move_right text e.cursor, refl, move_right-le text e.cursor here)

  visual_target-Lands : (motion : Keys.Motion) → Lands text (visual_target motion text e.cursor)
  unfolding visual_target
  visual_target-Lands Keys.by_word = word_forward-Lands
  visual_target-Lands Keys.by_word_back = word_backward-Lands
  visual_target-Lands Keys.by_word_end = word_end-Lands
  visual_target-Lands Keys.by_line_start = move_line_start-Lands text ascii e.cursor here
  visual_target-Lands Keys.by_line_end = move_line_end-Lands text ascii e.cursor here false
  visual_target-Lands Keys.by_first_non_blank = move_first_non_blank-Lands text ascii e.cursor here
  visual_target-Lands Keys.by_left = left-Lands
  visual_target-Lands Keys.by_right = right-Lands
  visual_target-Lands Keys.by_down = move_down-Lands text ascii e.cursor here
  visual_target-Lands Keys.by_up = move_up-Lands text ascii e.cursor here

  pending_target-Lands :
      (op : Operator) (motion : Keys.Motion) → Lands text (pending_target op motion text e.cursor)
  unfolding pending_target
  pending_target-Lands Operator.delete Keys.by_word = word_forward-Lands
  pending_target-Lands yank Keys.by_word = word_forward-Lands
  pending_target-Lands change Keys.by_word = past_word_end-Lands
  pending_target-Lands _ Keys.by_word_back = word_backward-Lands
  pending_target-Lands _ Keys.by_word_end = past_word_end-Lands
  pending_target-Lands _ Keys.by_line_start = move_line_start-Lands text ascii e.cursor here
  pending_target-Lands _ Keys.by_line_end = move_line_end-Lands text ascii e.cursor here false
  pending_target-Lands _ Keys.by_first_non_blank =
      move_first_non_blank-Lands text ascii e.cursor here
  pending_target-Lands _ Keys.by_left = left-Lands
  pending_target-Lands _ Keys.by_right = right-Lands
  pending_target-Lands _ Keys.by_down = move_down-Lands text ascii e.cursor here
  pending_target-Lands _ Keys.by_up = move_up-Lands text ascii e.cursor here

  operate_between-Answered :
      (op : Operator) (to : ℕ) → to ≤ length text → Answered (operate_between op e e.cursor to text)
  operate_between-Answered op to le = elim (Bool-cases (e.cursor == to)) [
    | inl stays ↦ rw stays (_, refl)
    | inr moves ↦ elim (Bool-cases (ltb e.cursor to)) [
      | inl forward ↦
          rw (moves, forward)
            (apply_operator-Answered text ascii op _ e.cursor to (ground arith) le)
      | inr backward ↦
          rw (moves, backward)
            (apply_operator-Answered text ascii op _ to e.cursor (ground arith) here)
    ]
  ]

  pending_go-Answered : (op : Operator) (o : Option Keys.Motion) → Answered (pending_go op e text o)
  pending_go-Answered op none = (_, refl)
  pending_go-Answered op (some motion) =
      let (to, found, le) = pending_target-Lands op motion in
      rw found (operate_between-Answered op to le)

  handle_operator_pending-Answered :
      (op : Operator) (key : Key) → Answered (handle_operator_pending op e key text)
  unfolding handle_operator_pending
  handle_operator_pending-Answered op key = elim (Bool-cases (is_escape key.code)) [
    | inl leaves ↦ rw leaves (_, refl)
    | inr goes ↦ elim (Bool-cases (Keys.is_line_op op key.code)) [
      | inl line ↦
          rw (goes, line) (apply_operator_line-Answered text ascii op (in_mode e normal) here)
      | inr motion ↦ rw (goes, motion) (pending_go-Answered op (Keys.pending_motion key.code))
    ]
  ]

  run_visual-Answered :
      (arm : Keys.VisualArm)
      → ((op : Operator) → arm ≢ Keys.operate op)
      → Answered (run_visual arm e text)
  unfolding run_visual
  run_visual-Answered Keys.leave safe = (_, refl)
  run_visual-Answered Keys.stay safe = (_, refl)
  run_visual-Answered (Keys.extend motion) safe =
      moved-Answered text e _ (visual_target-Lands motion)
  run_visual-Answered (Keys.operate op) safe = absurd (safe op refl)

  dispatch-Answered :
      (mode : Mode) (key : Key)
      → ((op : Operator) → mode ≡ visual → Keys.visual_arm key.code ≢ Keys.operate op)
      → Answered (dispatch mode e key text)
  unfolding dispatch handle_normal handle_insert handle_visual handle_replace_char
  dispatch-Answered normal key safe = run_normal-Answered (Keys.normal_arm key)
  dispatch-Answered Mode.insert key safe = insert_code-Answered key.code key.ctrl key.alt
  dispatch-Answered (operator_pending op) key safe = handle_operator_pending-Answered op key
  dispatch-Answered visual key safe =
      run_visual-Answered (Keys.visual_arm key.code) (λ op. safe op refl)
  dispatch-Answered replace_char key safe = (_, refl)

-- On a text whose bytes are all ASCII `handle_key` answers, without a panic, in every mode, at every
-- cursor and with every key, but for the keys that apply an operator in Visual mode.
pub handle_key-Answered :
    (e : VimLineEditor) (key : Key) (text : Text)
    → IsAscii text
    → ((op : Operator) → e.mode ≡ visual → Keys.visual_arm key.code ≢ Keys.operate op)
    → Answered (handle_key e key text)
unfolding handle_key clamp_cursor
handle_key-Answered e key text ascii safe =
    let (r, found) =
      dispatch-Answered text ascii (clamp_cursor e text) (omega arith) e.mode key safe in
    rw found (_, refl)
