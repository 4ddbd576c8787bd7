-- ===== src/VimLine/Modes.antt =====
-- What `handle_key` does with Escape and with the yank buffer, whatever the mode.
use cem.Prelude.{◌≡◌, refl, sym, subst, inl, inr, Bool, Option, none, some, [], Option-cases}
use cem.VimLine.Text.{Text}
use cem.VimLine.Edit.{Key, escape, EditResult}
use cem.VimLine.Editor.{
  VimLineEditor, Mode, normal, visual, replace_char, operator_pending, clamp_cursor,
}
use cem.VimLine.Change.{Reply}
use cem.VimLine.Keys
use cem.VimLine.Normal.{handle_normal, run_normal}
use cem.VimLine.Handlers.{
  handle_key, dispatch, store_yanked, handle_insert, insert_code, handle_operator_pending,
  handle_visual, run_visual, handle_replace_char, replace_code,
}

dispatch-escape :
    (mode : Mode) (e : VimLineEditor) (ctrl alt shift : Bool) (text : Text)
    → e.mode ≡ mode
    → (r : Reply) × (dispatch mode e
          (record { code = escape; ctrl = ctrl; alt = alt; shift = shift })
          text
        ≡ some r)
      × (r.0.mode ≡ normal)
      × (r.1.edits ≡ [])
      × (r.1.yanked ≡ none)
      × (r.0.yank_buffer ≡ e.yank_buffer)
unfolding dispatch handle_normal run_normal Keys.normal_arm handle_insert insert_code
    handle_operator_pending handle_visual run_visual Keys.visual_arm handle_replace_char
    replace_code
dispatch-escape normal e ctrl alt shift text h = (_, refl, h, refl, refl, refl)
dispatch-escape Mode.insert e ctrl alt shift text h = (_, refl, refl, refl, refl, refl)
dispatch-escape (operator_pending op) e ctrl alt shift text h = (_, refl, refl, refl, refl, refl)
dispatch-escape visual e ctrl alt shift text h = (_, refl, refl, refl, refl, refl)
dispatch-escape replace_char e ctrl alt shift text h = (_, refl, refl, refl, refl, refl)

-- Escape leads to Normal mode from every mode, whatever the cursor, the text and the modifiers: the
-- key never panics, edits nothing and keeps the yank buffer.
pub handle_key-escape :
    (e : VimLineEditor) (ctrl alt shift : Bool) (text : Text)
    → (r : Reply) × (handle_key e
          (record { code = escape; ctrl = ctrl; alt = alt; shift = shift })
          text
        ≡ some r)
      × (r.0.mode ≡ normal)
      × (r.1.edits ≡ [])
      × (r.0.yank_buffer ≡ e.yank_buffer)
unfolding handle_key clamp_cursor
handle_key-escape e ctrl alt shift text =
    let (r, eq, mode, edits, yanked, kept) =
      dispatch-escape e.mode (clamp_cursor e text) ctrl alt shift text refl in
    (r, rw (eq, yanked) refl, mode, edits, kept)

store_yanked-keeps :
    (e : VimLineEditor) (result : EditResult) (o : Option Text) (r : Reply) (y : Text)
    → some (store_yanked e result o) ≡ some r
    → result.yanked ≡ o
    → r.1.yanked ≡ some y
    → r.0.yank_buffer ≡ y
store_yanked-keeps e result none r y h same_as yanked =
    let eq : Path Reply (e, result) r = cc in
    let eq_y : result.yanked ≡ some y = subst (λ q. q.1.yanked ≡ some y) (sym eq) yanked in cc
store_yanked-keeps e result (some x) r y h same_as yanked =
    let eq : Path Reply (record e { yank_buffer = x }, result) r = cc in
    let eq_x : result.yanked ≡ some y = subst (λ q. q.1.yanked ≡ some y) (sym eq) yanked in
    let eq_y : x ≡ y = cc in subst (λ q. q.0.yank_buffer ≡ y) eq eq_y

-- A key that answers with a yanked text leaves that text in the yank buffer.
pub handle_key-yanked :
    (e : VimLineEditor) (key : Key) (text : Text) (r : Reply) (y : Text)
    → handle_key e key text ≡ some r
    → r.1.yanked ≡ some y
    → r.0.yank_buffer ≡ y
unfolding handle_key
handle_key-yanked e key text r y h yanked =
    elim (Option-cases (dispatch e.mode (clamp_cursor e text) key text)) [
      | inl fail ↦ cc
      | inr (reply, eq) ↦
          store_yanked-keeps reply.0 reply.1 reply.1.yanked r y (rw eq at h) refl yanked
    ]
