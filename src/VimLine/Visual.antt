-- ===== src/VimLine/Visual.antt =====
-- When an operator of Visual mode panics.
use cem.Prelude.{
  ℕ, ◌+◌, ◌≤◌, min, ◌≡◌, ◌↔◌, refl, inl, inr, Bool, true, false, ◌&&◌, none, some, arith, ltb, leb,
  length, Bool-cases,
}
use cem.VimLine.Text.{Text, is_char_boundary, slice}
use cem.VimLine.Edit.{Key}
use cem.VimLine.Editor.{VimLineEditor, Operator, visual, selection_range, clamp_cursor}
use cem.VimLine.Change.{apply_operator}
use cem.VimLine.Keys
use cem.VimLine.Handlers.{handle_key, dispatch, handle_visual, run_visual}
use cem.VimLine.Boundaries.{IsBoundary}

-- The cursor is before the end of the text, and the byte after it starts a character or is the end.
abbrev pub next_is_boundary : Text → ℕ → Bool
next_is_boundary text cursor = leb (cursor + 1) (length text) && is_char_boundary text (cursor + 1)

-- In Visual mode, with the anchor on a boundary and not after the cursor, the keys d, x, c and y
-- panic exactly where the position one byte after the cursor is past the end of the text or inside
-- a character: on the last position of the text, and on every character of more than one byte.
pub handle_key-visual_panic :
    (e : VimLineEditor) (anchor : ℕ) (key : Key) (op : Operator) (text : Text)
    → e.mode ≡ visual
    → Keys.visual_arm key.code ≡ Keys.operate op
    → e.visual_anchor ≡ some anchor
    → anchor ≤ e.cursor
    → e.cursor ≤ length text
    → IsBoundary text anchor
    → (handle_key e key text ≡ none) ↔ (next_is_boundary text e.cursor ≡ false)
unfolding handle_key dispatch handle_visual run_visual clamp_cursor selection_range apply_operator
    slice
handle_key-visual_panic e anchor key op text in_visual arm anchored ordered inside on =
    let clamped : min e.cursor (length text) ≡ e.cursor = omega arith in
    let after : ltb e.cursor anchor ≡ false = ground arith in
    let le : leb anchor (e.cursor + 1) ≡ true = ground arith in
    rw (in_visual, arm, anchored, clamped, after, le, on)
      (elim (Bool-cases (leb (e.cursor + 1) (length text))) [
        | inr past ↦ rw past ((λ h. refl), (λ h. refl))
        | inl fits ↦ elim (Bool-cases (is_char_boundary text (e.cursor + 1))) [
          | inr off ↦ rw (fits, off) ((λ h. refl), (λ h. refl))
          | inl next ↦ rw (fits, next) ((λ h. cc), (λ h. cc))
        ]
      ])
