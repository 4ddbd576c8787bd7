-- ===== src/VimLine/OpenLine.antt =====
-- Where `o` puts the newline.
use cem.Prelude.{
  ℕ, ◌+◌, ◌-◌, ◌≤◌, ◌<◌, ◌≡◌, refl, Bool, false, min, some, [], ◌∷◌, arith, ◌==◌, length, get_elem?,
  zero, suc, Bool-cases, inl, inr, leb→le, leb-false, take, drop, leb, true, ◌++◌,
}
use cem.VimLine.Text.{Text, newline, is_char_boundary, boundary_byte}
use cem.VimLine.Edit.{char, insert, with_edit, apply}
use cem.VimLine.Editor.{VimLineEditor, Mode, normal, clamp_cursor, back_to_boundary}
use cem.VimLine.Motion.{line_end, move_line_end_impl}
use cem.VimLine.Change.{Reply}
use cem.VimLine.Keys
use cem.VimLine.Normal.{handle_normal, run_normal}
use cem.VimLine.Handlers.{handle_key, dispatch}
use cem.VimLine.Boundaries.{IsBoundary, NoBoundaryBetween, back_to_boundary_lem}

no_byte_past_end :
    (text : Text) (i : ℕ) → length text < i → boundary_byte (get_elem? text i) ≡ false
no_byte_past_end [] i past = refl
no_byte_past_end (b ∷ bs) zero past = absurd (omega arith)
no_byte_past_end (b ∷ bs) (suc i) past = no_byte_past_end bs i (omega arith)

IsBoundary-le-length : (text : Text) (i : ℕ) → IsBoundary text i → i ≤ length text
unfolding is_char_boundary
IsBoundary-le-length text i on = elim (Bool-cases (leb i (length text))) [
  | inl h ↦ leb→le i (length text) h
  | inr h ↦
      let past : length text < i = leb-false i (length text) h in
      absurd (ground (arith, no_byte_past_end text i past))
]

-- In Normal mode, with the cursor in the text on a line that ends at a positive position `stop`, the key
-- o inserts one newline, not at `stop` but at the last character boundary before it, so that the
-- character that ends at `stop` goes after the newline: the last character of the line, or on an
-- empty line the newline before it. The edit applies, and the cursor is after the newline.
pub handle_key-open_below :
    (e : VimLineEditor) (ctrl alt shift : Bool) (text : Text) (stop : ℕ)
    → e.mode ≡ normal
    → e.cursor ≤ length text
    → line_end text e.cursor ≡ some stop
    → 0 < stop
    → (r : Reply) × (pos : ℕ) × (handle_key e
          (record { code = char b'o'; ctrl = ctrl; alt = alt; shift = shift })
          text
        ≡ some r)
      × (r.0.mode ≡ Mode.insert)
      × (r.0.cursor ≡ pos + 1)
      × (r.1.edits ≡ insert pos (newline ∷ []) ∷ [])
      × (pos < stop)
      × IsBoundary text pos
      × NoBoundaryBetween text pos stop
      × (apply (insert pos (newline ∷ [])) text
          ≡ some (take pos text ++ (newline ∷ []) ++ drop pos text))
unfolding handle_key dispatch handle_normal run_normal clamp_cursor Keys.normal_arm
    move_line_end_impl apply NoBoundaryBetween
handle_key-open_below e ctrl alt shift text stop in_normal inside found positive =
    let clamped : min e.cursor (length text) ≡ e.cursor = omega arith in
    let not_first : (stop == 0) ≡ false = ground arith in
    let (le, on, between) = back_to_boundary_lem text (stop - 1) in
    let fits = IsBoundary-le-length text (back_to_boundary text (stop - 1)) on in
    let leb_fits : leb (back_to_boundary text (stop - 1)) (length text) ≡ true = ground arith in
    (
      (
        record e { cursor = back_to_boundary text (stop - 1) + 1; mode = Mode.insert },
        with_edit (insert (back_to_boundary text (stop - 1)) (newline ∷ [])),
      ),
      back_to_boundary text (stop - 1),
      rw (in_normal, clamped, found, not_first) refl,
      refl,
      refl,
      refl,
      omega arith,
      on,
      λ i lo hi. between i lo (omega arith),
      rw (leb_fits, on) refl,
    )
