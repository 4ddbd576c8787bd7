-- ===== src/VimLine/Boundaries.antt =====
-- Where `set_cursor`, `move_left` and `move_right` put the cursor.
use cem.Prelude.{
  ℕ, zero, suc, ◌+◌, ◌-◌, ◌≤◌, ◌<◌, min, ◌≡◌, refl, inl, inr, true, false, arith, ltb, ◌==◌, length,
  lt→ltb, Bool-cases,
}
use cem.VimLine.Text.{Text, is_char_boundary}
use cem.VimLine.Editor.{VimLineEditor, back_to_boundary, set_cursor}
use cem.VimLine.Motion.{next_boundary, move_left, move_right}

-- No boundary of the text is strictly between the two positions.
unfoldable pub NoBoundaryBetween : Text → ℕ → ℕ → Type 0
NoBoundaryBetween text lo hi = (i : ℕ) → lo < i → i < hi → is_char_boundary text i ≡ false

abbrev pub IsBoundary : Text → ℕ → Type 0
IsBoundary text i = is_char_boundary text i ≡ true

pub IsBoundary-zero : (text : Text) → IsBoundary text 0
unfolding is_char_boundary
IsBoundary-zero text = refl

pub IsBoundary-length : (text : Text) → IsBoundary text (length text)
unfolding is_char_boundary
IsBoundary-length text = ground arith

pub back_to_boundary_lem :
    (text : Text) (pos : ℕ)
    → (back_to_boundary text pos ≤ pos)
      × IsBoundary text (back_to_boundary text pos)
      × NoBoundaryBetween text (back_to_boundary text pos) (suc pos)
unfolding back_to_boundary NoBoundaryBetween
back_to_boundary_lem text zero =
    (omega arith, IsBoundary-zero text, λ i lo hi. absurd (omega arith))
back_to_boundary_lem text (suc pos) = elim (Bool-cases (is_char_boundary text (suc pos))) [
  | inl h ↦ rw h (omega arith, h, λ i lo hi. absurd (omega arith))
  | inr h ↦
      let (le, on, between) = back_to_boundary_lem text pos in
      rw h (
        omega arith,
        on,
        λ i lo hi. elim (Bool-cases (i == suc pos)) [
          | inl e ↦ let same_as : i ≡ suc pos = ground arith in rw same_as h
          | inr e ↦ between i lo (ground arith)
        ],
      )
]

pub next_boundary_lem :
    (fuel : ℕ) (text : Text) (pos : ℕ)
    → pos ≤ length text
    → length text ≤ fuel + pos
    → (pos ≤ next_boundary fuel text pos)
      × (next_boundary fuel text pos ≤ length text)
      × IsBoundary text (next_boundary fuel text pos)
      × ((i : ℕ) → pos ≤ i → i < next_boundary fuel text pos → is_char_boundary text i ≡ false)
unfolding next_boundary
next_boundary_lem zero text pos le enough =
    let at_end : pos ≡ length text = omega arith in
    (omega arith, omega arith, rw at_end (IsBoundary-length text), λ i lo hi. absurd (omega arith))
next_boundary_lem (suc fuel) text pos le enough = elim (Bool-cases (ltb pos (length text))) [
  | inr h ↦
      let at_end : pos ≡ length text = ground arith in
      rw h (
        omega arith,
        omega arith,
        rw at_end (IsBoundary-length text),
        λ i lo hi. absurd (omega arith),
      )
  | inl h ↦ elim (Bool-cases (is_char_boundary text pos)) [
    | inl on ↦ rw (h, on) (omega arith, omega arith, on, λ i lo hi. absurd (omega arith))
    | inr off ↦
        let (from, to, on, between) =
          next_boundary_lem fuel text (pos + 1) (ground arith) (omega arith) in
        rw (h, off)
          (
            omega arith,
            to,
            on,
            λ i lo hi. elim (Bool-cases (i == pos)) [
              | inl e ↦ let same_as : i ≡ pos = ground arith in rw same_as off
              | inr e ↦ between i (ground arith) hi
            ],
          )
  ]
]

-- `set_cursor` puts the cursor on a character boundary, at or before the position asked for and
-- the end of the text, and no boundary is between that and where the cursor is.
pub set_cursor-IsBoundary :
    (e : VimLineEditor) (pos : ℕ) (text : Text)
    → IsBoundary text (set_cursor e pos text).cursor
      × ((set_cursor e pos text).cursor ≤ min pos (length text))
      × NoBoundaryBetween text (set_cursor e pos text).cursor (suc (min pos (length text)))
unfolding set_cursor NoBoundaryBetween
set_cursor-IsBoundary e pos text =
    elim (Bool-cases (is_char_boundary text (min pos (length text)))) [
      | inl h ↦ rw h (h, omega arith, λ i lo hi. absurd (omega arith))
      | inr h ↦
          let (le, on, between) = back_to_boundary_lem text (min pos (length text)) in
          rw h (on, le, between)
    ]

-- `move_left` goes from a positive cursor to the boundary before it: the result is a boundary, less
-- than the cursor, with none between.
pub move_left_lem :
    (text : Text) (cursor : ℕ)
    → 0 < cursor
    → IsBoundary text (move_left text cursor)
      × (move_left text cursor < cursor)
      × NoBoundaryBetween text (move_left text cursor) cursor
unfolding move_left
move_left_lem text zero h = absurd (omega arith)
move_left_lem text (suc pos) h =
    let (le, on, between) = back_to_boundary_lem text pos in (on, omega arith, between)

pub move_right_lem :
    (text : Text) (cursor : ℕ)
    → cursor < length text
    → IsBoundary text (move_right text cursor)
      × (cursor < move_right text cursor)
      × (move_right text cursor ≤ length text)
      × NoBoundaryBetween text cursor (move_right text cursor)
unfolding move_right NoBoundaryBetween
move_right_lem text cursor h =
    let (from, to, on, between) =
      next_boundary_lem (length text - (cursor + 1)) text (cursor + 1) (omega arith)
        (omega arith) in
    rw (lt→ltb cursor (length text) h) (on, omega arith, to, λ i lo hi. between i (omega arith) hi)

-- Two boundaries with none between, seen from a third, are one.
nearest :
    (text : Text) (a b c : ℕ)
    → IsBoundary text a
    → IsBoundary text b
    → a < c
    → b < c
    → NoBoundaryBetween text a c
    → NoBoundaryBetween text b c
    → a ≡ b
unfolding NoBoundaryBetween
nearest text a b c on_a on_b a_lt b_lt between_a between_b = elim (Bool-cases (ltb a b)) [
  | inl h ↦ let off = between_a b (ground arith) b_lt in cc
  | inr h ↦ elim (Bool-cases (ltb b a)) [
    | inl k ↦ let off = between_b a (ground arith) a_lt in cc
    | inr k ↦ ground arith
  ]
]

-- `h` after `l` is back where it was: from a boundary before the end of the text, `move_left` undoes
-- `move_right`.
pub move_left-move_right :
    (text : Text) (cursor : ℕ)
    → cursor < length text
    → IsBoundary text cursor
    → move_left text (move_right text cursor) ≡ cursor
move_left-move_right text cursor h on =
    let (on_r, lt_r, le_r, between_r) = move_right_lem text cursor h in
    let (on_l, lt_l, between_l) = move_left_lem text (move_right text cursor) (omega arith) in
    nearest text (move_left text (move_right text cursor)) cursor (move_right text cursor) on_l on
      lt_l lt_r between_l between_r
