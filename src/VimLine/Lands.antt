-- ===== src/VimLine/Lands.antt =====
-- On a text of ASCII characters the motions do not panic, and stay within the text.
use cem.Prelude.{
  ℕ, zero, suc, ◌+◌, ◌-◌, ◌≤◌, min, ◌≡◌, refl, inl, inr, Bool, ◌||◌, Option, some, arith, ltb, leb,
  ◌==◌, length, take, drop, if◌then◌else◌, Bool-cases, Option-cases, length-take, length-drop,
}
use cem.VimLine.Text.{Text, find_newline, rfind_newline, is_ascii_whitespace}
use cem.VimLine.Editor.{back_to_boundary}
use cem.VimLine.Motion.{
  move_left, move_right, line_start, line_end, move_line_start, first_non_blank,
  move_first_non_blank, move_line_end_impl, skip_forward, is_word_byte, move_word_end, move_up,
  down_to, move_down,
}
use cem.VimLine.Boundaries.{back_to_boundary_lem, next_boundary_lem}
use cem.VimLine.Words.{skip_forward_lem}
use cem.VimLine.Ascii.{IsAscii, slice-ascii, find_newline-lt, rfind_newline-lt, first_non_blank-le}

-- The motion gives a position of the text.
abbrev pub Lands : Text → Option ℕ → Type 0
Lands text target = (to : ℕ) × (target ≡ some to) × (to ≤ length text)

module _ (text : Text) (ascii : IsAscii text) where
  module _ (c : ℕ) (here : c ≤ length text) where
    pub line_start_lem : (start : ℕ) × (line_start text c ≡ some start) × (start ≤ c)
    unfolding line_start
    line_start_lem =
        let before = take (c - 0) (drop 0 text) in
        let size : length before ≡ c = omega (arith, length-take (c - 0) text) in
        elim (Option-cases (rfind_newline before)) [
          | inl nowhere ↦
              (0, rw (slice-ascii text ascii 0 c (omega arith) here, nowhere) refl, omega arith)
          | inr (i, found) ↦ (
            i + 1,
            rw (slice-ascii text ascii 0 c (omega arith) here, found) refl,
            omega (arith, size, rfind_newline-lt before i found),
          )
        ]

    pub line_end_lem :
        (stop : ℕ) × (line_end text c ≡ some stop) × (c ≤ stop) × (stop ≤ length text)
    unfolding line_end
    line_end_lem =
        let after = take (length text - c) (drop c text) in
        let size : length after ≡ length text - c =
          omega (arith, length-take (length text - c) (drop c text), length-drop c text) in
        elim (Option-cases (find_newline after)) [
          | inl nowhere ↦ (
            length text,
            rw (slice-ascii text ascii c (length text) here (omega arith), nowhere) refl,
            here,
            omega arith,
          )
          | inr (i, found) ↦ (
            c + i,
            rw (slice-ascii text ascii c (length text) here (omega arith), found) refl,
            omega arith,
            omega (arith, size, find_newline-lt after i found),
          )
        ]

    pub move_line_start-Lands : Lands text (move_line_start text c)
    unfolding move_line_start
    move_line_start-Lands = let (start, found, le) = line_start_lem in (start, found, omega arith)

    pub move_first_non_blank-Lands : Lands text (move_first_non_blank text c)
    unfolding move_first_non_blank move_line_start
    move_first_non_blank-Lands =
        let (start, found, le) = line_start_lem in
        let line = take (length text - start) (drop start text) in
        let size : length line ≡ length text - start =
          omega
            (arith, length-take (length text - start) (drop start text), length-drop start text) in
        elim (Option-cases (first_non_blank (length line) line 0)) [
          | inl blank ↦ (
            start,
            rw found (
                rw (slice-ascii text ascii start (length text) (omega arith) (omega arith), blank)
                  refl),
            omega arith,
          )
          | inr (i, first) ↦ (
            start + i,
            rw found (
                rw (slice-ascii text ascii start (length text) (omega arith) (omega arith), first)
                  refl),
            omega (arith, size, first_non_blank-le (length line) line 0 i first),
          )
        ]

    pub move_line_end-Lands : (past_end : Bool) → Lands text (move_line_end_impl past_end text c)
    unfolding move_line_end_impl
    move_line_end-Lands past_end =
        let (stop, found, from, to) = line_end_lem in
        let (le, on, between) = back_to_boundary_lem text (stop - 1) in
        elim (Bool-cases (past_end || stop == 0)) [
          | inl at ↦ (stop, rw (found, at) refl, to)
          | inr back ↦ (back_to_boundary text (stop - 1), rw (found, back) refl, omega arith)
        ]

  module _ (c : ℕ) (here : c ≤ length text) where
    pub move_up-Lands : Lands text (move_up text c)
    unfolding move_up
    move_up-Lands =
        let (start, found, le) = line_start_lem c here in
        let (previous, found_previous, le_previous) = line_start_lem (start - 1) (omega arith) in
        elim (Bool-cases (start == 0)) [
          | inl top ↦ (c, rw (found, top) refl, here)
          | inr below ↦ (
            previous + min (c - start) (start - 1 - previous),
            rw (found, below, found_previous) refl,
            omega arith,
          )
        ]

    down_to-Lands : (col start : ℕ) → Lands text (down_to text col start)
    down_to-Lands col start = elim (Bool-cases (leb (length text) start)) [
      | inl past ↦ (length text, rw past refl, omega arith)
      | inr inside ↦
          let (stop, found, from, to) = line_end_lem start (ground arith) in
          (start + min col (stop - start), rw (inside, found) refl, omega arith)
    ]

    pub move_down-Lands : Lands text (move_down text c)
    unfolding move_down
    move_down-Lands =
        let (start, found, le) = line_start_lem c here in
        let after = take (length text - c) (drop c text) in
        elim (Option-cases (find_newline after)) [
          | inl last ↦ (
            c,
            rw (found, slice-ascii text ascii c (length text) here (omega arith), last) refl,
            here,
          )
          | inr (i, next) ↦
              let (to, lands, le_to) = down_to-Lands (c - start) (c + i + 1) in
              (
                to,
                rw (found, slice-ascii text ascii c (length text) here (omega arith), next) lands,
                le_to,
              )
        ]

-- The motions that cannot panic.
pub move_left-le : (text : Text) (c : ℕ) → move_left text c ≤ c
unfolding move_left
move_left-le text zero = omega arith
move_left-le text (suc c) = let (le, on, between) = back_to_boundary_lem text c in omega arith

module _ (text : Text) (c : ℕ) (here : c ≤ length text) where
  pub move_right-le : move_right text c ≤ length text
  unfolding move_right
  move_right-le = elim (Bool-cases (ltb c (length text))) [
    | inr last ↦ rw last here
    | inl inside ↦
        let (from, to, on, between) =
          next_boundary_lem (length text - (c + 1)) text (c + 1) (ground arith) (omega arith) in
        rw inside to
  ]

  word_end-le :
      (start : ℕ)
      → start ≤ length text
      → (let word = skip_forward (length text - start) is_ascii_whitespace text start in
          let pos = skip_forward (length text - word) is_word_byte text word in
          if ltb (c + 1) pos then pos - 1 else pos)
        ≤ length text
  word_end-le start le =
      let word = skip_forward (length text - start) is_ascii_whitespace text start in
      let (from, to, blanks, stops) =
        skip_forward_lem (length text - start) is_ascii_whitespace text start le (omega arith) in
      let (from2, to2, all2, stops2) =
        skip_forward_lem (length text - word) is_word_byte text word to (omega arith) in
      ground arith

  pub move_word_end-le : move_word_end text c ≤ length text
  unfolding move_word_end
  move_word_end-le = elim (Bool-cases (ltb c (length text))) [
    | inl inside ↦ rw inside (word_end-le (c + 1) (ground arith))
    | inr last ↦ rw last (word_end-le c here)
  ]
