-- ===== src/VimLine/Undo.antt =====
-- An operator's edit and the text that it yanks.
use cem.Prelude.{
  ℕ, zero, suc, ◌+◌, ◌-◌, ◌≤◌, ◌<◌, min, ◌≡◌, ◌≢◌, refl, ap, ◌∙◌, inl, inr, true, false, some, List,
  [], ◌∷◌, ◌++◌, arith, leb, ◌==◌, length, get_elem?, take, drop, Bool-cases, length-append,
  take-append-drop, length-take, length-drop,
}
use cem.VimLine.Text.{Text, is_char_boundary, boundary_byte, slice}
use cem.VimLine.Edit.{TextEdit, delete, insert, apply, edit_and_yank}
use cem.VimLine.Editor.{VimLineEditor, Operator, Mode, change, yank}
use cem.VimLine.Change.{Reply, apply_operator, paste_before}
use cem.VimLine.Boundaries.{IsBoundary}

module _ {ℓ} {A : Type ℓ} where
  pub take-take-append :
      (n : ℕ) (xs ys : List A) → n ≤ length xs → take n (take n xs ++ ys) ≡ take n xs
  take-take-append zero xs ys h = refl
  take-take-append (suc n) [] ys h = absurd (omega arith)
  take-take-append (suc n) (x ∷ xs) ys h =
      ap (λ zs. x ∷ zs) (take-take-append n xs ys (omega arith))

  pub drop-take-append : (n : ℕ) (xs ys : List A) → n ≤ length xs → drop n (take n xs ++ ys) ≡ ys
  drop-take-append zero xs ys h = refl
  drop-take-append (suc n) [] ys h = absurd (omega arith)
  drop-take-append (suc n) (x ∷ xs) ys h = drop-take-append n xs ys (omega arith)

  pub get_elem?-take-append :
      (n : ℕ) (xs ys : List A) → n ≤ length xs → get_elem? (take n xs ++ ys) n ≡ get_elem? ys 0
  get_elem?-take-append zero xs ys h = refl
  get_elem?-take-append (suc n) [] ys h = absurd (omega arith)
  get_elem?-take-append (suc n) (x ∷ xs) ys h = get_elem?-take-append n xs ys (omega arith)

  pub get_elem?-drop : (n : ℕ) (xs : List A) → get_elem? (drop n xs) 0 ≡ get_elem? xs n
  get_elem?-drop zero xs = refl
  get_elem?-drop (suc n) [] = refl
  get_elem?-drop (suc n) (x ∷ xs) = get_elem?-drop n xs

  take-nil : (n : ℕ) → take {A = A} n [] ≡ []
  take-nil zero = refl
  take-nil (suc n) = refl

  -- A range taken out of a list, between what is before and after it.
  pub take-append-range :
      (start stop : ℕ) (xs : List A)
      → start ≤ stop
      → take start xs ++ take (stop - start) (drop start xs) ++ drop stop xs ≡ xs
  take-append-range zero stop xs h =
      let all : stop - 0 ≡ stop = omega arith in rw all (take-append-drop stop xs)
  take-append-range (suc start) zero xs h = absurd (omega arith)
  take-append-range (suc start) (suc stop) [] h =
      ap (λ ys. ys ++ []) (take-nil (suc stop - suc start))
  take-append-range (suc start) (suc stop) (x ∷ xs) h =
      let width : suc stop - suc start ≡ stop - start = omega arith in
      rw width (ap (λ ys. x ∷ ys) (take-append-range start stop xs (omega arith)))

pub le→leb : (a b : ℕ) → a ≤ b → leb a b ≡ true
le→leb a b h = ground arith

-- The text without a range, and the range.
abbrev pub rest : Text → ℕ → ℕ → Text
rest text start stop = take start text ++ drop stop text

abbrev pub selected : Text → ℕ → ℕ → Text
selected text start stop = take (stop - start) (drop start text)

module _ (text : Text) (start stop : ℕ) (ordered : start ≤ stop) (inside : stop ≤ length text)
    (on_start : IsBoundary text start) (on_stop : IsBoundary text stop) where
  pub slice-some : slice text start stop ≡ some (selected text start stop)
  unfolding slice
  slice-some =
      rw (le→leb start stop ordered, le→leb stop (length text) inside, on_start, on_stop) refl

  pub apply-delete : apply (delete start stop) text ≡ some (rest text start stop)
  unfolding apply
  apply-delete =
      rw (le→leb start stop ordered, le→leb stop (length text) inside, on_start, on_stop) refl

  pub length-rest : length (rest text start stop) ≡ start + (length text - stop)
  length-rest = omega (
    arith,
    length-append (take start text) (drop stop text),
    length-take start text,
    length-drop stop text,
  )

  byte_at : get_elem? (rest text start stop) start ≡ get_elem? text stop
  byte_at =
      get_elem?-take-append start text (drop stop text) (omega arith) ∙ get_elem?-drop stop text

  pub rest-IsBoundary : IsBoundary (rest text start stop) start
  unfolding is_char_boundary
  rest-IsBoundary = elim (Bool-cases (start == 0)) [
    | inl z ↦ rw z refl
    | inr z ↦ elim (Bool-cases (start == length (rest text start stop))) [
      | inl e ↦ rw (z, e) refl
      | inr e ↦
          let not_first : (stop == 0) ≡ false = ground arith in
          let not_last : (stop == length text) ≡ false = ground (arith, length-rest) in
          let byte : boundary_byte (get_elem? text stop) ≡ true =
            rw (not_first, not_last) at on_stop in
          rw (z, e, byte_at) byte
    ]
  ]

  apply-insert : apply (insert start (selected text start stop)) (rest text start stop) ≡ some text
  unfolding apply
  apply-insert =
      let fits : leb start (length (rest text start stop)) ≡ true = ground (arith, length-rest) in
      rw (fits, rest-IsBoundary)
        (rw
          (
            take-take-append start text (drop stop text) (omega arith),
            drop-take-append start text (drop stop text) (omega arith),
          )
          (ap some (take-append-range start stop text ordered)))

  selected-not_empty : start < stop → (length (selected text start stop) == 0) ≡ false
  selected-not_empty lt =
      ground (arith, length-take (stop - start) (drop start text), length-drop start text)

  -- What `paste_before` inserts once the range is deleted and its text yanked.
  paste_before-deleted :
      (e : VimLineEditor)
      → start < stop
      → e.yank_buffer ≡ (selected text start stop)
      → e.cursor ≡ start
      → (paste_before e (rest text start stop)).1.edits
        ≡ insert start (selected text start stop) ∷ []
  unfolding paste_before
  paste_before-deleted e lt yanked there =
      let fits : min start (length (rest text start stop)) ≡ start = omega (arith, length-rest) in
      rw (yanked, there, selected-not_empty lt, fits) refl

-- `paste_before` after `d` or `c` with a motion: on a range of the text that is not empty and between
-- boundaries, the operator answers with the one edit that deletes the range, the edit applies, and
-- the edit of `paste_before`, on what is left, gives the text back.
pub paste_before-apply_operator :
    (op : Operator) (e : VimLineEditor) (text : Text) (start stop : ℕ)
    → op ≢ yank
    → start < stop
    → stop ≤ length text
    → IsBoundary text start
    → IsBoundary text stop
    → (r : Reply) × (left : Text) × (undo : TextEdit) × (apply_operator op e start stop text
        ≡ some r)
      × (r.1.edits ≡ delete start stop ∷ [])
      × (apply (delete start stop) text ≡ some left)
      × ((paste_before r.0 left).1.edits ≡ undo ∷ [])
      × (apply undo left ≡ some text)
unfolding apply_operator
paste_before-apply_operator Operator.delete e text start stop real lt inside on_start on_stop = (
  (
    record e { yank_buffer = selected text start stop; cursor = start },
    edit_and_yank (delete start stop) (selected text start stop),
  ),
  rest text start stop,
  insert start (selected text start stop),
  rw (slice-some text start stop (omega arith) inside on_start on_stop) refl,
  refl,
  apply-delete text start stop (omega arith) inside on_start on_stop,
  paste_before-deleted text start stop (omega arith) inside on_start on_stop _ lt refl refl,
  apply-insert text start stop (omega arith) inside on_start on_stop,
)
paste_before-apply_operator change e text start stop real lt inside on_start on_stop = (
  (
    record e { yank_buffer = selected text start stop; cursor = start; mode = Mode.insert },
    edit_and_yank (delete start stop) (selected text start stop),
  ),
  rest text start stop,
  insert start (selected text start stop),
  rw (slice-some text start stop (omega arith) inside on_start on_stop) refl,
  refl,
  apply-delete text start stop (omega arith) inside on_start on_stop,
  paste_before-deleted text start stop (omega arith) inside on_start on_stop _ lt refl refl,
  apply-insert text start stop (omega arith) inside on_start on_stop,
)
paste_before-apply_operator yank e text start stop real lt inside on_start on_stop =
    absurd (real refl)
