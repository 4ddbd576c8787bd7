-- ===== src/VimLine/Replace.antt =====
-- The order in which a host applies the edits of a key.
use cem.Prelude.{
  ℕ, zero, suc, ◌+◌, ◌-◌, ◌≤◌, ◌<◌, ◌≡◌, refl, sym, ap, ◌∙◌, inl, inr, Bool, true, false, Option,
  none, some, List, [], ◌∷◌, ◌++◌, arith, ltb, leb, ◌==◌, length, get_elem?, take, drop, Bool-cases,
  length-append, take-append-drop, length-take, length-drop,
}
use cem.VimLine.Text.{Text, boundary_byte, is_char_boundary, encode_utf8}
use cem.VimLine.Edit.{TextEdit, delete, insert, apply, char}
use cem.VimLine.Editor.{VimLineEditor, normal}
use cem.VimLine.Motion.{◌>>=◌}
use cem.VimLine.Change.{Reply, char_end}
use cem.VimLine.Handlers.{handle_replace_char, replace_code}
use cem.VimLine.Boundaries.{IsBoundary, next_boundary_lem}
use cem.VimLine.Undo.{
  rest, length-rest, rest-IsBoundary, take-take-append, drop-take-append, get_elem?-drop, le→leb,
}

-- The edits of a list, the first one first.
unfoldable pub apply_in_order : List TextEdit → Text → Option Text
unfolding apply
apply_in_order [] text = some text
apply_in_order (edit ∷ edits) text = apply edit text >>= apply_in_order edits

-- crates/repl/src/app.rs: `for edit in result.edits.into_iter().rev()`
unfoldable pub apply_in_reverse : List TextEdit → Text → Option Text
unfolding apply
apply_in_reverse [] text = some text
apply_in_reverse (edit ∷ edits) text = apply_in_reverse edits text >>= apply edit

module _ {ℓ} {A : Type ℓ} where
  take-middle :
      (n : ℕ) (xs ys zs : List A) → n ≤ length xs → take n (take n xs ++ ys ++ zs) ≡ take n xs
  take-middle zero xs ys zs h = refl
  take-middle (suc n) [] ys zs h = absurd (omega arith)
  take-middle (suc n) (x ∷ xs) ys zs h = ap (λ ws. x ∷ ws) (take-middle n xs ys zs (omega arith))

  drop-prefix : (n : ℕ) (xs ys : List A) → length xs ≡ n → drop n (xs ++ ys) ≡ ys
  drop-prefix zero [] ys h = refl
  drop-prefix zero (x ∷ xs) ys h = absurd (omega arith)
  drop-prefix (suc n) [] ys h = absurd (omega arith)
  drop-prefix (suc n) (x ∷ xs) ys h = drop-prefix n xs ys (omega arith)

boundary_byte-middle :
    (n : ℕ) (xs ys zs : Text)
    → n ≤ length xs
    → boundary_byte (get_elem? ys 0) ≡ true
    → boundary_byte (get_elem? (take n xs ++ ys ++ zs) n) ≡ true
boundary_byte-middle zero xs [] zs h first = cc
boundary_byte-middle zero xs (y ∷ ys) zs h first = first
boundary_byte-middle (suc n) [] ys zs h first = absurd (omega arith)
boundary_byte-middle (suc n) (x ∷ xs) ys zs h first =
    boundary_byte-middle n xs ys zs (omega arith) first

-- The edits of a replacement, the deletion first.
module _ (text new : Text) (start stop : ℕ) (ordered : start ≤ stop) (inside : stop ≤ length text)
    (on_start : IsBoundary text start) (on_stop : IsBoundary text stop) where
  pub apply_in_reverse-replace :
      apply_in_reverse (insert start new ∷ delete start stop ∷ []) text
      ≡ some (take start text ++ new ++ drop stop text)
  unfolding apply_in_reverse apply
  apply_in_reverse-replace =
      let fits : leb start (length (rest text start stop)) ≡ true =
        ground (arith, length-rest text start stop ordered inside on_start on_stop) in
      rw (le→leb start stop ordered, le→leb stop (length text) inside, on_start, on_stop)
        (rw (fits, rest-IsBoundary text start stop ordered inside on_start on_stop)
          (rw
            (
              take-take-append start text (drop stop text) (omega arith),
              drop-take-append start text (drop stop text) (omega arith),
            )
            refl))

abbrev inserted : Text → Text → ℕ → Text
inserted text new start = take start text ++ new ++ drop start text

module _ (text new : Text) (start stop : ℕ) (ordered : start < stop) (inside : stop ≤ length text)
    (on_start : boundary_byte (get_elem? text start) ≡ true) (width : length new ≡ stop - start)
    (first : boundary_byte (get_elem? new 0) ≡ true) where
  length-before : length (take start text ++ new) ≡ stop
  length-before = omega (arith, length-append (take start text) new, length-take start text)

  drop-inserted : drop stop (inserted text new start) ≡ drop start text
  drop-inserted = drop-prefix stop (take start text ++ new) (drop start text) length-before

  take-inserted : take start (inserted text new start) ≡ take start text
  take-inserted = take-middle start text new (drop start text) (omega arith)

  length-inserted : length (inserted text new start) ≡ stop + (length text - start)
  length-inserted = omega (
    arith,
    length-before,
    length-append (take start text ++ new) (drop start text),
    length-drop start text,
  )

  byte_after : get_elem? (inserted text new start) stop ≡ get_elem? text start
  byte_after =
      sym (get_elem?-drop stop (inserted text new start))
      ∙ ap (λ ys. get_elem? ys 0) drop-inserted
      ∙ get_elem?-drop start text

  IsBoundary-byte : IsBoundary text start
  unfolding is_char_boundary
  IsBoundary-byte =
      let before : (start == length text) ≡ false = ground arith in
      elim (Bool-cases (start == 0)) [ inl z ↦ rw z refl | inr z ↦ rw (z, before) on_start ]

  IsBoundary-start : IsBoundary (inserted text new start) start
  unfolding is_char_boundary
  IsBoundary-start = elim (Bool-cases (start == 0)) [
    | inl z ↦ rw z refl
    | inr z ↦
        let before : (start == length (inserted text new start)) ≡ false =
          ground (arith, length-inserted) in
        rw (z, before) (boundary_byte-middle start text new (drop start text) (omega arith) first)
  ]

  IsBoundary-stop : IsBoundary (inserted text new start) stop
  unfolding is_char_boundary
  IsBoundary-stop =
      let not_first : (stop == 0) ≡ false = ground arith in
      let last : (stop == length (inserted text new start)) ≡ false =
        ground (arith, length-inserted) in
      rw (not_first, last, byte_after) on_start

  pub apply_in_order-replace :
      apply_in_order (insert start new ∷ delete start stop ∷ []) text ≡ some text
  unfolding apply_in_order apply
  apply_in_order-replace =
      let fits : leb start (length text) ≡ true = ground arith in
      let fits_after : leb stop (length (inserted text new start)) ≡ true =
        ground (arith, length-inserted) in
      rw (fits, IsBoundary-byte)
        (rw
          (
            le→leb start stop (omega arith),
            fits_after,
            IsBoundary-start,
            IsBoundary-stop,
            take-inserted,
            drop-inserted,
          )
          (ap some (take-append-drop start text)))

-- `r` and a character, in Replace mode with the cursor on a character of the text: with the edits
-- applied in reverse, as the host of the repository does, the character's UTF-8 bytes stand where
-- those of the character under the cursor stood, and all else is kept.
pub handle_replace_char-in_reverse :
    (e : VimLineEditor) (c : ℕ) (shift : Bool) (text : Text)
    → e.cursor < length text
    → IsBoundary text e.cursor
    → (r : Reply) × (handle_replace_char e
          (record { code = char c; ctrl = false; alt = false; shift = shift })
          text
        ≡ some r)
      × (apply_in_reverse r.1.edits text
          ≡ some (take e.cursor text ++ encode_utf8 c ++ drop (char_end text e.cursor) text))
unfolding handle_replace_char replace_code char_end
handle_replace_char-in_reverse e c shift text inside on =
    let outside : leb (length text) e.cursor ≡ false = ground arith in
    let (from, to, on_end, between) =
      next_boundary_lem (length text - (e.cursor + 1)) text (e.cursor + 1) (omega arith)
        (omega arith) in
    (
      (
        record e { mode = normal },
        record {
          edits = insert e.cursor (encode_utf8 c) ∷ delete e.cursor (char_end text e.cursor) ∷ [];
          yanked = none;
          action = none;
        },
      ),
      rw outside refl,
      apply_in_reverse-replace text (encode_utf8 c) e.cursor (char_end text e.cursor) (omega arith)
          to on on_end,
    )

-- A host that applies the edits in their order, as the comment on `EditResult` says, keeps the text
-- as it was: `r` and an ASCII character, with the cursor on a character of one byte, is then
-- lost, since the deletion takes the inserted character.
pub handle_replace_char-in_order :
    (e : VimLineEditor) (c : ℕ) (shift : Bool) (text : Text)
    → c < 0x80
    → e.cursor < length text
    → boundary_byte (get_elem? text e.cursor) ≡ true
    → char_end text e.cursor ≡ e.cursor + 1
    → (r : Reply) × (handle_replace_char e
          (record { code = char c; ctrl = false; alt = false; shift = shift })
          text
        ≡ some r)
      × (apply_in_order r.1.edits text ≡ some text)
unfolding handle_replace_char replace_code encode_utf8
handle_replace_char-in_order e c shift text ascii inside on width =
    let outside : leb (length text) e.cursor ≡ false = ground arith in
    let small : ltb c 0x80 ≡ true = ground arith in
    let starts : boundary_byte (some c) ≡ true = ground arith in
    (
      (
        record e { mode = normal },
        record {
          edits = insert e.cursor (c ∷ []) ∷ delete e.cursor (e.cursor + 1) ∷ [];
          yanked = none;
          action = none;
        },
      ),
      rw (outside, small, width) refl,
      apply_in_order-replace text (c ∷ []) e.cursor (e.cursor + 1) (omega arith) (omega arith) on
          (omega arith) starts,
    )
