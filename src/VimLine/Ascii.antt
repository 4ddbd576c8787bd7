-- ===== src/VimLine/Ascii.antt =====
-- Texts of ASCII characters, where newlines are found, and where the blanks of a line end.
use cem.Prelude.{
  ℕ, zero, suc, ◌+◌, ◌-◌, ◌≤◌, ◌<◌, ◌≡◌, ◌≢◌, refl, inl, inr, Bool, true, ◌||◌, none, some, [], ◌∷◌,
  arith, ◌==◌, length, get_elem?, take, drop, if◌then◌else◌, Bool-cases, Option-cases, length-drop,
}
use cem.VimLine.Text.{
  Text, newline, is_char_boundary, slice, find_newline, rfind_newline, blank_width,
}
use cem.VimLine.Motion.{first_non_blank}
use cem.VimLine.Undo.{le→leb}

-- Every byte of the text is an ASCII character.
unfoldable pub IsAscii : Text → Type 0
IsAscii text = (i b : ℕ) → get_elem? text i ≡ some b → b < 0x80

pub get_elem?-lt : (text : Text) (i : ℕ) → i < length text → (b : ℕ) × (get_elem? text i ≡ some b)
get_elem?-lt [] i h = absurd (omega arith)
get_elem?-lt (b ∷ bs) zero h = (b, refl)
get_elem?-lt (b ∷ bs) (suc i) h = get_elem?-lt bs i (omega arith)

pub some-injective : {a b : ℕ} → some a ≡ some b → a ≡ b
some-injective h = cc

some-ne : (a b : ℕ) → some a ≡ some b → a ≢ b → ⊥
some-ne a b h differ = differ (some-injective h)

pub find_newline-lt : (text : Text) (i : ℕ) → find_newline text ≡ some i → i < length text
unfolding find_newline
find_newline-lt [] i h = cc
find_newline-lt (b ∷ bs) zero h = omega arith
find_newline-lt (b ∷ bs) (suc i) h = elim (Bool-cases (b == newline)) [
  | inl hit ↦
      let zeroth : some 0 ≡ some (suc i) = rw hit at h in
      absurd (some-ne 0 (suc i) zeroth (omega arith))
  | inr miss ↦ elim (Option-cases (find_newline bs)) [
    | inl nowhere ↦ let lost : none ≡ some (suc i) = rw (miss, nowhere) at h in cc
    | inr (k, found) ↦
        let eq : some (suc k) ≡ some (suc i) = rw (miss, found) at h in
        omega (arith, some-injective eq, find_newline-lt bs k found)
  ]
]

pub rfind_newline-lt : (text : Text) (i : ℕ) → rfind_newline text ≡ some i → i < length text
unfolding rfind_newline
rfind_newline-lt [] i h = cc
rfind_newline-lt (b ∷ bs) zero h = omega arith
rfind_newline-lt (b ∷ bs) (suc i) h = elim (Option-cases (rfind_newline bs)) [
  | inl nowhere ↦ elim (Bool-cases (b == newline)) [
    | inl hit ↦
        let zeroth : some 0 ≡ some (suc i) = rw (nowhere, hit) at h in
        absurd (some-ne 0 (suc i) zeroth (omega arith))
    | inr miss ↦ let lost : none ≡ some (suc i) = rw (nowhere, miss) at h in cc
  ]
  | inr (k, found) ↦
      let eq : some (suc k) ≡ some (suc i) = rw found at h in
      omega (arith, some-injective eq, rfind_newline-lt bs k found)
]

choice-le :
    (p q r : Bool) (n : ℕ)
    → (if p then 1 else if q then 2 else if r then 3 else 0) ≤ suc (suc (suc n))
choice-le p q r n = ground arith

blank_width-le : (text : Text) → blank_width text ≤ length text
unfolding blank_width
blank_width-le [] = omega arith
blank_width-le (b ∷ []) = ground arith
blank_width-le (b ∷ c ∷ []) = ground arith
blank_width-le (b ∷ c ∷ d ∷ rest) = choice-le _ _ _ (length rest)

pub first_non_blank-le :
    (fuel : ℕ) (bytes : Text) (i j : ℕ)
    → first_non_blank fuel bytes i ≡ some j
    → j ≤ i + length bytes
unfolding first_non_blank
first_non_blank-le zero bytes i j h = cc
first_non_blank-le (suc fuel) [] i j h = let eq : i ≡ j = cc in omega arith
first_non_blank-le (suc fuel) (b ∷ bs) i j h =
    let w = blank_width (b ∷ bs) in
    let fits = blank_width-le (b ∷ bs) in
    elim (Bool-cases (b == newline || w == 0)) [
      | inl stop ↦ let here : some i ≡ some j = rw stop at h in omega (arith, some-injective here)
      | inr on ↦
          let later : first_non_blank fuel (drop w (b ∷ bs)) (i + w) ≡ some j = rw on at h in
          omega (
            arith,
            first_non_blank-le fuel (drop w (b ∷ bs)) (i + w) j later,
            length-drop w (b ∷ bs),
            fits,
          )
    ]

module _ (text : Text) (ascii : IsAscii text) where
  pub ascii-IsBoundary : (i : ℕ) → i ≤ length text → is_char_boundary text i ≡ true
  unfolding is_char_boundary IsAscii
  ascii-IsBoundary i h = elim (Bool-cases (i == length text)) [
    | inl e ↦ rw e (ground arith)
    | inr e ↦
        let (b, found) = get_elem?-lt text i (ground arith) in
        let small = ascii i b found in rw (e, found) (ground arith)
  ]

  pub slice-ascii :
      (start stop : ℕ)
      → start ≤ stop
      → stop ≤ length text
      → slice text start stop ≡ some (take (stop - start) (drop start text))
  unfolding slice
  slice-ascii start stop ordered inside =
      rw
        (
          le→leb start stop ordered,
          le→leb stop (length text) inside,
          ascii-IsBoundary start (omega arith),
          ascii-IsBoundary stop inside,
        )
        refl
