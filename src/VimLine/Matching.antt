-- ===== src/VimLine/Matching.antt =====
-- The search for the closing bracket against the nesting of the brackets.
use cem.Prelude.{
  ℕ, zero, suc, ◌+◌, ◌≤◌, ◌<◌, ◌≡◌, refl, ap, true, false, some, [], ◌∷◌, arith, ◌==◌, get_elem?,
  take, if◌then◌else◌,
}
use cem.VimLine.Text.{Text}

-- How often a byte stands in a text.
unfoldable pub count : ℕ → Text → ℕ
count b [] = 0
count b (c ∷ cs) = if c == b then suc (count b cs) else count b cs

-- With `depth` brackets open before the text, position k of it holds the bracket that closes the
-- first of them: the bracket is a closing one, it leaves none open, and before it at least one is.
unfoldable pub Matches : ℕ → ℕ → ℕ → Text → ℕ → Type 0
unfolding count
Matches open_byte close_byte depth text k =
    (get_elem? text k ≡ some close_byte)
    × (depth + count open_byte (take k text) ≡ count close_byte (take k text) + 1)
    × ((j : ℕ) → j ≤ k → count close_byte (take j text) < depth + count open_byte (take j text))

count-cons : (x b : ℕ) (cs : Text) → count x (b ∷ cs) ≡ count x (b ∷ []) + count x cs
unfolding count
count-cons x b cs = ground arith

pub count-hit : (x b : ℕ) → (b == x) ≡ true → count x (b ∷ []) ≡ 1
unfolding count
count-hit x b h = ground arith

pub count-miss : (x b : ℕ) → (b == x) ≡ false → count x (b ∷ []) ≡ 0
unfolding count
count-miss x b h = ground arith

count-nil : (x : ℕ) → count x [] ≡ 0
unfolding count
count-nil x = refl

module _ (open_byte close_byte : ℕ) where
  open_further :
      (b depth : ℕ) (bs : Text) (k deeper : ℕ)
      → 0 < depth
      → depth + count open_byte (b ∷ []) ≡ deeper + count close_byte (b ∷ [])
      → ((j : ℕ) → j ≤ k → count close_byte (take j bs) < deeper + count open_byte (take j bs))
      → (j : ℕ) → j ≤ suc k
      → count close_byte (take j (b ∷ bs)) < depth + count open_byte (take j (b ∷ bs))
  open_further b depth bs k deeper pos change before zero le =
      omega (arith, count-nil open_byte, count-nil close_byte)
  open_further b depth bs k deeper pos change before (suc j) le =
      let inner = before j (omega arith) in
      omega (arith, inner, count-cons open_byte b (take j bs), count-cons close_byte b (take j bs))

  -- What one more byte in front does to a match.
  pub Matches-further :
      (b depth : ℕ) (bs : Text) (k deeper : ℕ)
      → 0 < depth
      → depth + count open_byte (b ∷ []) ≡ deeper + count close_byte (b ∷ [])
      → Matches open_byte close_byte deeper bs k
      → Matches open_byte close_byte depth (b ∷ bs) (suc k)
  unfolding Matches
  Matches-further b depth bs k deeper pos change (here, balance, before) = (
    here,
    omega (arith, count-cons open_byte b (take k bs), count-cons close_byte b (take k bs)),
    open_further b depth bs k deeper pos change before,
  )

  -- The bracket is the first byte.
  pub Matches-here :
      (b depth : ℕ) (bs : Text)
      → (b == close_byte) ≡ true
      → (depth == 1) ≡ true
      → Matches open_byte close_byte depth (b ∷ bs) 0
  unfolding Matches
  Matches-here b depth bs closes one =
      let same_as : b ≡ close_byte = ground arith in
      let single : depth ≡ 1 = ground arith in
      (
        ap some same_as,
        omega (arith, count-nil open_byte, count-nil close_byte),
        λ j le.
            let first : j ≡ 0 = omega arith in
            rw first (omega (arith, count-nil open_byte, count-nil close_byte)),
      )

  -- What is left of a match behind the first byte.
  pub Matches-nearer :
      (b depth : ℕ) (bs : Text) (k deeper : ℕ)
      → depth + count open_byte (b ∷ []) ≡ deeper + count close_byte (b ∷ [])
      → Matches open_byte close_byte depth (b ∷ bs) (suc k)
      → Matches open_byte close_byte deeper bs k
  unfolding Matches
  Matches-nearer b depth bs k deeper change (here, balance, before) = (
    here,
    omega (arith, count-cons open_byte b (take k bs), count-cons close_byte b (take k bs)),
    λ j le. omega (
      arith,
      before (suc j) (omega arith),
      count-cons open_byte b (take j bs),
      count-cons close_byte b (take j bs),
    ),
  )

  -- A match at the first byte is with one bracket open.
  pub Matches-first :
      (b depth : ℕ) (bs : Text)
      → Matches open_byte close_byte depth (b ∷ bs) 0
      → (b ≡ close_byte) × (depth ≡ 1)
  unfolding Matches
  Matches-first b depth bs (here, balance, before) =
      (cc, omega (arith, count-nil open_byte, count-nil close_byte))

  -- A closing bracket in front of a match leaves a bracket open.
  pub Matches-open :
      (b depth : ℕ) (bs : Text) (k : ℕ)
      → (b == close_byte) ≡ true
      → (b == open_byte) ≡ false
      → Matches open_byte close_byte depth (b ∷ bs) (suc k)
      → 1 < depth
  unfolding Matches
  Matches-open b depth bs k closes other (here, balance, before) =
      omega
        (arith, before 1 (omega arith), count-hit close_byte b closes, count-miss open_byte b other)
