-- ===== src/VimLine/BracketSearch.antt =====
-- crates/vim-line/src/vim.rs: what `find_matching_forward` finds.
use cem.Prelude.{
  ℕ, zero, suc, ◌+◌, ◌-◌, ◌≤◌, ◌<◌, ◌≡◌, ◌≢◌, ◌↔◌, refl, ap, ◌∙◌, subst, inl, inr, true, false,
  some, List, [], ◌∷◌, arith, ◌==◌, length, take, drop, Bool-cases, length-drop,
}
use cem.VimLine.Text.{Text, slice}
use cem.VimLine.Bracket.{scan_forward, find_matching_forward}
use cem.VimLine.Undo.{le→leb}
use cem.VimLine.Boundaries.{IsBoundary, IsBoundary-length}
use cem.VimLine.Matching.{
  Matches, count-hit, count-miss, Matches-further, Matches-here, Matches-nearer, Matches-first,
  Matches-open,
}

module _ (open_byte close_byte : ℕ) where
  scan_forward_lem :
      (text : Text) (i depth p : ℕ)
      → open_byte ≢ close_byte
      → 0 < depth
      → scan_forward open_byte close_byte text i depth ≡ some p
      → (k : ℕ) × (p ≡ i + k) × Matches open_byte close_byte depth text k
  unfolding scan_forward
  scan_forward_lem [] i depth p differ pos h = cc
  scan_forward_lem (b ∷ bs) i depth p differ pos h = elim (Bool-cases (b == open_byte)) [
    | inl opens ↦
        let other : (b == close_byte) ≡ false = ground arith in
        let (k, at, found) =
          scan_forward_lem bs (i + 1) (depth + 1) p differ (omega arith) (rw opens at h) in
        (
          suc k,
          omega arith,
          Matches-further open_byte close_byte b depth bs k (depth + 1) pos
              (omega (arith, count-hit open_byte b opens, count-miss close_byte b other)) found,
        )
    | inr other ↦ elim (Bool-cases (b == close_byte)) [
      | inl closes ↦ elim (Bool-cases (depth == 1)) [
        | inl one ↦
            let here : some i ≡ some p = rw (other, closes, one) at h in
            let eq : i ≡ p = cc in
            (0, omega arith, Matches-here open_byte close_byte b depth bs closes one)
        | inr more ↦
            let rest : scan_forward open_byte close_byte bs (i + 1) (depth - 1) ≡ some p =
              rw (other, closes, more) at h in
            let (k, at, found) =
              scan_forward_lem bs (i + 1) (depth - 1) p differ (ground arith) rest in
            (
              suc k,
              omega arith,
              Matches-further open_byte close_byte b depth bs k (depth - 1) pos
                  (omega (arith, count-hit close_byte b closes, count-miss open_byte b other))
                  found,
            )
      ]
      | inr neither ↦
          let rest : scan_forward open_byte close_byte bs (i + 1) depth ≡ some p =
            rw (other, neither) at h in
          let (k, at, found) = scan_forward_lem bs (i + 1) depth p differ pos rest in
          (
            suc k,
            omega arith,
            Matches-further open_byte close_byte b depth bs k depth pos
                (omega (arith, count-miss close_byte b neither, count-miss open_byte b other))
                found,
          )
    ]
  ]

  scan_forward_complete :
      (text : Text) (i depth k : ℕ)
      → open_byte ≢ close_byte
      → 0 < depth
      → Matches open_byte close_byte depth text k
      → scan_forward open_byte close_byte text i depth ≡ some (i + k)
  unfolding scan_forward Matches
  scan_forward_complete [] i depth k differ pos (here, balance, before) = cc
  scan_forward_complete (b ∷ bs) i depth zero differ pos m =
      let (closes, one) = Matches-first open_byte close_byte b depth bs m in
      let other : (b == open_byte) ≡ false = ground arith in
      let is_close : (b == close_byte) ≡ true = ground arith in
      let single : (depth == 1) ≡ true = ground arith in
      rw (other, is_close, single) (let eq : i ≡ i + 0 = omega arith in cc)
  scan_forward_complete (b ∷ bs) i depth (suc k) differ pos m =
      let shift : i + 1 + k ≡ i + suc k = omega arith in
      elim (Bool-cases (b == open_byte)) [
        | inl opens ↦
            let other : (b == close_byte) ≡ false = ground arith in
            let inner =
              Matches-nearer open_byte close_byte b depth bs k (depth + 1)
                (omega (arith, count-hit open_byte b opens, count-miss close_byte b other)) m in
            rw opens (
              scan_forward_complete bs (i + 1) (depth + 1) k differ (omega arith) inner
              ∙ ap some shift)
        | inr other ↦ elim (Bool-cases (b == close_byte)) [
          | inl closes ↦
              let open_before = Matches-open open_byte close_byte b depth bs k closes other m in
              let more : (depth == 1) ≡ false = ground arith in
              let inner =
                Matches-nearer open_byte close_byte b depth bs k (depth - 1)
                  (omega (arith, count-hit close_byte b closes, count-miss open_byte b other)) m in
              rw (other, closes, more)
                (scan_forward_complete bs (i + 1) (depth - 1) k differ (omega arith) inner
                  ∙ ap some shift)
          | inr neither ↦
              let inner =
                Matches-nearer open_byte close_byte b depth bs k depth
                  (omega (arith, count-miss close_byte b neither, count-miss open_byte b other))
                  m in
              rw (other, neither)
                (scan_forward_complete bs (i + 1) depth k differ pos inner ∙ ap some shift)
        ]
      ]

take-all {ℓ} : {A : Type ℓ} (n : ℕ) (xs : List A) → length xs ≤ n → take n xs ≡ xs
take-all zero [] h = refl
take-all zero (x ∷ xs) h = absurd (omega arith)
take-all (suc n) [] h = refl
take-all (suc n) (x ∷ xs) h = ap (λ ys. x ∷ ys) (take-all n xs (omega arith))

-- A slice to the end of the text is what is left of it.
pub slice-tail :
    (text : Text) (start : ℕ)
    → start ≤ length text
    → IsBoundary text start
    → slice text start (length text) ≡ some (drop start text)
unfolding slice
slice-tail text start inside on =
    let all =
      take-all (length text - start) (drop start text) (omega (arith, length-drop start text)) in
    rw
      (
        le→leb start (length text) inside,
        le→leb (length text) (length text) (omega arith),
        on,
        IsBoundary-length text,
        all,
      )
      refl

-- `%` on an opening bracket, from a cursor with a boundary after it: the search gives a position
-- exactly if that position, k bytes after the next one, matches: it holds the closing bracket, and
-- counted from the bracket under the cursor on it is the first place where all are closed.
pub find_matching_forward_lem :
    (text : Text) (cursor open_byte close_byte k : ℕ)
    → open_byte ≢ close_byte
    → cursor < length text
    → IsBoundary text (cursor + 1)
    → (find_matching_forward text cursor open_byte close_byte ≡ some (some (cursor + 1 + k)))
      ↔ Matches open_byte close_byte 1 (drop (cursor + 1) text) k
unfolding find_matching_forward
find_matching_forward_lem text cursor open_byte close_byte k differ inside on =
    let tail = drop (cursor + 1) text in
    rw (slice-tail text (cursor + 1) (omega arith) on) (
      (λ h.
          let found : scan_forward open_byte close_byte tail (cursor + 1) 1
              ≡ some (cursor + 1 + k) =
            cc in
          let (at, where_at, m) =
            scan_forward_lem open_byte close_byte tail (cursor + 1) 1 (cursor + 1 + k) differ
              (omega arith) found in
          let same_as : at ≡ k = omega arith in
          subst (λ q. Matches open_byte close_byte 1 tail q) same_as m),
      (λ m. ap some (
          scan_forward_complete open_byte close_byte tail (cursor + 1) 1 k differ (omega arith) m)),
    )
