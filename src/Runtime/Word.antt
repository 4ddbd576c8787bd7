-- ===== src/Runtime/Word.antt =====
-- `i64` as its bit pattern, a number below 2 ^ 64: the operations of Rust that the runtime uses.
pub mod Laws
pub mod Bounds
pub mod Division
use cem.Prelude.{
  ℕ, zero, suc, ◌+◌, ◌-◌, ◌*◌, ◌/◌, ◌%◌, ◌^◌, min, max, Bool, true, false, not, ltb, leb, ◌==◌,
  if◌then◌else◌,
}
use cem.Prelude.Int.{ℤ, pos, negsuc, ltb_ℤ}

abbrev pub modulus : ℕ
modulus = 2 ^ 64

abbrev pub half : ℕ
half = 2 ^ 63

-- The integer that a pattern stands for.
abbrev pub signed : ℕ → ℤ
signed w = if ltb w half then pos w else negsuc (modulus - w - 1)

abbrev pub is_negative : ℕ → Bool
is_negative w = leb half w

-- |w|, which is 2 ^ 63 for i64::MIN
abbrev pub magnitude : ℕ → ℕ
magnitude w = if ltb w half then w else modulus - w

-- The pattern of m, or of -m.
abbrev pub with_sign : Bool → ℕ → ℕ
with_sign negative m = if negative then (modulus - m) % modulus else m % modulus

unfoldable pub wrapping_add : ℕ → ℕ → ℕ
wrapping_add a b = (a + b) % modulus

unfoldable pub wrapping_sub : ℕ → ℕ → ℕ
wrapping_sub a b = (a + modulus - b) % modulus

unfoldable pub wrapping_mul : ℕ → ℕ → ℕ
wrapping_mul a b = (a * b) % modulus

abbrev pub differ : Bool → Bool → Bool
differ true b = not b
differ false b = b

-- Rust's division truncates towards zero; the caller has excluded b = 0.
unfoldable pub wrapping_div : ℕ → ℕ → ℕ
wrapping_div a b = with_sign (differ (is_negative a) (is_negative b)) (magnitude a / magnitude b)

-- The remainder has the sign of the dividend.
unfoldable pub wrapping_rem : ℕ → ℕ → ℕ
wrapping_rem a b = with_sign (is_negative a) (magnitude a % magnitude b)

unfoldable pub lt_i64 : ℕ → ℕ → Bool
lt_i64 a b = ltb_ℤ (signed a) (signed b)

-- The digits of a and b, lowest first, joined by `digit`.
unfoldable pub bitwise : ℕ → (ℕ → ℕ → ℕ) → ℕ → ℕ → ℕ
bitwise zero digit a b = 0
bitwise (suc k) digit a b = digit (a % 2) (b % 2) + 2 * bitwise k digit (a / 2) (b / 2)

abbrev pub xor_digit : ℕ → ℕ → ℕ
xor_digit a b = (a + b) % 2

unfoldable pub band_i64 : ℕ → ℕ → ℕ
band_i64 a b = bitwise 64 min a b

unfoldable pub bor_i64 : ℕ → ℕ → ℕ
bor_i64 a b = bitwise 64 max a b

unfoldable pub bxor_i64 : ℕ → ℕ → ℕ
bxor_i64 a b = bitwise 64 xor_digit a b

unfoldable pub bnot_i64 : ℕ → ℕ
bnot_i64 a = modulus - 1 - a

-- `c as u32`
abbrev pub as_u32 : ℕ → ℕ
as_u32 c = c % 2 ^ 32

-- `v.checked_shl(c).unwrap_or(0)` and `(v as u64).checked_shr(c).unwrap_or(0)`
unfoldable pub checked_shl : ℕ → ℕ → ℕ
checked_shl v c = if ltb c 64 then (v * 2 ^ c) % modulus else 0

unfoldable pub checked_shr : ℕ → ℕ → ℕ
checked_shr v c = if ltb c 64 then v / 2 ^ c else 0

-- The ones among the k lowest digits.
unfoldable pub ones : ℕ → ℕ → ℕ
ones zero v = 0
ones (suc k) v = v % 2 + ones k (v / 2)

-- The zeros above the highest one among k digits.
unfoldable pub zeros_above : ℕ → ℕ → ℕ
zeros_above zero v = 0
zeros_above (suc k) v = if leb (2 ^ k) v then 0 else suc (zeros_above k v)

-- The zeros below the lowest one among k digits.
unfoldable pub zeros_below : ℕ → ℕ → ℕ
zeros_below zero v = 0
zeros_below (suc k) v = if v % 2 == 0 then suc (zeros_below k (v / 2)) else 0

unfoldable pub count_ones : ℕ → ℕ
count_ones v = ones 64 v

unfoldable pub leading_zeros : ℕ → ℕ
leading_zeros v = zeros_above 64 v

unfoldable pub trailing_zeros : ℕ → ℕ
trailing_zeros v = zeros_below 64 v
