-- ===== src/Compiler/TypeChecker/Sound/Words.antt =====
-- The signatures of the built-in words are simple: concrete types and variables over one row variable,
-- and no variable in the outputs that is not in the inputs.
use cem.Compiler.Types.{int, bool, StackType, row_var, push, pure_effect}
use cem.Builtins.{
  Builtin, i_add, i_subtract, i_multiply, i_divide, i_modulo, i_eq, i_lt, i_gt, i_lte, i_gte, i_neq,
  logical_and, logical_or, logical_not, band, bor, bxor, shl, shr, bnot, popcount, clz, ctz,
  int_bits, dup, drop, swap, over, rot, nip, tuck, two_dup, pick, roll, signature,
}
use cem.Builtins.Sound.{IsExact}
use cem.Compiler.TypeChecker.Apply.Rigid.{IsSimple}

abbrev row : StackType
row = row_var "a"

int_int_to_int-IsSimple : IsSimple (pure_effect (push (push row int) int) (push row int))
unfolding push pure_effect
int_int_to_int-IsSimple = record {
  simple_inputs = ((tt, tt), tt);
  simple_outputs = (tt, tt);
  covers = λ P R h. (h.0.0, tt);
}

int_int_to_int_bool-IsSimple :
    IsSimple (pure_effect (push (push row int) int) (push (push row int) bool))
unfolding push pure_effect
int_int_to_int_bool-IsSimple = record {
  simple_inputs = ((tt, tt), tt);
  simple_outputs = ((tt, tt), tt);
  covers = λ P R h. ((h.0.0, tt), tt);
}

int_int_to_bool-IsSimple : IsSimple (pure_effect (push (push row int) int) (push row bool))
unfolding push pure_effect
int_int_to_bool-IsSimple = record {
  simple_inputs = ((tt, tt), tt);
  simple_outputs = (tt, tt);
  covers = λ P R h. (h.0.0, tt);
}

int_to_int-IsSimple : IsSimple (pure_effect (push row int) (push row int))
unfolding push pure_effect
int_to_int-IsSimple = record {
  simple_inputs = (tt, tt);
  simple_outputs = (tt, tt);
  covers = λ P R h. (h.0, tt);
}

pub signature-IsSimple : (w : Builtin) → IsExact w → IsSimple (signature w)
unfolding signature push pure_effect
signature-IsSimple i_add e = int_int_to_int-IsSimple
signature-IsSimple i_subtract e = int_int_to_int-IsSimple
signature-IsSimple i_multiply e = int_int_to_int-IsSimple
signature-IsSimple i_divide e = int_int_to_int_bool-IsSimple
signature-IsSimple i_modulo e = int_int_to_int_bool-IsSimple
signature-IsSimple i_eq e = int_int_to_bool-IsSimple
signature-IsSimple i_lt e = int_int_to_bool-IsSimple
signature-IsSimple i_gt e = int_int_to_bool-IsSimple
signature-IsSimple i_lte e = int_int_to_bool-IsSimple
signature-IsSimple i_gte e = int_int_to_bool-IsSimple
signature-IsSimple i_neq e = int_int_to_bool-IsSimple
signature-IsSimple logical_and e = absurd e
signature-IsSimple logical_or e = absurd e
signature-IsSimple logical_not e = absurd e
signature-IsSimple band e = int_int_to_int-IsSimple
signature-IsSimple bor e = int_int_to_int-IsSimple
signature-IsSimple bxor e = int_int_to_int-IsSimple
signature-IsSimple shl e = int_int_to_int-IsSimple
signature-IsSimple shr e = int_int_to_int-IsSimple
signature-IsSimple bnot e = int_to_int-IsSimple
signature-IsSimple popcount e = int_to_int-IsSimple
signature-IsSimple clz e = int_to_int-IsSimple
signature-IsSimple ctz e = int_to_int-IsSimple
signature-IsSimple int_bits e = record {
  simple_inputs = tt;
  simple_outputs = (tt, tt);
  covers = λ P R h. (h, tt);
}
signature-IsSimple dup e = record {
  simple_inputs = (tt, tt);
  simple_outputs = ((tt, tt), tt);
  covers = λ P R h. (h, h.1);
}
signature-IsSimple drop e = record {
  simple_inputs = (tt, tt);
  simple_outputs = tt;
  covers = λ P R h. h.0;
}
signature-IsSimple swap e = record {
  simple_inputs = ((tt, tt), tt);
  simple_outputs = ((tt, tt), tt);
  covers = λ P R h. ((h.0.0, h.1), h.0.1);
}
signature-IsSimple over e = record {
  simple_inputs = ((tt, tt), tt);
  simple_outputs = (((tt, tt), tt), tt);
  covers = λ P R h. (h, h.0.1);
}
signature-IsSimple rot e = record {
  simple_inputs = (((tt, tt), tt), tt);
  simple_outputs = (((tt, tt), tt), tt);
  covers = λ P R h. (((h.0.0.0, h.0.1), h.1), h.0.0.1);
}
signature-IsSimple nip e = record {
  simple_inputs = ((tt, tt), tt);
  simple_outputs = (tt, tt);
  covers = λ P R h. (h.0.0, h.1);
}
signature-IsSimple tuck e = record {
  simple_inputs = ((tt, tt), tt);
  simple_outputs = (((tt, tt), tt), tt);
  covers = λ P R h. (((h.0.0, h.1), h.0.1), h.1);
}
signature-IsSimple two_dup e = record {
  simple_inputs = ((tt, tt), tt);
  simple_outputs = ((((tt, tt), tt), tt), tt);
  covers = λ P R h. ((h, h.0.1), h.1);
}
signature-IsSimple pick e = absurd e
signature-IsSimple roll e = absurd e
