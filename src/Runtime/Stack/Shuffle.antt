-- ===== src/Runtime/Stack/Shuffle.antt =====
-- The stack words in terms of one another.
use cem.Prelude.{◌≡◌, refl, [], ◌∷◌}
use cem.Runtime.Stack.{
  Stack, Run, done, flagged, panicked, undefined, drop_op, swap, over, rot, nip, tuck, two_dup,
}

-- One operation after another.
abbrev pub and_then : Run Stack → (Stack → Run Stack) → Run Stack
and_then (done s) f = f s
and_then (flagged e s) f = f s
and_then (panicked name) f = panicked name
and_then undefined f = undefined

-- How five pairs of word sequences agree on a stack.
pub record ShuffleLaws (s : Stack) : Type 0 where
  pub nip_swap_drop : nip s ≡ and_then (swap s) drop_op
  pub tuck_swap_over : tuck s ≡ and_then (swap s) over
  pub two_dup_over_over : two_dup s ≡ and_then (over s) over
  pub swap_swap : and_then (and_then (swap s) swap) swap ≡ swap s
  pub rot_rot_rot : and_then (and_then (and_then (rot s) rot) rot) rot ≡ rot s

-- What the words say of one another, on every stack, too short ones included: `nip` is `swap drop`,
-- `tuck` is `swap over`, `2dup` is `over over`, a third `swap` and a fourth `rot` repeat the first.
pub shuffle_laws : (s : Stack) → ShuffleLaws s
unfolding drop_op swap over rot nip tuck two_dup
shuffle_laws [] = record {
  nip_swap_drop = refl;
  tuck_swap_over = refl;
  two_dup_over_over = refl;
  swap_swap = refl;
  rot_rot_rot = refl;
}
shuffle_laws (c ∷ []) = record {
  nip_swap_drop = refl;
  tuck_swap_over = refl;
  two_dup_over_over = refl;
  swap_swap = refl;
  rot_rot_rot = refl;
}
shuffle_laws (c ∷ b ∷ []) = record {
  nip_swap_drop = refl;
  tuck_swap_over = refl;
  two_dup_over_over = refl;
  swap_swap = refl;
  rot_rot_rot = refl;
}
shuffle_laws (c ∷ b ∷ a ∷ s) = record {
  nip_swap_drop = refl;
  tuck_swap_over = refl;
  two_dup_over_over = refl;
  swap_swap = refl;
  rot_rot_rot = refl;
}
