-- ===== src/Runtime/Mpmc.antt =====
-- The channels of the crate may (may::sync::mpmc), which the runtime calls: an interface with the documented
-- behaviour, a queue that is first in, first out. A send fails only when no receiver is left; every
-- handle of the runtime holds a receiver beside its sender (ChannelData and WeaveChannelData of
-- crates/core/src/value.rs), so a send through a handle succeeds. A receive on an empty
-- channel blocks, which is `none`.
use cem.Prelude.{Option, none, some, List, [], ◌∷◌, ◌++◌, ◌≡◌}

pub record Mpmc (A : Type 0) : Type 1 where
  pub Chan : Type 0
  pub channel : Chan
  pub send : A → Chan → Chan
  pub recv : Chan → Option (A × Chan)
  -- the messages that have been sent and not received, the oldest first
  pub contents : Chan → List A
  pub contents-channel : contents channel ≡ []
  pub contents-send : (a : A) (c : Chan) → contents (send a c) ≡ contents c ++ a ∷ []
  pub recv-none : (c : Chan) → contents c ≡ [] → recv c ≡ none
  pub recv-some :
      (c : Chan) (a : A) (rest : List A)
      → contents c ≡ a ∷ rest
      → (c' : Chan) × (recv c ≡ some (a, c')) × (contents c' ≡ rest)
