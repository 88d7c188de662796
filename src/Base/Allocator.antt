-- ===== src/Base/Allocator.antt =====
-- The interface of the kernel heap that its clients use.
use Prim.Native.Nat.{ℕ}
use mathlib.Core.Option.{Option}

-- The operations of an allocator; a null pointer is `none`.
pub record Allocator : Type 1 where
  pub Store : Type 0
  pub alloc : ℕ → Store → Option ℕ × Store
  pub free : Option ℕ → Store → Store
