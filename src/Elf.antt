-- ===== src/Elf.antt =====
-- kernel/runtime/elf64.c and include/clks/elf64.h: checking and loading a program image. The image is
-- an array of bytes with its size, read as little-endian; memory is another array of bytes. The block
-- for the program comes from an allocator; the lines that are logged are not modelled.
pub mod Image
pub mod Loader
mod Checks
mod Placement
mod Outcome
mod Tests
use clks.Base.{ℕ, zero, suc, ◌+◌, ◌*◌, ◌/◌, ◌%◌, Array, update}

-- `n` bytes from `at` on as a number, lowest byte first.
pub read_le : ℕ → Array ℕ → ℕ → ℕ
read_le zero f at = 0
read_le (suc n) f at = f at + 256 * read_le n f (at + 1)

-- The same stored.
pub write_le : ℕ → ℕ → ℕ → Array ℕ → Array ℕ
write_le zero v at m = m
write_le (suc n) v at m = write_le n (v / 256) (at + 1) (update m at (v % 256))
