-- ===== src/Disk/Stored.antt =====
-- kernel/storage/disk/byteorder.inc: what is written is read again.
use clks.Base.{ℕ, ◌+◌, ◌%◌, ◌^◌, ◌≤◌, ◌<◌, ◌≡◌, arith, ◌⊎◌, Array}
use clks.Disk.{read_u32, write_u32}

pub read_u32-write_u32 : (b : Array ℕ) (at v : ℕ) → read_u32 (write_u32 b at v) at ≡ v % 2 ^ 32
unfolding read_u32 write_u32
read_u32-write_u32 b at v = ground arith

pub write_u32_apart :
    (b : Array ℕ) (at v j : ℕ) → (j < at) ⊎ (at + 4 ≤ j) → write_u32 b at v j ≡ b j
unfolding write_u32
write_u32_apart b at v j apart = ground arith

pub read_u32_same :
    (b m : Array ℕ) (at : ℕ)
    → ((j : ℕ) → at ≤ j → j < at + 4 → b j ≡ m j)
    → read_u32 b at ≡ read_u32 m at
unfolding read_u32
read_u32_same b m at same = omega (
  arith,
  same at (omega arith) (omega arith),
  same (at + 1) (omega arith) (omega arith),
  same (at + 2) (omega arith) (omega arith),
  same (at + 3) (omega arith) (omega arith),
)

pub write_u32_same :
    (b m : Array ℕ) (at v j : ℕ) → b j ≡ m j → write_u32 b at v j ≡ write_u32 m at v j
unfolding write_u32
write_u32_same b m at v j same = ground arith
