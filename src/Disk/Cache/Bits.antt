-- ===== src/Disk/Cache/Bits.antt =====
-- The bits of a byte, as kernel/storage/disk/cache_io.inc sets and tests them.
use clks.Base.{ℕ, zero, suc, ◌+◌, ◌*◌, ◌/◌, ◌%◌, ◌≡◌, ◌≢◌, arith, refl, true, ap}
use clks.Disk.Cache.{test_bit, set_bit}

half : (b x : ℕ) → (b % 2 + 2 * x) / 2 ≡ x
half b x = omega arith

pub test_bit-set_bit : (k b : ℕ) → test_bit k (set_bit k b) ≡ true
unfolding test_bit set_bit
test_bit-set_bit zero b = ground arith
test_bit-set_bit (suc k) b = rw (half b (set_bit k (b / 2))) (test_bit-set_bit k (b / 2))

pub test_bit-set_bit_ne : (k j b : ℕ) → j ≢ k → test_bit j (set_bit k b) ≡ test_bit j b
unfolding test_bit set_bit
test_bit-set_bit_ne zero zero b h = absurd (h refl)
test_bit-set_bit_ne zero (suc j) b h = ap (test_bit j) (ground arith)
test_bit-set_bit_ne (suc k) zero b h = ground arith
test_bit-set_bit_ne (suc k) (suc j) b h =
    rw (half b (set_bit k (b / 2))) (test_bit-set_bit_ne k j (b / 2) (λ e. h (ap suc e)))
