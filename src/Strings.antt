-- ===== src/Strings.antt =====
-- kernel/support/string.c: the memory and string routines. Memory is one array of bytes, numbers below
-- 256, and pointers are its indices; that an object does not wrap around the end of the address space
-- is C's rule, and the value that `memset` takes is not negative. The loops that look for a final 0
-- run on fuel, and `none` says that it has run out.
pub mod Copies
pub mod Texts
mod Tests
use clks.Base.{
  ℕ, zero, suc, ◌+◌, ◌-◌, ◌%◌, Bool, true, false, ◌&&◌, ◌||◌, not, Option, none, some, ltb, leb,
  ◌==◌, if◌then◌else◌, Array, update,
}

-- The C `int` that a comparison returns.
pub data ℤ : Type 0 where
  pos : ℕ → ℤ
  negsuc : ℕ → ℤ

pub difference : ℕ → ℕ → ℤ
difference a b = if leb b a then pos (a - b) else negsuc (b - a - 1)

-- The loop of `clks_strlen` from `len` on.
pub strlen_from : ℕ → ℕ → Array ℕ → Option ℕ
strlen_from zero len str = none
strlen_from (suc fuel) len str =
    let rest = strlen_from fuel (len + 1) str in if str len == 0 then some len else rest

pub strlen : ℕ → Array ℕ → Option ℕ
strlen fuel str = strlen_from fuel 0 str

-- The loop of `clks_memset` with `rounds` bytes left from index `i` on.
unfoldable pub set_from : ℕ → ℕ → ℕ → ℕ → Array ℕ → Array ℕ
set_from zero i dst v m = m
set_from (suc rounds) i dst v m = set_from rounds (i + 1) dst v (update m (dst + i) v)

unfoldable pub memset : ℕ → ℕ → ℕ → Array ℕ → Array ℕ
memset dst value count m = set_from count 0 dst (value % 256) m

-- The loop of `clks_memcpy`, and of the first branch of `clks_memmove`.
pub copy_forward : ℕ → ℕ → ℕ → ℕ → Array ℕ → Array ℕ
copy_forward zero i dst src m = m
copy_forward (suc rounds) i dst src m =
    copy_forward rounds (i + 1) dst src (update m (dst + i) (m (src + i)))

pub memcpy : ℕ → ℕ → ℕ → Array ℕ → Array ℕ
memcpy dst src count m = copy_forward count 0 dst src m

-- `for (i = count; i != 0; i--) d[i - 1] = s[i - 1];`
pub copy_backward : ℕ → ℕ → ℕ → Array ℕ → Array ℕ
copy_backward zero dst src m = m
copy_backward (suc i) dst src m = copy_backward i dst src (update m (dst + i) (m (src + i)))

pub memmove : ℕ → ℕ → ℕ → Array ℕ → Array ℕ
memmove dst src count m =
    if dst == src || count == 0
    then m
    else if ltb dst src
    then copy_forward count 0 dst src m
    else copy_backward count dst src m

-- The loop of `clks_strcmp` from index `i` on.
pub strcmp_from : ℕ → ℕ → Array ℕ → Array ℕ → Option ℤ
unfolding difference
strcmp_from zero i left right = none
strcmp_from (suc fuel) i left right =
    let rest = strcmp_from fuel (i + 1) left right in
    let differ = some (difference (left i) (right i)) in
    if not (left i == 0) && not (right i == 0)
    then if not (left i == right i) then differ else rest
    else differ

pub strcmp : ℕ → Array ℕ → Array ℕ → Option ℤ
strcmp fuel left right = strcmp_from fuel 0 left right
