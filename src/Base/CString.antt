-- ===== src/Base/CString.antt =====
-- C strings: bytes up to the first 0.
use Prim.Native.Nat.{ℕ, zero, suc, ◌+◌}
use clks.Base.Arrays.{Array, update}
use mathlib.Core.List.{List, [], ◌∷◌}
use clks.Base.Tests.{◌==◌, if◌then◌else◌}

-- `while (i < bound && src[i] != '\0') { dst[i] = src[i]; i++; } dst[i] = '\0';` with `rounds` bytes
-- left before the bound.
unfoldable pub copy_text : ℕ → ℕ → Array ℕ → Array ℕ → Array ℕ
copy_text zero i src dst = update dst i 0
copy_text (suc rounds) i src dst =
    let rest = copy_text rounds (i + 1) src (update dst i (src i)) in
    if src i == 0 then update dst i 0 else rest

-- The text of a string literal.
abbrev pub text : List ℕ → Array ℕ
text [] i = 0
text (c ∷ cs) zero = c
text (c ∷ cs) (suc i) = text cs i
