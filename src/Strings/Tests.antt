-- ===== src/Strings/Tests.antt =====
-- Runs of kernel/support/string.c, and its theorems at concrete inputs.
use clks.Base.{
  ℕ, zero, suc, ◌+◌, ◌%◌, ◌≤◌, ◌<◌, ◌≡◌, ◌≢◌, refl, arith, some, [], ◌∷◌, ltb, leb, ◌&&◌,
  if◌then◌else◌, Array, inl, ◌↔◌,
}
use clks.Base.CString.{text}
use clks.Strings.{pos, negsuc, difference, memset, memmove, strcmp, strcmp_from, copy_backward}
use clks.Strings.Copies.{moved, memset_lem, memmove_lem}
use clks.Strings.Texts.{EndsAt, strcmp_lem, strcmp_zero_iff}

-- The texts "ab" and "ac", and memory that holds its own addresses.
abbrev ab : Array ℕ
ab = text (97 ∷ 98 ∷ [])

abbrev ac : Array ℕ
ac = text (97 ∷ 99 ∷ [])

abbrev addresses : Array ℕ
addresses i = i

ab-EndsAt : EndsAt ab 2
ab-EndsAt = record { ends = refl; full = λ k h. short k h }
  where
    short : (k : ℕ) → k < 2 → ab k ≢ 0
    short zero h = omega arith
    short (suc zero) h = omega arith
    short (suc (suc k)) h = absurd (omega arith)

strcmp_test : strcmp 10 ab ac ≡ some (negsuc 0)
unfolding strcmp strcmp_from difference
strcmp_test = refl

memmove_test : memmove 11 10 3 addresses 13 ≡ 12
unfolding memmove copy_backward
memmove_test = refl

strcmp_lem_example : strcmp 10 ab ac ≡ some (difference (ab 1) (ac 1))
strcmp_lem_example = strcmp_lem 10 1 ab ac (λ k h. first k h) (inl (omega arith)) (omega arith)
  where
    first : (k : ℕ) → k < 1 → (ab k ≡ ac k) × (ab k ≢ 0)
    first zero h = omega arith
    first (suc k) h = absurd (omega arith)

strcmp_zero_iff_example : (strcmp 10 ab ab ≡ some (pos 0)) ↔ ((k : ℕ) → k ≤ 2 → ab k ≡ ab k)
strcmp_zero_iff_example = strcmp_zero_iff 10 2 ab ab ab-EndsAt (omega arith)

memset_lem_example :
    memset 5 300 4 addresses 7 ≡ (if leb 5 7 && ltb 7 (5 + 4) then 300 % 256 else addresses 7)
memset_lem_example = memset_lem 5 300 4 addresses 7

memmove_lem_example : memmove 11 10 3 addresses 13 ≡ moved 11 10 3 addresses 13
memmove_lem_example = memmove_lem 11 10 3 addresses 13
