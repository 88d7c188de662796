-- ===== src/Disk/Init/Buffer.antt =====
-- kernel/storage/disk/public_api.inc: the loop that asks for the buffer.
use clks.Base.{
  ℕ, zero, suc, ◌+◌, ◌-◌, ◌%◌, ◌≤◌, ◌<◌, ◌≡◌, arith, Bool, false, Option, none, some, ltb, ◌==◌,
  if◌then◌else◌, if_elim, subst,
}
use clks.Disk.{sector_size}
use clks.Disk.Init.{min_bytes, retry_step, whole_sectors, alloc_buffer}

-- What was granted is whole sectors, no less than the least and no more than was asked for.
pub alloc_buffer_lem :
    (fuel n : ℕ) (grants : ℕ → ℕ → Bool) (bytes got : ℕ)
    → bytes % sector_size ≡ 0
    → alloc_buffer fuel n grants bytes ≡ some got
    → (min_bytes ≤ got) × (got ≤ bytes) × (got % sector_size ≡ 0)
unfolding alloc_buffer
alloc_buffer_lem zero n grants bytes got whole = λ h. absurd (cc h)
alloc_buffer_lem (suc fuel) n grants bytes got whole =
    let less = if ltb (min_bytes + retry_step) bytes then bytes - retry_step else min_bytes in
    if_elim Got (ltb bytes min_bytes) (λ _ h. absurd (cc h))
      (λ enough.
        if_elim Got (grants n bytes)
          (λ _ h. let same : bytes ≡ got = cc h in (ground arith, omega arith, omega arith))
          (λ _.
            if_elim Got (bytes == min_bytes) (λ _ h. absurd (cc h))
              (λ more h.
                let (a, b, c) =
                  alloc_buffer_lem fuel (n + 1) grants (whole_sectors less) got (ground arith) h in
                (a, ground arith, c))))
  where
    Got : Option ℕ → Type 0
    Got o = o ≡ some got → (min_bytes ≤ got) × (got ≤ bytes) × (got % sector_size ≡ 0)

-- If nothing is granted then even the request for the least was refused: the loop comes to its end.
pub alloc_buffer-none :
    (fuel n : ℕ) (grants : ℕ → ℕ → Bool) (bytes : ℕ)
    → bytes < fuel
    → min_bytes ≤ bytes
    → alloc_buffer fuel n grants bytes ≡ none
    → (k : ℕ) × (grants k min_bytes ≡ false)
unfolding alloc_buffer
alloc_buffer-none zero n grants bytes fits enough = absurd (omega arith)
alloc_buffer-none (suc fuel) n grants bytes fits enough =
    let less = if ltb (min_bytes + retry_step) bytes then bytes - retry_step else min_bytes in
    if_elim Refused (ltb bytes min_bytes) (λ short. absurd (ground arith))
      (λ _.
        if_elim Refused (grants n bytes) (λ _ h. absurd (cc h))
          (λ refused.
            if_elim Refused (bytes == min_bytes)
              (λ least h. (n, subst (λ b. grants n b ≡ false) (ground arith) refused))
              (λ more h.
                alloc_buffer-none fuel (n + 1) grants (whole_sectors less) (ground arith)
                  (ground arith) h)))
  where
    Refused : Option ℕ → Type 0
    Refused o = o ≡ none → (k : ℕ) × (grants k min_bytes ≡ false)
