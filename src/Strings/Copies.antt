-- ===== src/Strings/Copies.antt =====
-- Filling and copying in kernel/support/string.c.
use clks.Base.{
  ℕ, zero, suc, ◌+◌, ◌-◌, ◌%◌, ◌≤◌, ◌<◌, ◌≡◌, refl, arith, ◌&&◌, ◌||◌, ltb, leb, ◌==◌,
  if◌then◌else◌, Array, update, update_self, update_ne, ◌⊎◌, inl, inr, ◌∙◌, ap, if_elim, dec_lt,
  ℕ_discrete,
}
use clks.Strings.{set_from, memset, copy_forward, memcpy, copy_backward, memmove}

-- What memory holds at `j` once `count` bytes are moved.
abbrev pub moved : ℕ → ℕ → ℕ → Array ℕ → ℕ → ℕ
moved dst src count m j = if leb dst j && ltb j (dst + count) then m (src + (j - dst)) else m j

set_from_lem :
    (rounds i dst v : ℕ) (m : Array ℕ) (j : ℕ)
    → set_from rounds i dst v m j ≡ (if leb (dst + i) j && ltb j (dst + i + rounds) then v else m j)
unfolding set_from
set_from_lem zero i dst v m j = ground arith
set_from_lem (suc rounds) i dst v m j =
    ground (arith, set_from_lem rounds (i + 1) dst v (update m (dst + i) v) j)

-- `clks_memset` writes the low byte of its value into each of its `count` bytes, and no other.
pub memset_lem :
    (dst value count : ℕ) (m : Array ℕ) (j : ℕ)
    → memset dst value count m j ≡ (if leb dst j && ltb j (dst + count) then value % 256 else m j)
unfolding memset
memset_lem dst value count m j = ground (arith, set_from_lem count 0 dst (value % 256) m j)

copy_forward_lem :
    (rounds i dst src : ℕ) (m : Array ℕ) (j : ℕ)
    → (dst ≤ src) ⊎ (src + i + rounds ≤ dst)
    → ((j < dst + i) ⊎ (dst + i + rounds ≤ j) → copy_forward rounds i dst src m j ≡ m j)
      × (dst + i ≤ j
          → j < dst + i + rounds
          → copy_forward rounds i dst src m j ≡ m (src + (j - dst)))
unfolding copy_forward
copy_forward_lem zero i dst src m j apart = (λ out. refl, λ l h. absurd (omega arith))
copy_forward_lem (suc rounds) i dst src m j apart =
    let m' = update m (dst + i) (m (src + i)) in
    let (out, inside) = copy_forward_lem rounds (i + 1) dst src m' j (ground arith) in
    (
      λ o. out (ground arith) ∙ update_ne m (dst + i) j (m (src + i)) (ground arith),
      λ l h. elim (ℕ_discrete j (dst + i)) [
        | yes e ↦
            out (ground arith) ∙ rw e (update_self m (dst + i) (m (src + i)) ∙ ap m (omega arith))
        | no ne ↦
            inside (omega arith) (omega arith)
            ∙ update_ne m (dst + i) (src + (j - dst)) (m (src + i)) (ground arith)
      ],
    )

copy_backward_lem :
    (i dst src : ℕ) (m : Array ℕ) (j : ℕ)
    → src ≤ dst
    → ((j < dst) ⊎ (dst + i ≤ j) → copy_backward i dst src m j ≡ m j)
      × (dst ≤ j → j < dst + i → copy_backward i dst src m j ≡ m (src + (j - dst)))
unfolding copy_backward
copy_backward_lem zero dst src m j le = (λ out. refl, λ l h. absurd (omega arith))
copy_backward_lem (suc i) dst src m j le =
    let m' = update m (dst + i) (m (src + i)) in
    let (out, inside) = copy_backward_lem i dst src m' j le in
    (
      λ o. out (ground arith) ∙ update_ne m (dst + i) j (m (src + i)) (ground arith),
      λ l h. elim (ℕ_discrete j (dst + i)) [
        | yes e ↦
            out (ground arith) ∙ rw e (update_self m (dst + i) (m (src + i)) ∙ ap m (omega arith))
        | no ne ↦
            inside l (omega arith)
            ∙ update_ne m (dst + i) (src + (j - dst)) (m (src + i)) (omega arith)
      ],
    )

-- The two cases of a copy as one equation.
joined :
    (dst src count : ℕ) (m m' : Array ℕ) (j : ℕ)
    → ((j < dst) ⊎ (dst + count ≤ j) → m' j ≡ m j)
    → (dst ≤ j → j < dst + count → m' j ≡ m (src + (j - dst)))
    → m' j ≡ moved dst src count m j
joined dst src count m m' j out inside = elim (dec_lt j dst) [
  | yes below ↦ out (inl below) ∙ ground arith
  | no above ↦ elim (dec_lt j (dst + count)) [
    | yes within ↦ inside (omega arith) within ∙ ground arith
    | no past ↦ out (inr (omega arith)) ∙ ground arith
  ]
]

copy_forward-moved :
    (dst src count : ℕ) (m : Array ℕ) (j : ℕ)
    → (dst ≤ src) ⊎ (src + count ≤ dst)
    → copy_forward count 0 dst src m j ≡ moved dst src count m j
copy_forward-moved dst src count m j apart =
    let (out, inside) = copy_forward_lem count 0 dst src m j (ground arith) in
    joined dst src count m (copy_forward count 0 dst src m) j (λ o. out (ground arith))
      (λ l h. inside (omega arith) (omega arith))

-- `clks_memcpy` moves `count` bytes, and changes no other, if the target does not start within the
-- source behind its first byte.
pub memcpy_lem :
    (dst src count : ℕ) (m : Array ℕ) (j : ℕ)
    → (dst ≤ src) ⊎ (src + count ≤ dst)
    → memcpy dst src count m j ≡ moved dst src count m j
unfolding memcpy
memcpy_lem dst src count m j apart = copy_forward-moved dst src count m j apart

-- `clks_memmove` moves `count` bytes, and changes no other, however source and target overlap.
pub memmove_lem :
    (dst src count : ℕ) (m : Array ℕ) (j : ℕ) → memmove dst src count m j ≡ moved dst src count m j
unfolding memmove
memmove_lem dst src count m j =
    if_elim At (dst == src || count == 0) (λ same. ground arith)
      (λ _.
        if_elim At (ltb dst src)
          (λ below. copy_forward-moved dst src count m j (inl (ground arith)))
          (λ above.
            let (out, inside) = copy_backward_lem count dst src m j (ground arith) in
            joined dst src count m (copy_backward count dst src m) j out inside))
  where
    At : Array ℕ → Type 0
    At m' = m' j ≡ moved dst src count m j
