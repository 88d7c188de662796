-- ===== src/Heap/Walk.antt =====
-- The loop of `clks_kmalloc` in kernel/memory/heap.c is first fit on the list of cells.
use clks.Base.{
  ℕ, zero, suc, ◌+◌, ◌*◌, ◌≤◌, ◌<◌, ◌≡◌, arith, ◌&&◌, Option, some, List, [], ◌∷◌, leb, inl, inr,
  Bool-cases, Array, ap, sym, ◌∙◌, subst, length,
}
use clks.Heap.{Block, header_size, arena_size, find_fit}
use clks.Heap.Cells.{Cell, after, locate, occupy, alloc_cells}
use clks.Heap.Chain.{Chain}
use clks.Heap.Split.{taken, take_first, taken_below}

-- The loop finds the first cell that fits, or the end of the list.
pub find_fit-locate :
    (fuel : ℕ) (m : Array Block) (need : ℕ) (prev cur : Option ℕ) (at : ℕ) (cs : List Cell)
    → Chain m prev cur at cs
    → length cs < fuel
    → find_fit fuel m need cur ≡ some (locate need at cs)
unfolding find_fit locate
find_fit-locate zero m need prev cur at cs ch h = absurd (omega arith)
find_fit-locate (suc fuel) m need prev cur at [] ch h = rw ch.0
find_fit-locate (suc fuel) m need prev cur at (c ∷ cs) ch h =
    rw ch.0 (ground (arith, find_fit-locate fuel m need (some at) (m at).next (after at c) cs ch.2))

-- Every cell takes a header, so there are fewer than the arena has bytes.
pub Chain-length :
    (m : Array Block) (prev cur : Option ℕ) (at : ℕ) (cs : List Cell)
    → Chain m prev cur at cs
    → at + header_size * length cs ≤ arena_size
Chain-length m prev cur at [] ch = omega arith
Chain-length m prev cur at (c ∷ cs) ch =
    omega (arith, Chain-length m (some at) (m at).next (after at c) cs ch.2)

-- Handing out the block that is found.
pub take_located :
    (m : Array Block) (need : ℕ) (prev cur : Option ℕ) (at a : ℕ) (cs : List Cell)
    → Chain m prev cur at cs
    → locate need at cs ≡ some a
    → (at ≤ a)
      × Chain (taken a need m) prev cur at (alloc_cells need cs)
      × ((b : ℕ) → b < a → taken a need m b ≡ m b)
unfolding locate alloc_cells
take_located m need prev cur at a [] ch e = cc
take_located m need prev cur at a (c ∷ cs) ch e = elim (Bool-cases (c.free && leb need c.size)) [
  | inl fits ↦ rw fits (here (ground arith) (ground arith))
  | inr other ↦
      let (le, ch', below) =
        take_located m need (some at) (m at).next (after at c) a cs ch.2 (ground arith) in
      rw other (omega arith, later le ch' (below at (omega arith)), below)
]
  where
    here :
        at ≡ a
        → need ≤ c.size
        → (at ≤ a)
          × Chain (taken a need m) prev cur at (occupy need c cs)
          × ((b : ℕ) → b < a → taken a need m b ≡ m b)
    here same fits =
        subst
          (λ k.
            (at ≤ k)
            × Chain (taken k need m) prev cur at (occupy need c cs)
            × ((b : ℕ) → b < k → taken k need m b ≡ m b))
          same
          (
            omega arith,
            take_first m prev cur at need c cs ch fits,
            λ b. taken_below m prev cur at need b c cs ch fits,
          )

    later :
        after at c ≤ a
        → Chain (taken a need m) (some at) (m at).next (after at c) (alloc_cells need cs)
        → taken a need m at ≡ m at
        → Chain (taken a need m) prev cur at (c ∷ alloc_cells need cs)
    later le ch' same = (
      ch.0,
      record {
        size = ap (λ b. b.size) same ∙ ch.1.size;
        free = ap (λ b. b.is_free) same ∙ ch.1.free;
        back = ap (λ b. b.prev) same ∙ ch.1.back;
        magic = ap (λ b. b.magic) same ∙ ch.1.magic;
      },
      subst (λ k. Chain (taken a need m) (some at) k (after at c) (alloc_cells need cs))
          (sym (ap (λ b. b.next) same)) ch',
    )
