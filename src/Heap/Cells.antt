-- ===== src/Heap/Cells.antt =====
-- The abstract heap: the list of its blocks in the order of their addresses.
use clks.Base.{
  ℕ, ◌+◌, ◌-◌, Bool, true, false, ◌&&◌, Option, none, some, List, [], ◌∷◌, ltb, leb, ◌==◌,
  if◌then◌else◌,
}
use clks.Heap.{header_size, heap_align}

pub record Cell : Type 0 where
  pub size : ℕ
  pub free : Bool

-- The address after a block at `at`.
abbrev pub after : ℕ → Cell → ℕ
after at c = at + header_size + c.size

-- First fit: the address of the block that is handed out.
unfoldable pub locate : ℕ → ℕ → List Cell → Option ℕ
locate need at [] = none
locate need at (c ∷ cs) = if c.free && leb need c.size then some at else locate need (after at c) cs

-- The block handed out, and what is split off it.
unfoldable pub occupy : ℕ → Cell → List Cell → List Cell
occupy need c cs =
    if ltb c.size (need + (header_size + heap_align))
    then record c { free = false } ∷ cs
    else record { size = need; free = false }
      ∷ record { size = c.size - need - header_size; free = true }
      ∷ cs

unfoldable pub alloc_cells : ℕ → List Cell → List Cell
unfolding occupy
alloc_cells need [] = []
alloc_cells need (c ∷ cs) =
    if c.free && leb need c.size then occupy need c cs else c ∷ alloc_cells need cs

-- A free block swallows a free block behind it.
unfoldable pub merge_first : Cell → List Cell → List Cell
merge_first c [] = c ∷ []
merge_first c (d ∷ cs) =
    if d.free then record c { size = c.size + (header_size + d.size) } ∷ cs else c ∷ d ∷ cs

-- An operation at the cell whose block starts at `q`.
unfoldable pub act_at : (Cell → List Cell → List Cell) → ℕ → ℕ → List Cell → List Cell
act_at op q at [] = []
act_at op q at (c ∷ cs) = if at == q then op c cs else c ∷ act_at op q (after at c) cs

unfoldable pub mark_free : Cell → List Cell → List Cell
mark_free c cs = record c { free = true } ∷ cs

-- The cell whose block starts at `q`, and the address of the block before it.
unfoldable pub cell_at : ℕ → ℕ → List Cell → Option Cell
cell_at q at [] = none
cell_at q at (c ∷ cs) = if at == q then some c else cell_at q (after at c) cs

unfoldable pub prev_of : ℕ → Option ℕ → ℕ → List Cell → Option ℕ
prev_of q prev at [] = none
prev_of q prev at (c ∷ cs) = if at == q then prev else prev_of q (some at) (after at c) cs

-- Freeing the block at `q`: it swallows a free block behind it, and is swallowed by a free block
-- before it.
unfoldable pub free_cells : ℕ → List Cell → List Cell
unfolding act_at mark_free merge_first cell_at prev_of
free_cells q cs =
    let merged = act_at merge_first q 0 (act_at mark_free q 0 cs) in
    elim (prev_of q none 0 merged) [
      | none ↦ merged
      | some p ↦ elim (cell_at p 0 merged) [
        | none ↦ merged
        | some d ↦ if d.free then act_at merge_first p 0 merged else merged
      ]
    ]

-- What the blocks in use occupy.
unfoldable pub used_sizes : List Cell → ℕ
used_sizes [] = 0
used_sizes (c ∷ cs) = (if c.free then 0 else c.size) + used_sizes cs
