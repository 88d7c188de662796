-- ===== src/Heap/Tests.antt =====
-- Runs of kernel/memory/heap.c, and its theorems at concrete inputs.
use clks.Base.{
  ℕ, ◌+◌, ◌-◌, ◌≤◌, ◌≡◌, refl, arith, true, false, none, some, List, [], ◌∷◌, ◌⊎◌, update,
}
use clks.Heap.{
  Heap, arena_size, header_size, heap_magic, align_up, init, kmalloc, kfree, zero_block,
}
use clks.Heap.Cells.{
  Cell, locate, occupy, alloc_cells, cell_at, prev_of, act_at, mark_free, merge_first, free_cells,
  used_sizes,
}
use clks.Heap.Alloc.{Represents, init-Represents, kmalloc_lem}
use clks.Heap.Free.{kfree_lem}

-- The whole arena as one free cell.
abbrev whole : List Cell
whole = record { size = arena_size - header_size; free = true } ∷ []

-- An arena with one block in use, of 112 bytes, and a free one behind it.
abbrev two_blocks : Heap
two_blocks = record {
  mem =
      update
        (update (λ _. zero_block) 152
          (record {
            size = arena_size - 192;
            is_free = true;
            next = none;
            prev = some 0;
            magic = heap_magic;
          }))
        0
        (record { size = 112; is_free = false; next = some 152; prev = none; magic = heap_magic });
  head = some 0;
  ready = true;
  used_bytes = 112;
  alloc_count = 1;
  free_count = 0;
}

abbrev two_cells : List Cell
two_cells =
    record { size = 112; free = false } ∷ record { size = arena_size - 192; free = true } ∷ []

two_blocks-Represents : Represents two_blocks two_cells
two_blocks-Represents = record {
  ready = refl;
  chain = (
    refl,
    record { size = refl; free = refl; back = refl; magic = refl },
    (refl, record { size = refl; free = refl; back = refl; magic = refl }, (refl, refl)),
  );
  used = unfold used_sizes in refl;
}

-- Allocating 100 bytes takes 112 of the arena; freeing them gives the whole arena back.
alloc_cells_test : alloc_cells (align_up 100) whole ≡ two_cells
unfolding alloc_cells occupy align_up
alloc_cells_test = refl

free_cells_test : free_cells 0 two_cells ≡ whole
unfolding free_cells act_at mark_free merge_first cell_at prev_of
free_cells_test = refl

kmalloc_lem_example :
    ((locate (align_up 100) 0 whole ≡ none) × (kmalloc 100 init ≡ some (none, init)))
    ⊎ ((a : ℕ) × (h' : Heap) × (locate (align_up 100) 0 whole ≡ some a)
        × (kmalloc 100 init ≡ some (some (a + header_size), h'))
        × Represents h' (alloc_cells (align_up 100) whole)
        × (a + header_size + align_up 100 ≤ arena_size))
kmalloc_lem_example = kmalloc_lem 100 init whole init-Represents (omega arith)

kfree_lem_example :
    (false ≡ false
      → Represents (kfree (some (0 + header_size)) two_blocks) (free_cells 0 two_cells))
    × (false ≡ true → kfree (some (0 + header_size)) two_blocks ≡ two_blocks)
    × (kfree none two_blocks ≡ two_blocks)
kfree_lem_example =
    kfree_lem 0 (record { size = 112; free = false }) two_blocks two_cells two_blocks-Represents
      (unfold cell_at in refl)
