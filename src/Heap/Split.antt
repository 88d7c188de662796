-- ===== src/Heap/Split.antt =====
-- First fit and splitting in kernel/memory/heap.c keep the arena tiled.
use clks.Base.{
  ℕ, ◌+◌, ◌-◌, ◌≤◌, ◌<◌, ◌≡◌, refl, arith, true, false, Option, some, List, ◌∷◌, ltb, Array, update,
  update_ne, ap, sym, ◌∙◌, subst, dec_lt, add64, sub64,
}
use clks.Heap.{Block, header_size, heap_align, heap_magic, arena_size, set_prev, split_block}
use clks.Heap.Cells.{Cell, after, occupy}
use clks.Heap.Chain.{Chain, Chain-le, Chain-frame, Chain-replace, Chain-set_prev, set_prev_below}

-- The store that `clks_kmalloc` leaves: the block is split, then marked.
abbrev pub taken : ℕ → ℕ → Array Block → Array Block
taken a need m = let m' = split_block a need m in update m' a (record (m' a) { is_free = false })

split-whole :
    (m : Array Block) (a need : ℕ)
    → (m a).size < need + (header_size + heap_align)
    → need ≤ arena_size
    → split_block a need m ≡ m
unfolding split_block
split-whole m a need h le = ground arith

-- The header of the block that is split off.
abbrev tail_block : Array Block → ℕ → ℕ → Block
tail_block m a need = record {
  size = (m a).size - need - header_size;
  is_free = true;
  next = (m a).next;
  prev = some a;
  magic = heap_magic;
}

abbrev split_store : Array Block → ℕ → ℕ → Array Block
split_store m a need =
    let new = a + header_size + need in
    let m₂ = set_prev (m a).next new (update m new (tail_block m a need)) in
    update m₂ a (record (m₂ a) { next = some new; size = need })

split-apart :
    (m : Array Block) (a need : ℕ)
    → need + (header_size + heap_align) ≤ (m a).size
    → a + header_size + (m a).size ≤ arena_size
    → split_block a need m ≡ split_store m a need
unfolding split_block
split-apart m a need h le = rw (enough, at_new, at_size, untouched)
  where
    enough : ltb (m a).size (add64 need (header_size + heap_align)) ≡ false
    enough = ground arith

    at_new : add64 (add64 a header_size) need ≡ a + header_size + need
    at_new = omega arith

    at_size : sub64 (sub64 (m a).size need) header_size ≡ (m a).size - need - header_size
    at_size = omega arith

    untouched : (update m (a + header_size + need) (tail_block m a need) a).next ≡ (m a).next
    untouched = ground arith

-- The first cell of a chain is handed out whole,
take_whole :
    (m : Array Block) (prev cur : Option ℕ) (at need : ℕ) (c : Cell) (cs : List Cell)
    → Chain m prev cur at (c ∷ cs)
    → Chain
        (update m at (record (m at) { is_free = false }))
        prev
        cur
        at
        (record c { free = false } ∷ cs)
take_whole m prev cur at need c cs ch =
    Chain-replace m (update m at (record (m at) { is_free = false })) prev prev cur at c
      (record c { free = false }) cs ch (ground arith) refl (ground arith) (λ a le. ground arith)

-- or split.
module _ (m : Array Block) (prev cur : Option ℕ) (at need : ℕ) (c : Cell) (cs : List Cell)
    (ch : Chain m prev cur at (c ∷ cs)) (fits : need + (header_size + heap_align) ≤ c.size) where
  abbrev new : ℕ
  new = at + header_size + need

  abbrev linked : Array Block
  linked = set_prev (m at).next new (update m new (tail_block m at need))

  abbrev done : Array Block
  done = let s = split_store m at need in update s at (record (s at) { is_free = false })

  linked_below : (a : ℕ) → a < after at c → linked a ≡ update m new (tail_block m at need) a
  linked_below a lt =
      set_prev_below (update m new (tail_block m at need)) (some at) (m at).next new (after at c) a
        cs
        (Chain-frame m _ (some at) (m at).next (after at c) cs
          (λ b le. update_ne m new b (tail_block m at need) (omega arith)) ch.2)
        lt

  at_first : linked at ≡ m at
  at_first = linked_below at (omega arith) ∙ update_ne m new at (tail_block m at need) (omega arith)

  at_second : done new ≡ tail_block m at need
  at_second = ground (arith, linked_below new (omega arith))

  rest : Chain done (some new) (m at).next (after at c) cs
  rest =
      Chain-frame linked done (some new) (m at).next (after at c) cs (λ a le. ground arith)
        (Chain-set_prev (update m new (tail_block m at need)) (some at) (m at).next new (after at c)
          cs
          (Chain-frame m (update m new (tail_block m at need)) (some at) (m at).next (after at c) cs
            (λ a le. ground arith) ch.2))

  take_split : Chain done prev cur at (
      record { size = need; free = false }
      ∷ record { size = c.size - need - header_size; free = true }
      ∷ cs)
  take_split = (
    ch.0,
    ground (arith, at_first),
    (
      ground arith,
      ground (arith, at_second),
      subst (λ k. Chain done (some new) k (after new tail_cell) cs)
          (sym (ap (λ b. b.next) at_second))
          (subst (λ k. Chain done (some new) (m at).next k cs) same_end rest),
    ),
  )
    where
      tail_cell : Cell
      tail_cell = record { size = c.size - need - header_size; free = true }

      same_end : after at c ≡ after new tail_cell
      same_end = omega arith

-- Handing out a block that fits.
pub take_first :
    (m : Array Block) (prev cur : Option ℕ) (at need : ℕ) (c : Cell) (cs : List Cell)
    → Chain m prev cur at (c ∷ cs)
    → need ≤ c.size
    → Chain (taken at need m) prev cur at (occupy need c cs)
take_first m prev cur at need c cs ch fits =
    elim (dec_lt c.size (need + (header_size + heap_align))) [
      | yes small ↦ as_cells (record c { free = false } ∷ cs) (unfold occupy in ground arith) (
          as_store (record c { free = false } ∷ cs) m
            (split-whole m at need (omega arith) (omega (arith, bound)))
            (take_whole m prev cur at need c cs ch))
      | no big ↦
          as_cells
            (record { size = need; free = false }
              ∷ record { size = c.size - need - header_size; free = true }
              ∷ cs)
            (unfold occupy in ground arith)
            (as_store
              (record { size = need; free = false }
                ∷ record { size = c.size - need - header_size; free = true }
                ∷ cs)
              (split_store m at need) (split-apart m at need (omega arith) (omega (arith, bound)))
              (take_split m prev cur at need c cs ch (omega arith)))
    ]
  where
    bound : after at c ≤ arena_size
    bound = Chain-le m (some at) (m at).next (after at c) cs ch.2

    as_cells :
        (l : List Cell)
        → occupy need c cs ≡ l
        → Chain (taken at need m) prev cur at l
        → Chain (taken at need m) prev cur at (occupy need c cs)
    as_cells l e k = subst (λ l. Chain (taken at need m) prev cur at l) (sym e) k

    as_store :
        (l : List Cell) (s : Array Block)
        → split_block at need m ≡ s
        → Chain (update s at (record (s at) { is_free = false })) prev cur at l
        → Chain (taken at need m) prev cur at l
    as_store l s e k =
        subst (λ s. Chain (update s at (record (s at) { is_free = false })) prev cur at l) (sym e) k

-- It leaves the headers before it alone.
pub taken_below :
    (m : Array Block) (prev cur : Option ℕ) (at need a : ℕ) (c : Cell) (cs : List Cell)
    → Chain m prev cur at (c ∷ cs)
    → need ≤ c.size
    → a < at
    → taken at need m a ≡ m a
taken_below m prev cur at need a c cs ch fits lt =
    elim (dec_lt c.size (need + (header_size + heap_align))) [
      | yes small ↦
          rw (split-whole m at need (omega arith) (omega (arith, bound)))
            (update_ne m at a (record (m at) { is_free = false }) (omega arith))
      | no big ↦
          rw (split-apart m at need (omega arith) (omega (arith, bound)))
            (ground (arith, linked_below m prev cur at need c cs ch (omega arith) a))
    ]
  where
    bound : after at c ≤ arena_size
    bound = Chain-le m (some at) (m at).next (after at c) cs ch.2
