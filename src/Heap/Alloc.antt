-- ===== src/Heap/Alloc.antt =====
-- `clks_kmalloc` of kernel/memory/heap.c against first fit on the list of cells.
use clks.Base.{
  ℕ, ◌+◌, ◌-◌, ◌≤◌, ◌<◌, ◌≡◌, ◌≢◌, refl, arith, Bool, true, false, ◌&&◌, Option, none, some, List,
  [], ◌∷◌, leb, if◌then◌else◌, ◌⊎◌, inl, inr, Bool-cases, Option-cases, Array, update_self, ap, sym,
  ◌∙◌, subst, u64_mod,
}
use clks.Heap.{
  Block, Heap, header_size, arena_size, align_up, find_fit, take_block, walk_fuel, kmalloc,
  split_block, init,
}
use clks.Heap.Cells.{Cell, after, locate, occupy, alloc_cells, used_sizes}
use clks.Heap.Chain.{Chain, Chain-le}
use clks.Heap.Split.{taken}
use clks.Heap.Walk.{find_fit-locate, Chain-length, take_located}
use clks.Heap.Sizes.{occupy-cons, Chain-used}

-- The heap is set up, its headers tile the arena with these cells, and the bytes counted as used are
-- those of the cells in use.
pub record Represents (h : Heap) (cs : List Cell) : Type 0 where
  pub ready : h.ready ≡ true
  pub chain : Chain h.mem none h.head 0 cs
  pub used : h.used_bytes ≡ used_sizes cs

-- `clks_heap_init` sets up one free cell.
pub init-Represents : Represents init (record { size = arena_size - header_size; free = true } ∷ [])
unfolding init used_sizes
init-Represents = record {
  ready = refl;
  chain = (refl, record { size = refl; free = refl; back = refl; magic = refl }, (refl, refl));
  used = refl;
}

-- The block at `a` has room, lies in the arena, and its bytes are those newly in use.
record Newly (m : Array Block) (need a before now : ℕ) : Type 0 where
  counted : now ≡ (split_block a need m a).size + before
  room : need ≤ (split_block a need m a).size
  inside : a + header_size + (split_block a need m a).size ≤ arena_size

Newly-first :
    (m : Array Block) (need : ℕ) (prev cur : Option ℕ) (at : ℕ) (c : Cell) (cs : List Cell)
    → need ≤ c.size
    → Chain (taken at need m) prev cur at (occupy need c cs)
    → Newly m need at (used_sizes cs) (used_sizes (occupy need c cs))
Newly-first m need prev cur at c cs fits ch =
    let (d, ds, e, _, le, counted) = occupy-cons need c cs fits in
    let k = subst (λ l. Chain (taken at need m) prev cur at l) e ch in
    let same : (split_block at need m at).size ≡ d.size =
      sym (
        ap (λ b. b.size)
          (update_self (split_block at need m) at
            (record (split_block at need m at) { is_free = false })))
      ∙ k.1.size in
    omega
      (arith, Chain-le (taken at need m) (some at) (taken at need m at).next (after at d) ds k.2)

located-Newly :
    (m : Array Block) (need : ℕ) (prev cur cur' : Option ℕ) (at a : ℕ) (cs : List Cell)
    → locate need at cs ≡ some a
    → Chain (taken a need m) prev cur' at (alloc_cells need cs)
    → Newly m need a (used_sizes cs) (used_sizes (alloc_cells need cs))
unfolding locate alloc_cells used_sizes
located-Newly m need prev cur cur' at a [] e ch' = cc
located-Newly m need prev cur cur' at a (c ∷ cs) e ch' =
    elim (Bool-cases (c.free && leb need c.size)) [
      | inl fits ↦
          let same : at ≡ a = ground arith in
          let n = Newly-first m need prev cur' a c cs (ground arith) (
            subst (λ k. Chain (taken a need m) prev cur' k (occupy need c cs)) same
              (subst (λ l. Chain (taken a need m) prev cur' at l) (ap choose fits) ch')) in
          rw fits (
            let free : c.free ≡ true = ground arith in
            rw free
              (record { counted = omega (arith, n.counted); room = n.room; inside = n.inside }))
      | inr other ↦
          let k = subst (λ l. Chain (taken a need m) prev cur' at l) (ap choose other) ch' in
          let n =
            located-Newly m need (some at) (some at) (taken a need m at).next (after at c) a cs
              (ground arith) k.2 in
          rw other (record { counted = omega (arith, n.counted); room = n.room; inside = n.inside })
    ]
  where
    choose : Bool → List Cell
    choose b = if b then occupy need c cs else c ∷ alloc_cells need cs

-- On a heap that represents a list of cells, `clks_kmalloc` of a non-zero size ends, whatever the
-- length of the list. If no free cell is as large as the aligned size, it returns null and changes
-- nothing; otherwise it returns the payload of the first such cell, which has room for the aligned
-- size and lies within the arena, and the heap represents the list with that cell in use, split if
-- the rest can hold a header and 16 bytes.
pub kmalloc_lem :
    (size : ℕ) (h : Heap) (cs : List Cell)
    → Represents h cs
    → size ≢ 0
    → ((locate (align_up size) 0 cs ≡ none) × (kmalloc size h ≡ some (none, h)))
      ⊎ ((a : ℕ) × (h' : Heap) × (locate (align_up size) 0 cs ≡ some a)
          × (kmalloc size h ≡ some (some (a + header_size), h'))
          × Represents h' (alloc_cells (align_up size) cs)
          × (a + header_size + align_up size ≤ arena_size))
unfolding kmalloc take_block
kmalloc_lem size h cs r ne = elim (Option-cases (locate (align_up size) 0 cs)) [
  | inl nothing ↦ inl (nothing, ground (arith, r.ready, walk ∙ ap some nothing))
  | inr (a, found) ↦
      let (_, ch, _) = take_located h.mem (align_up size) none h.head 0 a cs r.chain found in
      let n = located-Newly h.mem (align_up size) none h.head h.head 0 a cs found ch in
      inr (
        a,
        (take_block a (align_up size) h).1,
        found,
        ground (arith, r.ready, walk ∙ ap some found, n.inside),
        record {
          ready = r.ready;
          chain = ch;
          used = omega (
            arith,
            r.used,
            n.counted,
            Chain-used h.mem none h.head 0 cs r.chain,
            n.inside,
            Chain-used _ none h.head 0 (alloc_cells (align_up size) cs) ch,
          );
        },
        omega (arith, n.room, n.inside),
      )
]
  where
    walk : find_fit walk_fuel h.mem (align_up size) h.head ≡ some (locate (align_up size) 0 cs)
    walk =
        find_fit-locate walk_fuel h.mem (align_up size) none h.head 0 cs r.chain
          (omega (arith, Chain-length h.mem none h.head 0 cs r.chain))

-- The alignment wraps around: for each of the fifteen largest sizes the aligned size is 0, so that
-- `clks_kmalloc` does not refuse them: on a fresh heap it hands out a block of no bytes.
pub kmalloc-wraps :
    (size : ℕ)
    → u64_mod ≤ size + 15
    → size < u64_mod
    → (align_up size ≡ 0)
      × ((h : Heap) × (kmalloc size init ≡ some (some header_size, h))
          × ((h.mem 0).size ≡ 0)
          × ((h.mem 0).is_free ≡ false))
unfolding locate alloc_cells occupy align_up
kmalloc-wraps size lo hi = (zero_size, found)
  where
    zero_size : align_up size ≡ 0
    zero_size = omega arith

    whole : List Cell
    whole = record { size = arena_size - header_size; free = true } ∷ []

    found :
        (h : Heap) × (kmalloc size init ≡ some (some header_size, h))
        × ((h.mem 0).size ≡ 0)
        × ((h.mem 0).is_free ≡ false)
    found = elim (kmalloc_lem size init whole init-Represents (omega arith)) [
      | inl none_left ↦ cc (subst (λ n. locate n 0 whole ≡ none) zero_size none_left.0)
      | inr (a, h, at_a, e, r, _) ↦
          let first : a ≡ 0 = cc (subst (λ n. locate n 0 whole ≡ some a) zero_size at_a) in
          let k = subst (λ n. Chain h.mem none h.head 0 (alloc_cells n whole)) zero_size r.chain in
          (
            h,
            subst (λ a. kmalloc size init ≡ some (some (a + header_size), h)) first e,
            k.1.size,
            k.1.free,
          )
    ]
