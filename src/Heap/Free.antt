-- ===== src/Heap/Free.antt =====
-- `clks_kfree` of kernel/memory/heap.c against freeing and merging on the list of cells.
use clks.Base.{
  ℕ, ◌+◌, ◌≤◌, ◌<◌, ◌≡◌, refl, arith, true, false, Option, none, some, List, [], ◌∷◌, leb, ◌==◌,
  if◌then◌else◌, inl, inr, Bool-cases, Array, ap, sym, ◌∙◌, subst, u64_mod, add64, sub64,
}
use clks.Heap.{
  Block, Heap, header_size, heap_magic, arena_size, merge_next, merge_neighbours, kfree,
}
use clks.Heap.Cells.{
  Cell, after, merge_first, act_at, mark_free, cell_at, prev_of, free_cells, used_sizes,
}
use clks.Heap.Chain.{IsBlock, Chain}
use clks.Heap.Acting.{act_at-Chain, freed, freed-Chain}
use clks.Heap.Merge.{merge_first-Chain}
use clks.Heap.Sizes.{
  Chain-cell, cell_at-prev_of, used-act_at, cell_at-act_at, cell_at-bound, Chain-used,
}
use clks.Heap.Alloc.{Represents}

-- Merging at a cell.
merged-Chain :
    (m : Array Block) (q : ℕ) (prev cur : Option ℕ) (at : ℕ) (c : Cell) (cs : List Cell)
    → Chain m prev cur at cs
    → cell_at q at cs ≡ some c
    → Chain (merge_next q m) prev cur at (act_at merge_first q at cs)
merged-Chain m q prev cur at c cs ch e =
    (act_at-Chain merge_first q m (merge_next q m)
      (λ prev cur c cs ch. merge_first-Chain m prev cur q c cs ch) prev cur at c cs ch e).1

-- Merging keeps the cell there free, and the bytes in use.
merge_first-cons :
    (c : Cell) (ds : List Cell)
    → (d : Cell) × (es : List Cell) × (merge_first c ds ≡ d ∷ es) × (d.free ≡ c.free)
unfolding merge_first
merge_first-cons c [] = (c, [], refl, refl)
merge_first-cons c (d ∷ ds) = elim (Bool-cases d.free) [
  | inl free ↦ (record c { size = c.size + (header_size + d.size) }, ds, ground arith, refl)
  | inr used ↦ (c, d ∷ ds, ground arith, refl)
]

used-merge_first :
    (c : Cell) (ds : List Cell)
    → c.free ≡ true
    → used_sizes (merge_first c ds) + 0 ≡ used_sizes (c ∷ ds)
unfolding merge_first used_sizes
used-merge_first c [] free = omega arith
used-merge_first c (d ∷ ds) free = ground arith

-- The store and the list after marking and merging behind.
module _ (m : Array Block) (head : Option ℕ) (q : ℕ) (c : Cell) (cs : List Cell)
    (ch : Chain m none head 0 cs) (e : cell_at q 0 cs ≡ some c) (used : c.free ≡ false) where
  abbrev marked : List Cell
  marked = act_at mark_free q 0 cs

  marked_cell : (d : Cell) × (cell_at q 0 marked ≡ some d) × (d.free ≡ true)
  marked_cell =
      cell_at-act_at mark_free q 0 c (record c { free = true }) cs e
        (λ ds. (record c { free = true }, ds, unfold mark_free in refl, refl))

  abbrev merged : List Cell
  merged = act_at merge_first q 0 marked

  merged-chain : Chain (merge_next q (freed q m)) none head 0 merged
  merged-chain =
      merged-Chain (freed q m) q none head 0 marked_cell.0 marked
        (freed-Chain m q none head 0 c cs ch e) marked_cell.1

  merged_cell : (d : Cell) × (cell_at q 0 merged ≡ some d) × (d.free ≡ true)
  merged_cell =
      let (d, at_q, free) = marked_cell in
      let (f, at_q', free') = cell_at-act_at merge_first q 0 d d marked at_q (merge_first-cons d) in
      (f, at_q', free' ∙ free)

  merged-used : used_sizes merged + c.size ≡ used_sizes cs
  merged-used =
      let (d, at_q, free) = marked_cell in
      omega (
        arith,
        used-act_at merge_first 0 q 0 d marked at_q (λ ds. used-merge_first d ds free),
        used-act_at mark_free c.size q 0 c cs e (λ ds. unfold mark_free used_sizes in ground arith),
      )

  back : (merge_next q (freed q m) q).prev ≡ prev_of q none 0 merged
  back =
      (Chain-cell (merge_next q (freed q m)) q none head 0 merged_cell.0 merged merged-chain
        merged_cell.1).back

  abbrev store : Array Block
  store = merge_next q (freed q m)

  abbrev last_store : Option ℕ → Array Block
  last_store prev = elim prev [
    | none ↦ store
    | some p ↦ if (store p).is_free then merge_next p store else store
  ]

  abbrev last_cells : Option ℕ → List Cell
  last_cells prev = elim prev [
    | none ↦ merged
    | some p ↦ elim (cell_at p 0 merged) [
      | none ↦ merged
      | some d ↦ if d.free then act_at merge_first p 0 merged else merged
    ]
  ]

  -- The last merge at a block `p` that is described by `d`.
  last_at :
      (p : ℕ) (d : Cell)
      → cell_at p 0 merged ≡ some d
      → Chain (last_store (some p)) none head 0 (last_cells (some p))
        × (used_sizes (last_cells (some p)) ≡ used_sizes merged)
  last_at p d at_p = elim (Bool-cases d.free) [
    | inl free ↦
        to (merge_next p store) (act_at merge_first p 0 merged) (ground (arith, same_free))
          (ground arith) (merged-Chain store p none head 0 d merged merged-chain at_p)
          (omega
            (arith, used-act_at merge_first 0 p 0 d merged at_p (λ ds. used-merge_first d ds free)))
    | inr used ↦ to store merged (ground (arith, same_free)) (ground arith) merged-chain refl
  ]
    where
      same_free : (store p).is_free ≡ d.free
      same_free = (Chain-cell store p none head 0 d merged merged-chain at_p).free

      to :
          (s : Array Block) (l : List Cell)
          → last_store (some p) ≡ s
          → last_cells (some p) ≡ l
          → Chain s none head 0 l
          → used_sizes l ≡ used_sizes merged
          → Chain (last_store (some p)) none head 0 (last_cells (some p))
            × (used_sizes (last_cells (some p)) ≡ used_sizes merged)
      to s l es el k u = (
        subst (λ l. Chain (last_store (some p)) none head 0 l) (sym el)
            (subst (λ s. Chain s none head 0 l) (sym es) k),
        ap used_sizes el ∙ u,
      )

  last :
      (o : Option ℕ)
      → prev_of q none 0 merged ≡ o
      → Chain (last_store o) none head 0 (last_cells o)
        × (used_sizes (last_cells o) ≡ used_sizes merged)
  last none eq = (merged-chain, refl)
  last (some p) eq = elim (cell_at-prev_of q p 0 none merged eq) [
    | inl h ↦ cc
    | inr (d, at_p) ↦ last_at p d at_p
  ]

  -- The store of `clks_kfree` represents the list after freeing.
  pub neighbours-Chain :
      Chain (merge_neighbours q (freed q m)) none head 0 (free_cells q cs)
      × (used_sizes (free_cells q cs) + c.size ≡ used_sizes cs)
  unfolding merge_neighbours free_cells
  neighbours-Chain =
      let (k, u) = last (prev_of q none 0 merged) refl in
      (
        subst (λ o. Chain (last_store o) none head 0 (last_cells (prev_of q none 0 merged)))
            (sym back) k,
        omega (arith, merged-used, u),
      )

-- What `clks_kfree` does at a header that describes a block.
kfree-used :
    (q : ℕ) (h : Heap)
    → q + header_size < u64_mod
    → h.ready ≡ true
    → (h.mem q).magic ≡ heap_magic
    → (h.mem q).is_free ≡ false
    → kfree (some (q + header_size)) h ≡ record h {
      mem = merge_neighbours q (freed q h.mem);
      used_bytes = if leb (h.mem q).size h.used_bytes then sub64 h.used_bytes (h.mem q).size else 0;
      free_count = add64 h.free_count 1;
    }
unfolding kfree
kfree-used q h lt ready magic used = rw (at_block, used, ready, test)
  where
    at_block : sub64 (q + header_size) header_size ≡ q
    at_block = omega arith

    test : ((h.mem q).magic == heap_magic) ≡ true
    test = ground arith

kfree-free :
    (q : ℕ) (h : Heap)
    → q + header_size < u64_mod
    → (h.mem q).is_free ≡ true
    → kfree (some (q + header_size)) h ≡ h
unfolding kfree
kfree-free q h lt free = rw at_block (ground arith)
  where
    at_block : sub64 (q + header_size) header_size ≡ q
    at_block = omega arith

-- On a heap that represents a list of cells, `clks_kfree` of the payload of a block in use frees
-- that block: the heap represents the list in which it is free and merged with a free block behind
-- it and with a free block before it, and no other block is changed. Freeing a free block, or a null
-- pointer, changes nothing.
pub kfree_lem :
    (q : ℕ) (c : Cell) (h : Heap) (cs : List Cell)
    → Represents h cs
    → cell_at q 0 cs ≡ some c
    → (c.free ≡ false → Represents (kfree (some (q + header_size)) h) (free_cells q cs))
      × (c.free ≡ true → kfree (some (q + header_size)) h ≡ h)
      × (kfree none h ≡ h)
kfree_lem q c h cs r e = (freeing, twice, unfold kfree in refl)
  where
    bound : after q c ≤ arena_size
    bound = cell_at-bound h.mem q none h.head 0 c cs r.chain e

    b : IsBlock h.mem (prev_of q none 0 cs) q c
    b = Chain-cell h.mem q none h.head 0 c cs r.chain e

    twice : c.free ≡ true → kfree (some (q + header_size)) h ≡ h
    twice free = kfree-free q h (omega (arith, bound)) (b.free ∙ free)

    freeing : c.free ≡ false → Represents (kfree (some (q + header_size)) h) (free_cells q cs)
    freeing used =
        let (k, sizes) = neighbours-Chain h.mem h.head q c cs r.chain e used in
        rw (kfree-used q h (omega (arith, bound)) r.ready b.magic (b.free ∙ used)) (record {
          ready = r.ready;
          chain = k;
          used = ground (arith, sizes, r.used, b.size, Chain-used h.mem none h.head 0 cs r.chain);
        })
