-- ===== src/Heap/Sizes.antt =====
-- What the operations on the list of cells do to its entries and to the bytes in use.
use clks.Base.{
  ℕ, ◌+◌, ◌-◌, ◌≤◌, ◌≡◌, ◌≢◌, refl, arith, true, false, Option, some, List, [], ◌∷◌, ltb, ◌==◌,
  if◌then◌else◌, ◌⊎◌, inl, inr, Bool-cases, Array, ap, sym, ◌∙◌, subst, ℕ_discrete,
}
use clks.Heap.{Block, header_size, heap_align, arena_size}
use clks.Heap.Cells.{Cell, after, occupy, act_at, cell_at, prev_of, used_sizes}
use clks.Heap.Chain.{IsBlock, Chain, Chain-le}
use clks.Heap.Acting.{act_at_hit, act_at_miss}

-- What `occupy` puts first.
pub occupy-cons :
    (need : ℕ) (c : Cell) (cs : List Cell)
    → need ≤ c.size
    → (d : Cell) × (ds : List Cell) × (occupy need c cs ≡ d ∷ ds)
      × (d.free ≡ false)
      × (need ≤ d.size)
      × (used_sizes (occupy need c cs) ≡ d.size + used_sizes cs)
unfolding occupy used_sizes
occupy-cons need c cs fits = elim (Bool-cases (ltb c.size (need + (header_size + heap_align)))) [
  | inl small ↦ rw small (record c { free = false }, cs, refl, refl, fits, refl)
  | inr big ↦ rw big (
    record { size = need; free = false },
    record { size = c.size - need - header_size; free = true } ∷ cs,
    refl,
    refl,
    omega arith,
    omega arith,
  )
]

-- A cell of the list is described by its header, whose back pointer is the block before it.
pub Chain-cell :
    (m : Array Block) (q : ℕ) (prev cur : Option ℕ) (at : ℕ) (c : Cell) (cs : List Cell)
    → Chain m prev cur at cs
    → cell_at q at cs ≡ some c
    → IsBlock m (prev_of q prev at cs) q c
unfolding cell_at prev_of
Chain-cell m q prev cur at c [] ch e = cc
Chain-cell m q prev cur at c (d ∷ cs) ch e = elim (ℕ_discrete at q) [
  | yes same ↦
      subst (λ k. IsBlock m k q c) (sym (head_prev same))
        (subst (λ k. IsBlock m prev q k) (head_cell same)
          (subst (λ k. IsBlock m prev k d) same ch.1))
  | no ne ↦
      subst (λ k. IsBlock m k q c) (sym (tail_prev ne))
        (Chain-cell m q (some at) (m at).next (after at d) c cs ch.2 (ground arith))
]
  where
    head_prev : at ≡ q → (if at == q then prev else prev_of q (some at) (after at d) cs) ≡ prev
    head_prev h = ground arith

    head_cell : at ≡ q → d ≡ c
    head_cell h = ground arith

    tail_prev :
        at ≢ q
        → (if at == q then prev else prev_of q (some at) (after at d) cs)
          ≡ prev_of q (some at) (after at d) cs
    tail_prev h = ground arith

pub cell_at-le : (q at : ℕ) (c : Cell) (cs : List Cell) → cell_at q at cs ≡ some c → at ≤ q
unfolding cell_at
cell_at-le q at c [] e = cc
cell_at-le q at c (d ∷ cs) e = elim (ℕ_discrete at q) [
  | yes same ↦ omega arith
  | no ne ↦ omega (arith, cell_at-le q (after at d) c cs (ground arith))
]

-- The block before a block is a block.
pub cell_at-prev_of :
    (q p : ℕ) (at : ℕ) (prev : Option ℕ) (cs : List Cell)
    → prev_of q prev at cs ≡ some p
    → (prev ≡ some p) ⊎ ((d : Cell) × (cell_at p at cs ≡ some d))
unfolding cell_at prev_of
cell_at-prev_of q p at prev [] e = cc
cell_at-prev_of q p at prev (c ∷ cs) e = elim (ℕ_discrete at q) [
  | yes same ↦ inl (ground arith)
  | no ne ↦ elim (cell_at-prev_of q p (after at c) (some at) cs (ground arith)) [
    | inl h ↦ inr (c, ground arith)
    | inr (d, h) ↦ elim (ℕ_discrete at p) [
      | yes here ↦ inr (c, ground arith)
      | no other ↦ inr (d, ground arith)
    ]
  ]
]

-- An operation that leaves a cell at `q` leaves one there, and changes the bytes in use as it does
-- in front of any rest.
module _ (op : Cell → List Cell → List Cell) (lost : ℕ) where
  pub used-act_at :
      (q at : ℕ) (c : Cell) (cs : List Cell)
      → cell_at q at cs ≡ some c
      → ((ds : List Cell) → used_sizes (op c ds) + lost ≡ used_sizes (c ∷ ds))
      → used_sizes (act_at op q at cs) + lost ≡ used_sizes cs
  unfolding used_sizes cell_at
  used-act_at q at c [] e h = cc
  used-act_at q at c (d ∷ cs) e h = elim (ℕ_discrete at q) [
    | yes same ↦
        rw (act_at_hit op q at d cs same)
          (subst (λ k. used_sizes (op k cs) + lost ≡ used_sizes (k ∷ cs)) (head_cell same) (h cs))
    | no ne ↦
        rw (act_at_miss op q at d cs ne)
          (omega (arith, used-act_at q (after at d) c cs (ground arith) h))
  ]
    where
      head_cell : at ≡ q → c ≡ d
      head_cell h = ground arith

pub cell_at-act_at :
    (op : Cell → List Cell → List Cell) (q at : ℕ) (c c' : Cell) (cs : List Cell)
    → cell_at q at cs ≡ some c
    → ((ds : List Cell) → (d : Cell) × (es : List Cell) × (op c ds ≡ d ∷ es) × (d.free ≡ c'.free))
    → (d : Cell) × (cell_at q at (act_at op q at cs) ≡ some d) × (d.free ≡ c'.free)
unfolding cell_at
cell_at-act_at op q at c c' [] e h = cc
cell_at-act_at op q at c c' (d ∷ cs) e h = elim (ℕ_discrete at q) [
  | yes same ↦
      let (f, es, eq, free) = h cs in
      (
        f,
        ap (cell_at q at) (act_at_hit op q at d cs same ∙ ap (λ k. op k cs) (head_cell same) ∙ eq)
            ∙ front same f es,
        free,
      )
  | no ne ↦
      let (f, eq, free) = cell_at-act_at op q (after at d) c c' cs (ground arith) h in
      (f, ap (cell_at q at) (act_at_miss op q at d cs ne) ∙ behind ne ∙ eq, free)
]
  where
    head_cell : at ≡ q → d ≡ c
    head_cell h = ground arith

    front : at ≡ q → (f : Cell) (es : List Cell) → cell_at q at (f ∷ es) ≡ some f
    front s f es = ground arith

    behind :
        at ≢ q
        → cell_at q at (d ∷ act_at op q (after at d) cs)
          ≡ cell_at q (after at d) (act_at op q (after at d) cs)
    behind ne = ground arith

-- The bytes in use fit in the arena.
pub Chain-used :
    (m : Array Block) (prev cur : Option ℕ) (at : ℕ) (cs : List Cell)
    → Chain m prev cur at cs
    → at + used_sizes cs ≤ arena_size
unfolding used_sizes
Chain-used m prev cur at [] ch = omega arith
Chain-used m prev cur at (c ∷ cs) ch =
    ground (arith, Chain-used m (some at) (m at).next (after at c) cs ch.2)

-- A block lies within the arena.
pub cell_at-bound :
    (m : Array Block) (q : ℕ) (prev cur : Option ℕ) (at : ℕ) (c : Cell) (cs : List Cell)
    → Chain m prev cur at cs
    → cell_at q at cs ≡ some c
    → after q c ≤ arena_size
unfolding cell_at
cell_at-bound m q prev cur at c [] ch e = cc
cell_at-bound m q prev cur at c (d ∷ cs) ch e = elim (ℕ_discrete at q) [
  | yes same ↦
      let here : d ≡ c = ground arith in
      omega (arith, Chain-le m (some at) (m at).next (after at d) cs ch.2, ap (λ b. b.size) here)
  | no ne ↦ cell_at-bound m q (some at) (m at).next (after at d) c cs ch.2 (ground arith)
]
