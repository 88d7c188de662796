-- ===== src/Heap/Chain.antt =====
-- The block headers in the arena of kernel/memory/heap.c represent a list of cells.
use clks.Base.{
  ℕ, ◌+◌, ◌≤◌, ◌<◌, ◌≡◌, refl, arith, Option, none, some, List, [], ◌∷◌, Array, update, update_ne,
  ap, sym, ◌∙◌, subst,
}
use clks.Heap.{Block, header_size, heap_magic, arena_size, set_prev}
use clks.Heap.Cells.{Cell, after}

-- The header at `at` describes the cell `c`.
pub record IsBlock (m : Array Block) (prev : Option ℕ) (at : ℕ) (c : Cell) : Type 0 where
  pub size : (m at).size ≡ c.size
  pub free : (m at).is_free ≡ c.free
  pub back : (m at).prev ≡ prev
  pub magic : (m at).magic ≡ heap_magic

-- From `at` to the end of the arena the headers reached from the pointer `cur` tile it with cells.
abbrev pub Chain : Array Block → Option ℕ → Option ℕ → ℕ → List Cell → Type 0
Chain m prev cur at [] = (cur ≡ none) × (at ≡ arena_size)
Chain m prev cur at (c ∷ cs) =
    (cur ≡ some at) × IsBlock m prev at c × Chain m (some at) (m at).next (after at c) cs

-- The blocks end within the arena.
pub Chain-le :
    (m : Array Block) (prev cur : Option ℕ) (at : ℕ) (cs : List Cell)
    → Chain m prev cur at cs
    → at ≤ arena_size
Chain-le m prev cur at [] ch = omega arith
Chain-le m prev cur at (c ∷ cs) ch =
    omega (arith, Chain-le m (some at) (m at).next (after at c) cs ch.2)

-- Only headers from `at` on matter.
pub Chain-frame :
    (m m' : Array Block) (prev cur : Option ℕ) (at : ℕ) (cs : List Cell)
    → ((a : ℕ) → at ≤ a → m' a ≡ m a)
    → Chain m prev cur at cs
    → Chain m' prev cur at cs
Chain-frame m m' prev cur at [] same ch = ch
Chain-frame m m' prev cur at (c ∷ cs) same ch =
    let e : m' at ≡ m at = same at (omega arith) in
    (
      ch.0,
      record {
        size = ap (λ b. b.size) e ∙ ch.1.size;
        free = ap (λ b. b.is_free) e ∙ ch.1.free;
        back = ap (λ b. b.prev) e ∙ ch.1.back;
        magic = ap (λ b. b.magic) e ∙ ch.1.magic;
      },
      subst (λ k. Chain m' (some at) k (after at c) cs) (sym (ap (λ b. b.next) e))
          (Chain-frame m m' (some at) (m at).next (after at c) cs (λ a le. same a (omega arith))
            ch.2),
    )

-- A change to the first header that keeps its extent and its forward pointer.
pub Chain-replace :
    (m m' : Array Block) (prev prev' cur : Option ℕ) (at : ℕ) (c c' : Cell) (cs : List Cell)
    → Chain m prev cur at (c ∷ cs)
    → IsBlock m' prev' at c'
    → c'.size ≡ c.size
    → (m' at).next ≡ (m at).next
    → ((a : ℕ) → after at c ≤ a → m' a ≡ m a)
    → Chain m' prev' cur at (c' ∷ cs)
Chain-replace m m' prev prev' cur at c c' cs ch b same fwd rest = (
  ch.0,
  b,
  subst (λ k. Chain m' (some at) k (after at c') cs) (sym fwd)
      (subst (λ k. Chain m' (some at) (m at).next (at + header_size + k) cs) (sym same)
        (Chain-frame m m' (some at) (m at).next (after at c) cs rest ch.2)),
)

set_prev-some :
    (m : Array Block) (cur : Option ℕ) (p at : ℕ)
    → cur ≡ some at
    → set_prev cur p m ≡ update m at (record (m at) { prev = some p })
unfolding set_prev
set_prev-some m cur p at e = ap (λ k. set_prev k p m) e

-- Setting the back pointer of the first header of a chain.
pub Chain-set_prev :
    (m : Array Block) (prev cur : Option ℕ) (p at : ℕ) (cs : List Cell)
    → Chain m prev cur at cs
    → Chain (set_prev cur p m) (some p) cur at cs
Chain-set_prev m prev cur p at [] ch = ch
Chain-set_prev m prev cur p at (c ∷ cs) ch =
    subst (λ k. Chain k (some p) cur at (c ∷ cs)) (sym (set_prev-some m cur p at ch.0))
      (Chain-replace m (update m at (record (m at) { prev = some p })) prev (some p) cur at c c cs
        ch (ground arith) refl (ground arith) (λ a le. ground arith))

-- It leaves the headers before them alone.
pub set_prev_below :
    (m : Array Block) (prev cur : Option ℕ) (p at a : ℕ) (cs : List Cell)
    → Chain m prev cur at cs
    → a < at
    → set_prev cur p m a ≡ m a
unfolding set_prev
set_prev_below m prev cur p at a [] ch lt = ap (λ k. set_prev k p m a) ch.0
set_prev_below m prev cur p at a (c ∷ cs) ch lt =
    rw (set_prev-some m cur p at ch.0)
      (update_ne m at a (record (m at) { prev = some p }) (omega arith))
