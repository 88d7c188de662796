-- ===== src/Heap/Merge.antt =====
-- Merging neighbours in kernel/memory/heap.c.
use clks.Base.{
  ℕ, ◌+◌, ◌≤◌, ◌<◌, ◌≡◌, ◌≢◌, refl, arith, Bool, true, false, not, Option, none, some, List, [],
  ◌∷◌, ◌==◌, if◌then◌else◌, inl, inr, Bool-cases, Array, update, update_self, update_ne, ap, sym,
  ◌∙◌, subst, add64,
}
use clks.Heap.{Block, header_size, heap_magic, arena_size, set_prev, merge_with, merge_next}
use clks.Heap.Cells.{Cell, after, merge_first}
use clks.Heap.Chain.{IsBlock, Chain, Chain-le, Chain-frame, Chain-set_prev, set_prev_below}

-- The store after a merge that happens.
abbrev merge_store : Array Block → ℕ → ℕ → Array Block
merge_store m a n = set_prev (m n).next a (
    update m a (record (m a) { size = (m a).size + (header_size + (m n).size); next = (m n).next }))

merge_next-some :
    (m : Array Block) (a n : ℕ) → (m a).next ≡ some n → merge_next a m ≡ merge_with a n m
unfolding merge_next
merge_next-some m a n e = ap (elim [ none ↦ m | some next ↦ merge_with a next m ]) e

merge_with_free :
    (m : Array Block) (a n : ℕ)
    → n ≢ a
    → (m n).is_free ≡ true
    → (m n).magic ≡ heap_magic
    → (m a).size + (header_size + (m n).size) ≤ arena_size
    → merge_with a n m ≡ merge_store m a n
unfolding merge_with
merge_with_free m a n ne free ok le = rw (test, at_size, untouched) (ap test_free free)
  where
    test_free : Bool → Array Block
    test_free b = if not b then m else merge_store m a n

    test : ((m n).magic == heap_magic) ≡ true
    test = ground arith

    at_size :
        add64 (m a).size (add64 header_size (m n).size) ≡ (m a).size + (header_size + (m n).size)
    at_size = omega arith

    untouched :
        (update m a
          (record (m a) { size = (m a).size + (header_size + (m n).size); next = (m n).next })
          n).next
        ≡ (m n).next
    untouched = ground arith

merge_with_used : (m : Array Block) (a n : ℕ) → (m n).is_free ≡ false → merge_with a n m ≡ m
unfolding merge_with
merge_with_used m a n free = ground arith

merge_next-none : (m : Array Block) (a : ℕ) → (m a).next ≡ none → merge_next a m ≡ m
unfolding merge_next
merge_next-none m a e = ap (elim [ none ↦ m | some next ↦ merge_with a next m ]) e

-- A block at `at` and one behind it, once the first has swallowed the second.
module _ (m : Array Block) (prev cur : Option ℕ) (at : ℕ) (c d : Cell) (ds : List Cell)
    (ch : Chain m prev cur at (c ∷ d ∷ ds)) where
  abbrev n : ℕ
  n = after at c

  abbrev grown : Block
  grown = record (m at) { size = (m at).size + (header_size + (m n).size); next = (m n).next }

  middle : Chain (update m at grown) (some n) (m n).next (after n d) ds
  middle =
      Chain-frame m (update m at grown) (some n) (m n).next (after n d) ds
        (λ b le. update_ne m at b grown (omega arith)) ch.2.2

  below_next : (b : ℕ) → b < after n d → merge_store m at n b ≡ update m at grown b
  below_next b lt =
      set_prev_below (update m at grown) (some n) (m n).next at (after n d) b ds middle lt

  at_first : merge_store m at n at ≡ grown
  at_first = below_next at (omega arith) ∙ update_self m at grown

  below : (b : ℕ) → b < at → merge_store m at n b ≡ m b
  below b lt = below_next b (omega arith) ∙ update_ne m at b grown (omega arith)

  rest : Chain (merge_store m at n) (some at) (m n).next (after n d) ds
  rest = Chain-set_prev (update m at grown) (some n) (m n).next at (after n d) ds middle

  swallowed :
      Chain
        (merge_store m at n)
        prev
        cur
        at
        (record c { size = c.size + (header_size + d.size) } ∷ ds)
  swallowed = (
    ch.0,
    ground (arith, at_first),
    subst
        (λ k.
          Chain (merge_store m at n) (some at) k
            (at + header_size + (c.size + (header_size + d.size))) ds)
        (sym (ap (λ b. b.next) at_first))
        (subst (λ k. Chain (merge_store m at n) (some at) (m n).next k ds) (omega arith) rest),
  )

  unfoldable pick : Bool → List Cell
  pick free = if free then record c { size = c.size + (header_size + d.size) } ∷ ds else c ∷ d ∷ ds

  -- What holds of the store that `merge_with` makes holds of the one that `merge_next` makes.
  as_store :
      (s : Array Block)
      → merge_with at n m ≡ s
      → Chain s prev cur at (pick d.free) × ((b : ℕ) → b < at → s b ≡ m b)
      → Chain (merge_next at m) prev cur at (pick d.free)
        × ((b : ℕ) → b < at → merge_next at m b ≡ m b)
  as_store s e k =
      subst (λ s. Chain s prev cur at (pick d.free) × ((b : ℕ) → b < at → s b ≡ m b))
        (sym (merge_next-some m at n ch.2.0 ∙ e)) k

  merge_two :
      Chain (merge_next at m) prev cur at (pick d.free)
      × ((b : ℕ) → b < at → merge_next at m b ≡ m b)
  unfolding pick
  merge_two =
      let b : IsBlock m (some at) n d = ch.2.1 in
      let bound = Chain-le m (some n) (m n).next (after n d) ds ch.2.2 in
      elim (Bool-cases d.free) [
        | inl free ↦
            as_store (merge_store m at n)
              (merge_with_free m at n (omega arith) (b.free ∙ free) b.magic (omega (arith, bound)))
              (
                subst (λ l. Chain (merge_store m at n) prev cur at l) (sym (ap pick free))
                    swallowed,
                below,
              )
        | inr used ↦
            as_store m (merge_with_used m at n (b.free ∙ used))
              (subst (λ l. Chain m prev cur at l) (sym (ap pick used)) ch, λ b lt. refl)
      ]

-- The first cell of a chain swallows the next one if that is free.
pub merge_first-Chain :
    (m : Array Block) (prev cur : Option ℕ) (at : ℕ) (c : Cell) (cs : List Cell)
    → Chain m prev cur at (c ∷ cs)
    → Chain (merge_next at m) prev cur at (merge_first c cs)
      × ((b : ℕ) → b < at → merge_next at m b ≡ m b)
unfolding merge_first pick
merge_first-Chain m prev cur at c [] ch =
    subst (λ k. Chain k prev cur at (c ∷ []) × ((b : ℕ) → b < at → k b ≡ m b))
      (sym (merge_next-none m at ch.2.0)) (ch, λ b lt. refl)
merge_first-Chain m prev cur at c (d ∷ ds) ch = merge_two m prev cur at c d ds ch
