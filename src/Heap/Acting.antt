-- ===== src/Heap/Acting.antt =====
-- An operation at one block of the list in kernel/memory/heap.c, and marking a block free.
use clks.Base.{
  ℕ, ◌≤◌, ◌<◌, ◌≡◌, ◌≢◌, refl, arith, true, Option, some, List, [], ◌∷◌, Array, update, update_ne,
  ap, sym, ◌∙◌, subst, ℕ_discrete,
}
use clks.Heap.{Block}
use clks.Heap.Cells.{Cell, after, act_at, mark_free, cell_at}
use clks.Heap.Chain.{IsBlock, Chain, Chain-replace}

-- A header that is not changed still describes its cell.
same_block :
    {m m' : Array Block} {prev : Option ℕ} {at : ℕ} {c : Cell}
    → m' at ≡ m at
    → IsBlock m prev at c
    → IsBlock m' prev at c
same_block e b = record {
  size = ap (λ b. b.size) e ∙ b.size;
  free = ap (λ b. b.is_free) e ∙ b.free;
  back = ap (λ b. b.prev) e ∙ b.back;
  magic = ap (λ b. b.magic) e ∙ b.magic;
}

pub act_at_hit :
    (op : Cell → List Cell → List Cell) (q at : ℕ) (c : Cell) (cs : List Cell)
    → at ≡ q
    → act_at op q at (c ∷ cs) ≡ op c cs
unfolding act_at
act_at_hit op q at c cs e = ground arith

pub act_at_miss :
    (op : Cell → List Cell → List Cell) (q at : ℕ) (c : Cell) (cs : List Cell)
    → at ≢ q
    → act_at op q at (c ∷ cs) ≡ c ∷ act_at op q (after at c) cs
unfolding act_at
act_at_miss op q at c cs e = ground arith

-- What an operation on the store does from the header at `q` on, it does in the whole chain.
module _ (op : Cell → List Cell → List Cell) (q : ℕ) (m m' : Array Block)
    (here : (prev cur : Option ℕ) (c : Cell) (cs : List Cell)
      → Chain m prev cur q (c ∷ cs)
      → Chain m' prev cur q (op c cs) × ((b : ℕ) → b < q → m' b ≡ m b)) where
  pub act_at-Chain :
      (prev cur : Option ℕ) (at : ℕ) (c : Cell) (cs : List Cell)
      → Chain m prev cur at cs
      → cell_at q at cs ≡ some c
      → (at ≤ q) × Chain m' prev cur at (act_at op q at cs) × ((b : ℕ) → b < q → m' b ≡ m b)
  unfolding cell_at
  act_at-Chain prev cur at c [] ch e = cc
  act_at-Chain prev cur at c (d ∷ cs) ch e = elim (ℕ_discrete at q) [
    | yes same ↦ (
      omega arith,
      subst (λ l. Chain m' prev cur at l) (sym (act_at_hit op q at d cs same))
          (subst (λ k. Chain m' prev cur k (op d cs)) (sym same)
            (here prev cur d cs (subst (λ k. Chain m prev cur k (d ∷ cs)) same ch)).0),
      (here prev cur d cs (subst (λ k. Chain m prev cur k (d ∷ cs)) same ch)).1,
    )
    | no ne ↦
        let (le, ch', below) =
          act_at-Chain (some at) (m at).next (after at d) c cs ch.2 (ground arith) in
        let e' : m' at ≡ m at = below at (omega arith) in
        (
          omega arith,
          subst (λ l. Chain m' prev cur at l) (sym (act_at_miss op q at d cs ne))
              (
                ch.0,
                same_block e' ch.1,
                subst (λ k. Chain m' (some at) k (after at d) (act_at op q (after at d) cs))
                    (sym (ap (λ b. b.next) e')) ch',
              ),
          below,
        )
  ]

-- `block->is_free = CLKS_TRUE`
abbrev pub freed : ℕ → Array Block → Array Block
freed a m = update m a (record (m a) { is_free = true })

pub freed-Chain :
    (m : Array Block) (a : ℕ) (prev cur : Option ℕ) (at : ℕ) (c : Cell) (cs : List Cell)
    → Chain m prev cur at cs
    → cell_at a at cs ≡ some c
    → Chain (freed a m) prev cur at (act_at mark_free a at cs)
freed-Chain m a prev cur at c cs ch e =
    (act_at-Chain mark_free a m (freed a m)
      (λ prev cur c cs ch. (
        first prev cur c cs ch,
        λ b lt. update_ne m a b (record (m a) { is_free = true }) (omega arith),
      ))
      prev cur at c cs ch e).1
  where
    first :
        (prev cur : Option ℕ) (c : Cell) (cs : List Cell)
        → Chain m prev cur a (c ∷ cs)
        → Chain (freed a m) prev cur a (mark_free c cs)
    first prev cur c cs ch =
        unfold mark_free in
        Chain-replace m (freed a m) prev prev cur a c (record c { free = true }) cs ch
          (ground arith) refl (ground arith) (λ b le. ground arith)
