-- ===== src/Pmm/Stack.antt =====
-- The free stack of kernel/memory/pmm.c as the list of the pages it holds, top first.
use clks.Base.{
  ℕ, zero, suc, ◌-◌, ◌%◌, ◌≤◌, ◌<◌, ◌≡◌, ◌≢◌, refl, ap₂, arith, List, [], ◌∷◌, ltb, ◌==◌,
  if◌then◌else◌, Array, update, length, not, ◌&&◌, ap,
}
use clks.Pmm.{Pmm, page_size, max_tracked_pages, alloc_page, free_page}

-- An address that the allocator may hand out.
pub record IsFrame (a : ℕ) : Type 0 where
  pub non_null : a ≢ 0
  pub aligned : a % page_size ≡ 0

pub record IsValid (s : Pmm) : Type 0 where
  pub room : s.free_top ≤ max_tracked_pages
  pub frames : (i : ℕ) → i < s.free_top → IsFrame (s.free_stack i)

-- The first `n` cells of the stack, the last one first.
unfoldable pub pages : Array ℕ → ℕ → List ℕ
pages f zero = []
pages f (suc n) = f n ∷ pages f n

unfoldable pub contents : Pmm → List ℕ
unfolding pages
contents s = pages s.free_stack s.free_top

pages-congr : (f g : Array ℕ) (n : ℕ) → ((i : ℕ) → i < n → f i ≡ g i) → pages f n ≡ pages g n
unfolding pages
pages-congr f g zero h = refl
pages-congr f g (suc n) h =
    ap₂ ◌∷◌ (h n (omega arith)) (pages-congr f g n (λ i lt. h i (omega arith)))

pub pages-update : (f : Array ℕ) (n a : ℕ) → pages (update f n a) (suc n) ≡ a ∷ pages f n
unfolding pages
pages-update f n a = ap₂ ◌∷◌ (ground arith) (pages-congr (update f n a) f n (λ i lt. ground arith))

pub length-pages : (f : Array ℕ) (n : ℕ) → length (pages f n) ≡ n
unfolding pages
length-pages f zero = refl
length-pages f (suc n) = ap suc (length-pages f n)

pub length-contents : (s : Pmm) → length (contents s) ≡ s.free_top
unfolding contents
length-contents s = length-pages s.free_stack s.free_top

-- The abstract allocator: what a caller may rely on.
unfoldable pub pop_page : List ℕ → ℕ × List ℕ
pop_page [] = (0, [])
pop_page (a ∷ rest) = (a, rest)

unfoldable pub push_page : ℕ → List ℕ → List ℕ
push_page a l =
    if (not (a == 0) && a % page_size == 0) && ltb (length l) max_tracked_pages then a ∷ l else l

-- `pages` matches on `suc`, the code tests `free_top == 0`.
pages_of_ne_zero : (f : Array ℕ) (n : ℕ) → n ≢ 0 → pages f n ≡ f (n - 1) ∷ pages f (n - 1)
unfolding pages
pages_of_ne_zero f zero h = absurd (h refl)
pages_of_ne_zero f (suc n) h = ap (λ k. f k ∷ pages f k) (omega arith)

pages-zero : (f : Array ℕ) → pages f 0 ≡ []
unfolding pages
pages-zero f = refl

-- On a valid state `clks_pmm_alloc_page` hands out the top of the stack (0 when it is empty), leaves
-- the other pages as they were, and keeps the state valid.
pub alloc_page-pop :
    (s : Pmm)
    → IsValid s
    → ((alloc_page s).0 ≡ (pop_page (contents s)).0)
      × (contents (alloc_page s).1 ≡ (pop_page (contents s)).1)
      × IsValid (alloc_page s).1
unfolding alloc_page contents pop_page
alloc_page-pop s v =
    ground (arith, pages_of_ne_zero s.free_stack s.free_top, pages-zero s.free_stack)

-- On a valid state `clks_pmm_free_page` pushes the address exactly if it is non-null, page aligned
-- and the stack has room, changes nothing otherwise, and keeps the state valid.
pub free_page-push :
    (a : ℕ) (s : Pmm)
    → IsValid s
    → (contents (free_page a s) ≡ push_page a (contents s)) × IsValid (free_page a s)
unfolding free_page contents push_page
free_page-push a s v =
    ground (arith, pages-update s.free_stack s.free_top a, length-pages s.free_stack s.free_top)

-- On a valid state with room on the stack, a page aligned non-null frame that is freed is the
-- next one to be handed out, and its allocation restores the free pages.
pub alloc-free :
    (a : ℕ) (s : Pmm)
    → IsValid s
    → IsFrame a
    → s.free_top < max_tracked_pages
    → ((alloc_page (free_page a s)).0 ≡ a) × (contents (alloc_page (free_page a s)).1 ≡ contents s)
unfolding push_page pop_page
alloc-free a s v f room =
    ground (arith, free_page-push a s v, alloc_page-pop (free_page a s), length-contents s)
