-- ===== src/Pmm/Boot.antt =====
-- kernel/memory/pmm.c: a sorted memory map puts no page on the free stack twice.
use clks.Base.{
  ℕ, zero, suc, ◌+◌, ◌-◌, ◌/◌, ◌≤◌, ◌<◌, ◌≡◌, refl, arith, Option, none, some, List, [], ◌∷◌, ◌==◌,
  if◌then◌else◌, inl, inr, Array, subst, append-nil, ◌∙◌, dec_lt, ℕ_discrete, update, u64_mod,
}
use clks.Base.Unique.{NotIn, Unique}
use clks.Pmm.{
  Pmm, MemmapEntry, page_size, max_tracked_pages, min_usable_addr, memmap_usable, track_page,
  track_entry, track_entries, cleared, init,
}
use clks.Pmm.Stack.{pages, contents}
use clks.Pmm.Range.{track_low, track_full, track_pushed, track_range_lem}
use clks.Pmm.Init.{
  Fits, start_of, end_of, bounds, entry_skipped, entry_walked, track_entries-cons, track_entry-none,
  init_lem,
}
use clks.Pmm.Ownership.{IsOwned}

-- Usable entries are in the order of their addresses and do not overlap; the first starts at or
-- above `b`.
abbrev pub IsSorted : ℕ → List (Option MemmapEntry) → Type 0
IsSorted b [] = Unit
IsSorted b (none ∷ rest) = IsSorted b rest
IsSorted b (some e ∷ rest) =
    (e.kind ≡ memmap_usable → b ≤ e.base)
    × IsSorted (if e.kind == memmap_usable then e.base + e.len else b) rest

-- The stack ascends, and stays below `b`.
record Ascends (b : ℕ) (s : Pmm) : Type 0 where
  counted : s.managed_pages ≡ s.free_top
  order : (i j : ℕ) → i < j → j < s.free_top → s.free_stack i < s.free_stack j
  below : (i : ℕ) → i < s.free_top → s.free_stack i < b

Ascends-mono : {b c : ℕ} {s : Pmm} → b ≤ c → Ascends b s → Ascends c s
Ascends-mono {s} le t = record {
  counted = t.counted;
  order = t.order;
  below = λ i lt. omega (arith, t.below i lt);
}

track_page-Ascends : (a : ℕ) (s : Pmm) → Ascends a s → Ascends (a + page_size) (track_page a s)
track_page-Ascends a s t = elim (dec_lt a min_usable_addr) [
  | yes low ↦ rw (track_low a s low) (Ascends-mono (omega arith) t)
  | no high ↦ elim (dec_lt s.free_top max_tracked_pages) [
    | yes room ↦
        let (top, managed, cells) = track_pushed a s (omega arith) room t.counted in
        record {
          counted = omega arith;
          order = λ i j lt lt'. rw cells (order' i j lt (omega arith));
          below = λ i lt. rw cells (below' i (omega arith));
        }
    | no full ↦
        let (top, managed, cells) = track_full a s (omega arith) (omega arith) in
        record {
          counted = rw (top, managed) t.counted;
          order = λ i j lt lt'. rw cells (t.order i j lt (omega arith));
          below = λ i lt. rw cells (omega (arith, t.below i (omega arith)));
        }
  ]
]
  where
    order' :
        (i j : ℕ)
        → i < j
        → j < s.free_top + 1
        → update s.free_stack s.free_top a i < update s.free_stack s.free_top a j
    order' i j lt lt' = ground (arith, t.order i j lt, t.below i)

    below' : (i : ℕ) → i < s.free_top + 1 → update s.free_stack s.free_top a i < a + page_size
    below' i lt = ground (arith, t.below i)

-- Where the next entry may start.
abbrev next_from : ℕ → MemmapEntry → ℕ
next_from b e = if e.kind == memmap_usable then e.base + e.len else b

track_entry-Ascends :
    (b : ℕ) (e : MemmapEntry) (s : Pmm)
    → e.base + e.len + page_size ≤ u64_mod
    → (e.kind ≡ memmap_usable → b ≤ e.base)
    → Ascends b s
    → (s' : Pmm) × (track_entry (some e) s ≡ some s') × Ascends (next_from b e) s'
track_entry-Ascends b e s fit sorted t = elim (ℕ_discrete e.kind memmap_usable) [
  | no ne ↦ (s, entry_skipped e s (inl ne), Ascends-mono (ground arith) t)
  | yes k ↦ elim (dec_lt (start_of e) (end_of e)) [
    | no ge ↦ (s, entry_skipped e s (inr (omega arith)), Ascends-mono (ground (arith, sorted k)) t)
    | yes lt ↦
        let (r, q, t') =
          track_range_lem Ascends (start_of e) (end_of e) (omega (arith, bounds e fit))
            (bounds e fit).5 (λ a s _ _ _. track_page-Ascends a s)
            ((end_of e - start_of e) / page_size + 1) (start_of e) s (omega (arith, bounds e fit))
            (omega arith) (omega arith) (bounds e fit).2
            (Ascends-mono (omega (arith, bounds e fit, sorted k)) t) in
        (r, entry_walked e s k lt ∙ q, Ascends-mono (ground (arith, bounds e fit)) t')
  ]
]

track_entries-Ascends :
    (b : ℕ) (entries : List (Option MemmapEntry)) (s : Pmm)
    → Fits entries
    → IsSorted b entries
    → Ascends b s
    → (c : ℕ) × (s' : Pmm) × (track_entries entries s ≡ some s') × Ascends c s'
track_entries-Ascends b [] s f o t = (b, s, unfold track_entries in refl, t)
track_entries-Ascends b (none ∷ rest) s f o t =
    let (c, s', q, t') = track_entries-Ascends b rest s f o t in
    (c, s', track_entries-cons none rest s s (track_entry-none s) ∙ q, t')
track_entries-Ascends b (some e ∷ rest) s f o t =
    let (s₁, q₁, t₁) = track_entry-Ascends b e s f.0 o.0 t in
    let (c, s₂, q₂, t₂) = track_entries-Ascends (next_from b e) rest s₁ f.1 o.1 t₁ in
    (c, s₂, track_entries-cons (some e) rest s s₁ q₁ ∙ q₂, t₂)

pages-NotIn : (f : Array ℕ) (a n : ℕ) → ((i : ℕ) → i < n → f i < a) → NotIn a (pages f n)
unfolding pages
pages-NotIn f a zero h = tt
pages-NotIn f a (suc n) h =
    (omega (arith, h n (omega arith)), pages-NotIn f a n (λ i lt. h i (omega arith)))

pages-Unique : (f : Array ℕ) (n : ℕ) → ((i j : ℕ) → i < j → j < n → f i < f j) → Unique (pages f n)
unfolding pages
pages-Unique f zero h = tt
pages-Unique f (suc n) h = (
  pages-NotIn f (f n) n (λ i lt. h i n lt (omega arith)),
  pages-Unique f n (λ i j lt lt'. h i j lt (omega arith)),
)

-- `clks_pmm_init` on a memory map whose usable entries are sorted and do not overlap (and fit in 64
-- bits) ends in a state where no page is free twice and no page is held.
pub init-IsOwned :
    (entries : List (Option MemmapEntry))
    → Fits entries
    → IsSorted 0 entries
    → (s : Pmm) × (init (some entries) ≡ some s) × IsOwned (record { pmm = s; held = [] })
unfolding contents
init-IsOwned entries f o =
    let (s, q, _, v) = init_lem entries f in
    let (c, s', q', t) = track_entries-Ascends 0 entries cleared f o empty in
    let same : s' ≡ s = unfold init in cc q in
    (
      s,
      q,
      record {
        valid = v;
        unique = rw append-nil (
            subst (λ k. Unique (contents k)) same (pages-Unique s'.free_stack s'.free_top t.order));
      },
    )
  where
    empty : Ascends 0 cleared
    empty = record {
      counted = refl;
      order = λ i j lt lt'. absurd (omega arith);
      below = λ i lt. absurd (omega arith);
    }
