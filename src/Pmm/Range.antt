-- ===== src/Pmm/Range.antt =====
-- The inner loop of `clks_pmm_init` in kernel/memory/pmm.c: it ends, and which pages it keeps.
use clks.Base.{
  ℕ, zero, suc, ◌+◌, ◌-◌, ◌*◌, ◌/◌, ◌%◌, ◌≤◌, ◌<◌, ◌≡◌, arith, some, ◌⊎◌, inl, inr, add64, u64_mod,
  dec_lt, lt→ltb, subst, ℕ_discrete, update, update_self, update_ne, ◌∙◌, sym,
}
use clks.Pmm.{Pmm, page_size, max_tracked_pages, min_usable_addr, track_page, track_range}

-- The inner loop ends, and keeps what its body keeps; `P a s` is the invariant before page `a`.
pub track_range_lem :
    (P : ℕ → Pmm → Type 0) (lo hi : ℕ)
    → hi < u64_mod
    → hi % page_size ≡ 0
    → ((a : ℕ) (s : Pmm)
        → lo ≤ a
        → a + page_size ≤ hi
        → a % page_size ≡ 0
        → P a s
        → P (a + page_size) (track_page a s))
    → (fuel a : ℕ) (s : Pmm) → hi < a + fuel * page_size
    → lo ≤ a
    → a ≤ hi
    → a % page_size ≡ 0
    → P a s
    → (s' : Pmm) × (track_range fuel a hi s ≡ some s') × P hi s'
unfolding track_range
track_range_lem P lo hi fits al keep zero a s f l h aa p = absurd (omega arith)
track_range_lem P lo hi fits al keep (suc fuel) a s f l h aa p = elim (dec_lt a hi) [
  | yes lt ↦
      let (s', e, q) =
        track_range_lem P lo hi fits al keep fuel (a + page_size) (track_page a s) (omega arith)
          (omega arith) (omega arith) (omega arith) (keep a s l (omega arith) aa p) in
      (s', rw (lt→ltb a hi lt, no_wrap lt) e, q)
  | no ge ↦ (s, ground arith, subst (λ k. P k s) (omega arith) p)
]
  where
    no_wrap : a < hi → add64 a page_size ≡ a + page_size
    no_wrap lt = omega arith

-- The stack holds pages of `D` only, and all of them unless it is full.
pub record Tracks (D : ℕ → Type 0) (s : Pmm) : Type 0 where
  pub room : s.free_top ≤ max_tracked_pages
  pub counted : s.managed_pages ≡ s.free_top
  pub sound : (i : ℕ) → i < s.free_top → D (s.free_stack i)
  pub complete :
      (a : ℕ)
      → s.free_top < max_tracked_pages
      → D a
      → (i : ℕ) × (i < s.free_top) × (s.free_stack i ≡ a)

pub Tracks-map :
    {D E : ℕ → Type 0} {s : Pmm}
    → ((a : ℕ) → D a → E a)
    → ((a : ℕ) → E a → D a)
    → Tracks D s
    → Tracks E s
Tracks-map to back t = record {
  room = t.room;
  counted = t.counted;
  sound = λ i lt. to _ (t.sound i lt);
  complete = λ a lt d. t.complete a lt (back a d);
}

abbrev OrPage : (ℕ → Type 0) → ℕ → ℕ → Type 0
OrPage D a x = D x ⊎ ((x ≡ a) × (min_usable_addr ≤ a))

-- The three branches of `track_page`.
pub track_low : (a : ℕ) (s : Pmm) → a < min_usable_addr → track_page a s ≡ s
unfolding track_page
track_low a s h = ground arith

pub track_full :
    (a : ℕ) (s : Pmm)
    → min_usable_addr ≤ a
    → max_tracked_pages ≤ s.free_top
    → ((track_page a s).free_top ≡ s.free_top)
      × ((track_page a s).managed_pages ≡ s.managed_pages)
      × ((track_page a s).free_stack ≡ s.free_stack)
unfolding track_page
track_full a s h k = ground arith

pub track_pushed :
    (a : ℕ) (s : Pmm)
    → min_usable_addr ≤ a
    → s.free_top < max_tracked_pages
    → s.managed_pages ≡ s.free_top
    → ((track_page a s).free_top ≡ s.free_top + 1)
      × ((track_page a s).managed_pages ≡ s.free_top + 1)
      × ((track_page a s).free_stack ≡ update s.free_stack s.free_top a)
unfolding track_page
track_pushed a s h k c = ground arith

pub track_page-Tracks :
    (D : ℕ → Type 0) (a : ℕ) (s : Pmm) → Tracks D s → Tracks (OrPage D a) (track_page a s)
track_page-Tracks D a s t = elim (dec_lt a min_usable_addr) [
  | yes low ↦
      rw (track_low a s low)
        (Tracks-map (λ x d. inl d) (λ x d. elim d [ inl e ↦ e | inr e ↦ absurd (omega arith) ]) t)
  | no high ↦ elim (dec_lt s.free_top max_tracked_pages) [
    | yes room ↦ pushed (omega arith) room
    | no full ↦ dropped (omega arith) (omega arith)
  ]
]
  where
    sound' :
        min_usable_addr ≤ a
        → (i : ℕ) → i < s.free_top + 1
        → OrPage D a (update s.free_stack s.free_top a i)
    sound' h i lt = elim (ℕ_discrete i s.free_top) [
      | yes e ↦ inr (rw e (update_self s.free_stack s.free_top a), h)
      | no ne ↦ inl (rw (update_ne s.free_stack s.free_top i a ne) (t.sound i (omega arith)))
    ]

    complete' :
        (x : ℕ)
        → s.free_top < max_tracked_pages
        → OrPage D a x
        → (i : ℕ) × (i < s.free_top + 1) × (update s.free_stack s.free_top a i ≡ x)
    complete' x room (inl d) =
        let (i, lt, e) = t.complete x room d in
        (i, omega arith, update_ne s.free_stack s.free_top i a (omega arith) ∙ e)
    complete' x room (inr d) =
        (s.free_top, omega arith, update_self s.free_stack s.free_top a ∙ sym d.0)

    pushed :
        min_usable_addr ≤ a → s.free_top < max_tracked_pages → Tracks (OrPage D a) (track_page a s)
    pushed h room =
        let (top, managed, cells) = track_pushed a s h room t.counted in
        record {
          room = omega arith;
          counted = omega arith;
          sound = λ i lt. rw cells (sound' h i (omega arith));
          complete = λ x lt d. rw (cells, top) (complete' x room d);
        }

    dropped :
        min_usable_addr ≤ a → max_tracked_pages ≤ s.free_top → Tracks (OrPage D a) (track_page a s)
    dropped h full =
        let (top, managed, cells) = track_full a s h full in
        record {
          room = rw top t.room;
          counted = rw (top, managed) t.counted;
          sound = λ i lt. rw cells (inl (t.sound i (rw top at lt)));
          complete = λ x lt d. absurd (omega arith);
        }

-- Pages between `lo` and `a` that the inner loop keeps.
pub record Between (lo a x : ℕ) : Type 0 where
  pub from : lo ≤ x
  pub below : x < a
  pub high : min_usable_addr ≤ x
  pub aligned : x % page_size ≡ 0

pub range-Tracks :
    (D : ℕ → Type 0) (lo hi : ℕ) (s : Pmm)
    → hi < u64_mod
    → lo % page_size ≡ 0
    → hi % page_size ≡ 0
    → lo ≤ hi
    → Tracks D s
    → (s' : Pmm) × (track_range ((hi - lo) / page_size + 1) lo hi s ≡ some s')
      × Tracks (λ x. D x ⊎ Between lo hi x) s'
range-Tracks D lo hi s fits al ah le t =
    track_range_lem (λ a s. Tracks (λ x. D x ⊎ Between lo a x) s) lo hi fits ah keep
      ((hi - lo) / page_size + 1) lo s (omega arith) (omega arith) le al
      (Tracks-map (λ x d. inl d) (λ x d. elim d [ inl e ↦ e | inr b ↦ absurd (omega arith) ]) t)
  where
    grow :
        (a x : ℕ)
        → lo ≤ a
        → a % page_size ≡ 0
        → OrPage (λ x. D x ⊎ Between lo a x) a x
        → D x ⊎ Between lo (a + page_size) x
    grow a x l aa (inl (inl d)) = inl d
    grow a x l aa (inl (inr b)) = inr (omega arith)
    grow a x l aa (inr p) = inr (omega arith)

    shrink :
        (a x : ℕ)
        → a % page_size ≡ 0
        → D x ⊎ Between lo (a + page_size) x
        → OrPage (λ x. D x ⊎ Between lo a x) a x
    shrink a x aa (inl d) = inl (inl d)
    shrink a x aa (inr b) = elim (dec_lt x a) [
      | yes lt ↦ inl (inr (omega arith))
      | no ge ↦ inr (omega arith)
    ]

    keep :
        (a : ℕ) (s : Pmm)
        → lo ≤ a
        → a + page_size ≤ hi
        → a % page_size ≡ 0
        → Tracks (λ x. D x ⊎ Between lo a x) s
        → Tracks (λ x. D x ⊎ Between lo (a + page_size) x) (track_page a s)
    keep a s l h aa t =
        Tracks-map (λ x. grow a x l aa) (λ x. shrink a x aa)
          (track_page-Tracks (λ x. D x ⊎ Between lo a x) a s t)
