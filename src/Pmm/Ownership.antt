-- ===== src/Pmm/Ownership.antt =====
-- kernel/memory/pmm.c: no page has two owners, as long as its clients free only what they hold.
use clks.Base.{
  ℕ, ◌+◌, ◌%◌, ◌<◌, ◌≡◌, ◌≢◌, refl, arith, List, [], ◌∷◌, ◌++◌, ltb, ◌==◌, inl, inr, Bool-cases,
  length, ap, ap₂, append_assoc, not, subst, sym, ◌∙◌, ◌&&◌,
}
use clks.Base.Unique.{
  NotIn, Unique, Unique-append_right, NotIn-append_right, Unique-to_front, Unique-to_middle,
}
use clks.Pmm.{Pmm, max_tracked_pages, page_size, alloc_page, free_page}
use clks.Pmm.Stack.{
  IsFrame, IsValid, contents, pop_page, push_page, alloc_page-pop, free_page-push, length-contents,
}

-- The allocator beside the pages that its clients hold.
pub record System : Type 0 where
  pub pmm : Pmm
  pub held : List ℕ

-- A client asks for a page while one is left, or gives back one that it holds.
pub data Step : System → System → Type 0 where
  take_page :
      (s : Pmm) (held : List ℕ)
      → s.free_top ≢ 0
      → Step
          (record { pmm = s; held = held })
          (record { pmm = (alloc_page s).1; held = (alloc_page s).0 ∷ held })
  give_page :
      (s : Pmm) (xs : List ℕ) (a : ℕ) (ys : List ℕ)
      → Step
          (record { pmm = s; held = xs ++ a ∷ ys })
          (record { pmm = free_page a s; held = xs ++ ys })

pub data Reach (t : System) : System → Type 0 where
  start : Reach t t
  later : {u v : System} → Reach t u → Step u v → Reach t v

pub record IsOwned (t : System) : Type 0 where
  pub valid : IsValid t.pmm
  pub unique : Unique (contents t.pmm ++ t.held)

-- The top page of a non-empty stack moves from the stack to its new owner.
contents-alloc :
    (s : Pmm)
    → IsValid s
    → s.free_top ≢ 0
    → contents s ≡ (alloc_page s).0 ∷ contents (alloc_page s).1
unfolding pop_page
contents-alloc s v h = go (contents s) refl
  where
    go : (l : List ℕ) → contents s ≡ l → contents s ≡ (alloc_page s).0 ∷ contents (alloc_page s).1
    go [] e = absurd (omega (arith, length-contents s, ap length e))
    go (a ∷ l) e =
        let (addr, rest, _) = alloc_page-pop s v in
        e ∙ sym (ap₂ ◌∷◌ (addr ∙ ap (λ k. (pop_page k).0) e) (rest ∙ ap (λ k. (pop_page k).1) e))

push_page-Unique : (a : ℕ) (l r : List ℕ) → Unique (a ∷ l ++ r) → Unique (push_page a l ++ r)
unfolding push_page
push_page-Unique a l r u =
    elim (Bool-cases ((not (a == 0) && a % page_size == 0) && ltb (length l) max_tracked_pages)) [
      | inl pushed ↦ rw pushed u
      | inr kept ↦ rw kept u.1
    ]

Step-IsOwned : {t u : System} → Step t u → IsOwned t → IsOwned u
Step-IsOwned (take_page s held h) o = record {
  valid = (alloc_page-pop s o.valid).2;
  unique =
      Unique-to_middle (alloc_page s).0 (contents (alloc_page s).1) held
        (subst (λ k. Unique (k ++ held)) (contents-alloc s o.valid h) o.unique);
}
Step-IsOwned (give_page s xs a ys) o = record {
  valid = (free_page-push a s o.valid).1;
  unique = rw (free_page-push a s o.valid).0 (
      push_page-Unique a (contents s) (xs ++ ys) (
        subst (λ k. Unique (a ∷ k)) (append_assoc (contents s) xs ys)
          (Unique-to_front a (contents s ++ xs) ys
            (subst Unique (sym (append_assoc (contents s) xs (a ∷ ys))) o.unique))));
}

pub Reach-IsOwned : {t u : System} → IsOwned t → Reach t u → IsOwned u
Reach-IsOwned o start = o
Reach-IsOwned o (later r st) = Step-IsOwned st (Reach-IsOwned o r)

-- Exclusive ownership: from a state in which no page is free or held twice, however clients take
-- pages and give back pages that they hold, no page is ever held twice, and the next page handed
-- out is held by nobody.
pub alloc_page-exclusive :
    {t u : System}
    → IsOwned t
    → Reach t u
    → Unique u.held × (u.pmm.free_top ≢ 0 → NotIn (alloc_page u.pmm).0 u.held)
alloc_page-exclusive {u} o r = (
  Unique-append_right (contents u.pmm) u.held owned.unique,
  λ h.
      NotIn-append_right (alloc_page u.pmm).0 (contents (alloc_page u.pmm).1) u.held
        (subst (λ k. Unique (k ++ u.held)) (contents-alloc u.pmm owned.valid h) owned.unique).0,
)
  where
    owned : IsOwned u
    owned = Reach-IsOwned o r

-- Nothing checks that a page is not free already: on a valid state with room for two more, a
-- page aligned non-null frame that is freed twice is handed out twice in a row.
pub alloc-double_free :
    (a : ℕ) (s : Pmm)
    → IsValid s
    → IsFrame a
    → s.free_top + 1 < max_tracked_pages
    → let (first, s') = alloc_page (free_page a (free_page a s)) in
      (first ≡ a) × ((alloc_page s').0 ≡ a)
unfolding push_page pop_page
alloc-double_free a s v f room = ground (
  arith,
  free_page-push a s v,
  free_page-push a (free_page a s),
  alloc_page-pop (free_page a (free_page a s)),
  alloc_page-pop (alloc_page (free_page a (free_page a s))).1,
  length-contents s,
  length-contents (free_page a s),
)
