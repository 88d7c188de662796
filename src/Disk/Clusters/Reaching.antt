-- ===== src/Disk/Clusters/Reaching.antt =====
-- Chains of clusters in a table, as kernel/storage/disk/fat_alloc.inc makes them.
use clks.Base.{ℕ, suc, ◌≡◌, true, sym, subst}
use clks.Disk.{Fat32Layout}
use clks.Disk.Layout.Regions.{InVolume}
use clks.Disk.Fat.{has_entry}

-- The links `f` of a table lead from a cluster to another in `n` steps.
pub data Reaches (l : Fat32Layout) (f : ℕ → ℕ) : ℕ → ℕ → ℕ → Type 0 where
  here : {a : ℕ} → Reaches l f a a 0
  step :
      {a c n : ℕ}
      → has_entry l a ≡ true
      → InVolume l (f a)
      → Reaches l f (f a) c n
      → Reaches l f a c (suc n)

-- Links that agree wherever the first leads on lead the same way.
pub Reaches-keeps :
    (l : Fat32Layout) (f g : ℕ → ℕ) {a c n : ℕ}
    → ((x : ℕ) → has_entry l x ≡ true → InVolume l (f x) → g x ≡ f x)
    → Reaches l f a c n
    → Reaches l g a c n
Reaches-keeps l f g same here = here
Reaches-keeps l f g same (step {a = a} {c = c} {n = n} has inside rest) =
    step has (subst (InVolume l) (sym (same a has inside)) inside)
      (subst (λ x. Reaches l g x c n) (sym (same a has inside)) (Reaches-keeps l f g same rest))

pub Reaches-extend :
    (l : Fat32Layout) (f : ℕ → ℕ) {a c n : ℕ}
    → Reaches l f a c n
    → has_entry l c ≡ true
    → InVolume l (f c)
    → Reaches l f a (f c) (suc n)
Reaches-extend l f here has inside = step has inside here
Reaches-extend l f (step has' inside' rest) has inside =
    step has' inside' (Reaches-extend l f rest has inside)
