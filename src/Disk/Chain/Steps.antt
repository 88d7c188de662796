-- ===== src/Disk/Chain/Steps.antt =====
-- kernel/storage/disk/file_chain.inc: one step along a chain.
use clks.Base.{ℕ, ◌≡◌, refl, Bool, Option, none, some, if◌then◌else◌, ◌∙◌, sym, if_elim}
use clks.Disk.{Disk}
use clks.Disk.Cache.Loading.{Loads}
use clks.Disk.Layout.{cluster_valid}
use clks.Disk.Fat.{fat_next_cluster}
use clks.Disk.Fat.Entries.{IsSound, link}
use clks.Disk.Chain.{follow}
use clks.Disk.Chain.Ends.{fat_next_cluster-Loads, fat_next_cluster-link}

pub follow-Loads : (c : ℕ) (d : Disk) → Loads d (follow c d).1
unfolding follow
follow-Loads c d = cases (fat_next_cluster c d).0
  where
    r : Option (ℕ × Bool) × Disk
    r = fat_next_cluster c d

    after : Option (ℕ × Bool) → Option ℕ × Disk
    after o = elim o [
      | none ↦ (none, r.1)
      | some (next, is_eoc) ↦
          if is_eoc
          then (none, r.1)
          else if cluster_valid r.1.fat32 next
          then (some next, r.1)
          else (none, r.1)
    ]

    After : Option ℕ × Disk → Type 0
    After x = Loads d x.1

    kept : Loads d r.1
    kept = fat_next_cluster-Loads c d

    cases : (o : Option (ℕ × Bool)) → After (after o)
    cases none = kept
    cases (some (next, is_eoc)) =
        if_elim After is_eoc (λ _. kept)
          (λ _. if_elim After (cluster_valid r.1.fat32 next) (λ _. kept) (λ _. kept))

pub follow-link : (c next : ℕ) (d : Disk) → IsSound d → (follow c d).0 ≡ some next → next ≡ link d c
unfolding follow
follow-link c next d s = cases (fat_next_cluster c d).0 refl
  where
    r : Option (ℕ × Bool) × Disk
    r = fat_next_cluster c d

    after : Option (ℕ × Bool) → Option ℕ × Disk
    after o = elim o [
      | none ↦ (none, r.1)
      | some (next, is_eoc) ↦
          if is_eoc
          then (none, r.1)
          else if cluster_valid r.1.fat32 next
          then (some next, r.1)
          else (none, r.1)
    ]

    Goal : Option ℕ × Disk → Type 0
    Goal x = x.0 ≡ some next → next ≡ link d c

    cases : (o : Option (ℕ × Bool)) → r.0 ≡ o → Goal (after o)
    cases none e = λ h. absurd (cc h)
    cases (some (x, is_eoc)) e =
        let (_, is, _) = fat_next_cluster-link c x is_eoc d s e in
        if_elim Goal is_eoc (λ _ h. absurd (cc h))
          (λ _.
            if_elim Goal (cluster_valid r.1.fat32 x)
              (λ _ h. let same : x ≡ next = cc h in sym same ∙ is) (λ _ h. absurd (cc h)))
