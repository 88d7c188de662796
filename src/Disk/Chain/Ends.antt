-- ===== src/Disk/Chain/Ends.antt =====
-- kernel/storage/disk/file_chain.inc: the last cluster of a chain.
use clks.Base.{
  ℕ, zero, suc, ◌%◌, ◌^◌, ◌≤◌, ◌<◌, ◌≡◌, arith, refl, Bool, true, not, Option, none, some, leb,
  if◌then◌else◌, fun_ext, ap, ◌∙◌, sym, subst, if_elim,
}
use clks.Disk.{Disk, eoc_min}
use clks.Disk.Cache.Loading.{Loads}
use clks.Disk.Layout.{cluster_valid, fat_is_eoc}
use clks.Disk.Layout.Regions.{InVolume, cluster_valid-InVolume}
use clks.Disk.Fat.{has_entry, fat_read_entry, fat_next_cluster}
use clks.Disk.Fat.Entries.{
  IsSound, Loads-IsSound, Loads-link, link, fat_read_entry-link, fat_read_entry-Loads,
}
use clks.Disk.Clusters.Reaching.{Reaches, here, step}
use clks.Disk.Chain.{last_from, chain_last_cluster}

pub fat_next_cluster-Loads : (c : ℕ) (d : Disk) → Loads d (fat_next_cluster c d).1
unfolding fat_next_cluster
fat_next_cluster-Loads c d = cases (fat_read_entry c d).0
  where
    after : Option ℕ → Option (ℕ × Bool) × Disk
    after o = elim o [
      | none ↦ (none, (fat_read_entry c d).1)
      | some value ↦ (some (value % 2 ^ 28, fat_is_eoc value), (fat_read_entry c d).1)
    ]

    cases : (o : Option ℕ) → Loads d (after o).1
    cases none = fat_read_entry-Loads c d
    cases (some value) = fat_read_entry-Loads c d

-- The next cluster is the link of the table on the drive.
pub fat_next_cluster-link :
    (c next : ℕ) (is_eoc : Bool) (d : Disk)
    → IsSound d
    → (fat_next_cluster c d).0 ≡ some (next, is_eoc)
    → (has_entry d.fat32 c ≡ true) × (next ≡ link d c) × (is_eoc ≡ leb eoc_min (link d c))
unfolding fat_next_cluster fat_is_eoc
fat_next_cluster-link c next is_eoc d s = cases (fat_read_entry c d).0 refl
  where
    after : Option ℕ → Option (ℕ × Bool) × Disk
    after o = elim o [
      | none ↦ (none, (fat_read_entry c d).1)
      | some value ↦ (some (value % 2 ^ 28, fat_is_eoc value), (fat_read_entry c d).1)
    ]

    cases :
        (o : Option ℕ)
        → (fat_read_entry c d).0 ≡ o
        → (after o).0 ≡ some (next, is_eoc)
        → (has_entry d.fat32 c ≡ true) × (next ≡ link d c) × (is_eoc ≡ leb eoc_min (link d c))
    cases none e = λ h. absurd (cc h)
    cases (some value) e = λ h.
        let (has, is) = fat_read_entry-link c value d s e in
        let first : value % 2 ^ 28 ≡ next = cc h in
        let second : leb eoc_min (value % 2 ^ 28) ≡ is_eoc = cc h in
        let cut : value % 2 ^ 28 ≡ link d c = omega arith in
        (has, sym first ∙ cut, sym second ∙ ap (leb eoc_min) cut)

-- What the loop answers.
abbrev LastOf : ℕ → ℕ → Disk → Option ℕ × Disk → Type 0
LastOf rounds c d r =
    (last : ℕ)
    → r.0 ≡ some last
    → (n : ℕ) × (n < rounds) × Reaches d.fat32 (link d) c last n × (eoc_min ≤ link d last)

last_from-LastOf : (rounds c : ℕ) (d : Disk) → IsSound d → LastOf rounds c d (last_from rounds c d)
unfolding last_from
last_from-LastOf zero c d s = λ last h. absurd (cc h)
last_from-LastOf (suc rounds) c d s =
    if_elim Goal (not (cluster_valid d.fat32 c)) (λ _ last h. absurd (cc h))
      (λ _. cases (λ x e sound. last_from-LastOf rounds x e sound) r.0 refl)
  where
    r : Option (ℕ × Bool) × Disk
    r = fat_next_cluster c d

    Goal : Option ℕ × Disk → Type 0
    Goal = LastOf (suc rounds) c d

    after : Option (ℕ × Bool) → Option ℕ × Disk
    after o = elim o [
      | none ↦ (none, r.1)
      | some (next, is_eoc) ↦
          let rest = last_from rounds next r.1 in
          if is_eoc
          then (some c, r.1)
          else if cluster_valid r.1.fat32 next
          then rest
          else (none, r.1)
    ]

    kept : Loads d r.1
    kept = fat_next_cluster-Loads c d

    layout : r.1.fat32 ≡ d.fat32
    layout = ap (λ (y : Disk). y.fat32) kept.frame

    back :
        (x last n : ℕ) → Reaches r.1.fat32 (link r.1) x last n → Reaches d.fat32 (link d) x last n
    back x last n p =
        subst (λ f. Reaches d.fat32 f x last n) (fun_ext (Loads-link d r.1 kept))
          (subst (λ l. Reaches l (link r.1) x last n) layout p)

    go :
        (next : ℕ)
        → has_entry d.fat32 c ≡ true
        → next ≡ link d c
        → cluster_valid r.1.fat32 next ≡ true
        → LastOf rounds next r.1 (last_from rounds next r.1)
        → Goal (last_from rounds next r.1)
    go next has is valid rest last h =
        let (n, lt, path, ends) = rest last h in
        let inside : InVolume d.fat32 next =
          cluster_valid-InVolume d.fat32 d.sector_total next s.sized.volume
            (subst (λ l. cluster_valid l next ≡ true) layout valid) in
        (
          suc n,
          omega arith,
          step has (subst (InVolume d.fat32) is inside)
              (subst (λ x. Reaches d.fat32 (link d) x last n) is (back next last n path)),
          subst (λ x. eoc_min ≤ x) (Loads-link d r.1 kept last) ends,
        )

    cases :
        ((x : ℕ) (e : Disk) → IsSound e → LastOf rounds x e (last_from rounds x e))
        → (o : Option (ℕ × Bool)) → r.0 ≡ o
        → Goal (after o)
    cases later none e = λ last h. absurd (cc h)
    cases later (some (next, is_eoc)) e =
        let (has, is, ends) = fat_next_cluster-link c next is_eoc d s e in
        if_elim Goal is_eoc
          (λ at_end last h.
            subst
              (λ x.
                (n : ℕ) × (n < suc rounds) × Reaches d.fat32 (link d) c x n × (eoc_min ≤ link d x))
              (cc h) (0, omega arith, here, ground arith))
          (λ _.
            if_elim Goal (cluster_valid r.1.fat32 next)
              (λ valid. go next has is valid (later next r.1 (Loads-IsSound d r.1 kept s)))
              (λ _ last h. absurd (cc h)))

-- On a sound disk: the cluster that is found as the last of a chain is reached from the first by the
-- links of the table on the drive, in fewer steps than the volume has clusters, and the table marks
-- it as the end.
pub chain_last_cluster-Reaches :
    (first last : ℕ) (d : Disk)
    → IsSound d
    → (chain_last_cluster first d).0 ≡ some last
    → (n : ℕ) × (n < d.fat32.cluster_count)
      × Reaches d.fat32 (link d) first last n
      × (eoc_min ≤ link d last)
unfolding chain_last_cluster
chain_last_cluster-Reaches first last d s =
    if_elim (λ (r : Option ℕ × Disk). r.0 ≡ some last → Found) (cluster_valid d.fat32 first)
      (λ _. last_from-LastOf d.fat32.cluster_count first d s last) (λ _ h. absurd (cc h))
  where
    Found : Type 0
    Found =
        (n : ℕ) × (n < d.fat32.cluster_count)
        × Reaches d.fat32 (link d) first last n
        × (eoc_min ≤ link d last)
