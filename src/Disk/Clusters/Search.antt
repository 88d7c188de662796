-- ===== src/Disk/Clusters/Search.antt =====
-- kernel/storage/disk/fat_alloc.inc: the search for a free cluster.
use clks.Base.{
  ℕ, zero, suc, ◌+◌, ◌-◌, ◌≤◌, ◌<◌, ◌≡◌, ◌≢◌, arith, refl, true, not, Option, none, some, ◌==◌, leb,
  if◌then◌else◌, ap, ◌∙◌, sym, subst, if_elim, add32, ℕ_discrete,
}
use clks.Disk.{Disk, Fat32Layout, free_cluster, max_cluster_count}
use clks.Disk.Layout.Regions.{InVolume}
use clks.Disk.Fat.{has_entry, fat_read_entry}
use clks.Disk.Fat.Entries.{IsSound, link, fat_read_entry-link, fat_read_entry-Loads}
use clks.Disk.Clusters.{
  Scan, unreadable, found, exhausted, scan, next_hint, search_start, find_free_cluster,
}
use clks.Disk.Clusters.Keeping.{Keeps, Keeps-link, Keeps-trans, Loads-Keeps, hint-Keeps}

-- The hint on a volume
abbrev hint_in : ℕ → Fat32Layout → ℕ
hint_in cluster l =
    let next = add32 cluster 1 in if leb (add32 l.cluster_count 2) next then 2 else next

-- A free cluster among `n` from `c` on, and the hint behind it.
abbrev Hit : ℕ → ℕ → Disk → ℕ → ℕ → Type 0
Hit c n d hint k =
    (c ≤ k) × (k < c + n) × (has_entry d.fat32 k ≡ true) × (link d k ≡ 0) × (hint ≡ next_hint d k)

-- What a loop over `n` clusters from `c` on comes to.
record Found (c n : ℕ) (d : Disk) (r : Scan × Disk) : Type 0 where
  keeps : Keeps d r.1
  hit : (k : ℕ) → r.0 ≡ found k → Hit c n d r.1.alloc_hint k
  miss : r.0 ≡ exhausted → (k : ℕ) → c ≤ k → k < c + n → link d k ≢ 0

scan-Found : (n c : ℕ) (d : Disk) → IsSound d → Found c n d (scan n c d)
unfolding scan
scan-Found zero c d s = record {
  keeps = record { layout = refl; media = refl; outcomes = refl; sound = s };
  hit = λ k e. absurd (cc e);
  miss = λ _ k le lt. absurd (omega arith);
}
scan-Found (suc n) c d s =
    cases (λ e sound. scan-Found n (c + 1) e sound) (fat_read_entry c d).0 refl
  where
    r : Option ℕ × Disk
    r = fat_read_entry c d

    after : Option ℕ → Scan × Disk
    after o = elim o [
      | none ↦ (unreadable, r.1)
      | some value ↦
          if value == free_cluster
          then (found c, record r.1 { alloc_hint = next_hint r.1 c })
          else scan n (c + 1) r.1
    ]

    kept : Keeps d r.1
    kept = Loads-Keeps d r.1 s (fat_read_entry-Loads c d)

    same_hint : (k : ℕ) → next_hint r.1 k ≡ next_hint d k
    same_hint k = ap (hint_in k) kept.layout

    here :
        (value k : ℕ)
        → r.0 ≡ some value
        → (value == free_cluster) ≡ true
        → c ≡ k
        → Hit c (suc n) d (next_hint r.1 c) k
    here value k e free same =
        let (has, is) = fat_read_entry-link c value d s e in
        subst (Hit c (suc n) d (next_hint r.1 c)) same
          (omega arith, omega arith, has, sym is ∙ ground arith, same_hint c)

    cases :
        ((e : Disk) → IsSound e → Found (c + 1) n e (scan n (c + 1) e))
        → (o : Option ℕ) → r.0 ≡ o
        → Found c (suc n) d (after o)
    cases later none e = record {
      keeps = kept;
      hit = λ k e. absurd (cc e);
      miss = λ e. absurd (cc e);
    }
    cases later (some value) e =
        let (has, is) = fat_read_entry-link c value d s e in
        let rest = later r.1 kept.sound in
        if_elim (Found c (suc n) d) (value == free_cluster)
          (λ free. record {
            keeps = Keeps-trans kept (hint-Keeps r.1 (next_hint r.1 c) kept.sound);
            hit = λ k h. here value k e free (cc h);
            miss = λ h. absurd (cc h);
          })
          (λ taken. record {
            keeps = Keeps-trans kept rest.keeps;
            hit = λ k h.
                let (a, b, has', zero', hint) = rest.hit k h in
                (
                  omega arith,
                  omega arith,
                  subst (λ (l : Fat32Layout). has_entry l k ≡ true) kept.layout has',
                  sym (Keeps-link d r.1 kept k) ∙ zero',
                  hint ∙ same_hint k,
                );
            miss = λ h k le lt. elim (ℕ_discrete k c) [
              | yes same ↦ λ z.
                  let was : value ≡ 0 = is ∙ ap (link d) (sym same) ∙ z in absurd (ground arith)
              | no other ↦
                  λ z. rest.miss h k (omega arith) (omega arith) (Keeps-link d r.1 kept k ∙ z)
            ];
          })

-- What the search comes to: a free cluster of the volume, and a hint that is one too.
pub record Finds (d : Disk) (r : Option ℕ × Disk) : Type 0 where
  pub keeps : Keeps d r.1
  pub hit :
      (k : ℕ)
      → r.0 ≡ some k
      → InVolume d.fat32 k
        × (has_entry d.fat32 k ≡ true)
        × (link d k ≡ 0)
        × InVolume d.fat32 r.1.alloc_hint

hint_InVolume :
    (d : Disk) (k : ℕ) → IsSound d → InVolume d.fat32 k → InVolume d.fat32 (next_hint d k)
hint_InVolume d k s (lo, hi) =
    let e1 = s.sized.volume.few in let e2 = s.sized.volume.enough in (ground arith, ground arith)

pub find_free_cluster-Finds : (d : Disk) → IsSound d → Finds d (find_free_cluster d)
unfolding find_free_cluster
find_free_cluster-Finds d s =
    if_elim (Finds d) (not d.fat32.valid)
      (λ off. let on = s.sized.volume.valid in absurd (ground arith))
      (λ _. cases first.0 refl second.0 refl)
  where
    start : ℕ
    start = search_start d

    count : ℕ
    count = add32 d.fat32.cluster_count 2 - start

    first : Scan × Disk
    first = scan count start d

    f : Found start count d first
    f = scan-Found count start d s

    second : Scan × Disk
    second = scan (start - 2) 2 first.1

    g : Found 2 (start - 2) first.1 second
    g = scan-Found (start - 2) 2 first.1 f.keeps.sound

    both : Keeps d second.1
    both = Keeps-trans f.keeps g.keeps

    few : d.fat32.cluster_count ≤ max_cluster_count
    few = s.sized.volume.few

    enough : 2 ≤ d.fat32.cluster_count
    enough = omega (arith, s.sized.volume.enough)

    bounds : (2 ≤ start) × (start < d.fat32.cluster_count + 2)
    bounds = let e1 = few in let e2 = enough in (ground arith, ground arith)

    after : Scan → Scan → Option ℕ × Disk
    after x y = elim x [
      | unreadable ↦ (none, first.1)
      | found cluster ↦ (some cluster, first.1)
      | exhausted ↦ elim y [
        | unreadable ↦ (none, second.1)
        | found cluster ↦ (some cluster, second.1)
        | exhausted ↦ (none, second.1)
      ]
    ]

    cases : (x : Scan) → first.0 ≡ x → (y : Scan) → second.0 ≡ y → Finds d (after x y)
    cases unreadable e y e' = record { keeps = f.keeps; hit = λ k h. absurd (cc h) }
    cases (found c) e y e' = record {
      keeps = f.keeps;
      hit = λ k h.
          let same : c ≡ k = cc h in
          let (a, b, has, free, hint) = f.hit k (e ∙ ap found same) in
          let e1 = few in
          let (lo, hi) = bounds in
          (
            (omega arith, omega arith),
            has,
            free,
            subst (InVolume d.fat32) (sym hint) (hint_InVolume d k s (omega arith, omega arith)),
          );
    }
    cases exhausted e unreadable e' = record { keeps = both; hit = λ k h. absurd (cc h) }
    cases exhausted e exhausted e' = record { keeps = both; hit = λ k h. absurd (cc h) }
    cases exhausted e (found c) e' = record {
      keeps = both;
      hit = λ k h.
          let same : c ≡ k = cc h in
          let (a, b, has, free, hint) = g.hit k (e' ∙ ap found same) in
          let (lo, hi) = bounds in
          (
            (omega arith, omega arith),
            subst (λ (l : Fat32Layout). has_entry l k ≡ true) f.keeps.layout has,
            sym (Keeps-link d first.1 f.keeps k) ∙ free,
            subst (InVolume d.fat32) (sym (hint ∙ ap (hint_in k) f.keeps.layout))
                (hint_InVolume d k s (omega arith, omega arith)),
          );
    }

-- On a sound disk: the search gives a cluster of the volume that the table on the drive marks as free,
-- leaves a hint that is a cluster of the volume, and changes nothing on the drive.
pub find_free_cluster-free :
    (cluster : ℕ) (d : Disk)
    → IsSound d
    → (find_free_cluster d).0 ≡ some cluster
    → let e = (find_free_cluster d).1 in
      InVolume d.fat32 cluster
      × (link d cluster ≡ free_cluster)
      × InVolume d.fat32 e.alloc_hint
      × (e.drive.media ≡ d.drive.media)
      × IsSound e
find_free_cluster-free cluster d s h =
    let p = find_free_cluster-Finds d s in
    let (inside, _, free, hint) = p.hit cluster h in
    (inside, free, hint, p.keeps.media, p.keeps.sound)
