-- ===== src/Disk/Clusters/Allocation.antt =====
-- kernel/storage/disk/fat_alloc.inc: allocating a chain of clusters.
use clks.Base.{
  ◌⊎◌, inl, inr, Option-cases, ℕ, zero, suc, ◌+◌, ◌*◌, ◌≤◌, ◌≡◌, ◌≢◌, arith, refl, Bool, true,
  false, not, ◌&&◌, Option, none, some, ◌==◌, if◌then◌else◌, sym, subst, if_elim,
}
use clks.Disk.{Disk, eoc, free_cluster, invalid_cluster, sector_size}
use clks.Disk.Cache.Presence.{Works}
use clks.Disk.Clusters.Rollback.{alloc_chain-Fresh}
use clks.Disk.Layout.Regions.{InVolume}
use clks.Disk.Fat.{has_entry, fat_write_entry}
use clks.Disk.Fat.Entries.{IsSound, link}
use clks.Disk.Fat.Table.{fat_write_entry-Links}
use clks.Disk.Clusters.{free_chain, alloc_cluster_no_zero, abandon, alloc_from, alloc_chain}
use clks.Disk.Clusters.Chains.{Spares, Tail, Taken-Tail, Tail-extend, alloc_cluster_no_zero-Taken}
use clks.Disk.Clusters.Reaching.{Reaches}

-- If it went well there is a chain from `first` on, of `n` steps.
abbrev Chained : Disk → ℕ → ℕ → Option ℕ × Disk → Type 0
Chained d0 first n x = (r : ℕ) → x.0 ≡ some r → (r ≡ first) × (last : ℕ) × Tail d0 x.1 first last n

abbrev Later : Disk → ℕ → ℕ → Type 0
Later d0 rounds n =
    (first prev : ℕ) (d : Disk)
    → Tail d0 d first prev n
    → Chained d0 first (n + rounds) (alloc_from rounds first prev d)

abandoned : (d0 d : Disk) (first n : ℕ) → Chained d0 first n (abandon first d)
abandoned d0 d first n r h = absurd (cc h)

not_invalid : (d : Disk) (x : ℕ) → InVolume d.fat32 x → (x == invalid_cluster) ≡ false
not_invalid d x (lo, hi) = ground arith

extend_from :
    (d0 : Disk) (rounds n : ℕ) → IsSound d0 → Later d0 rounds (suc n) → Later d0 (suc rounds) n
unfolding alloc_from
extend_from d0 rounds n s later first prev d t = cases r.0 refl
  where
    r : Option ℕ × Disk
    r = alloc_cluster_no_zero d

    linking : ℕ → Bool × Disk
    linking current = fat_write_entry prev current r.1

    after : Option ℕ → Option ℕ × Disk
    after o = elim o [
      | none ↦ abandon first r.1
      | some current ↦
          let rest =
            alloc_from rounds (if first == invalid_cluster then current else first) current
              (if prev == invalid_cluster then r.1 else (linking current).1) in
          if not (prev == invalid_cluster) && not (linking current).0
          then (none, free_chain first (linking current).1)
          else rest
    ]

    Goal : Option ℕ × Disk → Type 0
    Goal = Chained d0 first (n + suc rounds)

    go :
        (current : ℕ)
        → r.0 ≡ some current
        → (linking current).0 ≡ true
        → Goal (alloc_from rounds first current (linking current).1)
    go current e ok =
        let k = alloc_cluster_no_zero-Taken d current t.spares.sound e in
        let (_, q) = fat_write_entry-Links prev current r.1 k.sound ok in
        subst (λ m. Chained d0 first m (alloc_from rounds first current (linking current).1))
          (omega arith)
          (later first current (linking current).1
            (Tail-extend d0 d r.1 (linking current).1 first prev current n s t k q))

    cases : (o : Option ℕ) → r.0 ≡ o → Goal (after o)
    cases none e = abandoned d0 r.1 first (n + suc rounds)
    cases (some current) e = rw (not_invalid d0 prev t.inside) (
        rw (not_invalid d0 first t.first_inside) (
          if_elim Goal (not (linking current).0) (λ _ i h. absurd (cc h))
            (λ linked. go current e (ground arith))))

alloc_from-Chained : (d0 : Disk) (rounds n : ℕ) → IsSound d0 → Later d0 rounds n
unfolding alloc_from
alloc_from-Chained d0 zero n s first prev d t =
    λ r h. (cc h, prev, subst (Tail d0 d first prev) (omega arith) t)
alloc_from-Chained d0 (suc rounds) n s first prev d t =
    extend_from d0 rounds n s (alloc_from-Chained d0 rounds (suc n) s) first prev d t

-- The first round takes the first cluster.
alloc_chain-Chained :
    (n first : ℕ) (d : Disk)
    → IsSound d
    → (alloc_chain (suc n) d).0 ≡ some first
    → (last : ℕ) × Tail d (alloc_chain (suc n) d).1 first last n
unfolding alloc_chain alloc_from
alloc_chain-Chained n first d s =
    if_elim Goal (suc n == 0) (λ none_needed. absurd (ground arith)) (λ _. cases r.0 refl)
  where
    r : Option ℕ × Disk
    r = alloc_cluster_no_zero d

    after : Option ℕ → Option ℕ × Disk
    after o = elim o [ none ↦ (none, r.1) | some current ↦ alloc_from n current current r.1 ]

    Goal : Option ℕ × Disk → Type 0
    Goal x = x.0 ≡ some first → (last : ℕ) × Tail d x.1 first last n

    itself : Spares d d
    itself = record { layout = refl; sound = s; used = λ o has ne. refl; contents = λ j le. refl }

    cases : (o : Option ℕ) → r.0 ≡ o → Goal (after o)
    cases none e = λ h. absurd (cc h)
    cases (some current) e = λ h.
        let k = alloc_cluster_no_zero-Taken d current s e in
        let (same, last, t) =
          alloc_from-Chained d n 0 s current current r.1 (Taken-Tail d r.1 current itself k) first
            h in
        (
          last,
          subst (λ i. Tail d (alloc_from n current current r.1).1 i last n) (sym same)
              (subst (Tail d (alloc_from n current current r.1).1 current last) (omega arith) t),
        )

-- On a sound disk: an allocation of one cluster or more that goes well gives a chain of just so many
-- clusters: from its first cluster, which is one of the volume, the table on the drive leads in one step
-- less to a cluster that it marks as the end. The disk is sound again.
pub alloc_chain-Reaches :
    (n first : ℕ) (d : Disk)
    → IsSound d
    → (alloc_chain (suc n) d).0 ≡ some first
    → let e = (alloc_chain (suc n) d).1 in
      (last : ℕ) × Reaches d.fat32 (link e) first last n
      × (link e last ≡ eoc)
      × InVolume d.fat32 first
      × IsSound e
alloc_chain-Reaches n first d s h =
    let (last, t) = alloc_chain-Chained n first d s h in
    (last, t.path, t.ends, t.first_inside, t.spares.sound)

-- On a sound disk: an allocation of one cluster or more leaves the links of every cluster that was not free as
-- they were, and every byte of the clusters, free or not. This holds whenever it goes well; and on a drive that
-- completes its commands also when it fails for want of free clusters, after it has given back what it had
-- linked so far.
pub alloc_chain-spares :
    (n other j : ℕ) (d : Disk)
    → IsSound d
    → Works d ⊎ ((alloc_chain (suc n) d).0 ≢ none)
    → has_entry d.fat32 other ≡ true
    → link d other ≢ free_cluster
    → d.fat32.data_lba * sector_size ≤ j
    → let e = (alloc_chain (suc n) d).1 in
      (link e other ≡ link d other) × (e.drive.media j ≡ d.drive.media j)
alloc_chain-spares n other j d s h has used le =
    let spares = spared h in (spares.used other has used, spares.contents j le)
  where
    spared : Works d ⊎ ((alloc_chain (suc n) d).0 ≢ none) → Spares d (alloc_chain (suc n) d).1
    spared (inl works) = let f = alloc_chain-Fresh (suc n) d s works in f.spares
    spared (inr goes) = elim (Option-cases (alloc_chain (suc n) d).0) [
      | inl failed ↦ absurd (goes failed)
      | inr (first, e) ↦ let (last, t) = alloc_chain-Chained n first d s e in t.spares
    ]
