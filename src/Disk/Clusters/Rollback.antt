-- ===== src/Disk/Clusters/Rollback.antt =====
-- kernel/storage/disk/fat_alloc.inc: giving back the clusters of an allocation that does not come through.
use clks.Base.{
  ℕ, zero, suc, ◌*◌, ◌%◌, ◌^◌, ◌≤◌, ◌≡◌, arith, refl, Bool, true, false, not, ◌&&◌, Option, none,
  some, ◌==◌, if◌then◌else◌, ap, ◌∙◌, sym, subst, if_elim, ℕ_discrete,
}
use clks.Disk.{Disk, Fat32Layout, eoc, free_cluster, invalid_cluster, sector_size}
use clks.Disk.Cache.Presence.{Works}
use clks.Disk.Cache.Loading.{Loads}
use clks.Disk.Layout.{cluster_valid, fat_is_eoc}
use clks.Disk.Layout.Regions.{InVolume, cluster_valid-InVolume}
use clks.Disk.Fat.{has_entry, fat_read_entry, fat_write_entry, fat_next_cluster}
use clks.Disk.Fat.Entries.{IsSound, link, fat_read_entry-link, fat_read_entry-Loads}
use clks.Disk.Fat.Table.{Links, fat_write_entry-Links}
use clks.Disk.Fat.Working.{fat_write_entry-Works}
use clks.Disk.Clusters.{
  find_free_cluster, free_from, free_chain, alloc_cluster_no_zero, abandon, alloc_from, alloc_chain,
}
use clks.Disk.Clusters.Keeping.{Keeps, Keeps-link, Loads-Keeps}
use clks.Disk.Clusters.Search.{Finds, find_free_cluster-Finds}
use clks.Disk.Clusters.Chains.{
  Spares, Taken, Taken-Spares, free_before, inside_bounds, alloc_cluster_no_zero-Taken,
}

-- Only clusters that were free in `d0` got other links, and from these the links lead to no others.
pub record Fresh (d0 d : Disk) : Type 0 where
  pub spares : Spares d0 d
  pub works : Works d
  pub closed :
      (x : ℕ)
      → has_entry d0.fat32 x ≡ true
      → link d0 x ≡ 0
      → InVolume d0.fat32 (link d x)
      → link d0 (link d x) ≡ 0

Keeps-Fresh : (d0 d e : Disk) → Fresh d0 d → Keeps d e → Fresh d0 e
Keeps-Fresh d0 d e f k = record {
  spares = record {
    layout = k.layout ∙ f.spares.layout;
    sound = k.sound;
    used = λ o has ne. Keeps-link d e k o ∙ f.spares.used o has ne;
    contents = λ j le. ap (λ m. m j) k.media ∙ f.spares.contents j le;
  };
  works = λ n. ap (λ (g : ℕ → Option ℕ). g n) k.outcomes ∙ f.works n;
  closed = λ x has free inside.
      ap (link d0) (Keeps-link d e k x)
      ∙ f.closed x has free (subst (InVolume d0.fat32) (Keeps-link d e k x) inside);
}

-- Writing the link of a cluster that was free: to nothing in the volume, or to one that was free.
Links-Fresh :
    (d0 d e : Disk) (c value : ℕ)
    → Fresh d0 d
    → Links c value d e
    → link d0 c ≡ 0
    → (InVolume d0.fat32 (value % 2 ^ 28) → link d0 (value % 2 ^ 28) ≡ 0)
    → Fresh d0 e
Links-Fresh d0 d e c value f q free leads = record {
  spares = record {
    layout = ap (λ (y : Disk). y.fat32) q.frame ∙ f.spares.layout;
    sound = q.sound;
    used = λ o has ne. elim (ℕ_discrete o c) [
      | yes same ↦ absurd (ne (ap (link d0) same ∙ free))
      | no other ↦ q.others o (forth o has) other ∙ f.spares.used o has ne
    ];
    contents = λ j le.
        q.contents j
          (subst (λ (l : Fat32Layout). l.data_lba * sector_size ≤ j) (sym f.spares.layout) le)
        ∙ f.spares.contents j le;
  };
  works = λ n. ap (λ (g : ℕ → Option ℕ). g n) q.outcomes ∙ f.works n;
  closed = λ x has was inside. elim (ℕ_discrete x c) [
    | yes same ↦
        let to : link e x ≡ value % 2 ^ 28 = ap (link e) same ∙ q.written in
        ap (link d0) to ∙ leads (subst (InVolume d0.fat32) to inside)
    | no other ↦
        let to : link e x ≡ link d x = q.others x (forth x has) other in
        ap (link d0) to ∙ f.closed x has was (subst (InVolume d0.fat32) to inside)
  ];
}
  where
    forth : (o : ℕ) → has_entry d0.fat32 o ≡ true → has_entry d.fat32 o ≡ true
    forth o = subst (λ l. has_entry l o ≡ true) (sym f.spares.layout)

Taken-Fresh : (d0 d e : Disk) (k : ℕ) → IsSound d0 → Fresh d0 d → Taken d k e → Fresh d0 e
Taken-Fresh d0 d e k s f t = record {
  spares = Taken-Spares d0 d e k f.spares t;
  works = λ n. ap (λ (g : ℕ → Option ℕ). g n) t.outcomes ∙ f.works n;
  closed = λ x has was inside. elim (ℕ_discrete x k) [
    | yes same ↦
        let (lo, hi) = inside_bounds d0 (link e x) s inside in
        let to : link e x ≡ eoc = ap (link e) same ∙ t.ends in absurd (omega arith)
    | no other ↦
        let to : link e x ≡ link d x =
          t.others x (subst (λ l. has_entry l x ≡ true) (sym f.spares.layout) has) other in
        ap (link d0) to ∙ f.closed x has was (subst (InVolume d0.fat32) to inside)
  ];
}

free_from-Fresh :
    (rounds current : ℕ) (d0 d : Disk)
    → IsSound d0
    → Fresh d0 d
    → link d0 current ≡ 0
    → Fresh d0 (free_from rounds current d)
unfolding free_from fat_next_cluster
free_from-Fresh zero current d0 d s f free = f
free_from-Fresh (suc rounds) current d0 d s f free =
    if_elim (Fresh d0) (not (cluster_valid d.fat32 current)) (λ _. f)
      (λ _. cases (λ n e g was. free_from-Fresh rounds n d0 e s g was) r.0 refl)
  where
    r : Option ℕ × Disk
    r = fat_read_entry current d

    d2 : Disk
    d2 = (fat_write_entry current free_cluster r.1).1

    next : Option ℕ → Option (ℕ × Bool) × Disk
    next o = elim o [
      | none ↦ (none, r.1)
      | some value ↦ (some (value % 2 ^ 28, fat_is_eoc value), r.1)
    ]

    after : Option (ℕ × Bool) × Disk → Disk
    after x = elim x.0 [
      | none ↦ x.1
      | some (n, is_eoc) ↦
          let e = (fat_write_entry current free_cluster x.1).1 in
          if is_eoc then e else if cluster_valid e.fat32 n then free_from rounds n e else e
    ]

    loads : Loads d r.1
    loads = fat_read_entry-Loads current d

    kept : Fresh d0 r.1
    kept = Keeps-Fresh d0 d r.1 f (Loads-Keeps d r.1 f.spares.sound loads)

    freed : has_entry d.fat32 current ≡ true → Fresh d0 d2
    freed has =
        let here : has_entry r.1.fat32 current ≡ true =
          subst (λ (l : Fat32Layout). has_entry l current ≡ true)
            (sym (ap (λ (y : Disk). y.fat32) loads.frame)) has in
        let ok = fat_write_entry-Works current free_cluster r.1 kept.spares.sound kept.works here in
        let (_, q) = fat_write_entry-Links current free_cluster r.1 kept.spares.sound ok in
        Links-Fresh d0 r.1 d2 current free_cluster kept q free
          (λ inside. absurd (omega (arith, inside.0)))

    cases :
        ((n : ℕ) (e : Disk) → Fresh d0 e → link d0 n ≡ 0 → Fresh d0 (free_from rounds n e))
        → (o : Option ℕ) → r.0 ≡ o
        → Fresh d0 (after (next o))
    cases later none e = kept
    cases later (some value) e =
        let (has, is) = fat_read_entry-link current value d f.spares.sound e in
        let g = freed has in
        if_elim (Fresh d0) (fat_is_eoc value) (λ _. g)
          (λ _.
            if_elim (Fresh d0) (cluster_valid d2.fat32 (value % 2 ^ 28))
              (λ valid.
                let inside =
                  subst (λ l. InVolume l (value % 2 ^ 28)) g.spares.layout
                    (cluster_valid-InVolume d2.fat32 d2.sector_total (value % 2 ^ 28)
                      g.spares.sound.sized.volume valid) in
                let to : value % 2 ^ 28 ≡ link d current = omega (arith, is) in
                let has0 =
                  subst (λ (l : Fat32Layout). has_entry l current ≡ true) f.spares.layout has in
                later (value % 2 ^ 28) d2 g (
                  ap (link d0) to
                  ∙ f.closed current has0 free (subst (InVolume d0.fat32) to inside)))
              (λ _. g))

free_chain-Fresh :
    (first : ℕ) (d0 d : Disk)
    → IsSound d0
    → Fresh d0 d
    → link d0 first ≡ 0
    → Fresh d0 (free_chain first d)
unfolding free_chain
free_chain-Fresh first d0 d s f free =
    if_elim (Fresh d0) (cluster_valid d.fat32 first)
      (λ _. free_from-Fresh d.fat32.cluster_count first d0 d s f free) (λ _. f)

-- On a drive that works an allocation of a cluster fails only if none is found.
alloc_cluster_no_zero-none :
    (d : Disk)
    → IsSound d
    → Works d
    → (alloc_cluster_no_zero d).0 ≡ none
    → Keeps d (alloc_cluster_no_zero d).1
unfolding alloc_cluster_no_zero
alloc_cluster_no_zero-none d s w = cases r.0 refl
  where
    r : Option ℕ × Disk
    r = find_free_cluster d

    p : Finds d r
    p = find_free_cluster-Finds d s

    after : Option ℕ → Option ℕ × Disk
    after o = elim o [
      | none ↦ (none, r.1)
      | some cluster ↦
          let (ok, d2) = fat_write_entry cluster eoc r.1 in
          if ok then (some cluster, d2) else (none, d2)
    ]

    Goal : Option ℕ × Disk → Type 0
    Goal x = x.0 ≡ none → Keeps d x.1

    cases : (o : Option ℕ) → r.0 ≡ o → Goal (after o)
    cases none e = λ _. p.keeps
    cases (some cluster) e =
        let (inside, has, free, _) = p.hit cluster e in
        let here =
          subst (λ (l : Fat32Layout). has_entry l cluster ≡ true) (sym p.keeps.layout) has in
        let works : Works r.1 = λ n. ap (λ (g : ℕ → Option ℕ). g n) p.keeps.outcomes ∙ w n in
        if_elim Goal (fat_write_entry cluster eoc r.1).0 (λ _ h. absurd (cc h))
          (λ failed.
            absurd (cc (failed, fat_write_entry-Works cluster eoc r.1 p.keeps.sound works here)))

-- A cluster that was free and is taken: one to go on from
abbrev WasFree : Disk → ℕ → Type 0
WasFree d0 x = InVolume d0.fat32 x × (has_entry d0.fat32 x ≡ true) × (link d0 x ≡ 0)

Taken-WasFree : (d0 d e : Disk) (k : ℕ) → Fresh d0 d → Taken d k e → WasFree d0 k
Taken-WasFree d0 d e k f t =
    let has = subst (λ l. has_entry l k ≡ true) f.spares.layout t.has in
    (
      subst (λ l. InVolume l k) f.spares.layout t.inside,
      has,
      free_before d0 d k f.spares has t.was_free,
    )

not_invalid : (d : Disk) (x : ℕ) → InVolume d.fat32 x → (x == invalid_cluster) ≡ false
not_invalid d x (lo, hi) = ground arith

pub alloc_from-Fresh :
    (rounds first prev : ℕ) (d0 d : Disk)
    → IsSound d0
    → Fresh d0 d
    → WasFree d0 first
    → WasFree d0 prev
    → Fresh d0 (alloc_from rounds first prev d).1
unfolding alloc_from
alloc_from-Fresh zero first prev d0 d s f a b = f
alloc_from-Fresh (suc rounds) first prev d0 d s f a b =
    cases (λ k e g c. alloc_from-Fresh rounds first k d0 e s g a c) r.0 refl
  where
    r : Option ℕ × Disk
    r = alloc_cluster_no_zero d

    linking : ℕ → Bool × Disk
    linking current = fat_write_entry prev current r.1

    after : Option ℕ → Option ℕ × Disk
    after o = elim o [
      | none ↦ abandon first r.1
      | some current ↦
          let rest =
            alloc_from rounds (if first == invalid_cluster then current else first) current
              (if prev == invalid_cluster then r.1 else (linking current).1) in
          if not (prev == invalid_cluster) && not (linking current).0
          then (none, free_chain first (linking current).1)
          else rest
    ]

    Goal : Option ℕ × Disk → Type 0
    Goal x = Fresh d0 x.1

    go :
        ((k : ℕ) (e : Disk) → Fresh d0 e → WasFree d0 k → Fresh d0 (alloc_from rounds first k e).1)
        → (current : ℕ) → Taken d current r.1
        → Goal (
            if not (linking current).0
            then (none, free_chain first (linking current).1)
            else alloc_from rounds first current (linking current).1)
    go later current t =
        let g = Taken-Fresh d0 d r.1 current s f t in
        let c = Taken-WasFree d0 d r.1 current f t in
        let has = subst (λ (l : Fat32Layout). has_entry l prev ≡ true) (sym g.spares.layout) b.1 in
        let ok = fat_write_entry-Works prev current r.1 g.spares.sound g.works has in
        let (_, q) = fat_write_entry-Links prev current r.1 g.spares.sound ok in
        let (lo, hi) = inside_bounds d0 current s c.0 in
        let whole : current % 2 ^ 28 ≡ current = omega arith in
        if_elim Goal (not (linking current).0) (λ failed. absurd (ground (arith, ok)))
          (λ _.
            later current (linking current).1
              (Links-Fresh d0 r.1 (linking current).1 prev current g q b.2
                (λ _. ap (link d0) whole ∙ c.2))
              c)

    cases :
        ((k : ℕ) (e : Disk) → Fresh d0 e → WasFree d0 k → Fresh d0 (alloc_from rounds first k e).1)
        → (o : Option ℕ) → r.0 ≡ o
        → Goal (after o)
    cases later none e = rw (not_invalid d0 first a.0) (
        free_chain-Fresh first d0 r.1 s
          (Keeps-Fresh d0 d r.1 f (alloc_cluster_no_zero-none d f.spares.sound f.works e)) a.2)
    cases later (some current) e = rw (not_invalid d0 prev b.0) (
        rw (not_invalid d0 first a.0)
          (go later current (alloc_cluster_no_zero-Taken d current f.spares.sound e)))

itself-Fresh : (d : Disk) → IsSound d → Works d → Fresh d d
itself-Fresh d s w = record {
  spares = record { layout = refl; sound = s; used = λ o has ne. refl; contents = λ j le. refl };
  works = w;
  closed = λ x has free inside. absurd (omega (arith, free, inside.0));
}

-- An allocation on a drive that works, whether it comes through or not.
pub alloc_chain-Fresh :
    (needed : ℕ) (d : Disk) → IsSound d → Works d → Fresh d (alloc_chain needed d).1
unfolding alloc_chain alloc_from
alloc_chain-Fresh zero d s w = itself-Fresh d s w
alloc_chain-Fresh (suc n) d s w =
    if_elim (λ (x : Option ℕ × Disk). Fresh d x.1) (suc n == 0) (λ _. f) (λ _. cases r.0 refl)
  where
    r : Option ℕ × Disk
    r = alloc_cluster_no_zero d

    f : Fresh d d
    f = itself-Fresh d s w

    after : Option ℕ → Option ℕ × Disk
    after o = elim o [ none ↦ (none, r.1) | some current ↦ alloc_from n current current r.1 ]

    cases : (o : Option ℕ) → r.0 ≡ o → Fresh d (after o).1
    cases none e = Keeps-Fresh d d r.1 f (alloc_cluster_no_zero-none d s w e)
    cases (some current) e =
        let t = alloc_cluster_no_zero-Taken d current s e in
        let c = Taken-WasFree d d r.1 current f t in
        alloc_from-Fresh n current current d r.1 s (Taken-Fresh d d r.1 current s f t) c c
