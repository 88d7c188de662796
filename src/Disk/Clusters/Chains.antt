-- ===== src/Disk/Clusters/Chains.antt =====
-- kernel/storage/disk/fat_alloc.inc: the chain that an allocation makes in the table on the drive.
use clks.Base.{
  ℕ, suc, ◌*◌, ◌≤◌, ◌<◌, ◌≡◌, ◌≢◌, arith, refl, true, Option, none, some, if◌then◌else◌, Array, ap,
  ◌∙◌, sym, subst, if_elim, ℕ_discrete,
}
use clks.Disk.{Disk, Fat32Layout, eoc, sector_size}
use clks.Disk.Layout.Regions.{InVolume}
use clks.Disk.Fat.{has_entry, fat_write_entry}
use clks.Disk.Fat.Entries.{IsSound, link}
use clks.Disk.Fat.Table.{Links, fat_write_entry-Links}
use clks.Disk.Clusters.{find_free_cluster, alloc_cluster_no_zero}
use clks.Disk.Clusters.Search.{Finds, find_free_cluster-Finds}
use clks.Disk.Clusters.Keeping.{Keeps-link}
use clks.Disk.Clusters.Reaching.{Reaches, here, Reaches-keeps, Reaches-extend}

-- From `d` to `e` only clusters that were free got other links, and no byte of a cluster changed.
pub record Spares (d e : Disk) : Type 0 where
  pub layout : e.fat32 ≡ d.fat32
  pub sound : IsSound e
  pub used : (o : ℕ) → has_entry d.fat32 o ≡ true → link d o ≢ 0 → link e o ≡ link d o
  pub contents : (j : ℕ) → d.fat32.data_lba * sector_size ≤ j → e.drive.media j ≡ d.drive.media j

-- One free cluster was taken and marked as the end of a chain.
pub record Taken (d : Disk) (k : ℕ) (e : Disk) : Type 0 where
  pub layout : e.fat32 ≡ d.fat32
  pub sound : IsSound e
  pub inside : InVolume d.fat32 k
  pub has : has_entry d.fat32 k ≡ true
  pub was_free : link d k ≡ 0
  pub outcomes : e.drive.stops ≡ d.drive.stops
  pub ends : link e k ≡ eoc
  pub others : (o : ℕ) → has_entry d.fat32 o ≡ true → o ≢ k → link e o ≡ link d o
  pub contents : (j : ℕ) → d.fat32.data_lba * sector_size ≤ j → e.drive.media j ≡ d.drive.media j

pub alloc_cluster_no_zero-Taken :
    (d : Disk) (k : ℕ)
    → IsSound d
    → (alloc_cluster_no_zero d).0 ≡ some k
    → Taken d k (alloc_cluster_no_zero d).1
unfolding alloc_cluster_no_zero
alloc_cluster_no_zero-Taken d k s = cases r.0 refl
  where
    r : Option ℕ × Disk
    r = find_free_cluster d

    p : Finds d r
    p = find_free_cluster-Finds d s

    after : Option ℕ → Option ℕ × Disk
    after o = elim o [
      | none ↦ (none, r.1)
      | some cluster ↦
          let (ok, d2) = fat_write_entry cluster eoc r.1 in
          if ok then (some cluster, d2) else (none, d2)
    ]

    Goal : Option ℕ × Disk → Type 0
    Goal x = x.0 ≡ some k → Taken d k x.1

    layout : r.1.fat32 ≡ d.fat32
    layout = p.keeps.layout

    taken :
        (cluster : ℕ)
        → r.0 ≡ some cluster
        → cluster ≡ k
        → (fat_write_entry cluster eoc r.1).0 ≡ true
        → Taken d k (fat_write_entry cluster eoc r.1).1
    taken cluster e same ok =
        let (inside, has, free, _) = p.hit cluster e in
        let (_, q) = fat_write_entry-Links cluster eoc r.1 p.keeps.sound ok in
        let d2 = (fat_write_entry cluster eoc r.1).1 in
        subst (λ i. Taken d i d2) same
          (record {
            layout = ap (λ (y : Disk). y.fat32) q.frame ∙ layout;
            sound = q.sound;
            inside = inside;
            has = has;
            was_free = free;
            outcomes = q.outcomes ∙ p.keeps.outcomes;
            ends = q.written;
            others = λ o has' ne.
                q.others o (subst (λ (l : Fat32Layout). has_entry l o ≡ true) (sym layout) has') ne
                ∙ Keeps-link d r.1 p.keeps o;
            contents = λ j le.
                q.contents j
                  (subst (λ (l : Fat32Layout). l.data_lba * sector_size ≤ j) (sym layout) le)
                ∙ ap (λ (m : Array ℕ). m j) p.keeps.media;
          })

    cases : (o : Option ℕ) → r.0 ≡ o → Goal (after o)
    cases none e = λ h. absurd (cc h)
    cases (some cluster) e =
        if_elim Goal (fat_write_entry cluster eoc r.1).0 (λ ok h. taken cluster e (cc h) ok)
          (λ _ h. absurd (cc h))

-- The chain under construction, from `first` to `last` in `n` steps; its last cluster was free and is
-- marked as the end.
pub record Tail (d0 d : Disk) (first last n : ℕ) : Type 0 where
  pub spares : Spares d0 d
  pub first_inside : InVolume d0.fat32 first
  pub inside : InVolume d0.fat32 last
  pub has : has_entry d0.fat32 last ≡ true
  pub was_free : link d0 last ≡ 0
  pub ends : link d last ≡ eoc
  pub path : Reaches d0.fat32 (link d) first last n

-- A cluster that is free now was free before.
pub free_before :
    (d0 d : Disk) (k : ℕ) → Spares d0 d → has_entry d0.fat32 k ≡ true → link d k ≡ 0 → link d0 k ≡ 0
free_before d0 d k s has free = elim (ℕ_discrete (link d0 k) 0) [
  | yes z ↦ z
  | no ne ↦ sym (s.used k has ne) ∙ free
]

pub Taken-Spares : (d0 d e : Disk) (k : ℕ) → Spares d0 d → Taken d k e → Spares d0 e
Taken-Spares d0 d e k s t = record {
  layout = t.layout ∙ s.layout;
  sound = t.sound;
  used = λ o has ne. elim (ℕ_discrete o k) [
    | yes same ↦ absurd (
        ne (subst (λ i. link d0 i ≡ 0) (sym same) (free_before d0 d k s (back k t.has) t.was_free)))
    | no other ↦ t.others o (forth o has) other ∙ s.used o has ne
  ];
  contents = λ j le.
      t.contents j (subst (λ (l : Fat32Layout). l.data_lba * sector_size ≤ j) (sym s.layout) le)
      ∙ s.contents j le;
}
  where
    forth : (o : ℕ) → has_entry d0.fat32 o ≡ true → has_entry d.fat32 o ≡ true
    forth o = subst (λ l. has_entry l o ≡ true) (sym s.layout)

    back : (o : ℕ) → has_entry d.fat32 o ≡ true → has_entry d0.fat32 o ≡ true
    back o = subst (λ l. has_entry l o ≡ true) s.layout

-- The first cluster of a chain.
pub Taken-Tail : (d0 e : Disk) (k : ℕ) → Spares d0 d0 → Taken d0 k e → Tail d0 e k k 0
Taken-Tail d0 e k s t = record {
  spares = Taken-Spares d0 d0 e k s t;
  first_inside = t.inside;
  inside = t.inside;
  has = t.has;
  was_free = t.was_free;
  ends = t.ends;
  path = here;
}

-- A cluster of the volume is no end mark, and not 0.
pub inside_bounds : (d : Disk) (x : ℕ) → IsSound d → InVolume d.fat32 x → (2 ≤ x) × (x < eoc)
inside_bounds d x s (lo, hi) = let e1 = s.sized.volume.few in (lo, omega arith)

-- One more cluster, linked behind the last.
pub Tail-extend :
    (d0 d d1 d2 : Disk) (first prev current n : ℕ)
    → IsSound d0
    → Tail d0 d first prev n
    → Taken d current d1
    → Links prev current d1 d2
    → Tail d0 d2 first current (suc n)
Tail-extend d0 d d1 d2 first prev current n s t k q = record {
  spares = record {
    layout = layout2 ∙ s1.layout;
    sound = q.sound;
    used = λ o has ne. elim (ℕ_discrete o prev) [
      | yes same ↦ absurd (ne (subst (λ i. link d0 i ≡ 0) (sym same) t.was_free))
      | no other ↦ q.others o (forth o has) other ∙ s1.used o has ne
    ];
    contents = λ j le.
        q.contents j (subst (λ (l : Fat32Layout). l.data_lba * sector_size ≤ j) (sym s1.layout) le)
        ∙ s1.contents j le;
  };
  first_inside = t.first_inside;
  inside = inside;
  has = has;
  was_free = free_before d0 d current t.spares has k.was_free;
  ends = q.others current (forth current has) differs ∙ k.ends;
  path =
      subst (λ x. Reaches d0.fat32 (link d2) first x (suc n)) linked
        (Reaches-extend d0.fat32 (link d2) kept t.has
          (subst (InVolume d0.fat32) (sym linked) inside));
}
  where
    s1 : Spares d0 d1
    s1 = Taken-Spares d0 d d1 current t.spares k

    layout2 : d2.fat32 ≡ d1.fat32
    layout2 = ap (λ (y : Disk). y.fat32) q.frame

    forth : (o : ℕ) → has_entry d0.fat32 o ≡ true → has_entry d1.fat32 o ≡ true
    forth o = subst (λ l. has_entry l o ≡ true) (sym s1.layout)

    inside : InVolume d0.fat32 current
    inside = subst (λ l. InVolume l current) t.spares.layout k.inside

    has : has_entry d0.fat32 current ≡ true
    has = subst (λ l. has_entry l current ≡ true) t.spares.layout k.has

    differs : current ≢ prev
    differs same =
        let e1 = k.was_free in
        let e2 : link d current ≡ eoc = ap (link d) same ∙ t.ends in absurd (omega arith)

    linked : link d2 prev ≡ current
    linked = let (lo, hi) = inside_bounds d0 current s inside in q.written ∙ omega arith

    kept : Reaches d0.fat32 (link d2) first prev n
    kept =
        Reaches-keeps d0.fat32 (link d) (link d2)
          (λ x hasx in_x.
            let (lo, hi) = inside_bounds d0 (link d x) s in_x in
            let e1 = k.was_free in
            let e2 = t.ends in
            let not_prev : x ≢ prev = λ same. (let e3 = ap (link d) same in absurd (omega arith)) in
            let not_current : x ≢ current =
              λ same. (let e3 = ap (link d) same in absurd (omega arith)) in
            q.others x (forth x hasx) not_prev
            ∙ k.others x (subst (λ l. has_entry l x ≡ true) (sym t.spares.layout) hasx) not_current)
          t.path
