-- ===== src/Disk/Chain/Success.antt =====
-- kernel/storage/disk/file_chain.inc: when a read goes well.
use clks.Base.{
  ℕ, zero, suc, ◌+◌, ◌-◌, ◌*◌, ◌≤◌, ◌<◌, ◌≡◌, arith, refl, Bool, true, false, not, ◌||◌, Option,
  none, some, leb, ltb, ◌==◌, if◌then◌else◌, min, Array, fun_ext, ap, ◌∙◌, sym, subst, if_elim,
}
use clks.Disk.{Disk, Fat32Layout, sector_size, mul64, put}
use clks.Disk.Cache.{bytes_range_valid, ensure_loaded_range}
use clks.Disk.Cache.Loading.{Loads, Loads-trans, ensure_loaded_range-Loads}
use clks.Disk.Cache.Presence.{Works, ensure_loaded_range-Works}
use clks.Disk.Layout.{cluster_valid}
use clks.Disk.Layout.Regions.{
  InVolume, region, region_fits, InVolume-cluster_valid, cluster_lba-some,
}
use clks.Disk.Fat.{has_entry}
use clks.Disk.Fat.Entries.{IsSound, Loads-IsSound, Loads-link, link}
use clks.Disk.Clusters.Reaching.{Reaches, step}
use clks.Disk.Chain.{follow, read_from, read_file_chain}
use clks.Disk.Chain.Steps.{follow-Loads}
use clks.Disk.Chain.Following.{Loads-Works, range_valid, follow-Works}

-- The state and the chain with which a round of a read begins.
record CanRead (rounds n c last copied size : ℕ) (d : Disk) : Type 0 where
  sound : IsSound d
  works : Works d
  inside : InVolume d.fat32 c
  path : Reaches d.fat32 (link d) c last n
  enough : n < rounds
  begun : copied ≤ size
  room : size ≤ copied + (n + 1) * d.fat32.cluster_size_bytes

Reaches-first :
    (l : Fat32Layout) (f : ℕ → ℕ) (a c n : ℕ)
    → Reaches l f a c (suc n)
    → (has_entry l a ≡ true) × InVolume l (f a) × Reaches l f (f a) c n
Reaches-first l f a c n (step has inside rest) = (has, inside, rest)

-- The state after a load, at the next cluster.
CanRead-next :
    (rounds n c last copied size : ℕ) (d e : Disk)
    → CanRead (suc rounds) n c last copied size d
    → Loads d e
    → copied + d.fat32.cluster_size_bytes < size
    → (m : ℕ) × (has_entry d.fat32 c ≡ true)
      × InVolume d.fat32 (link d c)
      × CanRead rounds m (link d c) last (copied + d.fat32.cluster_size_bytes) size e
CanRead-next rounds n c last copied size d e can p more = follow_path n can.path can.enough can.room
  where
    cs : ℕ
    cs = d.fat32.cluster_size_bytes

    layout : e.fat32 ≡ d.fat32
    layout = ap (λ (y : Disk). y.fat32) p.frame

    Next : Type 0
    Next =
        (m : ℕ) × (has_entry d.fat32 c ≡ true)
        × InVolume d.fat32 (link d c)
        × CanRead rounds m (link d c) last (copied + cs) size e

    follow_path :
        (k : ℕ)
        → Reaches d.fat32 (link d) c last k
        → k < suc rounds
        → size ≤ copied + (k + 1) * cs
        → Next
    follow_path zero path lt room = absurd (omega arith)
    follow_path (suc k) whole lt room =
        let (has, inside, path) = Reaches-first d.fat32 (link d) c last k whole in
        (
          k,
          has,
          inside,
          record {
            sound = Loads-IsSound d e p can.sound;
            works = Loads-Works d e p can.works;
            inside = subst (λ l. InVolume l (link d c)) (sym layout) inside;
            path =
                subst (λ f. Reaches e.fat32 f (link d c) last k) (sym (fun_ext (Loads-link d e p)))
                  (subst (λ l. Reaches l (link d) (link d c) last k) (sym layout) path);
            enough = omega arith;
            begun = omega arith;
            room =
                subst (λ (l : Fat32Layout). size ≤ copied + cs + (k + 1) * l.cluster_size_bytes)
                  (sym layout) (omega arith);
          },
        )

read_from_works :
    (rounds n c last copied size : ℕ) (out : Array ℕ) (d : Disk)
    → CanRead rounds n c last copied size d
    → (read_from rounds c copied size out d).0 ≡ true
unfolding read_from
read_from_works zero n c last copied size out d can = let lt = can.enough in absurd (omega arith)
read_from_works (suc rounds) n c last copied size out d can =
    if_elim Well (not (ltb copied size) || not (cluster_valid d.fat32 c))
      (λ ended. let e1 = valid in let e2 = can.begun in ground arith)
      (λ _.
        subst (λ o. Well (after o))
          (sym (cluster_lba-some d c can.sound.sized.volume can.sound.sized.small valid))
          (loaded (λ m next o e can'.
            read_from_works rounds m next last (copied + amount) size o e can')))
  where
    Well : Bool × Array ℕ × Disk → Type 0
    Well r = r.0 ≡ true

    valid : cluster_valid d.fat32 c ≡ true
    valid = InVolume-cluster_valid d.fat32 d.sector_total c can.sound.sized.volume can.inside

    cs : ℕ
    cs = d.fat32.cluster_size_bytes

    amount : ℕ
    amount = min (size - copied) cs

    offset : ℕ → ℕ
    offset lba = mul64 lba sector_size

    ensured : ℕ → Bool × Disk
    ensured lba = ensure_loaded_range (offset lba) amount d

    out' : ℕ → Array ℕ
    out' lba = put copied (offset lba) amount (ensured lba).1.bytes out

    after_link : ℕ → Option ℕ → Bool × Array ℕ × Disk
    after_link lba l = elim l [
      | none ↦ (false, out' lba, (follow c (ensured lba).1).1)
      | some next ↦
          read_from rounds next (copied + amount) size (out' lba) (follow c (ensured lba).1).1
    ]

    after : Option ℕ → Bool × Array ℕ × Disk
    after o = elim o [
      | none ↦ (false, out, d)
      | some lba ↦
          if not (bytes_range_valid (offset lba) amount d)
          then (false, out, d)
          else if not (ensured lba).0
          then (false, out, (ensured lba).1)
          else if leb size (copied + amount)
          then (true, out' lba, (ensured lba).1)
          else after_link lba (follow c (ensured lba).1).0
    ]

    lba0 : ℕ
    lba0 = region d.fat32 c

    fits : offset lba0 + amount ≤ d.bytes_len
    fits =
        let e1 = region_fits d.fat32 d.sector_total c can.sound.sized.volume can.inside in
        let e2 = can.sound.backed.len in
        let e3 = can.sound.sized.volume.cluster_size in
        let e4 = can.sound.sized.small in omega arith

    Later : Type 0
    Later =
        (m next : ℕ) (o : Array ℕ) (e : Disk)
        → CanRead rounds m next last (copied + amount) size e
        → Well (read_from rounds next (copied + amount) size o e)

    going : Later → copied + amount < size → Well (after_link lba0 (follow c (ensured lba0).1).0)
    going later more =
        let p = ensure_loaded_range-Loads (offset lba0) amount d in
        let e1 = (ensured lba0).1 in
        let q = Loads-trans p (follow-Loads c e1) in
        let whole : amount ≡ cs = omega arith in
        let (m, has, inside, next) =
          CanRead-next rounds n c last copied size d (follow c e1).1 can q (omega arith) in
        let layout : e1.fat32 ≡ d.fat32 = ap (λ (y : Disk). y.fat32) p.frame in
        let same = Loads-link d e1 p c in
        let followed =
          follow-Works c e1 (Loads-IsSound d e1 p can.sound) (Loads-Works d e1 p can.works)
            (subst (λ l. has_entry l c ≡ true) (sym layout) has)
            (subst (λ l. InVolume l (link e1 c)) (sym layout)
              (subst (InVolume d.fat32) (sym same) inside)) in
        subst (λ o. Well (after_link lba0 o)) (sym (followed ∙ ap some same))
          (later m (link d c) (out' lba0) (follow c e1).1 (
            subst (λ k. CanRead rounds m (link d c) last (copied + k) size (follow c e1).1)
              (sym whole) next))

    loaded : Later → Well (after (some lba0))
    loaded later =
        let e1 = range_valid (offset lba0) amount d can.sound fits in
        let e2 = ensure_loaded_range-Works (offset lba0) amount d can.sound.backed can.works fits in
        if_elim Well (not (bytes_range_valid (offset lba0) amount d)) (λ off. absurd (ground arith))
          (λ _.
            if_elim Well (not (ensured lba0).0) (λ off. absurd (ground arith))
              (λ _.
                if_elim Well (leb size (copied + amount)) (λ _. refl)
                  (λ more. going later (ground arith))))

-- On a sound disk whose drive completes its commands: a read goes well if the links of the table on the
-- drive lead from the first cluster through as many clusters as hold `size` bytes, and no more than
-- the volume has.
pub read_file_chain-Works :
    (first last n size : ℕ) (out : Array ℕ) (d : Disk)
    → IsSound d
    → Works d
    → InVolume d.fat32 first
    → Reaches d.fat32 (link d) first last n
    → n < d.fat32.cluster_count
    → size ≤ (n + 1) * d.fat32.cluster_size_bytes
    → (read_file_chain first size out d).0 ≡ true
unfolding read_file_chain
read_file_chain-Works first last n size out d s w inside path lt room =
    if_elim Well (size == 0) (λ _. refl)
      (λ _.
        if_elim Well (not (cluster_valid d.fat32 first))
          (λ off.
            let valid = InVolume-cluster_valid d.fat32 d.sector_total first s.sized.volume inside in
            absurd (ground arith))
          (λ _. read_from_works d.fat32.cluster_count n first last 0 size out d (record {
            sound = s;
            works = w;
            inside = inside;
            path = path;
            enough = lt;
            begun = omega arith;
            room = omega arith;
          })))
  where
    Well : Bool × Array ℕ × Disk → Type 0
    Well r = r.0 ≡ true
