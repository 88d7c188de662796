-- ===== src/Elf/Placement.antt =====
-- Where the loader of kernel/runtime/elf64.c writes.
use clks.Base.{
  true, false, ◌≢◌, ap, sym, subst, ℕ, zero, suc, ◌+◌, ◌-◌, ◌*◌, ◌/◌, ◌%◌, ◌≤◌, ◌<◌, ◌≡◌, refl,
  arith, Bool, ◌&&◌, ◌||◌, not, some, ltb, leb, ◌==◌, add64, sub64, Array, update, ◌⊎◌, ◌∙◌,
  ℕ_discrete, update_self, update_ne, if_elim,
}
use clks.Elf.{read_le, write_le}
use clks.Elf.Image.{Phdr, phdr_at, pt_load}
use clks.Elf.Checks.{IsLoadable}
use clks.Elf.Loader.{
  max_segments, Segment, Loaded, skipped, copy_image, place, place_from, rebase_words, rebase_from,
  rebase_exec_pointers,
}

-- Memory is the same but for `size` bytes from `base` on.
abbrev pub SameOutside : ℕ → ℕ → Array ℕ → Array ℕ → Type 0
SameOutside base size m m' = (j : ℕ) → (j < base) ⊎ (base + size ≤ j) → m' j ≡ m j

-- A segment within the block.
pub record IsPlaced (base size : ℕ) (seg : Segment) : Type 0 where
  pub start : base ≤ seg.base
  pub end : seg.base + seg.memsz ≤ base + size
  pub file : seg.filesz ≤ seg.memsz

pub record IsInBlock (base : ℕ) (loaded : Loaded) : Type 0 where
  pub based : loaded.image_base ≡ some base
  pub room : loaded.segment_count ≤ max_segments
  pub each :
      (k : ℕ) → k < loaded.segment_count → IsPlaced base loaded.image_size (loaded.segments k)

copy_image-outside :
    (rounds dst src : ℕ) (image m : Array ℕ) (j : ℕ)
    → (j < dst) ⊎ (dst + rounds ≤ j)
    → copy_image rounds dst src image m j ≡ m j
unfolding copy_image
copy_image-outside zero dst src image m j out = refl
copy_image-outside (suc rounds) dst src image m j out =
    copy_image-outside rounds (dst + 1) (src + 1) image (update m dst (image src)) j (ground arith)
    ∙ update_ne m dst j (image src) (ground arith)

write_le-outside :
    (n v at : ℕ) (m : Array ℕ) (j : ℕ) → (j < at) ⊎ (at + n ≤ j) → write_le n v at m j ≡ m j
unfolding write_le
write_le-outside zero v at m j out = refl
write_le-outside (suc n) v at m j out =
    write_le-outside n (v / 256) (at + 1) (update m at (v % 256)) j (ground arith)
    ∙ update_ne m at j (v % 256) (ground arith)

rebase_words-outside :
    (words at old_base old_end delta : ℕ) (m : Array ℕ) (j : ℕ)
    → (j < at) ⊎ (at + words * 8 ≤ j)
    → rebase_words words at old_base old_end delta m j ≡ m j
unfolding rebase_words
rebase_words-outside zero at old_base old_end delta m j out = refl
rebase_words-outside (suc words) at old_base old_end delta m j out =
    rebase_words-outside words (at + 8) old_base old_end delta _ j (ground arith)
    ∙ if_elim (λ (f : Array ℕ). f j ≡ m j)
        (leb old_base (read_le 8 m at) && ltb (read_le 8 m at) old_end)
        (λ _. write_le-outside 8 (add64 (read_le 8 m at) delta) at m j (ground arith)) (λ _. refl)

rebase_from-outside :
    (rounds i : ℕ) (segments : Array Segment) (old_base old_end delta base size : ℕ) (m : Array ℕ)
    → ((k : ℕ) → i ≤ k → k < i + rounds → IsPlaced base size (segments k))
    → SameOutside base size m (rebase_from rounds i segments old_base old_end delta m)
unfolding rebase_from
rebase_from-outside zero i segments old_base old_end delta base size m placed j out = refl
rebase_from-outside (suc rounds) i segments old_base old_end delta base size m placed j out =
    let p = placed i (omega arith) (omega arith) in
    rebase_from-outside rounds (i + 1) segments old_base old_end delta base size _
      (λ k l h. placed k (omega arith) (omega arith)) j out
    ∙ if_elim At (not ((segments i).flags % 2 == 0)) (λ _. refl)
        (λ _.
          if_elim At (ltb (segments i).filesz 8) (λ _. refl)
            (λ _.
              rebase_words-outside ((segments i).filesz / 8) (segments i).base old_base old_end
                delta m j (ground (arith, p.start, p.end, p.file))))
  where
    At : Array ℕ → Type 0
    At f = f j ≡ m j

-- One more segment within the block.
place-IsInBlock :
    (base seg_off : ℕ) (ph : Phdr) (loaded : Loaded)
    → IsInBlock base loaded
    → loaded.segment_count < max_segments
    → seg_off + ph.p_memsz ≤ loaded.image_size
    → ph.p_filesz ≤ ph.p_memsz
    → IsInBlock base (place base seg_off ph loaded)
unfolding place
place-IsInBlock base seg_off ph loaded v room fits file = record {
  based = v.based;
  room = omega arith;
  each = λ k h. elim (ℕ_discrete k loaded.segment_count) [
    | yes e ↦
        rw (e, update_self loaded.segments loaded.segment_count seg)
          (record { start = omega arith; end = omega arith; file = file })
    | no ne ↦ rw (update_ne loaded.segments loaded.segment_count k seg ne) (v.each k (omega arith))
  ];
}
  where
    seg : Segment
    seg = record {
      base = base + seg_off;
      vaddr = ph.p_vaddr;
      memsz = ph.p_memsz;
      filesz = ph.p_filesz;
      flags = ph.p_flags;
    }

-- What the second loop keeps: the segments entered lie within the block, and so do its writes.
pub record Kept (base size : ℕ) (m : Array ℕ) (r : Bool × Loaded × Array ℕ) : Type 0 where
  pub block : IsInBlock base r.1
  pub same_size : r.1.image_size ≡ size
  pub outside : SameOutside base size m r.2

pub place_from-Kept :
    (rounds i : ℕ) (image : Array ℕ) (base span min_vaddr total : ℕ) (loaded : Loaded) (m : Array ℕ)
    → IsInBlock base loaded
    → loaded.image_size ≡ span
    → ((k : ℕ)
        → i ≤ k
        → k < i + rounds
        → (phdr_at image k).p_type ≡ pt_load
        → IsLoadable total (phdr_at image k))
    → Kept base span m (place_from rounds i image base span min_vaddr loaded m)
unfolding place_from skipped
place_from-Kept zero i image base span min_vaddr total loaded m v e ok = record {
  block = v;
  same_size = e;
  outside = λ j out. refl;
}
place_from-Kept (suc rounds) i image base span min_vaddr total loaded m v e ok =
    let later : (k : ℕ)
        → i + 1 ≤ k
        → k < i + 1 + rounds
        → (phdr_at image k).p_type ≡ pt_load
        → IsLoadable total (phdr_at image k) =
      λ k l h. ok k (omega arith) (omega arith) in
    if_elim (Kept base span m) (skipped (phdr_at image i))
      (λ _. place_from-Kept rounds (i + 1) image base span min_vaddr total loaded m v e later)
      (λ taken.
        if_elim (Kept base span m) (leb max_segments loaded.segment_count)
          (λ _. record { block = v; same_size = e; outside = λ j out. refl })
          (λ room.
            if_elim (Kept base span m) (ltb span seg_off || ltb (span - seg_off) ph.p_memsz)
              (λ _. record { block = v; same_size = e; outside = λ j out. refl })
              (λ fits.
                let l : IsLoadable total ph = ok i (omega arith) (omega arith) (ground arith) in
                let within : seg_off + ph.p_memsz ≤ loaded.image_size = ground arith in
                let kept =
                  place_from-Kept rounds (i + 1) image base span min_vaddr total
                    (place base seg_off ph loaded)
                    (copy_image ph.p_filesz (base + seg_off) ph.p_offset image m)
                    (place-IsInBlock base seg_off ph loaded v (ground arith) within l.fits)
                    (unfold place in e) later in
                record {
                  block = kept.block;
                  same_size = kept.same_size;
                  outside = λ j out.
                      kept.outside j out
                      ∙ copy_image-outside ph.p_filesz (base + seg_off) ph.p_offset image m j
                          (ground (arith, l.fits));
                })))
  where
    ph : Phdr
    ph = phdr_at image i

    seg_off : ℕ
    seg_off = sub64 ph.p_vaddr min_vaddr

-- The segment that a program header is entered as.
abbrev pub segment_of : ℕ → ℕ → Phdr → Segment
segment_of base vaddr_base ph = record {
  base = base + sub64 ph.p_vaddr vaddr_base;
  vaddr = ph.p_vaddr;
  memsz = ph.p_memsz;
  filesz = ph.p_filesz;
  flags = ph.p_flags;
}

-- A header is among the segments of a loaded image.
abbrev pub IsEntered : ℕ → Loaded → Phdr → Type 0
IsEntered base loaded ph =
    (n : ℕ) × (n < loaded.segment_count)
    × (loaded.segments n ≡ segment_of base loaded.image_vaddr_base ph)

-- What the second loop enters: the segments before stay, and a loop that comes through enters each header of
-- a segment that is not empty.
pub record Enters (i rounds base : ℕ) (image : Array ℕ) (loaded : Loaded)
    (r : Bool × Loaded × Array ℕ) : Type 0 where
  pub vaddr_base : r.1.image_vaddr_base ≡ loaded.image_vaddr_base
  pub grows : loaded.segment_count ≤ r.1.segment_count
  pub keeps : (n : ℕ) → n < loaded.segment_count → r.1.segments n ≡ loaded.segments n
  pub entered :
      r.0 ≡ true
      → (k : ℕ) → i ≤ k
      → k < i + rounds
      → (phdr_at image k).p_type ≡ pt_load
      → (phdr_at image k).p_memsz ≢ 0
      → IsEntered base r.1 (phdr_at image k)

given_up :
    (i rounds base : ℕ) (image : Array ℕ) (loaded : Loaded) (m : Array ℕ)
    → Enters i rounds base image loaded (false, loaded, m)
given_up i rounds base image loaded m = record {
  vaddr_base = refl;
  grows = omega arith;
  keeps = λ n lt. refl;
  entered = λ e. absurd (cc e);
}

pub place_from-Enters :
    (rounds i : ℕ) (image : Array ℕ) (base span min_vaddr : ℕ) (loaded : Loaded) (m : Array ℕ)
    → loaded.image_vaddr_base ≡ min_vaddr
    → Enters i rounds base image loaded (place_from rounds i image base span min_vaddr loaded m)
unfolding place_from place
place_from-Enters zero i image base span min_vaddr loaded m e = record {
  vaddr_base = refl;
  grows = omega arith;
  keeps = λ n lt. refl;
  entered = λ _ k l h. absurd (omega arith);
}
place_from-Enters (suc rounds) i image base span min_vaddr loaded m e =
    if_elim Goal (skipped ph)
      (λ passed.
        let r = place_from-Enters rounds (i + 1) image base span min_vaddr loaded m e in
        record {
          vaddr_base = r.vaddr_base;
          grows = r.grows;
          keeps = r.keeps;
          entered = λ ok k l h load full. elim (ℕ_discrete k i) [
            | yes here ↦ absurd (
                passed_over passed (subst (λ k. (phdr_at image k).p_type ≡ pt_load) here load)
                  (subst (λ k. (phdr_at image k).p_memsz ≢ 0) here full))
            | no ne ↦ r.entered ok k (omega arith) (omega arith) load full
          ];
        })
      (λ _.
        if_elim Goal (leb max_segments loaded.segment_count)
          (λ _. given_up i (suc rounds) base image loaded m)
          (λ _.
            if_elim Goal (ltb span seg_off || ltb (span - seg_off) ph.p_memsz)
              (λ _. given_up i (suc rounds) base image loaded m)
              (λ _.
                one_more
                  (place_from rounds (i + 1) image base span min_vaddr
                    (place base seg_off ph loaded)
                    (copy_image ph.p_filesz (base + seg_off) ph.p_offset image m))
                  (place_from-Enters rounds (i + 1) image base span min_vaddr
                    (place base seg_off ph loaded)
                    (copy_image ph.p_filesz (base + seg_off) ph.p_offset image m) (e)))))
  where
    Goal : Bool × Loaded × Array ℕ → Type 0
    Goal = Enters i (suc rounds) base image loaded

    ph : Phdr
    ph = phdr_at image i

    seg_off : ℕ
    seg_off = sub64 ph.p_vaddr min_vaddr

    passed_over : skipped ph ≡ true → ph.p_type ≡ pt_load → ph.p_memsz ≢ 0 → ⊥
    passed_over passed load full = unfold skipped in ground arith

    kept :
        {r : Bool × Loaded × Array ℕ}
        → Enters (i + 1) rounds base image (place base seg_off ph loaded) r
        → (n : ℕ) → n < loaded.segment_count
        → r.1.segments n ≡ loaded.segments n
    kept q n lt =
        q.keeps n (omega arith)
        ∙ (update_ne loaded.segments loaded.segment_count n (segment_of base min_vaddr ph)
            (omega arith))

    newest :
        {r : Bool × Loaded × Array ℕ}
        → Enters (i + 1) rounds base image (place base seg_off ph loaded) r
        → r.1.segments loaded.segment_count ≡ segment_of base r.1.image_vaddr_base ph
    newest q =
        q.keeps loaded.segment_count (omega arith)
        ∙ (update_self loaded.segments loaded.segment_count (segment_of base min_vaddr ph))
        ∙ ap (λ v. segment_of base v ph) (sym (q.vaddr_base ∙ e))

    one_more :
        (r : Bool × Loaded × Array ℕ)
        → Enters (i + 1) rounds base image (place base seg_off ph loaded) r
        → Goal r
    one_more r q = record {
      vaddr_base = q.vaddr_base;
      grows = omega (arith, q.grows);
      keeps = λ n lt. kept q n lt;
      entered = λ ok k l h load full. elim (ℕ_discrete k i) [
        | yes here ↦
            subst (λ k. IsEntered base r.1 (phdr_at image k)) (sym here)
              (loaded.segment_count, (omega (arith, q.grows)), newest q)
        | no ne ↦ q.entered ok k (omega arith) (omega arith) load full
      ];
    }

pub rebase_exec_pointers-outside :
    (base : ℕ) (loaded : Loaded) (old_base old_end delta : ℕ) (m : Array ℕ)
    → IsInBlock base loaded
    → SameOutside base loaded.image_size m (rebase_exec_pointers loaded old_base old_end delta m)
unfolding rebase_exec_pointers
rebase_exec_pointers-outside base loaded old_base old_end delta m v =
    if_elim (SameOutside base loaded.image_size m) (delta == 0 || leb old_end old_base)
      (λ _ j out. refl)
      (λ _.
        rebase_from-outside loaded.segment_count 0 loaded.segments old_base old_end delta base
          loaded.image_size m (λ k l h. v.each k (omega arith)))
