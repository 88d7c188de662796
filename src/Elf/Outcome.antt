-- ===== src/Elf/Outcome.antt =====
-- The two outcomes of loading an image in kernel/runtime/elf64.c.
use clks.Base.{
  ◌≢◌, ap, ℕ, ◌<◌, ◌≡◌, refl, arith, Bool, true, false, not, Option, none, some, ltb, ◌==◌, sub64,
  Array, ◌⊎◌, inl, inr, ◌∙◌, sym, subst, if_elim,
}
use clks.Base.Allocator.{Allocator}
use clks.Strings.{memset}
use clks.Strings.Copies.{memset_lem}
use clks.Elf.Image.{read_ehdr, phdr_at, validate, pt_load}
use clks.Elf.Checks.{IsLoadable, validate_lem}
use clks.Elf.Loader.{
  max_segments, Loaded, zero_loaded, Span, measure_from, place_from, rebase_exec_pointers, unload,
  fill, claim, load,
}
use clks.Elf.Placement.{
  SameOutside, IsInBlock, IsEntered, Enters, Kept, place_from-Enters, place_from-Kept,
  rebase_exec_pointers-outside,
}

module _ (heap : Allocator) where
  open heap use {Store, alloc}

  -- The block that the heap has given for a loaded image holds its segments, which are those of the file.
  pub record IsLoaded (image m : Array ℕ) (h : Store) (base : ℕ)
      (r : Bool × Loaded × Array ℕ × Store) : Type 0 where
    pub ok : r.0 ≡ true
    pub granted : (alloc r.1.image_size h).0 ≡ some base
    pub block : IsInBlock base r.1
    pub entered :
        (k : ℕ)
        → k < (read_ehdr image).e_phnum
        → (phdr_at image k).p_type ≡ pt_load
        → (phdr_at image k).p_memsz ≢ 0
        → IsEntered base r.1 (phdr_at image k)
    pub outside : SameOutside base r.1.image_size m r.2

  -- The two outcomes of loading: refused, with a cleared result, or done.
  abbrev pub Outcome : Option (Array ℕ) → Array ℕ → Store → Bool × Loaded × Array ℕ × Store → Type 0
  Outcome o m h r =
      ((r.0 ≡ false) × (r.1 ≡ zero_loaded))
      ⊎ ((image : Array ℕ) × (base : ℕ) × (o ≡ some image) × IsLoaded image m h base r)

  fill-Outcome :
      (image : Array ℕ) (base total : ℕ) (s : Span) (m : Array ℕ) (h h₁ : Store)
      → (alloc (sub64 s.max_vaddr_end s.min_vaddr) h).0 ≡ some base
      → ((k : ℕ)
          → k < (read_ehdr image).e_phnum
          → (phdr_at image k).p_type ≡ pt_load
          → IsLoadable total (phdr_at image k))
      → Outcome (some image) m h (fill heap image base s m h₁)
  unfolding fill unload
  fill-Outcome image base total s m h h₁ grant ok =
      if_elim (Outcome (some image) m h)
        (not
          (place_from (read_ehdr image).e_phnum 0 image base span s.min_vaddr start
            (memset base 0 span m)).0)
        (λ _. inl (refl, refl))
        (λ through.
          let done : placed.0 ≡ true = ground arith in
          if_elim (Outcome (some image) m h) _
            (λ _. inr (image, base, refl, at done _ (λ j out. rebased j out ∙ all_written j out)))
            (λ _. inr (image, base, refl, at done placed.2 all_written)))
    where
      span : ℕ
      span = sub64 s.max_vaddr_end s.min_vaddr

      start : Loaded
      start = record zero_loaded {
        entry = (read_ehdr image).e_entry;
        image_base = some base;
        image_size = span;
        image_vaddr_base = s.min_vaddr;
      }

      placed : Bool × Loaded × Array ℕ
      placed =
          place_from (read_ehdr image).e_phnum 0 image base span s.min_vaddr start
            (memset base 0 span m)

      kept : Kept base span (memset base 0 span m) placed
      kept =
          place_from-Kept (read_ehdr image).e_phnum 0 image base span s.min_vaddr total start
            (memset base 0 span m)
            (record { based = refl; room = omega arith; each = λ k h. absurd (omega arith) }) refl
            (λ k _ h load. ok k (omega arith) load)

      enters : Enters 0 (read_ehdr image).e_phnum base image start placed
      enters =
          place_from-Enters (read_ehdr image).e_phnum 0 image base span s.min_vaddr start
            (memset base 0 span m) refl

      at :
          placed.0 ≡ true
          → (m' : Array ℕ) → SameOutside base placed.1.image_size m m'
          → IsLoaded image m h base (true, placed.1, m', h₁)
      at done m' outside = record {
        ok = refl;
        granted = ap (λ n. (alloc n h).0) kept.same_size ∙ grant;
        block = kept.block;
        entered = λ k lt load full. enters.entered done k (omega arith) (omega arith) load full;
        outside = outside;
      }

      all_written : SameOutside base placed.1.image_size m placed.2
      all_written =
          subst (λ n. SameOutside base n m placed.2) (sym kept.same_size)
            (λ j out. kept.outside j out ∙ (memset_lem base 0 span m j ∙ ground arith))

      rebased : SameOutside base placed.1.image_size placed.2 (
          rebase_exec_pointers placed.1 s.min_vaddr s.max_vaddr_end
            (sub64 base s.min_vaddr)
            placed.2)
      rebased =
          rebase_exec_pointers-outside base placed.1 s.min_vaddr s.max_vaddr_end
            (sub64 base s.min_vaddr) placed.2 kept.block

  claim-Outcome :
      (image : Array ℕ) (total : ℕ) (s : Span) (m : Array ℕ) (h : Store)
      → ((k : ℕ)
          → k < (read_ehdr image).e_phnum
          → (phdr_at image k).p_type ≡ pt_load
          → IsLoadable total (phdr_at image k))
      → Outcome (some image) m h (claim heap image s m h)
  unfolding claim
  claim-Outcome image total s m h ok =
      if_elim (Outcome (some image) m h) (s.load_count == 0) (λ _. inl (refl, refl))
        (λ _.
          if_elim (Outcome (some image) m h) (ltb max_segments s.load_count) (λ _. inl (refl, refl))
            (λ _.
              if_elim (Outcome (some image) m h) (span == 0) (λ _. inl (refl, refl))
                (λ _. at_block (alloc span h).0 refl)))
    where
      span : ℕ
      span = sub64 s.max_vaddr_end s.min_vaddr

      at_block :
          (o : Option ℕ)
          → (alloc span h).0 ≡ o
          → Outcome (some image) m h (elim o [
            | none ↦ (false, zero_loaded, m, (alloc span h).1)
            | some base ↦ fill heap image base s m (alloc span h).1
          ])
      at_block none e = inl (refl, refl)
      at_block (some base) e = fill-Outcome image base total s m h (alloc span h).1 e ok

  -- Loading any bytes of any size ends in one of two ways. It is refused, and the result is cleared. Or the
  -- heap has given the block, at the address and of the size that the result names, and the segments lie
  -- within it, with their bytes from the file no more than their memory. They are at most 16, and every
  -- loadable program header of the file that is not empty is among them, at its distance from the
  -- virtual address that the result has as its base. No byte of memory outside the block is changed,
  -- whatever the image makes the loader copy and relocate.
  pub load_lem :
      (image : Option (Array ℕ)) (size : ℕ) (m : Array ℕ) (h : Store)
      → Outcome image m h (load heap image size m h)
  unfolding load
  load_lem none size m h = inl (refl, refl)
  load_lem (some image) size m h =
      if_elim (Outcome (some image) m h) (not (validate (some image) size)) (λ _. inl (refl, refl))
        (λ valid.
          let (_, _, _, ok) = validate_lem image size (ground arith) in
          measured ok (
            measure_from (read_ehdr image).e_phnum 0 image
              (record { load_count = 0; min_vaddr = 0; max_vaddr_end = 0 })))
    where
      measured :
          ((k : ℕ)
            → k < (read_ehdr image).e_phnum
            → (phdr_at image k).p_type ≡ pt_load
            → IsLoadable size (phdr_at image k))
          → (o : Option Span)
          → Outcome
              (some image)
              m
              h
              (elim o [ none ↦ (false, zero_loaded, m, h) | some s ↦ claim heap image s m h ])
      measured ok none = inl (refl, refl)
      measured ok (some s) = claim-Outcome image size s m h ok
