-- ===== src/Elf/Loader.antt =====
-- kernel/runtime/elf64.c: loading an image into a block of memory and taking it out again.
use clks.Base.{
  ℕ, zero, suc, ◌+◌, ◌-◌, ◌/◌, ◌%◌, ◌^◌, Bool, true, false, ◌&&◌, ◌||◌, not, Option, none, some,
  ltb, leb, ◌==◌, if◌then◌else◌, add64, sub64, Array, update,
}
use clks.Base.Allocator.{Allocator}
use clks.Strings.{memset}
use clks.Elf.{read_le, write_le}
use clks.Elf.Image.{Phdr, read_ehdr, phdr_at, validate, pt_load, et_exec}

-- CLKS_ELF64_MAX_SEGMENTS
abbrev pub max_segments : ℕ
max_segments = 16

-- `struct clks_elf64_loaded_segment`
pub record Segment : Type 0 where
  pub base : ℕ
  pub vaddr : ℕ
  pub memsz : ℕ
  pub filesz : ℕ
  pub flags : ℕ

-- `struct clks_elf64_loaded_image`
pub record Loaded : Type 0 where
  pub entry : ℕ
  pub image_base : Option ℕ
  pub image_size : ℕ
  pub image_vaddr_base : ℕ
  pub segment_count : ℕ
  pub segments : Array Segment

-- A loaded image after `clks_memset(..., 0, ...)`.
abbrev pub zero_loaded : Loaded
zero_loaded = record {
  entry = 0;
  image_base = none;
  image_size = 0;
  image_vaddr_base = 0;
  segment_count = 0;
  segments = λ _. record { base = 0; vaddr = 0; memsz = 0; filesz = 0; flags = 0 };
}

-- A program header that the loader passes over.
unfoldable pub skipped : Phdr → Bool
skipped ph = not (ph.p_type == pt_load) || ph.p_memsz == 0

-- The local variables of the first loop of `clks_elf64_load`.
pub record Span : Type 0 where
  pub load_count : ℕ
  pub min_vaddr : ℕ
  pub max_vaddr_end : ℕ

-- One round of it for a header that is not passed over, once `seg_end` has not wrapped.
unfoldable pub widened : Phdr → Span → Span
widened ph s =
    let seg_end = add64 ph.p_vaddr ph.p_memsz in
    record {
      load_count = (s.load_count + 1) % 2 ^ 16;
      min_vaddr =
          if s.load_count == 0 || ltb ph.p_vaddr s.min_vaddr then ph.p_vaddr else s.min_vaddr;
      max_vaddr_end =
          if s.load_count == 0 || ltb s.max_vaddr_end seg_end then seg_end else s.max_vaddr_end;
    }

-- The first loop with `rounds` headers left; `none` where the C function returns false.
unfoldable pub measure_from : ℕ → ℕ → Array ℕ → Span → Option Span
measure_from zero i image s = some s
measure_from (suc rounds) i image s =
    let ph = phdr_at image i in
    if skipped ph
    then measure_from rounds (i + 1) image s
    else if ltb (add64 ph.p_vaddr ph.p_memsz) ph.p_vaddr
    then none
    else measure_from rounds (i + 1) image (widened ph s)

-- `clks_memcpy` from the image to memory with `rounds` bytes left.
unfoldable pub copy_image : ℕ → ℕ → ℕ → Array ℕ → Array ℕ → Array ℕ
copy_image zero dst src image m = m
copy_image (suc rounds) dst src image m =
    copy_image rounds (dst + 1) (src + 1) image (update m dst (image src))

-- The end of a round of the second loop: a segment is entered.
unfoldable pub place : ℕ → ℕ → Phdr → Loaded → Loaded
place base seg_off ph loaded = record loaded {
  segments = update loaded.segments loaded.segment_count (record {
    base = base + seg_off;
    vaddr = ph.p_vaddr;
    memsz = ph.p_memsz;
    filesz = ph.p_filesz;
    flags = ph.p_flags;
  });
  segment_count = loaded.segment_count + 1;
}

-- The second loop of `clks_elf64_load`; the result is false where it unloads and gives up.
unfoldable pub place_from : ℕ → ℕ → Array ℕ → ℕ → ℕ → ℕ → Loaded → Array ℕ → Bool × Loaded × Array ℕ
place_from zero i image base span min_vaddr loaded m = (true, loaded, m)
place_from (suc rounds) i image base span min_vaddr loaded m =
    let ph = phdr_at image i in
    let seg_off = sub64 ph.p_vaddr min_vaddr in
    let m' = copy_image ph.p_filesz (base + seg_off) ph.p_offset image m in
    if skipped ph
    then place_from rounds (i + 1) image base span min_vaddr loaded m
    else if leb max_segments loaded.segment_count
    then (false, loaded, m)
    else if ltb span seg_off || ltb (span - seg_off) ph.p_memsz
    then (false, loaded, m)
    else place_from rounds (i + 1) image base span min_vaddr (place base seg_off ph loaded) m'

-- The inner loop of `clks_elf64_rebase_exec_pointers` with `words` words left from `at` on.
unfoldable pub rebase_words : ℕ → ℕ → ℕ → ℕ → ℕ → Array ℕ → Array ℕ
rebase_words zero at old_base old_end delta m = m
rebase_words (suc words) at old_base old_end delta m =
    let value = read_le 8 m at in
    let m' : Array ℕ =
      if leb old_base value && ltb value old_end then write_le 8 (add64 value delta) at m else m in
    rebase_words words (at + 8) old_base old_end delta m'

-- The outer loop over the first segments; bit 0 of the flags is CLKS_ELF64_PF_X.
unfoldable pub rebase_from : ℕ → ℕ → Array Segment → ℕ → ℕ → ℕ → Array ℕ → Array ℕ
rebase_from zero i segments old_base old_end delta m = m
rebase_from (suc rounds) i segments old_base old_end delta m =
    let seg = segments i in
    let m' = rebase_words (seg.filesz / 8) seg.base old_base old_end delta m in
    rebase_from rounds (i + 1) segments old_base old_end delta
      (if not (seg.flags % 2 == 0) then m else if ltb seg.filesz 8 then m else m')

unfoldable pub rebase_exec_pointers : Loaded → ℕ → ℕ → ℕ → Array ℕ → Array ℕ
rebase_exec_pointers loaded old_base old_end delta m =
    if delta == 0 || leb old_end old_base
    then m
    else rebase_from loaded.segment_count 0 loaded.segments old_base old_end delta m

module _ (heap : Allocator) where
  open heap use {Store, alloc, free}

  unfoldable pub unload : Loaded → Store → Loaded × Store
  unload loaded h = (zero_loaded, elim loaded.image_base [ none ↦ h | some p ↦ free (some p) h ])

  -- `clks_elf64_load` from the allocated block on.
  unfoldable pub fill : Array ℕ → ℕ → Span → Array ℕ → Store → Bool × Loaded × Array ℕ × Store
  fill image base s m h =
      let eh = read_ehdr image in
      let span = sub64 s.max_vaddr_end s.min_vaddr in
      let start : Loaded = record zero_loaded {
        entry = eh.e_entry;
        image_base = some base;
        image_size = span;
        image_vaddr_base = s.min_vaddr;
      } in
      let (placed, loaded, m₁) =
        place_from eh.e_phnum 0 image base span s.min_vaddr start (memset base 0 span m) in
      let (gone, h₁) = unload loaded h in
      let m₂ =
        rebase_exec_pointers loaded s.min_vaddr s.max_vaddr_end (sub64 base s.min_vaddr) m₁ in
      if not placed
      then (false, gone, m₁, h₁)
      else if eh.e_type == et_exec && not (base == s.min_vaddr)
      then (true, loaded, m₂, h)
      else (true, loaded, m₁, h)

  -- The block once the span of the segments is known.
  unfoldable pub claim : Array ℕ → Span → Array ℕ → Store → Bool × Loaded × Array ℕ × Store
  claim image s m h =
      let span = sub64 s.max_vaddr_end s.min_vaddr in
      let (block, h₁) = alloc span h in
      if s.load_count == 0
      then (false, zero_loaded, m, h)
      else if ltb max_segments s.load_count
      then (false, zero_loaded, m, h)
      else if span == 0
      then (false, zero_loaded, m, h)
      else elim block [ none ↦ (false, zero_loaded, m, h₁) | some base ↦ fill image base s m h₁ ]

  unfoldable pub load : Option (Array ℕ) → ℕ → Array ℕ → Store → Bool × Loaded × Array ℕ × Store
  load none size m h = (false, zero_loaded, m, h)
  load (some image) size m h =
      let start : Span = record { load_count = 0; min_vaddr = 0; max_vaddr_end = 0 } in
      if not (validate (some image) size)
      then (false, zero_loaded, m, h)
      else elim (measure_from (read_ehdr image).e_phnum 0 image start) [
        | none ↦ (false, zero_loaded, m, h)
        | some s ↦ claim image s m h
      ]

-- A null `loaded` is `none`; the pointer is null where the result is.
unfoldable pub entry_pointer : Option Loaded → ℕ → Option ℕ
entry_pointer none entry = none
entry_pointer (some loaded) entry = elim loaded.image_base [
  | none ↦ none
  | some base ↦
      let off = entry - loaded.image_vaddr_base in
      if ltb entry loaded.image_vaddr_base
      then none
      else if leb loaded.image_size off
      then none
      else some (base + off)
]
