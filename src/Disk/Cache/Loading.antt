-- ===== src/Disk/Cache/Loading.antt =====
-- Loading on demand in kernel/storage/disk/cache_io.inc: what it keeps.
use clks.Base.{
  ℕ, zero, suc, ◌+◌, ◌-◌, ◌*◌, ◌/◌, ◌^◌, ◌≤◌, ◌<◌, ◌≡◌, arith, refl, Bool, true, ◌||◌, ◌&&◌, not,
  ◌⊎◌, leb, ltb, ◌==◌, ap, ◌∙◌, sym, inl, inr, if_elim, dec_lt, min, subst, Array,
}
use clks.Disk.{Disk, Drive, Fat32Layout, Drive, sector_size, batch_sectors}
use clks.Disk.Cache.Batches.{filled, load_batch_cases}
use clks.Disk.Cache.{
  loaded_test, loaded_mark_range, batch_from, load_batch, load_from, ensure_loaded_range,
  end_sector, bytes_range_valid,
}
use clks.Disk.Cache.Marks.{HasBit, loaded-HasBit, loaded_mark_outside, loaded_mark_inside}

-- What the buffer holds of a loaded sector is what the drive holds.
unfoldable pub IsCoherent : Disk → Type 0
IsCoherent d = (j : ℕ) → loaded_test (j / sector_size) d ≡ true → d.bytes j ≡ d.drive.media j

-- What `clks_disk_init` sets up: the buffer is a copy of the drive's first sectors, and the bitmap has a
-- bit for each of them.
pub record IsBacked (d : Disk) : Type 0 where
  pub backed : d.hw_backed ≡ true
  pub buffer : d.has_bytes ≡ true
  pub allocated : d.has_bitmap ≡ true
  pub room : d.sector_total ≤ d.bitmap_bytes * 8
  pub len : d.bytes_len ≡ d.sector_total * sector_size
  pub some_sectors : 0 < d.sector_total
  pub small : d.sector_total ≤ 2 ^ 28

-- What a load may change, from another state
abbrev onto : Disk → Disk → Disk
onto f x = record x { bytes = f.bytes; bitmap = f.bitmap; drive = f.drive }

-- The step from one state to another only loads sectors.
pub record Loads (d d' : Disk) : Type 0 where
  pub frame : d' ≡ onto d' d
  pub content : d'.drive.media ≡ d.drive.media
  pub outcomes : d'.drive.stops ≡ d.drive.stops
  pub flushes : d'.drive.flushes ≡ d.drive.flushes
  pub grows : (l : ℕ) → loaded_test l d ≡ true → loaded_test l d' ≡ true
  pub coherent : IsCoherent d → IsCoherent d'

pub Loads-refl : (d : Disk) → Loads d d
Loads-refl d = record {
  frame = refl;
  content = refl;
  outcomes = refl;
  flushes = refl;
  grows = λ l h. h;
  coherent = λ h. h;
}

pub Loads-trans : {d e f : Disk} → Loads d e → Loads e f → Loads d f
Loads-trans {d} {e} {f} p q = record {
  frame = q.frame ∙ ap (onto f) p.frame;
  content = q.content ∙ p.content;
  outcomes = q.outcomes ∙ p.outcomes;
  flushes = q.flushes ∙ p.flushes;
  grows = λ l h. q.grows l (p.grows l h);
  coherent = λ h. q.coherent (p.coherent h);
}

pub HasBit-below : (d : Disk) → IsBacked d → (l : ℕ) → l < d.sector_total → HasBit d l
HasBit-below d b l h = let e = b.room in record { allocated = b.allocated; room = omega arith }

-- The sizes, the flags and the bitmap's place are all that counts for it.
pub IsBacked-with :
    {d : Disk} {b m : Array ℕ} {l : Fat32Layout} {h : ℕ} {v : Drive}
    → IsBacked d
    → IsBacked (record d { bytes = b; bitmap = m; fat32 = l; alloc_hint = h; drive = v })
IsBacked-with b = record {
  backed = b.backed;
  buffer = b.buffer;
  allocated = b.allocated;
  room = b.room;
  len = b.len;
  some_sectors = b.some_sectors;
  small = b.small;
}

pub Loads-IsBacked : {d e : Disk} → Loads d e → IsBacked d → IsBacked e
Loads-IsBacked {d} {e} p b = subst IsBacked (sym p.frame) (IsBacked-with b)

pub Loads-HasBit : {d e : Disk} → Loads d e → (l : ℕ) → HasBit d l → HasBit e l
Loads-HasBit {d} {e} p l h =
    subst (λ x. HasBit x l) (sym p.frame) (record { allocated = h.allocated; room = h.room })

filled_at :
    (lba n : ℕ) (d : Disk) (j : ℕ)
    → lba * sector_size ≤ j
    → j < lba * sector_size + n * sector_size
    → (filled lba n d).bytes j ≡ d.drive.media j
filled_at lba n d j l h =
    if_elim (λ x. x ≡ d.drive.media j)
      (leb (lba * sector_size) j && ltb j (lba * sector_size + n * sector_size))
      (λ inside. ap d.drive.media (omega arith)) (λ outside. absurd (ground arith))

filled-Loads : (lba n : ℕ) (d : Disk) → Loads d (filled lba n d)
unfolding IsCoherent loaded_test
filled-Loads lba n d = record {
  frame = refl;
  content = refl;
  outcomes = refl;
  flushes = refl;
  grows = λ l h. h;
  coherent = λ same j h.
      if_elim (λ x. x ≡ d.drive.media j)
        (leb (lba * sector_size) j && ltb j (lba * sector_size + n * sector_size))
        (λ inside. ap d.drive.media (ground arith)) (λ outside. same j h);
}

-- A sector that is marked was marked before or is one of the new ones.
pub loaded_mark_new :
    (start n : ℕ) (d : Disk) (l : ℕ)
    → loaded_test l (loaded_mark_range start n d) ≡ true
    → (loaded_test l d ≡ true) ⊎ ((start ≤ l) × (l < start + n))
loaded_mark_new start n d l h = elim (dec_lt l start) [
  | yes below ↦ inl (sym (loaded_mark_outside start n d l (inl below)) ∙ h)
  | no above ↦ elim (dec_lt l (start + n)) [
    | yes inside ↦ inr (omega arith, inside)
    | no past ↦ inl (sym (loaded_mark_outside start n d l (inr (omega arith))) ∙ h)
  ]
]

pub loaded_mark_grows :
    (start n : ℕ) (d : Disk) (l : ℕ)
    → loaded_test l d ≡ true
    → loaded_test l (loaded_mark_range start n d) ≡ true
unfolding loaded_test
loaded_mark_grows start n d l h = elim (dec_lt l start) [
  | yes below ↦ loaded_mark_outside start n d l (inl below) ∙ h
  | no above ↦ elim (dec_lt l (start + n)) [
    | yes inside ↦ loaded_mark_inside start n d l (omega arith) inside (loaded-HasBit d l h)
    | no past ↦ loaded_mark_outside start n d l (inr (omega arith)) ∙ h
  ]
]

mark-Loads : (lba n : ℕ) (d : Disk) → Loads d (loaded_mark_range lba n (filled lba n d))
unfolding loaded_mark_range IsCoherent
mark-Loads lba n d = record {
  frame = refl;
  content = refl;
  outcomes = refl;
  flushes = refl;
  grows = λ l h. loaded_mark_grows lba n (filled lba n d) l ((filled-Loads lba n d).grows l h);
  coherent = λ same j h. elim (loaded_mark_new lba n (filled lba n d) (j / sector_size) h) [
    | inl before ↦ (filled-Loads lba n d).coherent same j before
    | inr (l, r) ↦ filled_at lba n d j (omega arith) (omega arith)
  ];
}

pub load_batch-Loads : (lba n : ℕ) (d : Disk) → Loads d (load_batch lba n d).1
load_batch-Loads lba n d =
    load_batch_cases lba n d (λ r. Loads d r.1) (λ _. Loads-refl d) (λ _. mark-Loads lba n d)
      (λ k _. filled-Loads lba (min k n) d)

-- The state that an operation leaves is reached by loading.
abbrev pub Kept : Disk → Bool × Disk → Type 0
Kept d r = Loads d r.1

pub load_from-Loads : (fuel lba end_lba : ℕ) (d : Disk) → Kept d (load_from fuel lba end_lba d)
unfolding load_from
load_from-Loads zero lba end_lba d = Loads-refl d
load_from-Loads (suc fuel) lba end_lba d =
    let count = batch_from (min batch_sectors (end_lba - lba)) lba d in
    let batch = load_batch lba count d in
    let first = load_batch-Loads lba count d in
    if_elim (Kept d) (leb end_lba lba) (λ _. Loads-refl d)
      (λ _.
        if_elim (Kept d) (loaded_test lba d) (λ _. load_from-Loads fuel (lba + 1) end_lba d)
          (λ _.
            if_elim (Kept d) batch.0
              (λ _. Loads-trans first (load_from-Loads fuel (lba + count) end_lba batch.1))
              (λ _. first)))

-- Making a range of bytes present only loads sectors: what the drive holds and what the layout, the
-- sizes and the hint are stays, no sector is forgotten, and a buffer that agreed with the drive on
-- the loaded sectors still does, even if a command fails half way.
pub ensure_loaded_range-Loads :
    (offset size : ℕ) (d : Disk) → Loads d (ensure_loaded_range offset size d).1
unfolding ensure_loaded_range
ensure_loaded_range-Loads offset size d =
    let start = offset / sector_size in
    let end = end_sector offset size in
    if_elim (Kept d) (size == 0) (λ _. Loads-refl d)
      (λ _.
        if_elim (Kept d) (not (bytes_range_valid offset size d)) (λ _. Loads-refl d)
          (λ _.
            if_elim (Kept d) (not d.hw_backed) (λ _. Loads-refl d)
              (λ _.
                if_elim (Kept d) (not d.has_bitmap || d.bitmap_bytes == 0) (λ _. Loads-refl d)
                  (λ _. load_from-Loads (end - start) start end d))))
