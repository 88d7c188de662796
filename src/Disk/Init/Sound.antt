-- ===== src/Disk/Init/Sound.antt =====
-- kernel/storage/disk/public_api.inc: what start-up establishes.
use clks.Base.{
  ℕ, zero, suc, ◌-◌, ◌*◌, ◌/◌, ◌%◌, ◌≤◌, ◌≡◌, arith, refl, Bool, true, false, ◌||◌, not, Option,
  none, some, ltb, ◌==◌, ap, ◌∙◌, if_elim,
}
use clks.Disk.{Disk, Drive, Fat32Layout, sector_size, partition_lba}
use clks.Disk.Cache.{loaded_bitmap_required_bytes, ensure_loaded_range, loaded_test, test_bit}
use clks.Disk.Cache.Loading.{
  IsBacked-with, IsBacked, IsCoherent, Loads, Loads-IsBacked, ensure_loaded_range-Loads,
}
use clks.Disk.Layout.{
  no_layout, is_signed, is_fat32, layout_at, accepts, parse_at, parse_shifted, parse_fat32_layout,
}
use clks.Disk.Layout.Bounds.{IsVolume, parse_fat32_layout-IsVolume}
use clks.Disk.Fat.Entries.{IsSound}
use clks.Disk.Init.{
  min_bytes, cache_max_bytes, alloc_buffer, online, start, set_up, budget, hopeless, init,
}
use clks.Disk.Init.Buffer.{alloc_buffer_lem}

no_bit : (k : ℕ) → test_bit k 0 ≡ false
unfolding test_bit
no_bit zero = refl
no_bit (suc k) = no_bit k

online-IsBacked :
    (bytes : ℕ) (v : Drive)
    → min_bytes ≤ bytes
    → bytes ≤ cache_max_bytes
    → bytes % sector_size ≡ 0
    → IsBacked (online bytes v)
unfolding loaded_bitmap_required_bytes
online-IsBacked bytes v least most whole = record {
  backed = refl;
  buffer = refl;
  allocated = refl;
  room = omega arith;
  len = omega arith;
  some_sectors = omega arith;
  small = omega arith;
}

cleared_lem :
    (d : Disk)
    → IsBacked d
    → IsCoherent d
    → IsBacked (record d { fat32 = no_layout; alloc_hint = 2 })
      × IsCoherent (record d { fat32 = no_layout; alloc_hint = 2 })
unfolding IsCoherent loaded_test
cleared_lem d b c = (IsBacked-with b, c)

online-IsCoherent : (bytes : ℕ) (v : Drive) → IsCoherent (online bytes v)
unfolding IsCoherent loaded_test
online-IsCoherent bytes v j h = let off = no_bit (j / 512 % 8) in absurd (ground arith)

-- A disk whose buffer agrees with the drive, and whose layout says only what the parser accepted.
record Parsed (r : Bool × Disk) : Type 0 where
  backed : IsBacked r.1
  coherent : IsCoherent r.1
  accepted : r.1.fat32.valid ≡ true → r.0 ≡ true

refused : (d : Disk) → IsBacked d → IsCoherent d → d.fat32.valid ≡ false → Parsed (false, d)
refused d b c off = record { backed = b; coherent = c; accepted = λ on. absurd (ground arith) }

with_layout :
    (d : Disk) (l : Fat32Layout) → IsBacked d → IsCoherent d → Parsed (true, record d { fat32 = l })
unfolding IsCoherent loaded_test
with_layout d l b c = record { backed = IsBacked-with b; coherent = c; accepted = λ _. refl }

parse_at-Parsed :
    (at vol : ℕ) (d : Disk)
    → IsBacked d
    → IsCoherent d
    → d.fat32.valid ≡ false
    → Parsed (parse_at at vol d)
unfolding parse_at
parse_at-Parsed at vol d b c off =
    let l = layout_at d.bytes at vol in
    if_elim Parsed (not (is_signed d.bytes at)) (λ _. refused d b c off)
      (λ _.
        if_elim Parsed (accepts d.bytes at d.sector_total l) (λ _. with_layout d l b c)
          (λ _. refused d b c off))

Loads-invalid : (d e : Disk) → Loads d e → d.fat32.valid ≡ false → e.fat32.valid ≡ false
Loads-invalid d e p off = ap (λ (x : Disk). x.fat32.valid) p.frame ∙ off

parse_shifted-Parsed :
    (d : Disk) → IsBacked d → IsCoherent d → d.fat32.valid ≡ false → Parsed (parse_shifted d)
unfolding parse_shifted
parse_shifted-Parsed d b c off =
    let shifted = partition_lba * sector_size in
    let r = ensure_loaded_range shifted sector_size d in
    let p = ensure_loaded_range-Loads shifted sector_size d in
    let b' = Loads-IsBacked p b in
    let c' = p.coherent c in
    let off' = Loads-invalid d r.1 p off in
    if_elim Parsed (ltb d.bytes_len shifted || ltb (d.bytes_len - shifted) sector_size)
      (λ _. refused d b c off)
      (λ _.
        if_elim Parsed r.0 (λ _. parse_at-Parsed shifted partition_lba r.1 b' c' off')
          (λ _. refused r.1 b' c' off'))

parse_fat32_layout-Parsed : (d : Disk) → IsBacked d → IsCoherent d → Parsed (parse_fat32_layout d)
unfolding parse_fat32_layout
parse_fat32_layout-Parsed d b c =
    let cleared : Disk = record d { fat32 = no_layout; alloc_hint = 2 } in
    let r = ensure_loaded_range 0 sector_size cleared in
    let p = ensure_loaded_range-Loads 0 sector_size cleared in
    let (b0, c0) = cleared_lem d b c in
    let b' = Loads-IsBacked p b0 in
    let c' = p.coherent c0 in
    let off' = Loads-invalid cleared r.1 p refl in
    if_elim Parsed (not d.ready || not d.has_bytes || ltb d.bytes_len sector_size)
      (λ _. refused cleared b0 c0 refl)
      (λ _.
        if_elim Parsed (not r.0) (λ _. refused r.1 b' c' off')
          (λ _.
            if_elim Parsed (not (is_signed r.1.bytes 0) || not (is_fat32 r.1.bytes 0))
              (λ _. parse_shifted-Parsed r.1 b' c' off') (λ _. parse_at-Parsed 0 0 r.1 b' c' off')))

-- A disk that is ready is as the other routines expect it.
abbrev Started : Disk → Type 0
Started d =
    d.ready ≡ true
    → IsBacked d × IsCoherent d × (d.fat32.valid ≡ true → IsVolume d.fat32 d.sector_total)

start-Started : (d : Disk) → IsBacked d → IsCoherent d → Started (start d)
unfolding start
start-Started d b c =
    let r = ensure_loaded_range 0 sector_size d in
    let p = ensure_loaded_range-Loads 0 sector_size d in
    let b' = Loads-IsBacked p b in
    let q = parse_fat32_layout-Parsed r.1 b' (p.coherent c) in
    if_elim Started r.0
      (λ _ _. (q.backed, q.coherent, λ on. parse_fat32_layout-IsVolume r.1 b' (q.accepted on)))
      (λ _ on. absurd (ground arith))

set_up-Started :
    (got : Option ℕ) (grants_bitmap : Bool) (v : Drive)
    → ((bytes : ℕ)
        → got ≡ some bytes
        → (min_bytes ≤ bytes) × (bytes ≤ cache_max_bytes) × (bytes % sector_size ≡ 0))
    → Started (set_up got grants_bitmap v)
unfolding set_up
set_up-Started none grants_bitmap v h = λ on. absurd (ground arith)
set_up-Started (some bytes) grants_bitmap v h =
    let (least, most, whole) = h bytes refl in
    if_elim Started (loaded_bitmap_required_bytes (bytes / sector_size) == 0)
      (λ _ on. absurd (ground arith))
      (λ _.
        if_elim Started grants_bitmap
          (λ _.
            start-Started (online bytes v) (online-IsBacked bytes v least most whole)
              (online-IsCoherent bytes v))
          (λ _ on. absurd (ground arith)))

granted_fits :
    (detected heap_free : ℕ) (grants : ℕ → ℕ → Bool) (got : ℕ)
    → alloc_buffer (suc (budget detected heap_free)) 0 grants (budget detected heap_free) ≡ some got
    → (min_bytes ≤ got) × (got ≤ cache_max_bytes) × (got % sector_size ≡ 0)
granted_fits detected heap_free grants got h =
    let bytes = budget detected heap_free in
    let (a, b, c) = alloc_buffer_lem (suc bytes) 0 grants bytes got (omega arith) h in
    (a, omega arith, c)

init-Started :
    (probe : Option ℕ) (heap_free : ℕ) (grants : ℕ → ℕ → Bool) (grants_bitmap : Bool) (v : Drive)
    → Started (init probe heap_free grants grants_bitmap v)
unfolding init
init-Started none heap_free grants grants_bitmap v = λ on. absurd (ground arith)
init-Started (some detected) heap_free grants grants_bitmap v =
    if_elim Started (hopeless detected heap_free) (λ _ on. absurd (ground arith))
      (λ _.
        set_up-Started
          (alloc_buffer (suc (budget detected heap_free)) 0 grants (budget detected heap_free))
          grants_bitmap v (granted_fits detected heap_free grants))

-- After start-up, whatever the probe found, the heap granted and the drive answered: a disk that says
-- it is ready and has a volume is sound. Its buffer agrees with the drive on the loaded sectors, its
-- bitmap has a bit for each sector, and the volume lies within it.
pub init-IsSound :
    (probe : Option ℕ) (heap_free : ℕ) (grants : ℕ → ℕ → Bool) (grants_bitmap : Bool) (v : Drive)
    → (init probe heap_free grants grants_bitmap v).ready ≡ true
    → (init probe heap_free grants grants_bitmap v).fat32.valid ≡ true
    → IsSound (init probe heap_free grants grants_bitmap v)
init-IsSound probe heap_free grants grants_bitmap v on valid =
    let (b, c, volume) = init-Started probe heap_free grants grants_bitmap v on in
    record { backed = b; coherent = c; sized = record { volume = volume valid; small = b.small } }
