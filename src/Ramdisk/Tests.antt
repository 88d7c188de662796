-- ===== src/Ramdisk/Tests.antt =====
-- Tests of kernel/storage/ramdisk.c on an image with the file `./a/` of 13 bytes, and a zero block.
use clks.Base.{
  ℕ, ◌+◌, ◌≤◌, ◌<◌, ◌≡◌, arith, refl, Bool, true, false, Option, none, some, [], ◌∷◌, ◌==◌,
  if◌then◌else◌, leb, Array, ◌⊎◌, if_elim, subst,
}
use clks.Ramdisk.{
  path_max, Entry, EntryType, file, dir, is_zero_from, is_zero_block, field_len, is_blank,
  digits_from, parse_octal, raw_path, skip_head, copy_rest, trim_tail, finish_path, build_path,
  entry_of, next_offset, payload_size, emit, iterate_from, iterate,
}
use clks.Ramdisk.Numbers.{parse_octal-Written}
use clks.Ramdisk.Paths.{IsPath, build_path-IsPath}
use clks.Ramdisk.Walk.{Lies, InImage, iterate-Walks}

abbrev image : Array ℕ
image i =
    if i == 0
    then 46
    else if i == 1
    then 47
    else if i == 2
    then 97
    else if i == 3
    then 47
    else if i == 124
    then 32
    else if i == 125
    then 49
    else if i == 126
    then 53
    else 0

-- The sum of the sizes of the entries
abbrev add_size : Entry → ℕ → Bool × ℕ
add_size e total = (true, total + e.size)

abbrev zeros : Array ℕ
zeros i = 0

reads_13 : parse_octal 12 124 image ≡ some 13
unfolding parse_octal digits_from
reads_13 = refl

walks : iterate add_size (λ _. zeros) image 1536 0 ≡ some (true, 13)
unfolding iterate iterate_from is_zero_block is_zero_from payload_size parse_octal digits_from
    build_path raw_path field_len finish_path skip_head copy_rest trim_tail entry_of emit
    next_offset
walks = refl

parse_octal-Written_example : parse_octal 12 124 image ≡ some 13
parse_octal-Written_example =
    parse_octal-Written 1 12 124 1 (5 ∷ []) image (λ i lt. blank i lt) (omega arith)
      (refl, omega arith, (refl, omega arith, refl)) (omega arith)
  where
    blank : (i : ℕ) → i < 1 → is_blank (image (124 + i)) ≡ true
    blank i lt =
        let first : 0 ≡ i = omega (arith, lt) in
        subst (λ j. is_blank (image (124 + j)) ≡ true) first refl

build_path-IsPath_example :
    (build_path 0 image path_max zeros zeros ≡ some none)
    ⊎ ((p : Array ℕ) × (build_path 0 image path_max zeros zeros ≡ some (some p))
        × IsPath path_max p)
build_path-IsPath_example = build_path-IsPath 0 path_max image zeros zeros (omega arith)

-- A visitor that notes whether the sizes have stayed within the image
abbrev within : Entry → Bool → Bool × Bool
within e ok = (true, if leb e.size 1536 then ok else false)

entry_fits : (e : Entry) → InImage 1536 e → e.size ≤ 1536
entry_fits e = fits e.size e.kind e.start
  where
    fits :
        (size : ℕ) (kind : EntryType) (start : Option ℕ) → Lies 1536 size kind start → size ≤ 1536
    fits size dir start (_, e) = omega (arith, e)
    fits size file start (at, _, le) = omega (arith, le)

iterate-Walks_example :
    (ok : Bool) × (all : Bool) × (iterate within (λ _. zeros) image 1536 true ≡ some (ok, all))
    × (all ≡ true)
iterate-Walks_example =
    iterate-Walks within (λ _. zeros) (λ all. all ≡ true) image 1536 true
      (λ e all in_order kept. keeps e all (entry_fits e in_order.0) kept) (omega arith) refl
  where
    keeps : (e : Entry) (all : Bool) → e.size ≤ 1536 → all ≡ true → (within e all).1 ≡ true
    keeps e all le kept =
        if_elim (λ b. b ≡ true) (leb e.size 1536) (λ _. kept) (λ no. absurd (ground arith))
