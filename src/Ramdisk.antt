-- ===== src/Ramdisk.antt =====
-- kernel/storage/ramdisk.c: the walk over the tar image that the boot loader hands over. The image is an
-- array of bytes, numbers below 256. The loops that look for a byte run over as many bytes as the field
-- has; the walk and the skipping of a path's head run on fuel, and `none` says that it has run out.
pub mod Numbers
pub mod Paths
pub mod Walk
mod Tests
use clks.Base.{
  ℕ, zero, suc, ◌+◌, ◌-◌, ◌*◌, ◌/◌, ◌%◌, ◌^◌, Bool, true, false, ◌&&◌, ◌||◌, not, Option, none,
  some, ltb, leb, ◌==◌, if◌then◌else◌, Array, update, add64,
}

-- CLKS_TAR_BLOCK_SIZE and CLKS_RAMDISK_PATH_MAX
abbrev pub block_size : ℕ
block_size = 512

abbrev pub path_max : ℕ
path_max = 192

-- The offsets of the fields of `struct clks_tar_header` and their lengths
abbrev pub name_at : ℕ
name_at = 0

abbrev pub name_len : ℕ
name_len = 100

abbrev pub size_at : ℕ
size_at = 124

abbrev pub size_len : ℕ
size_len = 12

abbrev pub typeflag_at : ℕ
typeflag_at = 156

abbrev pub prefix_at : ℕ
prefix_at = 345

abbrev pub prefix_len : ℕ
prefix_len = 155

-- `struct clks_ramdisk_entry`; the data of a file is the offset of its first byte in the image.
pub data EntryType : Type 0 where
  file : EntryType
  dir : EntryType

pub record Entry : Type 0 where
  pub kind : EntryType
  pub path : Array ℕ
  pub start : Option ℕ
  pub size : ℕ

unfoldable pub is_zero_from : ℕ → ℕ → Array ℕ → Bool
is_zero_from zero i block = true
is_zero_from (suc rounds) i block =
    let rest = is_zero_from rounds (i + 1) block in if block i == 0 then rest else false

-- The block at `at`
unfoldable pub is_zero_block : ℕ → Array ℕ → Bool
unfolding is_zero_from
is_zero_block at image = is_zero_from block_size at image

-- The field at `at` of `max_len` bytes.
unfoldable pub field_len : ℕ → ℕ → Array ℕ → ℕ
field_len zero at image = 0
field_len (suc max_len) at image =
    let rest = field_len max_len (at + 1) image in if image at == 0 then 0 else suc rest

-- A blank in a number: a space or 0.
abbrev pub is_blank : ℕ → Bool
is_blank ch = ch == 32 || ch == 0

-- The second loop of `clks_ramdisk_parse_octal_u64`, with `rounds` bytes left from `at` on.
unfoldable pub digits_from : ℕ → ℕ → Array ℕ → ℕ → Option ℕ
digits_from zero at field value = some value
digits_from (suc rounds) at field value =
    let ch = field at in
    let rest = digits_from rounds (at + 1) field (add64 (value * 8 % 2 ^ 64) (ch - 48)) in
    if is_blank ch
    then some value
    else if ltb ch 48 || ltb 55 ch
    then none
    else if ltb ((2 ^ 64 - 1) / 8) value
    then none
    else rest

-- The field at `at` of `len` bytes: blanks are skipped first.
unfoldable pub parse_octal : ℕ → ℕ → Array ℕ → Option ℕ
parse_octal zero at field = some 0
parse_octal (suc len) at field =
    let rest = parse_octal len (at + 1) field in
    if is_blank (field at) then rest else digits_from (suc len) at field 0

-- `clks_memcpy` from the image into the buffer for the path
abbrev pub paste : ℕ → ℕ → ℕ → Array ℕ → Array ℕ → Array ℕ
paste to from count image raw j =
    if leb to j && ltb j (to + count) then image (from + (j - to)) else raw j

-- The raw path: the prefix with a slash behind it, if there is one, and the name. `raw` is what the
-- buffer holds before; `none` is a name that is empty or too long.
unfoldable pub raw_path : ℕ → Array ℕ → Array ℕ → Option (Array ℕ)
raw_path hdr image raw =
    let prefix = field_len prefix_len (hdr + prefix_at) image in
    let name = field_len name_len (hdr + name_at) image in
    let with_prefix = update (paste 0 (hdr + prefix_at) prefix image (update raw 0 0)) prefix 47 in
    let cursor = if prefix == 0 then 0 else prefix + 1 in
    let start = if prefix == 0 then update raw 0 0 else with_prefix in
    if name == 0
    then none
    else if not (prefix == 0) && leb path_max (prefix + 1)
    then none
    else if leb path_max (cursor + name)
    then none
    else some (update (paste cursor (hdr + name_at) name image start) (cursor + name) 0)

-- The loop that skips `/` and `./` at the head, on fuel.
unfoldable pub skip_head : ℕ → ℕ → Array ℕ → Option ℕ
skip_head zero read_pos raw = none
skip_head (suc fuel) read_pos raw =
    let two = skip_head fuel (read_pos + 2) raw in
    let one = skip_head fuel (read_pos + 1) raw in
    if (raw read_pos == 46) && (raw (read_pos + 1) == 47)
    then two
    else if raw read_pos == 47
    then one
    else some read_pos

-- The loop that copies the rest, with `rounds` bytes left in the target before its last; the answer is
-- where it ends, and whether the text ended.
unfoldable pub copy_rest : ℕ → ℕ → ℕ → Array ℕ → Array ℕ → Bool × ℕ × Array ℕ
copy_rest zero read_pos out_cursor raw out = (raw read_pos == 0, out_cursor, out)
copy_rest (suc rounds) read_pos out_cursor raw out =
    let rest =
      copy_rest rounds (read_pos + 1) (out_cursor + 1) raw (update out out_cursor (raw read_pos)) in
    if raw read_pos == 0 then (true, out_cursor, out) else rest

-- The loop that takes slashes off the end.
unfoldable pub trim_tail : ℕ → Array ℕ → ℕ
trim_tail zero out = 0
trim_tail (suc n) out = let rest = trim_tail n out in if out n == 47 then rest else suc n

-- The part of `clks_ramdisk_build_path` behind the raw path; `out_path_size` is not 0.
unfoldable pub finish_path : ℕ → Array ℕ → Array ℕ → Option (Option (Array ℕ))
finish_path out_path_size raw out = elim (skip_head (path_max + 1) 0 raw) [
  | none ↦ none
  | some read_pos ↦
      let (ended, cursor, copied) = copy_rest (out_path_size - 1) read_pos 0 raw (update out 0 0) in
      let length = trim_tail cursor copied in
      if not ended
      then some none
      else if length == 0
      then some none
      else some (some (update copied length 0))
]

-- The path of the header at `hdr`, into a buffer that holds `out`; the inner `none` is the refusal.
unfoldable pub build_path : ℕ → Array ℕ → ℕ → Array ℕ → Array ℕ → Option (Option (Array ℕ))
build_path hdr image out_path_size raw out = elim (raw_path hdr image raw) [
  | none ↦ some none
  | some raw' ↦ finish_path out_path_size raw' out
]

-- The entry that a header stands for, if any: the path is in order and the type is one of three.
unfoldable pub entry_of : ℕ → Array ℕ → ℕ → Option (Array ℕ) → Option Entry
entry_of hdr image file_size none = none
entry_of hdr image file_size (some path) =
    let flag = image (hdr + typeflag_at) in
    if flag == 53
    then some (record { kind = dir; path = path; start = none; size = 0 })
    else if flag == 0 || flag == 48
    then some
        (record { kind = file; path = path; start = some (hdr + block_size); size = file_size })
    else none

-- The offset behind the data of a file, filled up to whole blocks; `none` is an overflow.
unfoldable pub next_offset : ℕ → ℕ → Option ℕ
next_offset payload file_size =
    let aligned = add64 file_size 511 / block_size * block_size in
    if ltb (add64 payload aligned) payload then none else some (add64 payload aligned)

-- What the header at `offset` says: the size of its file, or that the image is refused.
unfoldable pub payload_size : ℕ → ℕ → Array ℕ → Option ℕ
payload_size offset image_size image =
    let payload = add64 offset block_size in
    elim (parse_octal size_len (offset + size_at) image) [
      | none ↦ none
      | some file_size ↦
          if ltb image_size payload || ltb (image_size - payload) file_size
          then none
          else some file_size
    ]

-- `visit` is the function that is called for each entry, with its context; `raw` is what the buffer for
-- the raw path holds at each header.
module _ {S : Type 0} (visit : Entry → S → Bool × S) (raw : ℕ → Array ℕ) where
  unfoldable pub emit : Option Entry → S → Bool × S
  emit none s = (true, s)
  emit (some entry) s = visit entry s

  -- The walk from `offset` on, on fuel.
  unfoldable pub iterate_from : ℕ → ℕ → ℕ → Array ℕ → S → Option (Bool × S)
  iterate_from zero offset image_size image s = none
  iterate_from (suc fuel) offset image_size image s =
      if ltb image_size (add64 offset block_size) || is_zero_block offset image
      then some (true, s)
      else elim (payload_size offset image_size image) [
        | none ↦ some (false, s)
        | some file_size ↦ elim (build_path offset image path_max (raw offset) (λ _. 0)) [
          | none ↦ none
          | some path ↦
              let (ok, s') = emit (entry_of offset image file_size path) s in
              if not ok
              then some (false, s')
              else elim (next_offset (add64 offset block_size) file_size) [
                | none ↦ some (false, s')
                | some next ↦ iterate_from fuel next image_size image s'
              ]
        ]
      ]

  unfoldable pub iterate : Array ℕ → ℕ → S → Option (Bool × S)
  iterate image image_size s = iterate_from (image_size / block_size + 1) 0 image_size image s
