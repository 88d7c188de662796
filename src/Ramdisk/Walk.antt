-- ===== src/Ramdisk/Walk.antt =====
-- kernel/storage/ramdisk.c: the walk stays within the image and comes to its end.
use clks.Base.{
  ℕ, zero, suc, ◌+◌, ◌-◌, ◌*◌, ◌/◌, ◌^◌, ◌≤◌, ◌<◌, ◌≡◌, arith, refl, Bool, true, false, ◌||◌, not,
  Option, none, some, ltb, ◌==◌, if◌then◌else◌, Array, add64, if_elim, sym, subst,
}
use clks.Ramdisk.Paths.{IsPath, build_path-Builds}
use clks.Ramdisk.{
  block_size, path_max, size_at, size_len, typeflag_at, Entry, EntryType, file, dir, is_zero_block,
  parse_octal, build_path, entry_of, next_offset, payload_size, emit, iterate_from, iterate,
}

-- The data of an entry lies within an image of `image_size` bytes: that of a directory is nothing.
abbrev pub Lies : ℕ → ℕ → EntryType → Option ℕ → Type 0
Lies image_size size dir start = (start ≡ none) × (size ≡ 0)
Lies image_size size file start = (at : ℕ) × (start ≡ some at) × (at + size ≤ image_size)

abbrev pub InImage : ℕ → Entry → Type 0
InImage image_size e = Lies image_size e.size e.kind e.start

-- A header that is not refused has its data within the image.
header_size_lem :
    (offset image_size n : ℕ) (image : Array ℕ)
    → offset + 512 < 2 ^ 64
    → payload_size offset image_size image ≡ some n
    → offset + block_size + n ≤ image_size
unfolding payload_size
header_size_lem offset image_size n image small =
    cases (parse_octal size_len (offset + size_at) image)
  where
    after : Option ℕ → Option ℕ
    after o = elim o [
      | none ↦ none
      | some file_size ↦
          if ltb image_size (add64 offset block_size)
            || ltb (image_size - add64 offset block_size) file_size
          then none
          else some file_size
    ]

    cases : (o : Option ℕ) → after o ≡ some n → offset + block_size + n ≤ image_size
    cases none = λ h. absurd (cc h)
    cases (some file_size) =
        if_elim (λ (r : Option ℕ). r ≡ some n → offset + block_size + n ≤ image_size)
          (ltb image_size (add64 offset block_size)
            || ltb (image_size - add64 offset block_size) file_size)
          (λ _ h. absurd (cc h)) (λ ok h. let same : file_size ≡ n = cc h in ground arith)

entry_of_lem :
    (hdr file_size image_size : ℕ) (image : Array ℕ) (path : Option (Array ℕ)) (e : Entry)
    → hdr + block_size + file_size ≤ image_size
    → entry_of hdr image file_size path ≡ some e
    → InImage image_size e
unfolding entry_of
entry_of_lem hdr file_size image_size image none e room = λ h. absurd (cc h)
entry_of_lem hdr file_size image_size image (some path) e room =
    if_elim Good (image (hdr + typeflag_at) == 53)
      (λ _ h. subst (λ (o : Option Entry). Good' o) h (refl, refl))
      (λ _.
        if_elim Good (image (hdr + typeflag_at) == 0 || image (hdr + typeflag_at) == 48)
          (λ _ h. subst (λ (o : Option Entry). Good' o) h (hdr + block_size, refl, room))
          (λ _ h. absurd (cc h)))
  where
    Good : Option Entry → Type 0
    Good o = o ≡ some e → InImage image_size e

    Good' : Option Entry → Type 0
    Good' none = Bool
    Good' (some x) = InImage image_size x

-- The entry that is emitted has a path in order.
abbrev pub IsEntry : ℕ → Entry → Type 0
IsEntry image_size e = InImage image_size e × IsPath path_max e.path

entry_of-IsPath :
    (hdr file_size : ℕ) (image : Array ℕ) (path : Option (Array ℕ)) (e : Entry)
    → ((p : Array ℕ) → path ≡ some p → IsPath path_max p)
    → entry_of hdr image file_size path ≡ some e
    → IsPath path_max e.path
unfolding entry_of
entry_of-IsPath hdr file_size image none e good = λ h. absurd (cc h)
entry_of-IsPath hdr file_size image (some path) e good =
    if_elim Good (image (hdr + typeflag_at) == 53)
      (λ _ h. subst (λ (o : Option Entry). Good' o) h (good path refl))
      (λ _.
        if_elim Good (image (hdr + typeflag_at) == 0 || image (hdr + typeflag_at) == 48)
          (λ _ h. subst (λ (o : Option Entry). Good' o) h (good path refl)) (λ _ h. absurd (cc h)))
  where
    Good : Option Entry → Type 0
    Good o = o ≡ some e → IsPath path_max e.path

    Good' : Option Entry → Type 0
    Good' none = Bool
    Good' (some x) = IsPath path_max x.path

-- Every step goes on by a block at least, and no further than a block behind the image.
next_offset_lem :
    (offset n image_size next : ℕ)
    → image_size < 2 ^ 63
    → offset + block_size + n ≤ image_size
    → next_offset (add64 offset block_size) n ≡ some next
    → (offset + block_size ≤ next) × (next < image_size + block_size)
unfolding next_offset
next_offset_lem offset n image_size next small room =
    if_elim
      (λ (o : Option ℕ).
        o ≡ some next → (offset + block_size ≤ next) × (next < image_size + block_size))
      (ltb (add64 (add64 offset block_size) (add64 n 511 / block_size * block_size))
        (add64 offset block_size))
      (λ _ h. absurd (cc h))
      (λ _ h.
        let same : add64 (add64 offset block_size) (add64 n 511 / block_size * block_size) ≡ next =
          cc h in
        (omega arith, omega arith))

module _ {S : Type 0} (visit : Entry → S → Bool × S) (raw : ℕ → Array ℕ) where
  -- The walk comes to its end and keeps what every call for an entry in order keeps.
  abbrev pub Walks : (S → Type 0) → Option (Bool × S) → Type 0
  Walks P r = (ok : Bool) × (s : S) × (r ≡ some (ok, s)) × P s

  emit-keeps :
      (P : S → Type 0) (image_size : ℕ) (o : Option Entry) (s : S)
      → ((e : Entry) (x : S) → IsEntry image_size e → P x → P (visit e x).1)
      → ((e : Entry) → o ≡ some e → IsEntry image_size e)
      → P s
      → P (emit visit raw o s).1
  unfolding emit
  emit-keeps P image_size none s keeps good p = p
  emit-keeps P image_size (some e) s keeps good p = keeps e s (good e refl) p

  iterate_from-Walks :
      (P : S → Type 0) (fuel offset image_size : ℕ) (image : Array ℕ) (s : S)
      → ((e : Entry) (x : S) → IsEntry image_size e → P x → P (visit e x).1)
      → image_size < 2 ^ 63
      → offset < image_size + block_size
      → 0 < fuel
      → image_size < offset + fuel * block_size
      → P s
      → Walks P (iterate_from visit raw fuel offset image_size image s)
  unfolding iterate_from
  iterate_from-Walks P zero offset image_size image s keeps small near start enough p =
      absurd (omega arith)
  iterate_from-Walks P (suc fuel) offset image_size image s keeps small near start enough p =
      if_elim (Walks P) (ltb image_size (add64 offset block_size) || is_zero_block offset image)
        (λ _. (true, s, refl, p))
        (λ go.
          let inside : offset + block_size ≤ image_size = ground arith in
          sized
            (λ next x on end q.
              iterate_from-Walks P fuel next image_size image x keeps small end (omega arith)
                (omega arith) q)
            (payload_size offset image_size image) refl)
    where
      Later : Type 0
      Later =
          (next : ℕ) (x : S)
          → offset + block_size ≤ next
          → next < image_size + block_size
          → P x
          → Walks P (iterate_from visit raw fuel next image_size image x)

      emitted : ℕ → Option (Array ℕ) → Bool × S
      emitted n path = emit visit raw (entry_of offset image n path) s

      after_step : S → Option ℕ → Option (Bool × S)
      after_step x o = elim o [
        | none ↦ some (false, x)
        | some next ↦ iterate_from visit raw fuel next image_size image x
      ]

      after_path : ℕ → Option (Option (Array ℕ)) → Option (Bool × S)
      after_path n o = elim o [
        | none ↦ none
        | some path ↦
            if not (emitted n path).0
            then some (false, (emitted n path).1)
            else after_step (emitted n path).1 (next_offset (add64 offset block_size) n)
      ]

      after_size : Option ℕ → Option (Bool × S)
      after_size o = elim o [
        | none ↦ some (false, s)
        | some n ↦ after_path n (build_path offset image path_max (raw offset) (λ _. 0))
      ]

      stepped :
          Later
          → (n : ℕ) (x : S) → offset + block_size + n ≤ image_size
          → P x
          → (o : Option ℕ) → next_offset (add64 offset block_size) n ≡ o
          → Walks P (after_step x o)
      stepped later n x room q none e = (false, x, refl, q)
      stepped later n x room q (some next) e =
          let (on, end) = next_offset_lem offset n image_size next small room e in
          later next x on end q

      built :
          Later
          → (n : ℕ) (path : Option (Array ℕ)) → offset + block_size + n ≤ image_size
          → ((q : Array ℕ) → path ≡ some q → IsPath path_max q)
          → Walks P (after_path n (some path))
      built later n path room good =
          let q =
            emit-keeps P image_size (entry_of offset image n path) s keeps
              (λ e h. (
                entry_of_lem offset n image_size image path e room h,
                entry_of-IsPath offset n image path e good h,
              ))
              p in
          if_elim (Walks P) (not (emitted n path).0) (λ _. (false, (emitted n path).1, refl, q))
            (λ _.
              stepped later n (emitted n path).1 room q (next_offset (add64 offset block_size) n)
                refl)

      sized :
          Later → (o : Option ℕ) → payload_size offset image_size image ≡ o → Walks P (after_size o)
      sized later none e = (false, s, refl, p)
      sized later (some n) e =
          let room = header_size_lem offset image_size n image (omega arith) e in
          let (path, f, good) =
            build_path-Builds offset path_max image (raw offset) (λ _. 0) (omega arith) in
          subst (λ (o : Option (Option (Array ℕ))). Walks P (after_path n o)) (sym f)
            (built later n path room good)

  -- Of an image of fewer than 2 ^ 63 bytes, whatever they are: the walk comes to its end in the fuel given
  -- and answers. Every entry that the visitor is called with has a path that is a text of fewer than 192
  -- bytes, without a slash at its ends, and its data lies within the image: what such calls keep, the walk
  -- keeps.
  pub iterate-Walks :
      (P : S → Type 0) (image : Array ℕ) (image_size : ℕ) (s : S)
      → ((e : Entry) (x : S) → IsEntry image_size e → P x → P (visit e x).1)
      → image_size < 2 ^ 63
      → P s
      → Walks P (iterate visit raw image image_size s)
  unfolding iterate
  iterate-Walks P image image_size s keeps small p =
      iterate_from-Walks P (image_size / block_size + 1) 0 image_size image s keeps small
        (omega arith) (omega arith) (omega arith) p
