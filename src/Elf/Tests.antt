-- ===== src/Elf/Tests.antt =====
-- A run of kernel/runtime/elf64.c, and its theorems at a concrete image.
use clks.Base.{ℕ, ◌+◌, ◌*◌, ◌≤◌, ◌<◌, ◌≡◌, refl, true, some, [], ◌∷◌, Array}
use clks.Base.Allocator.{Allocator}
use clks.Base.CString.{text}
use clks.Elf.{read_le, write_le}
use clks.Elf.Image.{
  ehdr_size, pt_load, read_ehdr, read_phdr, phdr_at, header_ok, range_ok, validate_from, validate,
}
use clks.Elf.Loader.{
  load, claim, fill, measure_from, widened, skipped, place_from, place, copy_image,
  rebase_exec_pointers, rebase_from, rebase_words,
}
use clks.Strings.{memset, set_from}
use clks.Elf.Checks.{IsLoadable, validate_lem}
use clks.Elf.Outcome.{Outcome, load_lem}

-- An allocator that hands out one address after the other.
abbrev bump : Allocator
bump = record { Store = ℕ; alloc = λ size top. (some top, top + size); free = λ p top. top }

-- A file with one loadable segment of four bytes that asks for sixteen.
abbrev small_image : Array ℕ
small_image = text (
    127 ∷ 69 ∷ 76 ∷ 70 ∷ 2 ∷ 1 ∷ 1 ∷ 0 ∷ 0 ∷ 0 ∷ 0 ∷ 0 ∷ 0 ∷ 0 ∷ 0 ∷ 0 ∷ 2 ∷ 0 ∷ 62 ∷ 0 ∷ 1 ∷ 0 ∷ 0
    ∷ 0 ∷ 0 ∷ 0 ∷ 64 ∷ 0 ∷ 0 ∷ 0 ∷ 0 ∷ 0 ∷ 64 ∷ 0 ∷ 0 ∷ 0 ∷ 0 ∷ 0 ∷ 0 ∷ 0 ∷ 0 ∷ 0 ∷ 0 ∷ 0 ∷ 0 ∷ 0
    ∷ 0 ∷ 0 ∷ 0 ∷ 0 ∷ 0 ∷ 0 ∷ 64 ∷ 0 ∷ 56 ∷ 0 ∷ 1 ∷ 0 ∷ 0 ∷ 0 ∷ 0 ∷ 0 ∷ 0 ∷ 0 ∷ 1 ∷ 0 ∷ 0 ∷ 0 ∷ 4
    ∷ 0 ∷ 0 ∷ 0 ∷ 120 ∷ 0 ∷ 0 ∷ 0 ∷ 0 ∷ 0 ∷ 0 ∷ 0 ∷ 0 ∷ 0 ∷ 64 ∷ 0 ∷ 0 ∷ 0 ∷ 0 ∷ 0 ∷ 0 ∷ 0 ∷ 0 ∷ 0
    ∷ 0 ∷ 0 ∷ 0 ∷ 0 ∷ 4 ∷ 0 ∷ 0 ∷ 0 ∷ 0 ∷ 0 ∷ 0 ∷ 0 ∷ 16 ∷ 0 ∷ 0 ∷ 0 ∷ 0 ∷ 0 ∷ 0 ∷ 0 ∷ 0 ∷ 0 ∷ 0 ∷ 0
    ∷ 0 ∷ 0 ∷ 0 ∷ 0 ∷ 11 ∷ 22 ∷ 33 ∷ 44 ∷ [])

small_image-valid : validate (some small_image) 124 ≡ true
unfolding validate header_ok range_ok validate_from phdr_at read_ehdr read_phdr read_le
small_image-valid = refl

-- The image is loaded: its bytes lie at the start of the block, with zeros behind them.
load_test :
    let (done, loaded, m, top) = load bump (some small_image) 124 (λ _. 7) 5000 in
    (done ≡ true) × (loaded.segment_count ≡ 1) × (m 5000 ≡ 11) × (m 5004 ≡ 0) × (m 5016 ≡ 7)
unfolding load claim fill validate header_ok range_ok validate_from phdr_at read_ehdr read_phdr
    read_le write_le measure_from widened skipped place_from place copy_image rebase_exec_pointers
    rebase_from rebase_words memset set_from
load_test = (refl, refl, refl, refl, refl)

validate_lem_example :
    (ehdr_size ≤ 124)
    × (header_ok (read_ehdr small_image) ≡ true)
    × ((read_ehdr small_image).e_phoff
          + (read_ehdr small_image).e_phnum * (read_ehdr small_image).e_phentsize
        ≤ 124)
    × ((k : ℕ)
        → k < (read_ehdr small_image).e_phnum
        → (phdr_at small_image k).p_type ≡ pt_load
        → IsLoadable 124 (phdr_at small_image k))
validate_lem_example = validate_lem small_image 124 small_image-valid

load_lem_example :
    Outcome bump (some small_image) (λ _. 7) 5000 (load bump (some small_image) 124 (λ _. 7) 5000)
load_lem_example = load_lem bump (some small_image) 124 (λ _. 7) 5000
