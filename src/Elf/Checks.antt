-- ===== src/Elf/Checks.antt =====
-- What the validation in kernel/runtime/elf64.c guarantees.
use clks.Base.{ℕ, zero, suc, ◌+◌, ◌*◌, ◌≤◌, ◌<◌, ◌≡◌, arith, true, some, Array, subst, ℕ_discrete}
use clks.Elf.Image.{
  Phdr, ehdr_size, pt_load, read_ehdr, phdr_at, header_ok, range_ok, validate_from, validate,
}

-- The bytes that a program header names lie in an image of `size` bytes, and in the memory asked for.
pub record IsLoadable (size : ℕ) (ph : Phdr) : Type 0 where
  pub fits : ph.p_filesz ≤ ph.p_memsz
  pub inside : ph.p_offset + ph.p_filesz ≤ size

range_ok_lem : (off len total : ℕ) → range_ok off len total ≡ true → off + len ≤ total
unfolding range_ok
range_ok_lem off len total h = ground arith

validate_from_lem :
    (rounds i : ℕ) (image : Array ℕ) (size : ℕ)
    → validate_from rounds i image size ≡ true
    → (k : ℕ) → i ≤ k
    → k < i + rounds
    → (phdr_at image k).p_type ≡ pt_load
    → IsLoadable size (phdr_at image k)
unfolding validate_from
validate_from_lem zero i image size ok k l h load = absurd (omega arith)
validate_from_lem (suc rounds) i image size ok k l h load = elim (ℕ_discrete i k) [
  | yes here ↦
      subst (λ k. (phdr_at image k).p_type ≡ pt_load → IsLoadable size (phdr_at image k)) here
        (λ load'. record {
          fits = ground arith;
          inside =
              range_ok_lem (phdr_at image i).p_offset (phdr_at image i).p_filesz size
                (ground arith);
        })
        load
  | no ne ↦
      validate_from_lem rounds (i + 1) image size (ground arith) k (omega arith) (omega arith) load
]

-- An image that passes validation has at least a file header, its program headers lie within it, and so
-- do the bytes of every loadable one, which are no more than the memory it asks for.
pub validate_lem :
    (image : Array ℕ) (size : ℕ)
    → validate (some image) size ≡ true
    → (ehdr_size ≤ size)
      × (header_ok (read_ehdr image) ≡ true)
      × ((read_ehdr image).e_phoff + (read_ehdr image).e_phnum * (read_ehdr image).e_phentsize
          ≤ size)
      × ((k : ℕ)
          → k < (read_ehdr image).e_phnum
          → (phdr_at image k).p_type ≡ pt_load
          → IsLoadable size (phdr_at image k))
unfolding validate
validate_lem image size ok = (
  ground arith,
  ground arith,
  range_ok_lem (read_ehdr image).e_phoff ((read_ehdr image).e_phnum * (read_ehdr image).e_phentsize)
      size (ground arith),
  λ k h load.
      validate_from_lem (read_ehdr image).e_phnum 0 image size (ground arith) k (omega arith)
        (omega arith) load,
)
