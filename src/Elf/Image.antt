-- ===== src/Elf/Image.antt =====
-- kernel/runtime/elf64.c: the headers of an image, its validation and its inspection.
use clks.Base.{
  ℕ, zero, suc, ◌+◌, ◌-◌, ◌*◌, ◌%◌, ◌^◌, Bool, true, false, ◌&&◌, ◌||◌, not, Option, none, some,
  ltb, ◌==◌, if◌then◌else◌, add64, Array,
}
use clks.Elf.{read_le}

-- `struct clks_elf64_ehdr`
pub record Ehdr : Type 0 where
  pub e_ident : Array ℕ
  pub e_type : ℕ
  pub e_machine : ℕ
  pub e_version : ℕ
  pub e_entry : ℕ
  pub e_phoff : ℕ
  pub e_shoff : ℕ
  pub e_flags : ℕ
  pub e_ehsize : ℕ
  pub e_phentsize : ℕ
  pub e_phnum : ℕ
  pub e_shentsize : ℕ
  pub e_shnum : ℕ
  pub e_shstrndx : ℕ

-- `struct clks_elf64_phdr`
pub record Phdr : Type 0 where
  pub p_type : ℕ
  pub p_flags : ℕ
  pub p_offset : ℕ
  pub p_vaddr : ℕ
  pub p_paddr : ℕ
  pub p_filesz : ℕ
  pub p_memsz : ℕ
  pub p_align : ℕ

-- `sizeof` of the two headers
abbrev pub ehdr_size : ℕ
ehdr_size = 64

abbrev pub phdr_size : ℕ
phdr_size = 56

-- CLKS_ELF64_PT_LOAD, CLKS_ELF64_ET_EXEC, CLKS_ELF64_ET_DYN and CLKS_ELF64_EM_X86_64
abbrev pub pt_load : ℕ
pt_load = 1

abbrev pub et_exec : ℕ
et_exec = 2

abbrev pub et_dyn : ℕ
et_dyn = 3

abbrev pub em_x86_64 : ℕ
em_x86_64 = 62

unfoldable pub read_ehdr : Array ℕ → Ehdr
read_ehdr image = record {
  e_ident = image;
  e_type = read_le 2 image 16;
  e_machine = read_le 2 image 18;
  e_version = read_le 4 image 20;
  e_entry = read_le 8 image 24;
  e_phoff = read_le 8 image 32;
  e_shoff = read_le 8 image 40;
  e_flags = read_le 4 image 48;
  e_ehsize = read_le 2 image 52;
  e_phentsize = read_le 2 image 54;
  e_phnum = read_le 2 image 56;
  e_shentsize = read_le 2 image 58;
  e_shnum = read_le 2 image 60;
  e_shstrndx = read_le 2 image 62;
}

unfoldable pub read_phdr : Array ℕ → ℕ → Phdr
read_phdr image at = record {
  p_type = read_le 4 image at;
  p_flags = read_le 4 image (at + 4);
  p_offset = read_le 8 image (at + 8);
  p_vaddr = read_le 8 image (at + 16);
  p_paddr = read_le 8 image (at + 24);
  p_filesz = read_le 8 image (at + 32);
  p_memsz = read_le 8 image (at + 40);
  p_align = read_le 8 image (at + 48);
}

-- The i-th program header.
unfoldable pub phdr_at : Array ℕ → ℕ → Phdr
phdr_at image i = let eh = read_ehdr image in read_phdr image (eh.e_phoff + i * eh.e_phentsize)

unfoldable pub header_ok : Ehdr → Bool
header_ok eh =
    if not (eh.e_ident 0 == 0x7F)
      || not (eh.e_ident 1 == 69)
      || not (eh.e_ident 2 == 76)
      || not (eh.e_ident 3 == 70)
    then false
    else if not (eh.e_ident 4 == 2) || not (eh.e_ident 5 == 1)
    then false
    else if not (eh.e_ident 6 == 1) || not (eh.e_version == 1)
    then false
    else if not (eh.e_type == et_exec) && not (eh.e_type == et_dyn)
    then false
    else if not (eh.e_machine == em_x86_64)
    then false
    else if not (eh.e_ehsize == ehdr_size)
    then false
    else if not (eh.e_phentsize == phdr_size)
    then false
    else true

unfoldable pub range_ok : ℕ → ℕ → ℕ → Bool
range_ok off len total =
    if ltb total off then false else if ltb (total - off) len then false else true

-- The loop of `clks_elf64_validate` with `rounds` program headers left from the i-th on.
unfoldable pub validate_from : ℕ → ℕ → Array ℕ → ℕ → Bool
validate_from zero i image size = true
validate_from (suc rounds) i image size =
    let ph = phdr_at image i in
    let rest = validate_from rounds (i + 1) image size in
    if not (ph.p_type == pt_load)
    then rest
    else if ltb ph.p_memsz ph.p_filesz
    then false
    else if not (range_ok ph.p_offset ph.p_filesz size)
    then false
    else rest

unfoldable pub validate : Option (Array ℕ) → ℕ → Bool
validate none size = false
validate (some image) size =
    let eh = read_ehdr image in
    if ltb size ehdr_size
    then false
    else if not (header_ok eh)
    then false
    else if not (range_ok eh.e_phoff (eh.e_phnum * eh.e_phentsize) size)
    then false
    else validate_from eh.e_phnum 0 image size

-- `struct clks_elf64_info`
pub record Info : Type 0 where
  pub entry : ℕ
  pub phnum : ℕ
  pub loadable_segments : ℕ
  pub total_load_memsz : ℕ

-- The loop of `clks_elf64_inspect`.
unfoldable pub inspect_from : ℕ → ℕ → Array ℕ → Info → Info
inspect_from zero i image info = info
inspect_from (suc rounds) i image info =
    let ph = phdr_at image i in
    let counted : Info = record info {
      loadable_segments = (info.loadable_segments + 1) % 2 ^ 16;
      total_load_memsz = add64 info.total_load_memsz ph.p_memsz;
    } in
    inspect_from rounds (i + 1) image (if not (ph.p_type == pt_load) then info else counted)

-- What is stored through `out_info`, with the result.
unfoldable pub inspect : Option (Array ℕ) → ℕ → Bool × Info
inspect image size =
    let zero_info : Info = record {
      entry = 0;
      phnum = 0;
      loadable_segments = 0;
      total_load_memsz = 0;
    } in
    elim image [
      | none ↦ (false, zero_info)
      | some bytes ↦
          let eh = read_ehdr bytes in
          if not (validate (some bytes) size) then (false, zero_info) else (
            true,
            inspect_from eh.e_phnum 0 bytes
                (record zero_info { entry = eh.e_entry; phnum = eh.e_phnum }),
          )
    ]
