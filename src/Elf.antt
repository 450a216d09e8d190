-- ===== src/Elf.antt =====
-- kernel/elf.c. The file is a function from offsets to bytes, and also what the memory behind it
-- holds: a read out of the file reads there. `none` is a panic.
pub mod Confined
pub mod Tests
use airix.Prelude.{
  le16, le32, ℕ, zero, suc, ◌+◌, ◌-◌, ◌*◌, ◌%◌, ◌^◌, min, Bool, true, false, not, ◌&&◌, ◌||◌,
  Option, none, some, ltb, leb, ◌==◌, if◌then◌else◌, ◌>>=◌,
}
use airix.Proc.{Procs, with_proc, alloc_page_address, map_counted}

-- The fields of `struct elf_header` that are used.
pub record ElfHeader : Type 0 where
  pub is_elf : Bool
  pub e_type : ℕ
  pub e_entry : ℕ
  pub e_phoff : ℕ
  pub e_phentsize : ℕ
  pub e_phnum : ℕ

-- The fields of `struct elf_prog_header` that are used.
pub record ElfProgHeader : Type 0 where
  pub p_type : ℕ
  pub p_offset : ℕ
  pub p_vaddr : ℕ
  pub p_filesz : ℕ
  pub p_memsz : ℕ

pub to_header : (ℕ → ℕ) → ElfHeader
to_header elf = record {
  is_elf = (elf 0 == 0x7F) && (elf 1 == 69) && (elf 2 == 76) && (elf 3 == 70);
  e_type = le16 elf 16;
  e_entry = le32 elf 24;
  e_phoff = le32 elf 28;
  e_phentsize = le16 elf 42;
  e_phnum = le16 elf 44;
}

pub to_prog_header : (ℕ → ℕ) → ℕ → ElfProgHeader
to_prog_header elf o = record {
  p_type = le32 elf o;
  p_offset = le32 elf (o + 4);
  p_vaddr = le32 elf (o + 8);
  p_filesz = le32 elf (o + 16);
  p_memsz = le32 elf (o + 20);
}

-- A page of zeros at a physical address, and `memcpy` of n bytes of the file from an offset on.
abbrev pub zero_page : ℕ → (ℕ → ℕ) → ℕ → ℕ
zero_page paddr memory a = if leb paddr a && ltb a (paddr + 4096) then 0 else memory a

abbrev pub copy_file : (ℕ → ℕ) → ℕ → ℕ → ℕ → (ℕ → ℕ) → ℕ → ℕ
copy_file elf offset n dest memory a =
    if leb dest a && ltb a (dest + n) then elf (offset + (a - dest)) else memory a

-- The loop of `load_from_prog_header` over the pages, on fuel.
pub load_pages : ℕ → (ℕ → ℕ) → ℕ → ℕ → ℕ → ℕ → ℕ → ℕ → Procs → Option (Bool × Procs)
load_pages zero elf p vaddr vaddr_end page_offset file_offset file_size s = none
load_pages (suc n) elf p vaddr vaddr_end page_offset file_offset file_size s =
    if ltb vaddr vaddr_end
    then (alloc_page_address s >>= λ r.
        let paddr = r.0 in
        let s' = record r.1 { memory = zero_page paddr r.1.memory } in
        let copy_size = min file_size (4096 - page_offset) in
        if paddr == 0
        then some (false, r.1)
        else (map_counted p vaddr paddr 6 s' >>= λ m.
            if m.0
            then load_pages n elf p ((vaddr + 4096) % 2 ^ 32) vaddr_end 0 (file_offset + copy_size)
                (file_size - copy_size)
                (record m.1 {
                  memory = copy_file elf file_offset copy_size (paddr + page_offset) m.1.memory;
                })
            else some (false, m.1)))
    else some (true, s)

pub load_from_prog_header : ℕ → (ℕ → ℕ) → ℕ → ElfProgHeader → ℕ → Procs → Option (Bool × Procs)
load_from_prog_header fuel elf size ph p s =
    let page_offset = ph.p_vaddr % 4096 in
    let vaddr_end = (ph.p_vaddr + ph.p_memsz) % 2 ^ 32 in
    if ltb ph.p_memsz ph.p_filesz
    then some (false, s)
    else if leb size ph.p_offset || ltb size ((ph.p_offset + ph.p_filesz) % 2 ^ 32)
    then some (false, s)
    else if ph.p_memsz == 0
    then some (true, s)
    else load_pages fuel elf p (ph.p_vaddr - page_offset) vaddr_end page_offset ph.p_offset
        ph.p_filesz s

-- 1 and 6 are ELF_PT_LOAD and ELF_PT_PHDR; `num` headers are left, the next at offset `pht`.
pub load_from_pht : ℕ → (ℕ → ℕ) → ℕ → ℕ → ℕ → ℕ → ℕ → Procs → Option (Bool × Procs)
load_from_pht fuel elf size pht entry_size zero p s = some (true, s)
load_from_pht fuel elf size pht entry_size (suc num) p s =
    let ph = to_prog_header elf pht in
    if (ph.p_type == 1) || (ph.p_type == 6)
    then (load_from_prog_header fuel elf size ph p s >>= λ r.
        if r.0
        then load_from_pht fuel elf size (pht + entry_size) entry_size num p r.1
        else some (false, r.1))
    else load_from_pht fuel elf size (pht + entry_size) entry_size num p s

-- The checks of `elf_load_program`; 2 is ELF_ET_EXEC.
pub is_loadable : ElfHeader → ℕ → Bool
is_loadable h size =
    h.is_elf
    && (h.e_type == 2)
    && not ((h.e_phoff == 0) || leb size h.e_phoff)
    && not (ltb size ((h.e_phoff + h.e_phentsize * h.e_phnum % 2 ^ 32) % 2 ^ 32))

pub elf_load_program : ℕ → (ℕ → ℕ) → ℕ → ℕ → Procs → Option (Bool × Procs)
elf_load_program fuel elf size p s =
    let h = to_header elf in
    if is_loadable h size
    then (load_from_pht fuel elf size h.e_phoff h.e_phentsize h.e_phnum p s >>= λ r.
        if r.0
        then some (true, with_proc p (record (r.1.proc p) { entry = h.e_entry }) r.1)
        else some (false, r.1))
    else some (false, s)
