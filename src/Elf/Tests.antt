-- ===== src/Elf/Tests.antt =====
-- The theorem on loading a file, at a file of one segment.
use airix.Prelude.{
  ℕ, zero, suc, ◌+◌, ◌*◌, ◌^◌, ◌<◌, ◌≡◌, refl, arith, ltb, ◌==◌, if◌then◌else◌, lt→ltb,
}
use airix.Proc.Tests.{test_procs}
use airix.Elf.{to_header, to_prog_header, elf_load_program}
use airix.Elf.Confined.{IsSound, elf_load_program-same}

-- 100 bytes, all of which are loaded at 0x1000.
abbrev test_elf : ℕ → ℕ
test_elf o =
    if o == 0
    then 0x7F
    else if o == 1
    then 69
    else if o == 2
    then 76
    else if o == 3
    then 70
    else if o == 16
    then 2
    else if o == 28
    then 52
    else if o == 42
    then 32
    else if o == 44
    then 1
    else if o == 52
    then 1
    else if o == 61
    then 16
    else if o == 68
    then 100
    else if o == 72
    then 100
    else 0

-- The same file with other memory behind it.
abbrev other_elf : ℕ → ℕ
other_elf o = if ltb o 100 then test_elf o else 7

test_segments :
    (i : ℕ)
    → i < 1
    → (to_prog_header test_elf (52 + 32 * i)).p_offset
        + (to_prog_header test_elf (52 + 32 * i)).p_filesz
      < 2 ^ 32
unfolding to_prog_header
test_segments zero h = omega arith
test_segments (suc i) h = absurd (omega arith)

test_elf-IsSound : IsSound test_elf 100
unfolding to_header to_prog_header
test_elf-IsSound = record {
  header = omega arith;
  wide = omega arith;
  table = omega arith;
  segments = test_segments;
}

same_file : (o : ℕ) → o < 100 → test_elf o ≡ other_elf o
same_file o h = rw (lt→ltb o 100 h) refl

elf_load_program-same_example :
    elf_load_program 3 test_elf 100 4 test_procs ≡ elf_load_program 3 other_elf 100 4 test_procs
elf_load_program-same_example =
    elf_load_program-same 3 test_elf other_elf 100 4 test_procs test_elf-IsSound same_file
