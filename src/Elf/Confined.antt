-- ===== src/Elf/Confined.antt =====
-- kernel/elf.c: which bytes of the file, and of the memory behind it, a load depends on.
use airix.Prelude.{
  ℕ, zero, suc, ◌+◌, ◌-◌, ◌*◌, ◌%◌, ◌^◌, ◌≤◌, ◌<◌, min, ◌≡◌, refl, sym, ap, subst, ◌∙◌, fun_ext,
  inl, inr, Bool, true, false, ◌&&◌, ◌||◌, Option, none, some, arith, ltb, leb, ◌==◌, if◌then◌else◌,
  Bool-cases, ◌>>=◌, le16, le32,
}
use native.Mathlib.Nat.{mul-suc}
use airix.Proc.{Procs, alloc_page_address, map_counted}
use airix.Elf.{
  ElfHeader, ElfProgHeader, to_header, to_prog_header, copy_file, load_pages, load_from_prog_header,
  load_from_pht, is_loadable, elf_load_program,
}

-- Two chains that go on alike.
bind_same {ℓ κ} :
    {A : Type ℓ} {B : Type κ} (m : Option A) (f g : A → Option B)
    → ((a : A) → f a ≡ g a)
    → (m >>= f) ≡ (m >>= g)
bind_same none f g same = refl
bind_same (some a) f g same = same a

bind_both {ℓ κ} :
    {A : Type ℓ} {B : Type κ} {m n : Option A} (f g : A → Option B)
    → m ≡ n
    → ((a : A) → f a ≡ g a)
    → (m >>= f) ≡ (n >>= g)
bind_both {m = m} {n = n} f g e same = ap (λ k. k >>= f) e ∙ bind_same n f g same

if_then {ℓ} :
    {A : Type ℓ} (b : Bool) (x : A) {y z : A} → y ≡ z → (if b then y else x) ≡ (if b then z else x)
if_then true x e = e
if_then false x e = refl

if_else {ℓ} :
    {A : Type ℓ} (b : Bool) (x : A) {y z : A} → y ≡ z → (if b then x else y) ≡ (if b then x else z)
if_else true x e = refl
if_else false x e = e

if_both {ℓ} :
    {A : Type ℓ} (b : Bool) {x y z w : A}
    → x ≡ y
    → z ≡ w
    → (if b then x else z) ≡ (if b then y else w)
if_both true e f = e
if_both false e f = f

at_first : (pht entry_size : ℕ) → pht + entry_size * 0 ≡ pht
at_first pht entry_size = omega arith

-- The header behind one.
at_next : (pht entry_size i : ℕ) → pht + entry_size + entry_size * i ≡ pht + entry_size * suc i
at_next pht entry_size i = omega (arith, mul-suc entry_size i)

module _ (elf elf' : ℕ → ℕ) where
  -- The files are alike in the n bytes from an offset on.
  abbrev Alike : ℕ → ℕ → Type 0
  Alike offset n = (o : ℕ) → offset ≤ o → o < offset + n → elf o ≡ elf' o

  copy_file-same :
      (offset n dest : ℕ) (memory : ℕ → ℕ)
      → Alike offset n
      → copy_file elf offset n dest memory ≡ copy_file elf' offset n dest memory
  copy_file-same offset n dest memory alike = fun_ext λ a.
      elim (Bool-cases (leb dest a && ltb a (dest + n))) [
        | inl inside ↦ rw inside (alike (offset + (a - dest)) (omega arith) (ground arith))
        | inr outside ↦ rw outside refl
      ]

  load_pages-same :
      (n p vaddr vaddr_end page_offset file_offset file_size : ℕ) (s : Procs)
      → Alike file_offset file_size
      → load_pages n elf p vaddr vaddr_end page_offset file_offset file_size s
        ≡ load_pages n elf' p vaddr vaddr_end page_offset file_offset file_size s
  unfolding load_pages
  load_pages-same zero p vaddr vaddr_end page_offset file_offset file_size s alike = refl
  load_pages-same (suc n) p vaddr vaddr_end page_offset file_offset file_size s alike =
      let size : ℕ = min file_size (4096 - page_offset) in
      if_then (ltb vaddr vaddr_end) _ (
        bind_same (alloc_page_address s) _ _ λ r. if_else (r.0 == 0) _ (
          bind_same (map_counted p vaddr r.0 6 _) _ _ λ m. if_then m.0 _ (
            load_pages-same n p ((vaddr + 4096) % 2 ^ 32) vaddr_end 0 (file_offset + size)
              (file_size - size) _ (λ o from upto. alike o (omega arith) (omega arith))
            ∙ ap
                (λ memory.
                  load_pages n elf' p ((vaddr + 4096) % 2 ^ 32) vaddr_end 0 (file_offset + size)
                    (file_size - size) (record m.1 { memory = memory }))
                (copy_file-same file_offset size (r.0 + page_offset) m.1.memory
                  (λ o from upto. alike o from (omega arith))))))

  module _ (size : ℕ) (alike : Alike 0 size) where
    byte_same : (o : ℕ) → o < size → elf o ≡ elf' o
    byte_same o h = alike o (omega arith) (omega arith)

    le16_same : (o : ℕ) → o + 2 ≤ size → le16 elf o ≡ le16 elf' o
    le16_same o h = rw (byte_same o (omega arith), byte_same (o + 1) (omega arith)) refl

    le32_same : (o : ℕ) → o + 4 ≤ size → le32 elf o ≡ le32 elf' o
    le32_same o h = rw (le16_same o (omega arith), le16_same (o + 2) (omega arith)) refl

    to_header_same : 52 ≤ size → to_header elf ≡ to_header elf'
    unfolding to_header
    to_header_same h =
        rw
          (
            byte_same 0 (omega arith),
            byte_same 1 (omega arith),
            byte_same 2 (omega arith),
            byte_same 3 (omega arith),
            le16_same 16 (omega arith),
            le32_same 24 (omega arith),
            le32_same 28 (omega arith),
            le16_same 42 (omega arith),
            le16_same 44 (omega arith),
          )
          refl

    to_prog_header_same : (o : ℕ) → o + 32 ≤ size → to_prog_header elf o ≡ to_prog_header elf' o
    unfolding to_prog_header
    to_prog_header_same o h =
        rw
          (
            le32_same o (omega arith),
            le32_same (o + 4) (omega arith),
            le32_same (o + 8) (omega arith),
            le32_same (o + 16) (omega arith),
            le32_same (o + 20) (omega arith),
          )
          refl

    load_from_prog_header_same :
        (fuel : ℕ) (ph : ElfProgHeader) (p : ℕ) (s : Procs)
        → ph.p_offset + ph.p_filesz < 2 ^ 32
        → load_from_prog_header fuel elf size ph p s ≡ load_from_prog_header fuel elf' size ph p s
    unfolding load_from_prog_header
    load_from_prog_header_same fuel ph p s fits = elim (Bool-cases (ltb ph.p_memsz ph.p_filesz)) [
      | inl bad ↦ rw bad refl
      | inr ok ↦
          elim (Bool-cases
            (leb size ph.p_offset || ltb size ((ph.p_offset + ph.p_filesz) % 2 ^ 32))) [
              | inl out ↦ rw (ok, out) refl
              | inr inside ↦
                  rw (ok, inside)
                    (if_else (ph.p_memsz == 0) _ (
                      load_pages-same fuel p (ph.p_vaddr - ph.p_vaddr % 4096)
                        ((ph.p_vaddr + ph.p_memsz) % 2 ^ 32) (ph.p_vaddr % 4096) ph.p_offset
                        ph.p_filesz s (λ o from upto. byte_same o (ground arith))))
            ]
    ]

    load_from_pht_same :
        (fuel pht entry_size num p : ℕ) (s : Procs)
        → 32 ≤ entry_size
        → pht + entry_size * num ≤ size
        → ((i : ℕ)
            → i < num
            → (to_prog_header elf (pht + entry_size * i)).p_offset
                + (to_prog_header elf (pht + entry_size * i)).p_filesz
              < 2 ^ 32)
        → load_from_pht fuel elf size pht entry_size num p s
          ≡ load_from_pht fuel elf' size pht entry_size num p s
    unfolding load_from_pht
    load_from_pht_same fuel pht entry_size zero p s wide inside fit = refl
    load_from_pht_same fuel pht entry_size (suc num) p s wide inside fit =
        let ph = to_prog_header elf pht in
        let here = to_prog_header_same pht (omega arith) in
        let fits =
          subst (λ o. (to_prog_header elf o).p_offset + (to_prog_header elf o).p_filesz < 2 ^ 32)
            (at_first pht entry_size) (fit 0 (omega arith)) in
        let rest : (s' : Procs)
            → load_from_pht fuel elf size (pht + entry_size) entry_size num p s'
              ≡ load_from_pht fuel elf' size (pht + entry_size) entry_size num p s' =
          λ s'.
            load_from_pht_same fuel (pht + entry_size) entry_size num p s' wide
              (omega (arith, at_next pht entry_size num))
              (λ i h.
                subst
                  (λ o. (to_prog_header elf o).p_offset + (to_prog_header elf o).p_filesz < 2 ^ 32)
                  (sym (at_next pht entry_size i)) (fit (suc i) (omega arith))) in
        rw (← here) (
          if_both ((ph.p_type == 1) || (ph.p_type == 6))
            (bind_both _ _ (load_from_prog_header_same fuel ph p s fits)
              (λ r. if_then r.0 _ (rest r.1)))
            (rest s))

-- The header and the program headers of a file lie inside it without any wrap.
pub record IsSound (elf : ℕ → ℕ) (size : ℕ) : Type 0 where
  pub header : 52 ≤ size
  pub wide : 32 ≤ (to_header elf).e_phentsize
  pub table :
      (to_header elf).e_phoff + (to_header elf).e_phentsize * (to_header elf).e_phnum < 2 ^ 32
  pub segments :
      (i : ℕ)
      → i < (to_header elf).e_phnum
      → (to_prog_header elf ((to_header elf).e_phoff + (to_header elf).e_phentsize * i)).p_offset
          + (to_prog_header elf
              ((to_header elf).e_phoff + (to_header elf).e_phentsize * i)).p_filesz
        < 2 ^ 32

-- The checks keep the table of program headers inside the file.
table_inside :
    (h : ElfHeader) (size : ℕ)
    → h.e_phoff + h.e_phentsize * h.e_phnum < 2 ^ 32
    → is_loadable h size ≡ true
    → h.e_phoff + h.e_phentsize * h.e_phnum ≤ size
unfolding is_loadable
table_inside h size fits ok = ground arith

-- Loading a file whose header and program headers lie inside it, with no end that wraps, depends on
-- nothing but the bytes of the file: two memories that agree on them give the same result.
pub elf_load_program-same :
    (fuel : ℕ) (elf elf' : ℕ → ℕ) (size p : ℕ) (s : Procs)
    → IsSound elf size
    → ((o : ℕ) → o < size → elf o ≡ elf' o)
    → elf_load_program fuel elf size p s ≡ elf_load_program fuel elf' size p s
unfolding elf_load_program
elf_load_program-same fuel elf elf' size p s sound same =
    let alike : (o : ℕ) → 0 ≤ o → o < 0 + size → elf o ≡ elf' o =
      λ o from upto. same o (omega arith) in
    let header = to_header_same elf elf' size alike sound.header in
    elim (Bool-cases (is_loadable (to_header elf) size)) [
      | inr bad ↦ rw (← header, bad) refl
      | inl ok ↦
          rw (← header, ok)
            (bind_both _ _
              (load_from_pht_same elf elf' size alike fuel (to_header elf).e_phoff
                (to_header elf).e_phentsize (to_header elf).e_phnum p s sound.wide
                (table_inside (to_header elf) size sound.table ok) sound.segments)
              (λ r. refl))
    ]
