-- ===== src/Axfs/Read.antt =====
-- fs/axfs.c: `read_file` against a reading of the file byte by byte.
use airix.Prelude.{
  zero_add, add_zero, add_suc, suc_add, ℕ, zero, suc, ◌+◌, ◌-◌, ◌*◌, ◌/◌, ◌%◌, ◌^◌, ◌≤◌, ◌<◌, min,
  ◌≡◌, refl, ap, ◌∙◌, ◌⊎◌, inl, inr, true, false, ◌||◌, Option, none, some, List, [], ◌∷◌, ◌++◌,
  arith, leb, ◌==◌, if◌then◌else◌, le→leb, nle→leb, Bool-cases, length, ◌>>=◌,
}
use airix.Axfs.{Disk, AxInode, copy, read_loop, read_file, sector_no}

-- The sector of the block that holds a position, and the byte there.
abbrev pub sector_at : AxInode → ℕ → ℕ
sector_at node pos = sector_no (node.i_block (pos / 1024))

abbrev pub byte_at : Disk → ℕ → AxInode → ℕ → ℕ
byte_at d device node pos = d.byte device (sector_at node pos) (pos % 1024)

-- The bytes from a position on, one after the other, up to the first that is not to be had.
unfoldable pub read_bytes : ℕ → Disk → ℕ → AxInode → ℕ → Option ℕ × List ℕ
read_bytes zero d device node pos = (some 0, [])
read_bytes (suc n) d device node pos =
    let rest = read_bytes n d device node (pos + 1) in
    if d.ok device (sector_at node pos)
    then (rest.0 >>= λ count. some (suc count), byte_at d device node pos ∷ rest.1)
    else (none, [])

-- A count and bytes with more bytes put before them.
abbrev pub prepend : List ℕ → Option ℕ × List ℕ → Option ℕ × List ℕ
prepend xs r = (r.0 >>= λ count. some (length xs + count), xs ++ r.1)

length-copy : (n : ℕ) (b : ℕ → ℕ) (o : ℕ) → length (copy b o n) ≡ n
unfolding copy
length-copy zero b o = refl
length-copy (suc n) b o = ap suc (length-copy n b (o + 1))

prepend_nil : (r : Option ℕ × List ℕ) → r ≡ prepend [] r
prepend_nil (none, ys) = refl
prepend_nil (some c, ys) = ap (λ n. (some n, ys)) (omega arith)

prepend_cons :
    (x : ℕ) (xs : List ℕ) (r : Option ℕ × List ℕ)
    → (((prepend xs r).0 >>= λ count. some (suc count)), x ∷ (prepend xs r).1) ≡ prepend (x ∷ xs) r
prepend_cons x xs (none, ys) = refl
prepend_cons x xs (some c, ys) = ap (λ n. (some n, x ∷ (xs ++ ys))) (omega arith)

div_block : (i p : ℕ) → p < 1024 → (i * 1024 + p) / 1024 ≡ i
div_block i p h = omega arith

mod_block : (i p : ℕ) → p < 1024 → (i * 1024 + p) % 1024 ≡ p
mod_block i p h = omega arith

step_block : (i p : ℕ) → i * 1024 + p + 1 ≡ i * 1024 + (p + 1)
step_block i p = omega arith

module _ (d : Disk) (device : ℕ) (node : AxInode) where
  abbrev sector_of : ℕ → ℕ
  sector_of i = sector_no (node.i_block i)

  byte_in_block :
      (i p : ℕ) → p < 1024 → byte_at d device node (i * 1024 + p) ≡ d.byte device (sector_of i) p
  byte_in_block i p h =
      ap (λ j. d.byte device (sector_of j) ((i * 1024 + p) % 1024)) (div_block i p h)
      ∙ ap (d.byte device (sector_of i)) (mod_block i p h)

  -- The bytes that stand in one block are read as a copy of it.
  pub read_bytes-copy :
      (m k i p : ℕ)
      → p + m ≤ 1024
      → d.ok device (sector_of i) ≡ true
      → read_bytes (m + k) d device node (i * 1024 + p)
        ≡ prepend
            (copy (d.byte device (sector_of i)) p m)
            (read_bytes k d device node (i * 1024 + (p + m)))
  unfolding copy read_bytes
  read_bytes-copy zero k i p h ok =
      rw (zero_add k, add_zero p) (prepend_nil (read_bytes k d device node (i * 1024 + p)))
  read_bytes-copy (suc m) k i p h ok =
      rw
        (
          suc_add m k,
          add_suc p m,
          div_block i p (omega arith),
          ok,
          byte_in_block i p (omega arith),
          step_block i p,
          read_bytes-copy m k i (p + 1) (omega arith) ok,
        )
        (prepend_cons (d.byte device (sector_of i) p) (copy (d.byte device (sector_of i)) (p + 1) m)
          (read_bytes k d device node (i * 1024 + (p + 1 + m))))

  read_bytes-missing :
      (n i p : ℕ)
      → 0 < n
      → p < 1024
      → d.ok device (sector_of i) ≡ false
      → read_bytes n d device node (i * 1024 + p) ≡ (none, [])
  unfolding read_bytes
  read_bytes-missing zero i p pos h bad = absurd (omega arith)
  read_bytes-missing (suc n) i p pos h bad = rw (div_block i p h, bad) refl

  -- Nothing is read from any position.
  read_bytes-move :
      (n p q : ℕ) → (n ≡ 0) ⊎ (p ≡ q) → read_bytes n d device node p ≡ read_bytes n d device node q
  unfolding read_bytes
  read_bytes-move n p q (inr e) = ap (read_bytes n d device node) e
  read_bytes-move n p q (inl e) = rw e refl

  -- What a file can hold from a block on.
  abbrev room : ℕ → ℕ → ℕ
  room i p = 21 * 1024 - (i * 1024 + p)

  over_none : (i p size : ℕ) → ((size == 0) || leb 21 i) ≡ true → min size (room i p) ≡ 0
  over_none i p size e = ground arith

  more_some : (i p size : ℕ) → p < 1024 → ((size == 0) || leb 21 i) ≡ false → (0 < size) × (i < 21)
  more_some i p size h e = ground arith

  pub read_loop-read_bytes :
      (n i p size : ℕ)
      → p < 1024
      → i ≤ 21
      → 21 < n + i
      → read_loop n d device node i p size
        ≡ read_bytes (min size (room i p)) d device node (i * 1024 + p)
  unfolding read_loop read_bytes
  read_loop-read_bytes zero i p size h upto fuel = absurd (omega arith)
  read_loop-read_bytes (suc n) i p size h upto fuel = elim (Bool-cases ((size == 0) || leb 21 i)) [
    | inl over ↦ rw (over, over_none i p size over) refl
    | inr more ↦
        let (some_size, inside) = more_some i p size h more in
        elim (Bool-cases (d.ok device (sector_of i))) [
          | inl ok ↦
              let bytes : ℕ = min size (1024 - p) in
              let left : ℕ = min (size - bytes) (room (i + 1) 0) in
              let split_room : min size (room i p) ≡ bytes + left = omega arith in
              rw
                (
                  more,
                  ok,
                  read_loop-read_bytes n (i + 1) 0 (size - bytes) (omega arith) (omega arith)
                      (omega arith),
                  split_room,
                  read_bytes-copy bytes left i p (omega arith) ok,
                  read_bytes-move left ((i + 1) * 1024 + 0) (i * 1024 + (p + bytes)) (ground arith),
                )
                (rw (length-copy bytes (d.byte device (sector_of i)) p) refl)
          | inr bad ↦
              rw (more, bad, read_bytes-missing (min size (room i p)) i p (omega arith) h bad) refl
        ]
  ]

  whole_pos : (pos : ℕ) → pos / 1024 * 1024 + pos % 1024 ≡ pos
  whole_pos pos = omega arith

  index_fits : (pos : ℕ) → pos < 2 ^ 42 → pos / 1024 % 2 ^ 32 ≡ pos / 1024
  index_fits pos h = omega arith

  -- For a file of at most 2 ^ 42 bytes, read_file gives 0 at the end of the file and behind it, -1 for
  -- a position that the direct blocks do not reach, and otherwise what reading byte by byte gives, as
  -- far as the size, the file and the direct blocks go: the bytes copied, and -1 where a block is bad.
  pub read_file-read_bytes :
      (pos size : ℕ)
      → node.i_size ≤ 2 ^ 42
      → (node.i_size ≤ pos → read_file d device node pos size ≡ (some 0, []))
        × (pos < node.i_size → 21 * 1024 ≤ pos → read_file d device node pos size ≡ (none, []))
        × (pos < node.i_size
            → pos < 21 * 1024
            → read_file d device node pos size
              ≡ read_bytes (min (min size (node.i_size - pos)) (21 * 1024 - pos)) d device node pos)
  unfolding read_file
  read_file-read_bytes pos size fits = (
    λ end. rw (le→leb node.i_size pos end) refl,
    λ inside far.
        rw
          (
            nle→leb node.i_size pos inside,
            index_fits pos (omega arith),
            le→leb 21 (pos / 1024) (omega arith),
          )
          refl,
    λ inside near.
        rw
          (
            nle→leb node.i_size pos inside,
            index_fits pos (omega arith),
            nle→leb 21 (pos / 1024) (omega arith),
            read_loop-read_bytes 22 (pos / 1024) (pos % 1024) (min size (node.i_size - pos))
                (omega arith) (omega arith) (omega arith),
            whole_pos pos,
          )
          refl,
  )
