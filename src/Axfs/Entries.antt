-- ===== src/Axfs/Entries.antt =====
-- fs/axfs.c: `block_find_ino` and `dir_find_ino`, and what they read of a name.
use airix.Prelude.{
  le16, le32, ℕ, zero, suc, ◌+◌, ◌<◌, ◌≡◌, refl, ap, inl, inr, ◌&&◌, some, List, [], ◌∷◌, ◌++◌,
  arith, ltb, ◌==◌, Bool-cases, length,
}
use airix.Axfs.{
  Disk, AxInode, memcmp_eq, find_entry, block_find_ino, find_block, dir_find_ino, sector_no,
}

-- Each entry of a block that the loop passes takes a byte at least.
pub find_entry_total :
    (n : ℕ) (name : List ℕ) (len : ℕ) (b : ℕ → ℕ) (it : ℕ)
    → 0 < n
    → 1024 < n + it
    → (ino : ℕ) × (find_entry n name len b it ≡ some ino)
unfolding find_entry
find_entry_total zero name len b it pos fuel = absurd (omega arith)
find_entry_total (suc n) name len b it pos fuel = elim (Bool-cases (ltb it 1024)) [
  | inr over ↦ (0, rw over refl)
  | inl more ↦ elim (Bool-cases ((b (it + 6) == len) && memcmp_eq name len b (it + 8))) [
    | inl here ↦ (le32 b it, rw (more, here) refl)
    | inr other ↦ elim (Bool-cases (le16 b (it + 4) == 0)) [
      | inl stop ↦ (0, rw (more, other, stop) refl)
      | inr on ↦
          let (ino, e) =
            find_entry_total n name len b (it + le16 b (it + 4)) (ground arith) (ground arith) in
          (ino, rw (more, other, on) e)
    ]
  ]
]

pub find_block_total :
    (n : ℕ) (d : Disk) (dir : AxInode) (name : List ℕ) (len device i : ℕ)
    → (ino : ℕ) × (find_block n d dir name len device i ≡ some ino)
unfolding find_block block_find_ino
find_block_total zero d dir name len device i = (0, refl)
find_block_total (suc n) d dir name len device i =
    let sector : ℕ = sector_no (dir.i_block i) in
    elim (Bool-cases (dir.i_block i == 0)) [
      | inl stop ↦ (0, rw stop refl)
      | inr on ↦
          let (rest, e) = find_block_total n d dir name len device (i + 1) in
          elim (Bool-cases (d.ok device sector)) [
            | inr bad ↦ (rest, rw (on, bad) e)
            | inl ok ↦
                let (ino, found) =
                  find_entry_total 1025 name len (d.byte device sector) 0 (omega arith)
                    (omega arith) in
                elim (Bool-cases (ino == 0)) [
                  | inl none_here ↦ (rest, rw (on, ok, found, none_here) e)
                  | inr here ↦ (ino, rw (on, ok, found, here) refl)
                ]
          ]
    ]

pub dir_find_ino_total :
    (d : Disk) (dir : AxInode) (name : List ℕ) (len device : ℕ)
    → (ino : ℕ) × (dir_find_ino d dir name len device ≡ some ino)
unfolding dir_find_ino
dir_find_ino_total d dir name len device = find_block_total 21 d dir name len device 0

-- A name is read up to its length only: what follows it in the path plays no part.
module _ (xs ys : List ℕ) where
  memcmp_eq-prefix :
      (zs : List ℕ) (b : ℕ → ℕ) (o : ℕ)
      → memcmp_eq (zs ++ ys) (length zs) b o ≡ memcmp_eq zs (length zs) b o
  unfolding memcmp_eq
  memcmp_eq-prefix [] b o = refl
  memcmp_eq-prefix (z ∷ zs) b o = ap ((z == b o) &&◌) (memcmp_eq-prefix zs b (o + 1))

  find_entry-prefix :
      (n : ℕ) (b : ℕ → ℕ) (it : ℕ)
      → find_entry n (xs ++ ys) (length xs) b it ≡ find_entry n xs (length xs) b it
  unfolding find_entry
  find_entry-prefix zero b it = refl
  find_entry-prefix (suc n) b it =
      rw (memcmp_eq-prefix xs b (it + 8), find_entry-prefix n b (it + le16 b (it + 4))) refl

  find_block-prefix :
      (n : ℕ) (d : Disk) (dir : AxInode) (device i : ℕ)
      → find_block n d dir (xs ++ ys) (length xs) device i
        ≡ find_block n d dir xs (length xs) device i
  unfolding find_block block_find_ino
  find_block-prefix zero d dir device i = refl
  find_block-prefix (suc n) d dir device i =
      rw
        (
          find_entry-prefix 1025 (d.byte device (sector_no (dir.i_block i))) 0,
          find_block-prefix n d dir device (i + 1),
        )
        refl

  pub dir_find_ino-prefix :
      (d : Disk) (dir : AxInode) (device : ℕ)
      → dir_find_ino d dir (xs ++ ys) (length xs) device ≡ dir_find_ino d dir xs (length xs) device
  unfolding dir_find_ino
  dir_find_ino-prefix d dir device = find_block-prefix 21 d dir device 0
