-- ===== src/Axfs/Open.antt =====
-- fs/axfs.c: `namei` and `ax_open` against the walk along the path.
use airix.Prelude.{
  ℕ, ◌+◌, ◌≡◌, refl, sym, subst, ◌≢◌, ◌⊎◌, inl, inr, true, false, none, some, List, ◌∷◌, arith,
  ℕ_discrete, ◌==◌, length, update, update_self,
}
use airix.Slab.{Slabs, slab_alloc, slab_free}
use airix.Axfs.{Disk, AxInode, AxSuperBlock, Ax, namei, ax_s_ifdir, get_super_block}
use airix.Axfs.Names.{names}
use airix.Axfs.Path.{
  inode_release_null, disk_inode, walk, Paired, Lasts, namex-walk, inode_get_lem, inode_release_lem,
  held, not_null, no_more, pair,
}
use airix.Axfs.Ops.{File, Vfs, ax_open}

-- An object of the cache that is taken and kept.
abbrev pub Taken : ℕ → ℕ → Slabs → Slabs → Type 0
Taken cache p s s' = (s₁ : Slabs) × Paired cache s s₁ × (slab_alloc cache s₁ ≡ some (p, s'))

Paired-pair :
    (cache p : ℕ) {s s₁ s₂ s₃ : Slabs}
    → Paired cache s s₁
    → slab_alloc cache s₁ ≡ some (p, s₂)
    → slab_free cache p s₂ ≡ some s₃
    → Paired cache s s₃
Paired-pair cache p no_more alloc free = pair p alloc free no_more
Paired-pair cache p (pair q a f rest) alloc free = pair q a f (Paired-pair cache p rest alloc free)

==_eq : (a b : ℕ) → a ≡ b → (a == b) ≡ true
==_eq a b h = ground arith

==_ne : (a b : ℕ) → a ≢ b → (a == b) ≡ false
==_ne a b h = ground arith

abbrev super_of : Disk → File → Vfs → AxSuperBlock
super_of d file s = get_super_block d (s.inodes file.f_inode).i_device

-- The inode number that a path behind its first separator stands for.
abbrev pub target : Disk → File → List ℕ → Vfs → ℕ
target d file path s = walk d (super_of d file s) (s.inodes file.f_inode).i_device (names path) 1

abbrev pub target_inode : Disk → File → List ℕ → Vfs → AxInode
target_inode d file path s =
    disk_inode d (super_of d file s) (s.inodes file.f_inode).i_device (target d file path s)

-- -1, with every inode given back and nothing of the files changed.
abbrev pub Refused : Disk → File → Vfs → Type 0
Refused d file s =
    (ax : Ax) × (ax_open d file s ≡ some (none, record s { ax = ax }))
    × Paired s.ax.inode_cache s.ax.slabs ax.slabs

-- 0, with one inode kept, which is a copy of the file's on the disk.
abbrev pub Opened : Disk → File → List ℕ → Vfs → Type 0
Opened d file path s =
    (p : ℕ) × (s' : Vfs) × (ax_open d file s ≡ some (some 0, s'))
    × (p ≢ 0)
    × Taken s.ax.inode_cache p s.ax.slabs s'.ax.slabs
    × (s'.ax.inode p ≡ target_inode d file path s)
    × (s'.inodes file.f_inode
        ≡ record (s.inodes file.f_inode) { i_ino = target d file path s; i_private = p })

-- With an inode cache that can give and take back an object for each name of the path and one more,
-- opening an absolute path for reading returns -1 exactly where a name is missing, or the path stands
-- for a directory, and has then given back each inode it has taken; otherwise it returns 0, and the
-- file's inode has the number that the walk gives and the only inode that was kept, a copy of the one
-- on the disk.
pub ax_open-Opened :
    (d : Disk) (file : File) (path : List ℕ) (s : Vfs)
    → file.f_flags ≡ 1
    → s.paths file.f_path ≡ 47 ∷ path
    → Lasts s.ax.inode_cache (length (names path) + 1) s.ax.slabs
    → (((target d file path s ≡ 0) ⊎ ((target_inode d file path s).i_mode ≡ ax_s_ifdir))
        × Refused d file s)
      ⊎ ((target d file path s ≢ 0)
          × ((target_inode d file path s).i_mode ≢ ax_s_ifdir)
          × Opened d file path s)
unfolding ax_open namei Lasts
ax_open-Opened d file path s rdonly at lasts =
    let device : ℕ = (s.inodes file.f_inode).i_device in
    let sb : AxSuperBlock = super_of d file s in
    let ino : ℕ = target d file path s in
    let node : AxInode = target_inode d file path s in
    let cache : ℕ = s.ax.inode_cache in
    let (ax, e, paired, same, still) = namex-walk d sb device 1 path 1 s.ax lasts in
    elim (ℕ_discrete ino 0) [
      | yes missing ↦
          inl (inl missing, (ax, rw (rdonly, at, e, missing, inode_release_null ax) refl, paired))
      | no found ↦
          let (p, s₁, s₂, alloc, some_p, free, over) = still found in
          let same_alloc = subst (λ c. slab_alloc c ax.slabs ≡ some (p, s₁)) (sym same) alloc in
          let same_free = subst (λ c. slab_free c p s₁ ≡ some s₂) (sym same) free in
          let taken : Ax = held d sb device p ino s₁ ax in
          let got = inode_get_lem d sb device p ino s₁ ax same_alloc some_p in
          let in_memory : taken.inode p ≡ node = update_self ax.inode p node in
          elim (ℕ_discrete node.i_mode ax_s_ifdir) [
            | yes is_dir ↦ inl (
              inr is_dir,
              (
                record taken { slabs = s₂ },
                rw
                    (
                      rdonly,
                      at,
                      e,
                      not_null ino found,
                      got,
                      not_null p some_p,
                      in_memory,
                      ==_eq node.i_mode ax_s_ifdir is_dir,
                      inode_release_lem d sb device p s₂ taken same_free some_p,
                    )
                    refl,
                Paired-pair cache p paired alloc free,
              ),
            )
            | no is_file ↦ inr (
              found,
              is_file,
              (
                p,
                record s {
                  ax = taken;
                  inodes =
                      update s.inodes file.f_inode
                        (record (s.inodes file.f_inode) { i_ino = ino; i_private = p });
                },
                rw
                    (
                      rdonly,
                      at,
                      e,
                      not_null ino found,
                      got,
                      not_null p some_p,
                      in_memory,
                      (==_ne node.i_mode ax_s_ifdir is_file),
                    )
                    refl,
                some_p,
                (ax.slabs, paired, alloc),
                in_memory,
                update_self s.inodes file.f_inode _,
              ),
            )
          ]
    ]
