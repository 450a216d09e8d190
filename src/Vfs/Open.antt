-- ===== src/Vfs/Open.antt =====
-- fs/fs.c: `vfs_open` over `ax_open` of fs/axfs.c.
use airix.Prelude.{ℕ, ◌≡◌, ◌≢◌, none, some, List, ◌∷◌, update, ◌>>=◌}
use airix.Slab.{Slabs, slab_free, kfree}
use airix.Axfs.{Disk, AxInode, Ax, get_super_block}
use airix.Axfs.Names.{names}
use airix.Axfs.Path.{disk_inode, walk, Paired}
use airix.Axfs.Ops.{Inode, File, Vfs, axfs}
use airix.Axfs.Open.{Taken}
use airix.Vfs.{vfs_open, root}

-- The inode number that a path behind its first separator has on the root device, and the inode.
abbrev pub root_ino : Disk → List ℕ → ℕ
root_ino d path = walk d (get_super_block d 1) 1 (names path) 1

abbrev pub root_inode : Disk → List ℕ → AxInode
root_inode d path = disk_inode d (get_super_block d 1) 1 (root_ino d path)

-- The file that is being opened, with its copy of the path and its inode.
abbrev opening : File → ℕ → ℕ → File
opening file q i = record file {
  f_mount = some root;
  f_op = some axfs;
  f_path = q;
  f_inode = i;
  f_flags = 1;
}

-- The state behind the two allocations: the copy of the path, and an inode of the root device.
abbrev ready : Vfs → List ℕ → ℕ → ℕ → Slabs → Vfs
ready s path q i slabs =
    let zeroed = update s.inodes i (record { i_device = 0; i_ino = 0; i_private = 0 }) in
    record s {
      ax = record s.ax { slabs = slabs };
      paths = update s.paths q path;
      inodes = update zeroed i (record (zeroed i) { i_device = 1 });
    }

on_root : Inode → Inode
on_root n = record n { i_device = 1 }

-- What an error leaves: the path and the inode are given back, and the file has neither.
abbrev pub Closed : Disk → File → List ℕ → ℕ → ℕ → Slabs → Vfs → Type 0
Closed d file path q i slabs s =
    (ax : Ax) × Paired s.ax.inode_cache slabs ax.slabs
    × (vfs_open d file (47 ∷ path) 1 s ≡ (
        kfree q ax.slabs >>= λ t. slab_free s.inode_cache i t >>= λ t'. some (
          none,
          record (opening file q i) { f_path = 0; f_inode = 0 },
          record (ready s (47 ∷ path) q i slabs) { ax = record ax { slabs = t' } },
        )))

-- What success gives: the file, whose inode is the only one kept, a copy of the one on the disk.
abbrev pub Succeeds : Disk → File → List ℕ → ℕ → ℕ → Slabs → Vfs → Type 0
Succeeds d file path q i slabs s =
    (p : ℕ) × (s' : Vfs) × (vfs_open d file (47 ∷ path) 1 s ≡ some (some 0, opening file q i, s'))
    × (p ≢ 0)
    × Taken s.ax.inode_cache p slabs s'.ax.slabs
    × (s'.ax.inode p ≡ root_inode d path)
    × (s'.inodes i ≡ (record { i_device = 1; i_ino = root_ino d path; i_private = p }))
