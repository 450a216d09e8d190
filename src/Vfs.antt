-- ===== src/Vfs.antt =====
-- fs/fs.c. A file is passed by value; a path is the list of its bytes before the zero. `none` is a
-- panic.
pub mod Open
pub mod Tests
use airix.Prelude.{
  ℕ, ◌+◌, ◌||◌, Option, none, some, List, [], ◌∷◌, ◌==◌, if◌then◌else◌, length, update, ◌>>=◌,
}
use airix.Slab.{Slabs, slab_alloc, slab_free, slab_create_kmem_cache, kmalloc, kfree}
use airix.Axfs.{Disk, ax_fs_initialize}
use airix.Axfs.Ops.{axfs, Mount, File, Vfs, ax_open, ax_close, ax_read, ax_write}

-- The mount that `vfs_initialize` makes, of a path that begins with '/'.
abbrev pub root : Mount
root = record { device = 1; fs = axfs }

pub find_mount : List ℕ → Option Mount
find_mount [] = none
find_mount (x ∷ path) = if x == 47 then some root else none

abbrev pub with_slabs : Slabs → Vfs → Vfs
with_slabs slabs s = record s { ax = record s.ax { slabs = slabs } }

-- The address of the copy, 0 for a null pointer.
pub path_dup : List ℕ → Vfs → Option (ℕ × Vfs)
path_dup path s = kmalloc (length path + 1) s.ax.slabs >>= λ r.
    let s' = with_slabs r.1 s in
    if r.0 == 0 then some (0, s') else some (r.0, record s' { paths = update s.paths r.0 path })

pub free_path : File → Vfs → Option (File × Vfs)
free_path file s =
    kfree file.f_path s.ax.slabs >>= λ slabs. some (record file { f_path = 0 }, with_slabs slabs s)

pub alloc_inode : Vfs → Option (ℕ × Vfs)
alloc_inode s = slab_alloc s.inode_cache s.ax.slabs >>= λ r.
    let s' = with_slabs r.1 s in
    if r.0 == 0
    then some (0, s')
    else some (
      r.0,
      record s' {
        inodes = update s.inodes r.0 (record { i_device = 0; i_ino = 0; i_private = 0 });
      },
    )

pub free_inode : File → Vfs → Option (File × Vfs)
free_inode file s = slab_free s.inode_cache file.f_inode s.ax.slabs >>= λ slabs.
    some (record file { f_inode = 0 }, with_slabs slabs s)

-- 32 and 12 are sizeof(struct file) and sizeof(struct inode).
pub vfs_initialize : Vfs → Option Vfs
vfs_initialize s = slab_create_kmem_cache 32 4 s.ax.slabs >>= λ f.
    slab_create_kmem_cache 12 4 f.1 >>= λ i.
    ax_fs_initialize (record s.ax { slabs = i.1 }) >>= λ ax.
    some (record s { ax = ax; file_cache = f.0; inode_cache = i.0 })

abbrev pub zero_file : File
zero_file = record {
  f_mount = none;
  f_op = none;
  f_path = 0;
  f_inode = 0;
  f_pos = 0;
  f_refs = 0;
  f_flags = 0;
}

pub vfs_alloc_file : Vfs → Option (ℕ × File × Vfs)
vfs_alloc_file s =
    slab_alloc s.file_cache s.ax.slabs >>= λ r. some (r.0, zero_file, with_slabs r.1 s)

pub vfs_free_file : ℕ → Vfs → Option Vfs
vfs_free_file file s = slab_free s.file_cache file s.ax.slabs >>= λ slabs. some (with_slabs slabs s)

-- `file->f_op->open(file)`, and an error behind it.
pub open_inode : Disk → File → Vfs → Option (Option ℕ × File × Vfs)
open_inode d file s = ax_open d file s >>= λ r. elim r.0 [
  | some code ↦ some (some code, file, r.1)
  | none ↦ free_path file r.1 >>= λ p. free_inode p.0 p.1 >>= λ q. some (none, q.0, q.1)
]

pub vfs_open : Disk → File → List ℕ → ℕ → Vfs → Option (Option ℕ × File × Vfs)
vfs_open d file path flags s = find_mount path >>= λ mount. path_dup path s >>= λ p.
    alloc_inode p.1 >>= λ i.
    let file' = record file {
      f_mount = some mount;
      f_op = some mount.fs;
      f_path = p.0;
      f_inode = i.0;
      f_flags = flags;
    } in
    let s' = record i.1 {
      inodes = update i.1.inodes i.0 (record (i.1.inodes i.0) { i_device = mount.device });
    } in
    if (p.0 == 0) || (i.0 == 0) then none else open_inode d file' s'

-- A read or a write of a file that has no operations goes through a null pointer.
pub vfs_read : Disk → File → ℕ → Vfs → Option (Option ℕ × List ℕ × File)
vfs_read d file bytes s = elim file.f_op [ none ↦ none | some op ↦ some (ax_read d file bytes s) ]

pub vfs_write : File → List ℕ → Vfs → Option (Option ℕ)
vfs_write file bytes s = elim file.f_op [ none ↦ none | some op ↦ some (ax_write file bytes s) ]

pub vfs_close : File → Vfs → Option (ℕ × File × Vfs)
vfs_close file s = elim file.f_op [
  | none ↦ none
  | some op ↦ ax_close file s >>= λ r.
      free_path file r.1 >>= λ p. free_inode p.0 p.1 >>= λ q. some (0, q.0, q.1)
]
