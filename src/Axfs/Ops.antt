-- ===== src/Axfs/Ops.antt =====
-- fs/axfs.c: the file operations; fs/fs.h: `struct file` and `struct inode`. An inode of a file and
-- the copy of a path are known by their addresses. `none` outside is a panic, `none` inside is -1.
use airix.Prelude.{
  ℕ, ◌+◌, ◌%◌, ◌^◌, not, ◌||◌, Option, none, some, List, [], ◌==◌, if◌then◌else◌, update, ◌>>=◌,
}
use airix.Axfs.{Disk, Ax, namei, read_file, get_super_block, inode_release, ax_s_ifdir}

-- `enum open_flags`.
abbrev pub o_rdonly : ℕ
o_rdonly = 1

abbrev pub o_rdwr : ℕ
o_rdwr = 4

-- `struct inode`; `i_private` is an inode of the file system.
pub record Inode : Type 0 where
  pub i_device : ℕ
  pub i_ino : ℕ
  pub i_private : ℕ

-- `struct mount`: the device, and which file system it has.
pub data FileSystem : Type 0 where
  axfs : FileSystem

pub record Mount : Type 0 where
  pub device : ℕ
  pub fs : FileSystem

-- `struct file`; the operations are those of a file system, 0 is a null pointer.
pub record File : Type 0 where
  pub f_mount : Option Mount
  pub f_op : Option FileSystem
  pub f_path : ℕ
  pub f_inode : ℕ
  pub f_pos : ℕ
  pub f_refs : ℕ
  pub f_flags : ℕ

-- The caches, the inodes of files and the copies of paths.
pub record Vfs : Type 0 where
  pub ax : Ax
  pub file_cache : ℕ
  pub inode_cache : ℕ
  pub inodes : ℕ → Inode
  pub paths : ℕ → List ℕ

unfoldable pub ax_open : Disk → File → Vfs → Option (Option ℕ × Vfs)
ax_open d file s =
    let inode = s.inodes file.f_inode in
    let sb = get_super_block d inode.i_device in
    if not (file.f_flags == o_rdonly)
    then some (none, s)
    else (namei d sb inode.i_device (s.paths file.f_path) 0 s.ax >>= λ r.
        let node = r.0 in
        let ino = r.1 in
        let ax = r.2 in
        if (node == 0) || ((ax.inode node).i_mode == ax_s_ifdir)
        then (inode_release node ax >>= λ ax'. some (none, record s { ax = ax' }))
        else some (
          some 0,
          record s {
            ax = ax;
            inodes = update s.inodes file.f_inode (record inode { i_ino = ino; i_private = node });
          },
        ))

pub ax_close : File → Vfs → Option (Option ℕ × Vfs)
ax_close file s = inode_release (s.inodes file.f_inode).i_private s.ax >>= λ ax.
    some (some 0, record s { ax = ax })

-- What is returned, what is in the buffer, and the file with its position.
unfoldable pub ax_read : Disk → File → ℕ → Vfs → Option ℕ × List ℕ × File
ax_read d file size s =
    let inode = s.inodes file.f_inode in
    let r = read_file d inode.i_device (s.ax.inode inode.i_private) file.f_pos size in
    if not ((file.f_flags == o_rdonly) || (file.f_flags == o_rdwr)) then (none, [], file) else (
      r.0,
      r.1,
      elim r.0 [ none ↦ file | some read ↦ record file { f_pos = (file.f_pos + read) % 2 ^ 64 } ],
    )

pub ax_write : File → List ℕ → Vfs → Option ℕ
ax_write file buffer s = none
