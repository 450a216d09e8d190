-- ===== src/Vfs/Tests.antt =====
-- The theorem on opening a file at a small disk.
use airix.Prelude.{none, some}
use airix.Slab.{Slabs, slab_alloc, kmalloc}
use airix.Axfs.Tests.{test_slabs}

abbrev with_path : Slabs
with_path = elim (kmalloc 3 test_slabs) [ none ↦ test_slabs | some r ↦ r.1 ]

abbrev with_inode : Slabs
with_inode = elim (slab_alloc 5 with_path) [ none ↦ test_slabs | some r ↦ r.1 ]
