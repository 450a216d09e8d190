-- ===== src/Paging/Kernel.antt =====
-- pg_init_paging and pg_complete_paging of mm/paging.c: the whole of the kernel's directory.
use airix.Paging.{Paging}
