-- ===== src/Slab/Layout.antt =====
-- How a new slab divides its page, and which cache `kmalloc` takes.
use airix.Prelude.{ℕ, ◌+◌, ◌*◌, ◌≤◌, ◌<◌, ◌≡◌}
use airix.Slab.{SlabPage, virt_to_page, slab_header}

-- A new slab at a page's address: the header with the array of free objects ends before the first
-- object; every object of the array lies in the page after the header, also as its page is found
-- again; two of them do not overlap; and all are available.
pub record IsLaidOut (slab size : ℕ) (p : SlabPage) : Type 0 where
  pub header : slab + slab_header + 4 * p.limit ≤ p.object_base
  pub all : p.avail ≡ p.limit
  pub within :
      (i : ℕ)
      → i < p.limit
      → (p.object_base ≤ p.free i)
        × (p.free i + size ≤ slab + 4096)
        × (virt_to_page (p.free i) ≡ slab)
  pub apart : (i j : ℕ) → i < j → j < p.limit → p.free i + size ≤ p.free j
