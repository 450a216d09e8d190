-- ===== src/Slab/Take.antt =====
-- alloc_object of mm/slab.c: from a slab that has an object, or from a new slab.
use native.Mathlib.Nat.{le-div_iff_mul-le}
use airix.Pmm.Cover.{memb}
use airix.Prelude.{
  ℕ, ◌+◌, ◌-◌, ◌*◌, ◌/◌, ◌≤◌, ◌<◌, ◌≡◌, refl, sym, subst, ◌⊎◌, inl, inr, some, List, ◌∷◌, arith,
  ℕ_discrete, update_self,
}
use airix.Pmm.{Pmm, pmm_alloc_pages}
use airix.Slab.{KmemCache, Slabs, slab_header, new_slab_page, init_slab_page, p2v}
use airix.Slab.Lists.{Listed, AllFiled, Placed, changed-AllFiled}
use airix.Slab.Objects.{Placed-same, Ready}

-- A list that x is put on for the first time.
Placed-new : (x : ℕ) (P : Type 0) (xs : List ℕ) → P → Placed x P xs (x ∷ xs)
unfolding memb
Placed-new x P xs p y m = elim (ℕ_discrete x y) [
  | yes e ↦ inl (e, p)
  | no ne ↦ inr (ne, ground arith)
]

-- A page that is on no list becomes a slab with all its objects available.
pub init_slab_page-AllFiled :
    (cache x : ℕ) (s : Slabs)
    → AllFiled s
    → (s.kmem_cache cache).size ≤ 4068
    → ((id : ℕ) → ¬ (Listed s id x))
    → AllFiled (init_slab_page cache x s) × Ready (init_slab_page cache x s) x
unfolding init_slab_page new_slab_page
init_slab_page-AllFiled cache x s v small fresh = (
  changed-AllFiled s v x cache (new_slab_page cache c.size x)
      (record c { free_slab = x ∷ c.free_slab }) (λ id ne. fresh id) refl
      (Placed-same x _ c.full_slab (λ m. absurd (fresh cache (inl m))))
      (Placed-same x _ c.partial_slab (λ m. absurd (fresh cache (inr (inl m)))))
      (Placed-new x _ c.free_slab (room, refl)),
  subst (λ p. (0 < p.avail) × (p.avail ≤ p.limit))
      (sym (update_self s.slab x (new_slab_page cache c.size x))) (room, omega arith),
)
  where
    c : KmemCache
    c = s.kmem_cache cache

    room : 0 < (4096 - slab_header) / (c.size + 4)
    room = (le-div_iff_mul-le {k = c.size + 4} {x = 1} {y = 4072} (omega arith)).1 (omega arith)

-- The slab that an object is taken from was on a list of the cache, or is a new page.
abbrev pub Origin : ℕ → ℕ → Slabs → Type 0
Origin cache x s =
    Listed s cache x
    ⊎ ((b : ℕ) × (m : Pmm) × (pmm_alloc_pages 0 s.pmm ≡ some (b, m)) × (x ≡ p2v (b * 4096)))
