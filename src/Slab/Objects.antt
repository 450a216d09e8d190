-- ===== src/Slab/Objects.antt =====
-- alloc_object_from_slab of mm/slab.c: what happens to the slab and its lists.
use airix.Prelude.{
  ℕ, ◌+◌, ◌-◌, ◌≤◌, ◌<◌, ◌≡◌, refl, sym, subst, ◌≢◌, inl, inr, true, some, List, ◌∷◌, arith,
  ℕ_discrete, update, update_self,
}
use airix.Pmm.Cover.{memb}
use airix.Slab.{SlabPage, KmemCache, Slabs, unlink, slab_list_remove, alloc_object_from_slab}
use airix.Slab.Lists.{memb-unlink, AllFiled, Placed, Listed, own_lists, changed, changed-AllFiled}

-- A list that does not hold x any more.
pub Placed-unlink : (x : ℕ) (P : Type 0) (xs : List ℕ) → Placed x P xs (unlink x xs)
Placed-unlink x P xs y m = let (ne, old) = memb-unlink y x xs m in inr ((λ e. ne (sym e)), old)

-- A list that x is put on.
pub Placed-cons : (x : ℕ) (P : Type 0) (xs : List ℕ) → P → Placed x P xs (x ∷ unlink x xs)
unfolding memb
Placed-cons x P xs p y m = elim (ℕ_discrete x y) [
  | yes e ↦ inl (e, p)
  | no ne ↦ Placed-unlink x P xs y (ground arith)
]

-- A list that x is not on stays.
pub Placed-same : (x : ℕ) (P : Type 0) (xs : List ℕ) → (memb x xs ≡ true → P) → Placed x P xs xs
Placed-same x P xs p y m = elim (ℕ_discrete x y) [
  | yes e ↦ inl (e, p (subst (λ z. memb z xs ≡ true) (sym e) m))
  | no ne ↦ inr (ne, m)
]

-- What is known of a slab that an object is taken from.
abbrev pub Ready : Slabs → ℕ → Type 0
Ready s x = (0 < (s.slab x).avail) × ((s.slab x).avail ≤ (s.slab x).limit)

abbrev pub Took : ℕ → Slabs → ℕ → Slabs → Type 0
Took x s o s' =
    (alloc_object_from_slab x s ≡ some (o, s'))
    × (o ≡ (s.slab x).free ((s.slab x).avail - 1))
    × (s'.slab x ≡ record (s.slab x) { avail = (s.slab x).avail - 1 })
    × AllFiled s'

pub alloc_object_from_slab-AllFiled :
    (s : Slabs) (x : ℕ) → AllFiled s → Ready s x → (o : ℕ) × (s' : Slabs) × Took x s o s'
unfolding alloc_object_from_slab slab_list_remove
alloc_object_from_slab-AllFiled s x v (pos, le) = elim (ℕ_discrete (page.avail - 1) 0) [
  | yes last ↦
      let c : KmemCache = record c₀ {
        full_slab = x ∷ unlink x c₀.full_slab;
        partial_slab = unlink x c₀.partial_slab;
        free_slab = unlink x c₀.free_slab;
      } in
      (
        object,
        changed s v x page.cache page' c own refl,
        (
          ground arith,
          refl,
          less,
          changed-AllFiled s v x page.cache page' c own refl
              (Placed-cons x _ c₀.full_slab (omega arith, omega arith))
              (Placed-unlink x _ c₀.partial_slab) (Placed-unlink x _ c₀.free_slab),
        ),
      )
  | no more ↦ elim (ℕ_discrete (page.avail - 1 + 1) page.limit) [
    | yes first ↦
        let c : KmemCache = record c₀ {
          full_slab = unlink x c₀.full_slab;
          partial_slab = x ∷ unlink x c₀.partial_slab;
          free_slab = unlink x c₀.free_slab;
        } in
        (
          object,
          changed s v x page.cache page' c own refl,
          (
            ground arith,
            refl,
            less,
            changed-AllFiled s v x page.cache page' c own refl (Placed-unlink x _ c₀.full_slab)
                (Placed-cons x _ c₀.partial_slab (omega arith, omega arith))
                (Placed-unlink x _ c₀.free_slab),
          ),
        )
    | no some_left ↦ (
      object,
      changed s v x page.cache page' c₀ own refl,
      (
        ground arith,
        refl,
        less,
        changed-AllFiled s v x page.cache page' c₀ own refl
            (Placed-same x _ c₀.full_slab
              (λ m. absurd (more (omega (arith, (v page.cache).full x m)))))
            (Placed-same x _ c₀.partial_slab (λ m. (omega arith, omega arith)))
            (Placed-same x _ c₀.free_slab
              (λ m. absurd (some_left (omega (arith, (v page.cache).free x m))))),
      ),
    )
  ]
]
  where
    own : (id : ℕ) → (s.slab x).cache ≢ id → ¬ (Listed s id x)
    own = own_lists s x v

    page : SlabPage
    page = s.slab x

    c₀ : KmemCache
    c₀ = s.kmem_cache page.cache

    object : ℕ
    object = page.free (page.avail - 1)

    page' : SlabPage
    page' = record page { avail = page.avail - 1 }

    less : update s.slab x page' x ≡ page'
    less = update_self s.slab x page'
