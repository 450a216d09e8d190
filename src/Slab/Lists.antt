-- ===== src/Slab/Lists.antt =====
-- The slab lists of a cache of mm/slab.c, and changes of one slab and its place.
use airix.Prelude.{
  ℕ, ◌<◌, ◌≡◌, sym, subst, ◌∙◌, ◌≢◌, ◌⊎◌, inl, inr, true, List, [], ◌∷◌, arith, ℕ_discrete, update,
  update_self, update_ne,
}
use airix.Pmm.Cover.{memb}
use airix.Slab.{SlabPage, KmemCache, Slabs, unlink}

pub memb-unlink :
    (x y : ℕ) (xs : List ℕ) → memb x (unlink y xs) ≡ true → (x ≢ y) × (memb x xs ≡ true)
unfolding memb unlink
memb-unlink x y [] h = cc
memb-unlink x y (z ∷ zs) h = elim (ℕ_discrete y z) [
  | yes e ↦ let (ne, m) = memb-unlink x y zs (ground arith) in (ne, ground arith)
  | no other ↦ elim (ℕ_discrete z x) [
    | yes e ↦ ((λ same. other (sym (e ∙ same))), ground arith)
    | no miss ↦ let (ne, m) = memb-unlink x y zs (ground arith) in (ne, ground arith)
  ]
]

-- A cache's slabs are its own; those on the full list have no available object, those on the
-- partial list some but not all, and those on the free list all.
pub record IsFiled (s : Slabs) (id : ℕ) : Type 0 where
  pub full :
      (x : ℕ)
      → memb x (s.kmem_cache id).full_slab ≡ true
      → ((s.slab x).avail ≡ 0) × (0 < (s.slab x).limit) × ((s.slab x).cache ≡ id)
  pub partial :
      (x : ℕ)
      → memb x (s.kmem_cache id).partial_slab ≡ true
      → (0 < (s.slab x).avail) × ((s.slab x).avail < (s.slab x).limit) × ((s.slab x).cache ≡ id)
  pub free :
      (x : ℕ)
      → memb x (s.kmem_cache id).free_slab ≡ true
      → (0 < (s.slab x).avail) × ((s.slab x).avail ≡ (s.slab x).limit) × ((s.slab x).cache ≡ id)

abbrev pub AllFiled : Slabs → Type 0
AllFiled s = (id : ℕ) → IsFiled s id

-- The members of a changed list: the slab x, of which P holds, and members of the old list.
abbrev pub Placed : ℕ → Type 0 → List ℕ → List ℕ → Type 0
Placed x P xs xs' = (y : ℕ) → memb y xs' ≡ true → ((x ≡ y) × P) ⊎ ((x ≢ y) × (memb y xs ≡ true))

-- The slab is on a list of the cache.
abbrev pub Listed : Slabs → ℕ → ℕ → Type 0
Listed s id x =
    (memb x (s.kmem_cache id).full_slab ≡ true)
    ⊎ ((memb x (s.kmem_cache id).partial_slab ≡ true) ⊎ (memb x (s.kmem_cache id).free_slab ≡ true))

-- A slab is on the lists of its own cache only.
pub own_lists :
    (s : Slabs) (x : ℕ) → AllFiled s → (id : ℕ) → (s.slab x).cache ≢ id → ¬ (Listed s id x)
own_lists s x v id ne (inl m) = ne ((v id).full x m).2
own_lists s x v id ne (inr (inl m)) = ne ((v id).partial x m).2
own_lists s x v id ne (inr (inr m)) = ne ((v id).free x m).2

-- The lists stay as they are said to be if one slab and the lists of its cache are changed so.
module _ (s : Slabs) (v : AllFiled s) (x id₀ : ℕ) (page : SlabPage) (c : KmemCache)
    (own : (id : ℕ) → id₀ ≢ id → ¬ (Listed s id x)) (kept : page.cache ≡ id₀) where
  abbrev pub changed : Slabs
  changed = record s { slab = update s.slab x page; kmem_cache = update s.kmem_cache id₀ c }

  pub changed-AllFiled :
      Placed x ((page.avail ≡ 0) × (0 < page.limit)) (s.kmem_cache id₀).full_slab c.full_slab
      → Placed x
          ((0 < page.avail) × (page.avail < page.limit))
          (s.kmem_cache id₀).partial_slab
          c.partial_slab
      → Placed x
          ((0 < page.avail) × (page.avail ≡ page.limit))
          (s.kmem_cache id₀).free_slab
          c.free_slab
      → AllFiled changed
  changed-AllFiled f p r id = elim (ℕ_discrete id₀ id) [
    | yes e ↦ subst (IsFiled changed) e (record {
      full = λ y m.
          elim (f y (subst (λ k. memb y k.full_slab ≡ true) (update_self s.kmem_cache id₀ c) m)) [
            | inl (same, q) ↦ ground (arith, kept)
            | inr (ne, old) ↦ ground (arith, (v id₀).full y old)
          ];
      partial = λ y m.
          elim (p y
            (subst (λ k. memb y k.partial_slab ≡ true) (update_self s.kmem_cache id₀ c) m)) [
              | inl (same, q) ↦ ground (arith, kept)
              | inr (ne, old) ↦ ground (arith, (v id₀).partial y old)
            ];
      free = λ y m.
          elim (r y (subst (λ k. memb y k.free_slab ≡ true) (update_self s.kmem_cache id₀ c) m)) [
            | inl (same, q) ↦ ground (arith, kept)
            | inr (ne, old) ↦ ground (arith, (v id₀).free y old)
          ];
    })
    | no ne ↦
        let other : changed.kmem_cache id ≡ s.kmem_cache id = update_ne s.kmem_cache id₀ id c ne in
        record {
          full = λ y m.
              let at = subst (λ k. memb y k.full_slab ≡ true) other m in
              let old = (v id).full y at in
              let apart : x ≢ y = λ e.
                own id ne
                  (inl (subst (λ z. memb z (s.kmem_cache id).full_slab ≡ true) (sym e) at)) in
              ground (arith, old);
          partial = λ y m.
              let at = subst (λ k. memb y k.partial_slab ≡ true) other m in
              let old = (v id).partial y at in
              let apart : x ≢ y = λ e. own id ne (
                inr (inl (subst (λ z. memb z (s.kmem_cache id).partial_slab ≡ true) (sym e) at))) in
              ground (arith, old);
          free = λ y m.
              let at = subst (λ k. memb y k.free_slab ≡ true) other m in
              let old = (v id).free y at in
              let apart : x ≢ y = λ e.
                own id ne
                  (inr (inr (subst (λ z. memb z (s.kmem_cache id).free_slab ≡ true) (sym e) at))) in
              ground (arith, old);
        }
  ]
