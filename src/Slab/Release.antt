-- ===== src/Slab/Release.antt =====
-- free_object of mm/slab.c: giving an object back to its slab.
use airix.Prelude.{
  ℕ, ◌+◌, ◌-◌, ◌<◌, ◌≡◌, sym, ap, subst, ◌∙◌, fun_ext, ◌≢◌, some, ◌∷◌, arith, ℕ_discrete, update,
  update_self,
}
use airix.Slab.{
  SlabPage, KmemCache, Slabs, unlink, slab_list_remove, free_object, virt_to_page,
  alloc_object_from_slab,
}
use airix.Slab.Lists.{Listed, own_lists, AllFiled, changed, changed-AllFiled}
use airix.Slab.Objects.{
  Placed-unlink, Placed-cons, Placed-same, Ready, alloc_object_from_slab-AllFiled,
}

-- The object is again the last one of the slab's available objects.
abbrev pub Returned : ℕ → ℕ → Slabs → Slabs → Type 0
Returned cache object s s' =
    (free_object cache object s ≡ some s')
    × (s'.slab (virt_to_page object) ≡ record (s.slab (virt_to_page object)) {
      avail = (s.slab (virt_to_page object)).avail + 1;
      free = update (s.slab (virt_to_page object)).free (s.slab (virt_to_page object)).avail object;
    })
    × AllFiled s'

pub free_object-AllFiled :
    (cache object : ℕ) (s : Slabs)
    → AllFiled s
    → (s.slab (virt_to_page object)).cache ≡ cache
    → (s.slab (virt_to_page object)).avail < (s.slab (virt_to_page object)).limit
    → (s' : Slabs) × Returned cache object s s'
unfolding free_object slab_list_remove
free_object-AllFiled cache object s v kept lt = elim (ℕ_discrete (page.avail + 1) page.limit) [
  | yes all ↦
      let c : KmemCache = record c₀ {
        full_slab = unlink x c₀.full_slab;
        partial_slab = unlink x c₀.partial_slab;
        free_slab = x ∷ unlink x c₀.free_slab;
      } in
      (
        changed s v x cache page' c own kept,
        (
          ground arith,
          more,
          changed-AllFiled s v x cache page' c own kept (Placed-unlink x _ c₀.full_slab)
              (Placed-unlink x _ c₀.partial_slab)
              (Placed-cons x _ c₀.free_slab (omega arith, omega arith)),
        ),
      )
  | no out ↦ elim (ℕ_discrete page.avail 0) [
    | yes first ↦
        let c : KmemCache = record c₀ {
          full_slab = unlink x c₀.full_slab;
          partial_slab = x ∷ unlink x c₀.partial_slab;
          free_slab = unlink x c₀.free_slab;
        } in
        (
          changed s v x cache page' c own kept,
          (
            ground arith,
            more,
            changed-AllFiled s v x cache page' c own kept (Placed-unlink x _ c₀.full_slab)
                (Placed-cons x _ c₀.partial_slab (omega arith, omega arith))
                (Placed-unlink x _ c₀.free_slab),
          ),
        )
    | no some_left ↦ (
      changed s v x cache page' c₀ own kept,
      (
        ground arith,
        more,
        changed-AllFiled s v x cache page' c₀ own kept
            (Placed-same x _ c₀.full_slab
              (λ m. absurd (some_left (omega (arith, (v cache).full x m)))))
            (Placed-same x _ c₀.partial_slab (λ m. (omega arith, omega arith)))
            (Placed-same x _ c₀.free_slab (λ m. absurd (omega (arith, (v cache).free x m)))),
      ),
    )
  ]
]
  where
    x : ℕ
    x = virt_to_page object

    page : SlabPage
    page = s.slab x

    c₀ : KmemCache
    c₀ = s.kmem_cache cache

    page' : SlabPage
    page' = record page { avail = page.avail + 1; free = update page.free page.avail object }

    own : (id : ℕ) → cache ≢ id → ¬ (Listed s id x)
    own id ne = own_lists s x v id (λ e. ne (sym kept ∙ e))

    more : update s.slab x page' x ≡ page'
    more = update_self s.slab x page'

update_same : (f : ℕ → ℕ) (i : ℕ) → update f i (f i) ≡ f
update_same f i = fun_ext (λ q. ground arith)

put_back :
    (p : SlabPage)
    → 0 < p.avail
    → record p {
      avail = p.avail - 1 + 1;
      free = update p.free (p.avail - 1) (p.free (p.avail - 1));
    }
      ≡ p
put_back p pos =
    ap (λ n. record p { avail = n; free = update p.free (p.avail - 1) (p.free (p.avail - 1)) })
      (omega arith)
    ∙ ap (λ f. record p { free = f }) (update_same p.free (p.avail - 1))

-- An object that is taken from a slab and given back leaves the slab as it was, with the object
-- again the next one to be taken, and the lists of every cache as they are said to be.
pub free_object-alloc_object_from_slab :
    (s : Slabs) (x : ℕ)
    → AllFiled s
    → Ready s x
    → virt_to_page ((s.slab x).free ((s.slab x).avail - 1)) ≡ x
    → (s' : Slabs) × (s'' : Slabs) × (alloc_object_from_slab x s
        ≡ some ((s.slab x).free ((s.slab x).avail - 1), s'))
      × (free_object (s.slab x).cache ((s.slab x).free ((s.slab x).avail - 1)) s' ≡ some s'')
      × (s''.slab x ≡ s.slab x)
      × AllFiled s''
free_object-alloc_object_from_slab s x v ready home =
    let (o, s', (t, object, page, v')) = alloc_object_from_slab-AllFiled s x v ready in
    let o : ℕ = (s.slab x).free ((s.slab x).avail - 1) in
    let at : s'.slab (virt_to_page o) ≡ record (s.slab x) { avail = (s.slab x).avail - 1 } =
      ap s'.slab home ∙ page in
    let (s'', (f, back, v'')) =
      free_object-AllFiled (s.slab x).cache o s' v' (ap (λ p. p.cache) at)
        (subst (λ p. p.avail < p.limit) (sym at) (omega arith)) in
    (
      s',
      s'',
      (t ∙ ap (λ n. some (n, s')) object),
      f,
      (ap s''.slab (sym home)
          ∙ back
          ∙ ap {A = SlabPage} {B = SlabPage}
              (λ p. record p { avail = p.avail + 1; free = update p.free p.avail o }) at
          ∙ put_back (s.slab x) ready.0),
      v'',
    )
