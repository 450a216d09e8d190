-- ===== src/Bio/Get.antt =====
-- What the searches and the allocation of `bio_get` find, and what they leave.
use airix.Prelude.{
  ℕ, ◌≡◌, refl, sym, subst, ◌∙◌, ◌≢◌, ◌⊎◌, inl, inr, true, false, Option, none, some, List, [], ◌∷◌,
  arith, ℕ_discrete, ltb, ◌==◌, if◌then◌else◌, Bool-cases, update, update_ne, Holds, Holds-some,
  Holds-bind, Holds-if,
}
use mathlib.Core.Option.{some-injective}
use airix.Pmm.Cover.{memb}
use airix.Bio.{
  max_cache_count, or_else, Bio, BioCache, is_busy, is_at, find_bio, slab_alloc_bio, Slabs,
  slab_alloc, pmm_alloc_pages, slab_free, find_unused_bio, alloc_bio_round,
}

-- A bio that is found is on the list and is the one looked for; none is found where none is.
pub find_bio_lem :
    (dev sector : ℕ) (bio : ℕ → Bio) (xs : List ℕ)
    → ((find_bio dev sector bio xs ≡ none)
        × ((x : ℕ) → memb x xs ≡ true → is_at dev sector (bio x) ≡ false))
      ⊎ ((x : ℕ) × (find_bio dev sector bio xs ≡ some x)
          × (memb x xs ≡ true)
          × (is_at dev sector (bio x) ≡ true))
unfolding find_bio memb
find_bio_lem dev sector bio [] = inl (refl, λ x m. cc)
find_bio_lem dev sector bio (y ∷ ys) = elim (Bool-cases (is_at dev sector (bio y))) [
  | inl here ↦ inr (y, rw here refl, ground arith, here)
  | inr other ↦ elim (find_bio_lem dev sector bio ys) [
    | inl (no_more, rest) ↦ inl (
      rw other no_more,
      λ x m. elim (ℕ_discrete y x) [
        | yes e ↦ subst (λ z. is_at dev sector (bio z) ≡ false) e other
        | no ne ↦ rest x (ground arith)
      ],
    )
    | inr (x, e, m, at) ↦ inr (x, rw other e, ground arith, at)
  ]
]

-- The list of bios, those on it and the sleepers at the list stay.
abbrev pub Kept : BioCache → BioCache → Type 0
Kept s s' =
    (s'.nodes ≡ s.nodes)
    × (s'.sleep ≡ s.sleep)
    × ((y : ℕ) → memb y s.nodes ≡ true → s'.bio y ≡ s.bio y)

-- The slab allocator gives no object that is on the list.
abbrev pub Fresh : BioCache → Type 0
Fresh s =
    (o : ℕ) (slabs : Slabs)
    → slab_alloc s.bio_cache s.slabs ≡ some (o, slabs)
    → memb o s.nodes ≡ false

apart : (o y : ℕ) (xs : List ℕ) → memb o xs ≡ false → memb y xs ≡ true → o ≢ y
apart o y xs no_o is_y e = absurd (cc)

-- What a round of `alloc_bio` leaves, and which bio it may give.
abbrev pub Round : BioCache → Option ℕ × BioCache → Type 0
Round s r =
    Kept s r.1 × ((x : ℕ) → r.0 ≡ some x → memb x s.nodes ≡ true → is_busy (s.bio x).flag ≡ false)

slab_alloc_bio-Round : (s : BioCache) → Fresh s → Holds (Round s) (slab_alloc_bio s)
unfolding slab_alloc_bio
slab_alloc_bio-Round s fresh =
    Holds-bind (Round s) (slab_alloc s.bio_cache s.slabs) _ λ (o, slabs) made.
      let off = fresh o slabs made in
      let same : (b : Bio) (y : ℕ) → memb y s.nodes ≡ true → update s.bio o b y ≡ s.bio y =
        λ b y m. update_ne s.bio o y b (apart o y s.nodes off m) in
      Holds-if (Round s) (o == 0)
        (λ z. Holds-some (Round s) _ ((refl, refl, λ y m. refl), λ x e m. cc))
        (λ nz. Holds-bind (Round s) (pmm_alloc_pages 0 slabs.pmm) _ λ page got_page.
          Holds-if (Round s) (page.0 == 0)
            (λ z.
              Holds-bind (Round s) (slab_free s.bio_cache o (record slabs { pmm = page.1 })) _
                λ freed f. Holds-some (Round s) _ ((refl, refl, same _), λ x e m. cc))
            (λ nz'. Holds-some (Round s) _ ((refl, refl, same _), λ x e m. cc)))

-- The search for a bio that can be reused.
find_unused_bio_lem :
    (bio : ℕ → Bio) (xs : List ℕ)
    → ((find_unused_bio bio xs ≡ none) × ((x : ℕ) → memb x xs ≡ true → is_busy (bio x).flag ≡ true))
      ⊎ ((x : ℕ) × (find_unused_bio bio xs ≡ some x)
          × (memb x xs ≡ true)
          × (is_busy (bio x).flag ≡ false))
unfolding find_unused_bio memb
find_unused_bio_lem bio [] = inl (refl, λ x m. cc)
find_unused_bio_lem bio (y ∷ ys) = elim (find_unused_bio_lem bio ys) [
  | inr (x, e, m, idle) ↦ inr (x, rw e refl, ground arith, idle)
  | inl (no_more, rest) ↦ elim (Bool-cases (is_busy (bio y).flag)) [
    | inl busy ↦ inl (
      rw (no_more, busy) refl,
      λ x m. elim (ℕ_discrete y x) [
        | yes e ↦ subst (λ z. is_busy (bio z).flag ≡ true) e busy
        | no ne ↦ rest x (ground arith)
      ],
    )
    | inr idle ↦ inr (y, rw (no_more, idle) refl, ground arith, idle)
  ]
]

abbrev pub AllBusy : BioCache → Type 0
AllBusy s = (x : ℕ) → memb x s.nodes ≡ true → is_busy (s.bio x).flag ≡ true

-- Between the two halves of a round.
reuse :
    (s : BioCache) (r : Option ℕ) (s' : BioCache)
    → Round s (r, s')
    → Round s (or_else r (find_unused_bio s'.bio s'.nodes), s')
      × (or_else r (find_unused_bio s'.bio s'.nodes) ≡ none → AllBusy s)
reuse s (some x) s' round = (round, λ e. cc)
reuse s none s' ((nodes, sleep, kept), given) = elim (find_unused_bio_lem s'.bio s'.nodes) [
  | inl (no_more, busy) ↦ (
    ((nodes, sleep, kept), λ x e m. cc),
    λ e x m.
        subst (λ b. is_busy b.flag ≡ true) (kept x m)
          (busy x (subst (λ l. memb x l ≡ true) (sym nodes) m)),
  )
  | inr (x, found, m, idle) ↦ (
    (
      (nodes, sleep, kept),
      λ y e m'.
          let same : x ≡ y = some-injective x y (sym found ∙ e) in
          subst (λ b. is_busy b.flag ≡ false) (kept y m')
            (subst (λ z. is_busy (s'.bio z).flag ≡ false) same idle),
    ),
    λ e. cc,
  )
]

pub alloc_bio_round-Round :
    (s : BioCache) → Fresh s → Holds (λ r. Round s r × (r.0 ≡ none → AllBusy s)) (alloc_bio_round s)
unfolding alloc_bio_round
alloc_bio_round-Round s fresh =
    Holds-bind P
      (if ltb s.bio_cache_count max_cache_count then slab_alloc_bio s else some (none, s)) _
      λ (r, s') made. Holds-some P _ (
        reuse s r s' (
          Holds-if (Round s) (ltb s.bio_cache_count max_cache_count)
            (λ below. slab_alloc_bio-Round s fresh)
            (λ full. Holds-some (Round s) _ ((refl, refl, λ y m. refl), λ x e m. cc)) (r, s') made))
  where
    P : Option ℕ × BioCache → Type 0
    P r = Round s r × (r.0 ≡ none → AllBusy s)
