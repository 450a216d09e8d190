-- ===== src/Bio/Claim.antt =====
-- The end of bio_get of kernel/bio.c: who gets a bio, and what it then is.
use airix.Prelude.{
  ℕ, ◌+◌, ◌-◌, ◌%◌, ◌<◌, ◌≡◌, refl, sym, ap, subst, ◌∙◌, ◌≢◌, true, false, ◌∷◌, arith, ℕ_discrete,
  test_bit, set_bit, update, update_self, update_ne,
}
use airix.Pmm.Cover.{memb}
use airix.Slab.{unlink}
use airix.Slab.Lists.{memb-unlink}
use airix.Bio.{
  Bio, BioCache, is_busy, is_at, base_sector, sectors_per_bio, got, claim_bio, bio_flag_reffed,
}

-- No two bios on the list are for the same sectors.
abbrev pub Unique : BioCache → Type 0
Unique s =
    (x y : ℕ)
    → memb x s.nodes ≡ true
    → memb y s.nodes ≡ true
    → (s.bio x).dev ≡ (s.bio y).dev
    → (s.bio x).sector ≡ (s.bio y).sector
    → x ≡ y

-- The bio x is for the sector, is held, and comes first; the other bios on the list stay.
abbrev pub Claimed : ℕ → ℕ → ℕ → BioCache → BioCache → Type 0
Claimed dev sector x s s' =
    ((s'.bio x).dev ≡ dev)
    × ((s'.bio x).sector ≡ base_sector sector)
    × ((s'.bio x).sector + (s'.bio x).iter ≡ sector)
    × ((s'.bio x).iter < sectors_per_bio)
    × (test_bit (s'.bio x).flag bio_flag_reffed ≡ true)
    × (s'.nodes ≡ x ∷ unlink x s.nodes)
    × ((y : ℕ) → memb y s.nodes ≡ true → x ≢ y → s'.bio y ≡ s.bio y)

pub claim_new :
    (proc dev sector x : ℕ) (s : BioCache)
    → (s.bio x).dev ≡ dev
    → (s.bio x).sector ≡ base_sector sector
    → is_busy (s.bio x).flag ≡ false
    → (s' : BioCache) × (claim_bio proc sector x s ≡ (got x, s')) × Claimed dev sector x s s'
unfolding claim_bio
claim_new proc dev sector x s d e idle = (
  claimed,
  rw idle refl,
  (
    (ap (λ p. p.dev) own ∙ d),
    (ap (λ p. p.sector) own ∙ e),
    (ap (λ p. p.sector + p.iter) own ∙ omega (arith, e)),
    subst (λ p. p.iter < 8) (sym own) (omega (arith, e)),
    (ap (λ p. test_bit p.flag bio_flag_reffed) own ∙ ground arith),
    refl,
    λ y m ne. update_ne s.bio x y b ne,
  ),
)
  where
    b : Bio
    b = record (s.bio x) {
      iter = (sector - (s.bio x).sector) % 256;
      flag = set_bit (s.bio x).flag bio_flag_reffed;
    }

    claimed : BioCache
    claimed = record s { nodes = x ∷ unlink x s.nodes; bio = update s.bio x b }

    own : update s.bio x b x ≡ b
    own = update_self s.bio x b

-- A list without other bios for the sectors has one bio for each afterwards.
pub Claimed-Unique :
    (dev sector x : ℕ) (s s' : BioCache)
    → Unique s
    → ((y : ℕ) → memb y s.nodes ≡ true → x ≢ y → is_at dev (base_sector sector) (s.bio y) ≡ false)
    → Claimed dev sector x s s'
    → Unique s'
unfolding memb
Claimed-Unique dev sector x s s' unique other (d, e, sum, small, held, nodes, kept) y z my mz ed
      es =
    elim (ℕ_discrete x y) [
      | yes xy ↦ elim (ℕ_discrete x z) [
        | yes xz ↦ sym xy ∙ xz
        | no nz ↦ absurd (
            alone z (on_list z mz nz) nz (ap (λ k. (s'.bio k).dev) xy ∙ ed)
              (ap (λ k. (s'.bio k).sector) xy ∙ es))
      ]
      | no ny ↦ elim (ℕ_discrete x z) [
        | yes xz ↦ absurd (
            alone y (on_list y my ny) ny (ap (λ k. (s'.bio k).dev) xz ∙ sym ed)
              (ap (λ k. (s'.bio k).sector) xz ∙ sym es))
        | no nz ↦
            let oy = on_list y my ny in
            let oz = on_list z mz nz in
            unique y z oy oz
              (ap (λ b. b.dev) (sym (kept y oy ny)) ∙ ed ∙ ap (λ b. b.dev) (kept z oz nz))
              (ap (λ b. b.sector) (sym (kept y oy ny)) ∙ es ∙ ap (λ b. b.sector) (kept z oz nz))
      ]
    ]
  where
    on_list : (y : ℕ) → memb y s'.nodes ≡ true → x ≢ y → memb y s.nodes ≡ true
    on_list y m ne =
        let m' : memb y (x ∷ unlink x s.nodes) ≡ true = subst (λ l. memb y l ≡ true) nodes m in
        (memb-unlink y x s.nodes (ground arith)).1

    alone :
        (y : ℕ)
        → memb y s.nodes ≡ true
        → x ≢ y
        → (s'.bio x).dev ≡ (s'.bio y).dev
        → (s'.bio x).sector ≡ (s'.bio y).sector
        → ⊥
    alone y m ne ed es =
        let same = kept y m ne in
        let d' : (s.bio y).dev ≡ dev = ap (λ b. b.dev) (sym same) ∙ sym ed ∙ d in
        let e' : (s.bio y).sector ≡ base_sector sector =
          ap (λ b. b.sector) (sym same) ∙ sym es ∙ e in
        let o = other y m ne in ground (arith, o)
