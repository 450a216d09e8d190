-- ===== src/Bio/Exclusion.antt =====
-- bio_get of kernel/bio.c as a whole.
use airix.Prelude.{
  ℕ, ◌≡◌, refl, sym, ap, subst, ◌∙◌, inl, inr, true, false, Option, none, some, [], ◌∷◌, ◌++◌,
  arith, ℕ_discrete, Bool-cases, update, update_self, update_ne, Holds, Holds-some, Holds-bind,
}
use airix.Pmm.Cover.{memb}
use airix.Slab.{unlink}
use airix.Bio.{
  bio_get_placed, Bio, BioCache, is_busy, is_at, base_sector, GetStep, got, waits_bio, waits_list,
  claim_bio, bio_get, bio_get_new, alloc_bio_round, sleep_wait_bio, sleep_wait_list, proc_state_io,
}
use airix.Bio.Get.{Kept, AllBusy, Fresh, find_bio_lem, alloc_bio_round-Round}
use airix.Bio.Claim.{Unique, Claimed, claim_new, Claimed-Unique}

-- How a call for the sector ends: with a bio that was not in use and is the caller's; asleep, last
-- among those that wait for the bio of the sector, which is in use; or asleep, last among those that
-- wait at the list, all of whose bios are in use.
abbrev pub Outcome : ℕ → ℕ → ℕ → BioCache → GetStep × BioCache → Type 0
Outcome proc dev sector s (got x, s') =
    (memb x s.nodes ≡ true → is_busy (s.bio x).flag ≡ false) × Claimed dev sector x s s' × Unique s'
Outcome proc dev sector s (waits_bio x, s') =
    (memb x s.nodes ≡ true)
    × (is_at dev (base_sector sector) (s.bio x) ≡ true)
    × (is_busy (s.bio x).flag ≡ true)
    × ((s'.bio x).sleep ≡ (s.bio x).sleep ++ (proc ∷ []))
    × (s'.proc_state proc ≡ proc_state_io)
    × Unique s'
Outcome proc dev sector s (waits_list, s') =
    AllBusy s
    × (s'.sleep ≡ s.sleep ++ (proc ∷ []))
    × (s'.proc_state proc ≡ proc_state_io)
    × Unique s'

-- A change of the bio x that keeps its sectors keeps them apart.
Unique-update :
    (s : BioCache) (x : ℕ) (b : Bio)
    → b.dev ≡ (s.bio x).dev
    → b.sector ≡ (s.bio x).sector
    → Unique s
    → Unique (record s { bio = update s.bio x b })
Unique-update s x b d e unique y z my mz ed es =
    unique y z my mz (sym (same_dev y) ∙ ed ∙ same_dev z) (sym (same_sector y) ∙ es ∙ same_sector z)
  where
    same_dev : (y : ℕ) → (update s.bio x b y).dev ≡ (s.bio y).dev
    same_dev y = elim (ℕ_discrete x y) [
      | yes eq ↦
          ap (λ k. (update s.bio x b k).dev) (sym eq)
          ∙ ap (λ p. p.dev) (update_self s.bio x b)
          ∙ d
          ∙ ap (λ k. (s.bio k).dev) eq
      | no ne ↦ ap (λ p. p.dev) (update_ne s.bio x y b ne)
    ]

    same_sector : (y : ℕ) → (update s.bio x b y).sector ≡ (s.bio y).sector
    same_sector y = elim (ℕ_discrete x y) [
      | yes eq ↦
          ap (λ k. (update s.bio x b k).sector) (sym eq)
          ∙ ap (λ p. p.sector) (update_self s.bio x b)
          ∙ e
          ∙ ap (λ k. (s.bio k).sector) eq
      | no ne ↦ ap (λ p. p.sector) (update_ne s.bio x y b ne)
    ]

-- The bio of the sector is on the list.
cached :
    (proc dev sector x : ℕ) (s : BioCache)
    → Unique s
    → memb x s.nodes ≡ true
    → is_at dev (base_sector sector) (s.bio x) ≡ true
    → Outcome proc dev sector s (claim_bio proc sector x s)
unfolding claim_bio sleep_wait_bio
cached proc dev sector x s unique m at =
    let there : ((s.bio x).dev ≡ dev) × ((s.bio x).sector ≡ base_sector sector) = ground arith in
    elim (Bool-cases (is_busy (s.bio x).flag)) [
      | inl busy ↦
          let b : Bio = record (s.bio x) { sleep = (s.bio x).sleep ++ (proc ∷ []) } in
          subst (Outcome proc dev sector s) {x = (waits_bio x, sleep_wait_bio proc x s)}
            (sym (rw busy refl))
            (
              m,
              at,
              busy,
              ap (λ p. p.sleep) (update_self s.bio x b),
              update_self s.proc_state proc proc_state_io,
              Unique-update s x b refl refl unique,
            )
      | inr idle ↦
          let (s', e, c) = claim_new proc dev sector x s there.0 there.1 idle in
          subst (Outcome proc dev sector s) (sym e) (
            (λ h. idle),
            c,
            Claimed-Unique dev sector x s s' unique
                (λ y my ne. elim (Bool-cases (is_at dev (base_sector sector) (s.bio y))) [
                  | inr away ↦ away
                  | inl same ↦
                      let here : ((s.bio y).dev ≡ dev) × ((s.bio y).sector ≡ base_sector sector) =
                        ground arith in
                      absurd (ne (unique x y m my (there.0 ∙ sym here.0) (there.1 ∙ sym here.1)))
                ])
                c,
          )
    ]

Unique-Kept : (s s' : BioCache) → Kept s s' → Unique s → Unique s'
Unique-Kept s s' (nodes, sleep, kept) unique x y mx my d e =
    let nx : memb x s.nodes ≡ true = subst (λ l. memb x l ≡ true) nodes mx in
    let ny : memb y s.nodes ≡ true = subst (λ l. memb y l ≡ true) nodes my in
    unique x y nx ny (ap (λ b. b.dev) (sym (kept x nx)) ∙ d ∙ ap (λ b. b.dev) (kept y ny))
      (ap (λ b. b.sector) (sym (kept x nx)) ∙ e ∙ ap (λ b. b.sector) (kept y ny))

-- No bio on the list is for the sector.
uncached :
    (proc dev sector : ℕ) (s : BioCache)
    → Unique s
    → Fresh s
    → ((y : ℕ) → memb y s.nodes ≡ true → is_at dev (base_sector sector) (s.bio y) ≡ false)
    → Holds (Outcome proc dev sector s) (bio_get_new proc dev sector s)
unfolding bio_get_new bio_get_placed sleep_wait_list
uncached proc dev sector s unique fresh away =
    Holds-bind (Outcome proc dev sector s) (alloc_bio_round s) _ λ (r, s₁) made.
      let ((kept, given), none_left) = alloc_bio_round-Round s fresh (r, s₁) made in
      placed r s₁ kept given none_left
  where
    placed :
        (r : Option ℕ) (s₁ : BioCache)
        → Kept s s₁
        → ((x : ℕ) → r ≡ some x → memb x s.nodes ≡ true → is_busy (s.bio x).flag ≡ false)
        → (r ≡ none → AllBusy s)
        → Holds (Outcome proc dev sector s) (bio_get_placed proc dev sector r s₁)
    placed none s₁ (nodes, sleep, kept) given none_left = Holds-some (Outcome proc dev sector s) _ (
      none_left refl,
      ap (λ l. l ++ (proc ∷ [])) sleep,
      update_self s₁.proc_state proc proc_state_io,
      Unique-Kept s s₁ (nodes, sleep, kept) unique,
    )
    placed (some x) s₁ (nodes, sleep, kept) given none_left =
        let b : Bio = record (s₁.bio x) { flag = 0; dev = dev; sector = base_sector sector } in
        let own : update s₁.bio x b x ≡ b = update_self s₁.bio x b in
        let (s', e, (c₀, c₁, c₂, c₃, c₄, first, rest)) =
          claim_new proc dev sector x (record s₁ { bio = update s₁.bio x b }) (ap (λ p. p.dev) own)
            (ap (λ p. p.sector) own) (ap (λ p. is_busy p.flag) own) in
        let c : Claimed dev sector x s s' = (
          c₀,
          c₁,
          c₂,
          c₃,
          c₄,
          first ∙ ap (λ l. x ∷ unlink x l) nodes,
          λ y m ne.
              rest y (subst (λ l. memb y l ≡ true) (sym nodes) m) ne
              ∙ update_ne s₁.bio x y b ne
              ∙ kept y m,
        ) in
        Holds-some (Outcome proc dev sector s) _ (
          subst (Outcome proc dev sector s) (sym e)
            (given x refl, c, Claimed-Unique dev sector x s s' unique (λ y m ne. away y m) c))

-- Where no two bios on the list are for the same sectors, and the slab allocator gives no bio that
-- is on the list, whatever `bio_get` returns is as it should be: the bio that it gives was neither
-- in use nor being written, is for the sector's eight sectors with the iterator at the sector, and
-- is marked as in use; or the caller sleeps, last in line, because the bio of the sector is busy, or
-- because all bios are. The other bios stay, and no two are for the same sectors.
pub bio_get-Outcome :
    (proc dev sector : ℕ) (s : BioCache)
    → Unique s
    → Fresh s
    → (r : GetStep × BioCache) → bio_get proc dev sector s ≡ some r
    → Outcome proc dev sector s r
unfolding bio_get
bio_get-Outcome proc dev sector s unique fresh =
    elim (find_bio_lem dev (base_sector sector) s.bio s.nodes) [
      | inr (x, found, m, at) ↦
          rw (found, bio_get)
            (Holds-some (Outcome proc dev sector s) _ (cached proc dev sector x s unique m at))
      | inl (missing, away) ↦ rw (missing, bio_get) (uncached proc dev sector s unique fresh away)
    ]
