-- ===== src/Qsort/Insert.antt =====
-- lib/qsort.c: `insert_sort` sorts and keeps the elements.
use Prim.Native.Nat.{Ordering}
use airix.Prelude.{
  ℕ, zero, suc, ◌+◌, ◌-◌, ◌≤◌, ◌<◌, ◌≡◌, refl, sym, ap, subst, ◌∙◌, ◌≢◌, ◌⊎◌, inl, inr, Bool, true,
  false, arith, ℕ_discrete, Bool-cases, update, update_self, update_ne, add_zero, add_suc,
}
use airix.Qsort.{insert_loop, insert_sort, swap, is_less, sift, insert_loop, insert_sort}
use airix.Qsort.Count.{count, count-swap}

unfoldable pub is_more : Ordering → Bool
is_more Ordering.lt = false
is_more Ordering.eq = false
is_more Ordering.gt = true

-- Not more than, as `compare` says it.
abbrev pub Le {ℓ} : {A : Type ℓ} → (A → A → Ordering) → A → A → Type 0
Le compare a b = is_less (compare b a) ≡ false

-- What `qsort` asks of `compare`: a total order up to equality.
pub record IsOrder {ℓ} {A : Type ℓ} (compare : A → A → Ordering) : Type ℓ where
  pub same : (a : A) → compare a a ≡ Ordering.eq
  pub below : (a b : A) → is_more (compare a b) ≡ false → Le compare a b
  pub through : (a b c : A) → Le compare a b → Le compare b c → Le compare a c

-- The values of a swap.
module _ {ℓ} {A : Type ℓ} where
  pub swap_right : (i j : ℕ) (f : ℕ → A) → swap i j f j ≡ f i
  unfolding swap
  swap_right i j f = update_self (update f i (f j)) j (f i)

  pub swap_left : (i j : ℕ) (f : ℕ → A) → i ≢ j → swap i j f i ≡ f j
  unfolding swap
  swap_left i j f ne =
      update_ne (update f i (f j)) j i (f i) (λ e. ne (sym e)) ∙ update_self f i (f j)

  pub swap_other : (i j k : ℕ) (f : ℕ → A) → i ≢ k → j ≢ k → swap i j f k ≡ f k
  unfolding swap
  swap_other i j k f ne ne' = update_ne (update f i (f j)) j k (f i) ne' ∙ update_ne f i k (f j) ne

  -- What the operations of a sort keep: the elements between two places, and what lies outside.
  pub record Keeps (from n : ℕ) (f g : ℕ → A) : Type ℓ where
    pub counts : (q : A → Bool) → count q g from n ≡ count q f from n
    pub outside : (k : ℕ) → (k < from) ⊎ (from + n ≤ k) → g k ≡ f k

  pub Keeps-refl : (from n : ℕ) (f : ℕ → A) → Keeps from n f f
  Keeps-refl from n f = record { counts = λ q. refl; outside = λ k h. refl }

  pub Keeps-trans :
      {from n : ℕ} {f g h : ℕ → A} → Keeps from n f g → Keeps from n g h → Keeps from n f h
  Keeps-trans first second = record {
    counts = λ q. second.counts q ∙ first.counts q;
    outside = λ k away. second.outside k away ∙ first.outside k away;
  }

  pub swap-Keeps :
      (from n i j : ℕ) (f : ℕ → A)
      → from ≤ i
      → i < from + n
      → from ≤ j
      → j < from + n
      → Keeps from n f (swap i j f)
  swap-Keeps from n i j f lo hi lo' hi' = record {
    counts = λ q. count-swap q f from n i j lo hi lo' hi';
    outside = λ k away. elim away [
      | inl below ↦ swap_other i j k f (λ e. absurd (omega arith)) (λ e. absurd (omega arith))
      | inr above ↦ swap_other i j k f (λ e. absurd (omega arith)) (λ e. absurd (omega arith))
    ];
  }

pub less_more : (o : Ordering) → is_less o ≡ true → is_more o ≡ false
unfolding is_less is_more
less_more Ordering.lt e = refl
less_more Ordering.eq e = refl
less_more Ordering.gt e = cc

module _ {ℓ} {A : Type ℓ} (compare : A → A → Ordering) (order : IsOrder compare) where
  -- The n elements from a place on stand in order.
  abbrev pub Sorted : ℕ → ℕ → (ℕ → A) → Type 0
  Sorted from n f = (k m : ℕ) → from ≤ k → k < m → m < from + n → Le compare (f k) (f m)

  -- In order but for what stands before one place.
  abbrev Except : ℕ → ℕ → ℕ → (ℕ → A) → Type 0
  Except at from n f = (k m : ℕ) → from ≤ k → k < m → m < from + n → m ≢ at → Le compare (f k) (f m)

  Le_at : {a b a' b' : A} → a' ≡ a → b' ≡ b → Le compare a b → Le compare a' b'
  Le_at e f le = rw (e, f) le

  swap-Except :
      (base n j : ℕ) (f : ℕ → A)
      → j + 1 < n
      → Except (base + suc j) base n f
      → is_less (compare (f (base + suc j)) (f (base + j))) ≡ true
      → Except (base + j) base n (swap (base + suc j) (base + j) f)
  swap-Except base n j f fits except less k m lo lt hi ne =
      let apart : base + suc j ≢ base + j = λ e. absurd (omega arith) in
      let apart' : base + j ≢ base + suc j = λ e. apart (sym e) in
      let g : ℕ → A = swap (base + suc j) (base + j) f in
      let right = swap_right (base + suc j) (base + j) f in
      let left = swap_left (base + suc j) (base + j) f apart in
      elim (ℕ_discrete m (base + suc j)) [
        | yes at ↦ elim (ℕ_discrete k (base + j)) [
          | yes before ↦
              Le_at (ap g before ∙ right) (ap g at ∙ left)
                (order.below (f (base + suc j)) (f (base + j)) (less_more _ less))
          | no below ↦
              Le_at
                (swap_other (base + suc j) (base + j) k f (λ e. absurd (omega arith))
                  (λ e. below (sym e)))
                (ap g at ∙ left) (except k (base + j) lo (omega arith) (omega arith) apart')
        ]
        | no off ↦
            let kept =
              swap_other (base + suc j) (base + j) m f (λ e. off (sym e)) (λ e. ne (sym e)) in
            elim (ℕ_discrete k (base + suc j)) [
              | yes at ↦
                  Le_at (ap g at ∙ left) kept
                    (except (base + j) m (omega arith) (omega arith) hi off)
              | no away ↦ elim (ℕ_discrete k (base + j)) [
                | yes at ↦
                    Le_at (ap g at ∙ right) kept
                      (except (base + suc j) m (omega arith) (omega arith) hi off)
                | no away' ↦
                    Le_at
                      (swap_other (base + suc j) (base + j) k f (λ e. away (sym e))
                        (λ e. away' (sym e)))
                      kept (except k m lo lt hi off)
              ]
            ]
      ]

  sift-Sorted :
      (base n j : ℕ) (f : ℕ → A)
      → j < n
      → Except (base + j) base n f
      → Sorted base n (sift compare base j f)
  unfolding sift
  sift-Sorted base n zero f fits except =
      λ k m lo lt hi. except k m lo lt hi (λ e. absurd (omega arith))
  sift-Sorted base n (suc j) f fits except =
      elim (Bool-cases (is_less (compare (f (base + suc j)) (f (base + j))))) [
        | inl less ↦ rw less (
            sift-Sorted base n j (swap (base + suc j) (base + j) f) (omega arith)
              (swap-Except base n j f (omega arith) except less))
        | inr stays ↦ rw stays (λ k m lo lt hi. elim (ℕ_discrete m (base + suc j)) [
          | no off ↦ except k m lo lt hi off
          | yes at ↦ elim (ℕ_discrete k (base + j)) [
            | yes before ↦ Le_at (ap f before) (ap f at) stays
            | no below ↦ Le_at refl (ap f at) (
                order.through (f k) (f (base + j)) (f (base + suc j))
                  (except k (base + j) lo (omega arith) (omega arith) (λ e. absurd (omega arith)))
                  stays)
          ]
        ])
      ]

  sift-Keeps : (base n j : ℕ) (f : ℕ → A) → j < n → Keeps base n f (sift compare base j f)
  unfolding sift
  sift-Keeps base n zero f fits = Keeps-refl base n f
  sift-Keeps base n (suc j) f fits =
      elim (Bool-cases (is_less (compare (f (base + suc j)) (f (base + j))))) [
        | inl less ↦ rw less (
            Keeps-trans
              (swap-Keeps base n (base + suc j) (base + j) f (omega arith) (omega arith)
                (omega arith) (omega arith))
              (sift-Keeps base n j (swap (base + suc j) (base + j) f) (omega arith)))
        | inr stays ↦ rw stays (Keeps-refl base n f)
      ]

  sift_sorts :
      (base i : ℕ) (f : ℕ → A) → Sorted base i f → Sorted base (i + 1) (sift compare base i f)
  sift_sorts base i f sorted =
      sift-Sorted base (i + 1) i f (omega arith)
        (λ k m lo lt hi off. sorted k m lo lt (omega arith))

  insert_loop-Sorted :
      (k base i : ℕ) (f : ℕ → A)
      → Sorted base i f
      → Sorted base (i + k) (insert_loop compare k base i f)
  unfolding insert_loop
  insert_loop-Sorted zero base i f sorted = rw (add_zero i) sorted
  insert_loop-Sorted (suc k) base i f sorted =
      rw (add_suc i k)
        (insert_loop-Sorted k base (i + 1) (sift compare base i f) (sift_sorts base i f sorted))

  insert_loop-Keeps :
      (k base n i : ℕ) (f : ℕ → A) → i + k ≤ n → Keeps base n f (insert_loop compare k base i f)
  unfolding insert_loop
  insert_loop-Keeps zero base n i f fits = Keeps-refl base n f
  insert_loop-Keeps (suc k) base n i f fits =
      Keeps-trans (sift-Keeps base n i f (omega arith))
        (insert_loop-Keeps k base n (i + 1) (sift compare base i f) (omega arith))

  pub insert_sort-Sorted :
      (base n : ℕ) (f : ℕ → A)
      → Sorted base n (insert_sort compare base n f) × Keeps base n f (insert_sort compare base n f)
  unfolding insert_sort insert_loop
  insert_sort-Sorted base zero f = ((λ k m lo lt hi. absurd (omega arith)), Keeps-refl base 0 f)
  insert_sort-Sorted base (suc n) f = (
    subst (λ c. Sorted base c (insert_sort compare base (suc n) f)) (omega arith)
        (insert_loop-Sorted (suc n - 1) base 1 f (λ k m lo lt hi. absurd (omega arith))),
    insert_loop-Keeps (suc n - 1) base (suc n) 1 f (omega arith),
  )
