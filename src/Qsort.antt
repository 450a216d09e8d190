-- ===== src/Qsort.antt =====
-- lib/qsort.c. An array is a function from the index of an element to the element, and a pointer into
-- it an index; the order of two elements, the sign of `compare`'s result, is a parameter.
pub mod Count
pub mod Insert
pub mod Partition
pub mod Sort
pub mod Tests
use Prim.Native.Nat.{Ordering}
use airix.Prelude.{
  ℕ, zero, suc, ◌+◌, ◌-◌, ◌*◌, ◌/◌, ◌%◌, ◌^◌, ◌≤◌, ◌<◌, min, ◌≡◌, refl, sym, ap, subst, ◌∙◌,
  fun_ext, ◌≢◌, ◌↔◌, ◌⊎◌, inl, inr, Bool, true, false, not, ◌&&◌, ◌||◌, Option, none, some, List,
  [], ◌∷◌, ◌++◌, map, reverse, arith, dec_lt, dec_le, ℕ_discrete, ltb, leb, ◌==◌, if◌then◌else◌,
  ltb→lt, lt→ltb, leb→le, le→leb, nle→leb, ==_iff, Bool-cases, Option-cases, tests, all_below,
  all_below_sound, length, get_elem?, get_or, set, take, drop, replicate, length-append, length-set,
  get_or-set_self, get_or-set_ne, length-take, length-replicate, test_bit, set_bit, clear_bit,
  update, update_self, update_ne, ◌>>=◌, >>=-eq-some, subst_some, nil_of_length, List-cases, Holds,
  Holds-some, Holds-bind, Holds-if, le16, le32, le64,
}

module _ {ℓ} {A : Type ℓ} where
  -- `swap` of two elements.
  pub swap : ℕ → ℕ → (ℕ → A) → ℕ → A
  swap left right f = update (update f left (f right)) right (f left)

pub is_less : Ordering → Bool
is_less Ordering.lt = true
is_less Ordering.eq = false
is_less Ordering.gt = false

module _ {ℓ} {A : Type ℓ} (compare : A → A → Ordering) where
  -- The inner loop of `insert_sort` from j on.
  pub sift : ℕ → ℕ → (ℕ → A) → ℕ → A
  sift base zero f = f
  sift base (suc j) f =
      let rest = sift base j (swap (base + suc j) (base + j) f) in
      if is_less (compare (f (base + suc j)) (f (base + j))) then rest else f

  -- The outer loop, with k rounds left.
  pub insert_loop : ℕ → ℕ → ℕ → (ℕ → A) → ℕ → A
  insert_loop zero base i f = f
  insert_loop (suc k) base i f = insert_loop k base (i + 1) (sift base i f)

  pub insert_sort : ℕ → ℕ → (ℕ → A) → ℕ → A
  insert_sort base n f = insert_loop (n - 1) base 1 f

  -- The loop of `qsort`, on fuel: the places l and g, and the array.
  pub partition : ℕ → A → ℕ → ℕ → ℕ → ℕ → ℕ → (ℕ → A) → Option (ℕ × ℕ × (ℕ → A))
  partition zero pivot base n i l g f = none
  partition (suc fuel) pivot base n i l g f =
      if ltb i n
      then elim (compare (f (base + i)) pivot) [
        | Ordering.lt ↦ partition fuel pivot base n i (l + 1) g (swap (base + l) (base + i) f)
        | Ordering.eq ↦ partition fuel pivot base n (i + 1) l (g + 1) (swap (base + g) (base + i) f)
        | Ordering.gt ↦ partition fuel pivot base n (i + 1) l g f
      ]
      else some (l, g, f)

  -- `qsort`, on fuel for its depth.
  pub qsort : ℕ → ℕ → ℕ → (ℕ → A) → Option (ℕ → A)
  qsort zero base n f = none
  qsort (suc fuel) base n f =
      if leb n 10
      then some (insert_sort base n f)
      else (partition (2 * n) (f base) base n 1 0 1 f >>= λ r.
          let l = r.0 in
          let g = r.1 in qsort fuel base l r.2 >>= λ f'. qsort fuel (base + g) (n - g) f')
