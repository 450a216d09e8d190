-- ===== src/Prelude/Maps.antt =====
-- Arrays and tables as functions of an index, changed at one place; and chains of optional results.
use Prim.Native.Nat.{ℕ}
use mathlib.Core.Path.{◌≡◌, refl, subst}
use mathlib.Core.Logic.{◌≢◌}
use mathlib.Core.Option.{Option, none, some, some-injective}
use native.Mathlib.Omega.{arith}
use mathlib.Core.Bool.{Bool, true, false}
use airix.Prelude.Tests.{◌==◌, if◌then◌else◌}

abbrev pub update {ℓ} : {A : Type ℓ} → (ℕ → A) → ℕ → A → ℕ → A
update f p v q = if p == q then v else f q

pub update_self {ℓ} : {A : Type ℓ} (f : ℕ → A) (p : ℕ) (v : A) → update f p v p ≡ v
update_self f p v = ground arith

pub update_ne {ℓ} : {A : Type ℓ} (f : ℕ → A) (p q : ℕ) (v : A) → p ≢ q → update f p v q ≡ f q
update_ne f p q v h = ground arith

infixl 5 ◌>>=◌
abbrev pub ◌>>=◌ {ℓ κ} : {A : Type ℓ} {B : Type κ} → Option A → (A → Option B) → Option B
none >>= f = none
some a >>= f = f a

-- A chain that gives a result has one in its first step.
pub >>=-eq-some {ℓ κ} :
    {A : Type ℓ} {B : Type κ} (m : Option A) (f : A → Option B) {b : B}
    → (m >>= f) ≡ some b
    → (a : A) × (m ≡ some a) × (f a ≡ some b)
>>=-eq-some none f h = cc
>>=-eq-some (some a) f h = (a, refl, h)

-- What holds of the value in an option holds of an equal option's.
pub subst_some {ℓ κ} : {A : Type ℓ} (P : A → Type κ) {a b : A} → some a ≡ some b → P a → P b
subst_some P {a} {b} e p = subst P (some-injective a b e) p

-- What holds of a result if there is one.
abbrev pub Holds {ℓ κ} : {A : Type ℓ} → (A → Type κ) → Option A → Type (ℓ ⊔ κ)
Holds {A = A} P m = (a : A) → m ≡ some a → P a

pub Holds-some {ℓ κ} : {A : Type ℓ} (P : A → Type κ) (a : A) → P a → Holds P (some a)
Holds-some P a p b e = subst_some P e p

pub Holds-bind {ℓ κ η} :
    {A : Type ℓ} {B : Type κ} (P : B → Type η) (m : Option A) (f : A → Option B)
    → ((a : A) → m ≡ some a → Holds P (f a))
    → Holds P (m >>= f)
Holds-bind P m f h b e = let (a, made, e₁) = >>=-eq-some m f e in h a made b e₁

pub Holds-if {ℓ κ} :
    {A : Type ℓ} (P : A → Type κ) (b : Bool) {x y : Option A}
    → (b ≡ true → Holds P x)
    → (b ≡ false → Holds P y)
    → Holds P (if b then x else y)
Holds-if P true p q = p refl
Holds-if P false p q = q refl
