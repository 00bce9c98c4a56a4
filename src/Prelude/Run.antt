-- ===== src/Prelude/Run.antt =====
-- What a call does: it returns, or it does something that C++ leaves undefined.
use mathlib.Core.Path.{◌≡◌, refl, ap}
use mathlib.Core.Logic.{◌≢◌, ◌⊎◌, inl, inr}
use mathlib.Core.Option.{Option, none, some}
use mathlib.Core.Path.{subst}
use mathlib.Core.Bool.{Bool, true, false}
use kunlun.Prelude.Tests.{if◌then◌else◌}

-- A read or write outside an object, a use of NULL or of a deleted object, a division by zero, a
-- loop that does not end, an exception that nobody catches, a function that ends without its return,
-- a use of a pointer that nothing has set, a shift by the width of the number or more, two threads in
-- the same object at once.
pub data Fault : Type 0 where
  out_of_bounds null_deref div_by_zero endless uncaught no_return wild_pointer bad_shift data_race :
      Fault

pub data Run {ℓ} (A : Type ℓ) : Type ℓ where
  ret : A → Run A
  fault : Fault → Run A

infixl 5 ◌>>=◌
abbrev pub ◌>>=◌ {ℓ κ} : {A : Type ℓ} {B : Type κ} → Run A → (A → Run B) → Run B
ret a >>= f = f a
fault x >>= f = fault x

abbrev pub or_fault {ℓ} : {A : Type ℓ} → Option A → Fault → Run A
or_fault none x = fault x
or_fault (some a) x = ret a

module _ {ℓ} {A : Type ℓ} where
  pub Run-cases : (r : Run A) → ((a : A) × (r ≡ ret a)) ⊎ ((x : Fault) × (r ≡ fault x))
  Run-cases (ret a) = inl (a, refl)
  Run-cases (fault x) = inr (x, refl)

-- A run that ends, with a result or with a fault that is not an endless loop.
abbrev pub Ends {ℓ} : {A : Type ℓ} → Run A → Type ℓ
Ends r = r ≢ fault endless

-- A run ends when its first step does, and what follows ends on every result of that step.
pub Ends->>= {ℓ κ} :
    {A : Type ℓ} {B : Type κ} (m : Run A) {f : A → Run B}
    → Ends m
    → ((a : A) → Ends (f a))
    → Ends (m >>= f)
Ends->>= (ret a) h k e = k a e
Ends->>= (fault out_of_bounds) h k e = cc
Ends->>= (fault null_deref) h k e = cc
Ends->>= (fault div_by_zero) h k e = cc
Ends->>= (fault endless) h k e = absurd (h refl)
Ends->>= (fault uncaught) h k e = cc
Ends->>= (fault no_return) h k e = cc
Ends->>= (fault wild_pointer) h k e = cc
Ends->>= (fault bad_shift) h k e = cc
Ends->>= (fault data_race) h k e = cc

pub ret-injective {ℓ} : {A : Type ℓ} (a b : A) → ret a ≡ ret b → a ≡ b
ret-injective a b e = ap (λ (r : Run _). elim r [ ret x ↦ x | fault y ↦ a ]) e

-- What holds of the result of a run, if it has one.
abbrev pub Keeps {ℓ κ} : {A : Type ℓ} → (A → Type κ) → Run A → Type (ℓ ⊔ κ)
Keeps P r = (a : _) → r ≡ ret a → P a

module _ {ℓ κ} {A : Type ℓ} (P : A → Type κ) where
  pub Keeps-ret : (a : A) → P a → Keeps P (ret a)
  Keeps-ret a h b e = subst P (ret-injective a b e) h

  pub Keeps-fault : (x : Fault) → Keeps P (fault x)
  Keeps-fault x b e = cc

  pub Keeps-if :
      (b : Bool) {x y : Run A}
      → (b ≡ true → Keeps P x)
      → (b ≡ false → Keeps P y)
      → Keeps P (if b then x else y)
  Keeps-if true h k = h refl
  Keeps-if false h k = k refl

  pub Keeps-cases :
      (r : Run A) → Keeps P r → ((a : A) × (r ≡ ret a) × P a) ⊎ ((x : Fault) × (r ≡ fault x))
  Keeps-cases (ret a) h = inl (a, refl, h a refl)
  Keeps-cases (fault x) h = inr (x, refl)

module _ {ℓ κ μ} {A : Type ℓ} {B : Type κ} (P : B → Type μ) where
  pub Keeps->>= :
      (m : Run A) {f : A → Run B} → ((a : A) → m ≡ ret a → Keeps P (f a)) → Keeps P (m >>= f)
  Keeps->>= (ret a) k = k a refl
  Keeps->>= (fault x) k = Keeps-fault P x
