-- ===== src/Prelude/Lists.antt =====
-- Lists measured and indexed by the native numbers, and predicates over their entries.
use Prim.Native.Nat.{ℕ, zero, suc, ◌+◌, ◌-◌, ◌≤◌, ◌<◌}
use mathlib.Core.Path.{◌≡◌, ◌∙◌, refl, ap, sym}
use mathlib.Core.Logic.{◌⊎◌, ◌≢◌, inl, inr}
use mathlib.Core.List.{List, [], ◌∷◌, ◌++◌, map}
use mathlib.Core.Option.{Option, none, some}
use native.Mathlib.Omega.{arith}

module _ {ℓ} {A : Type ℓ} where
  abbrev pub length : List A → ℕ
  length [] = 0
  length (x ∷ xs) = suc (length xs)

  abbrev pub get_elem? : List A → ℕ → Option A
  get_elem? [] n = none
  get_elem? (x ∷ xs) zero = some x
  get_elem? (x ∷ xs) (suc n) = get_elem? xs n

  -- A write past the end leaves the list as it is.
  abbrev pub set : List A → ℕ → A → List A
  set [] n a = []
  set (x ∷ xs) zero a = a ∷ xs
  set (x ∷ xs) (suc n) a = x ∷ set xs n a

  abbrev pub take : ℕ → List A → List A
  take zero xs = []
  take (suc n) [] = []
  take (suc n) (x ∷ xs) = x ∷ take n xs

  abbrev pub drop : ℕ → List A → List A
  drop zero xs = xs
  drop (suc n) [] = []
  drop (suc n) (x ∷ xs) = drop n xs

  abbrev pub replicate : ℕ → A → List A
  replicate zero a = []
  replicate (suc n) a = a ∷ replicate n a

  abbrev pub All {κ} : (A → Type κ) → List A → Type κ
  All P [] = Unit {κ}
  All P (x ∷ xs) = P x × All P xs

module _ {ℓ} {A : Type ℓ} where
  pub length-append : (xs ys : List A) → length (xs ++ ys) ≡ length xs + length ys
  length-append [] ys = omega arith
  length-append (x ∷ xs) ys = omega (arith, length-append xs ys)

  pub length-take : (n : ℕ) (xs : List A) → n ≤ length xs → length (take n xs) ≡ n
  length-take zero xs h = refl
  length-take (suc n) [] h = elim h [ ]
  length-take (suc n) (x ∷ xs) h = ap suc (length-take n xs (omega arith))

  pub length-drop : (n : ℕ) (xs : List A) → length (drop n xs) ≡ length xs - n
  length-drop zero xs = omega arith
  length-drop (suc n) [] = omega arith
  length-drop (suc n) (x ∷ xs) = omega (arith, length-drop n xs)

  pub length-replicate : (n : ℕ) (a : A) → length (replicate n a) ≡ n
  length-replicate zero a = refl
  length-replicate (suc n) a = ap suc (length-replicate n a)

  pub length-set : (xs : List A) (n : ℕ) (a : A) → length (set xs n a) ≡ length xs
  length-set [] n a = refl
  length-set (x ∷ xs) zero a = refl
  length-set (x ∷ xs) (suc n) a = ap suc (length-set xs n a)

  pub take-append-drop : (n : ℕ) (xs : List A) → take n xs ++ drop n xs ≡ xs
  take-append-drop zero xs = refl
  take-append-drop (suc n) [] = refl
  take-append-drop (suc n) (x ∷ xs) = ap (◌∷◌ x) (take-append-drop n xs)

  -- An index inside the list has an entry.
  pub get_elem?-lt : (xs : List A) (n : ℕ) → n < length xs → (a : A) × (get_elem? xs n ≡ some a)
  get_elem?-lt [] n h = elim h [ ]
  get_elem?-lt (x ∷ xs) zero h = (x, refl)
  get_elem?-lt (x ∷ xs) (suc n) h = get_elem?-lt xs n (omega arith)

  pub length-map {κ} : {B : Type κ} (f : A → B) (xs : List A) → length (map f xs) ≡ length xs
  length-map f [] = refl
  length-map f (x ∷ xs) = ap suc (length-map f xs)

  pub All-append {κ} : (P : A → Type κ) (xs ys : List A) → All P xs → All P ys → All P (xs ++ ys)
  All-append P [] ys p q = q
  All-append P (x ∷ xs) ys p q = (p.0, All-append P xs ys p.1 q)

  pub get_elem?-ge : (xs : List A) (n : ℕ) → length xs ≤ n → get_elem? xs n ≡ none
  get_elem?-ge [] n h = refl
  get_elem?-ge (x ∷ xs) zero h = elim h [ ]
  get_elem?-ge (x ∷ xs) (suc n) h = get_elem?-ge xs n (omega arith)

  pub nil-cases : (xs : List A) → (xs ≡ []) ⊎ (xs ≢ [])
  nil-cases [] = inl refl
  nil-cases (x ∷ xs) = inr (λ e. cc)

  pub get_elem?-set_self :
      (xs : List A) (n : ℕ) (a : A) → n < length xs → get_elem? (set xs n a) n ≡ some a
  get_elem?-set_self [] n a h = elim h [ ]
  get_elem?-set_self (x ∷ xs) zero a h = refl
  get_elem?-set_self (x ∷ xs) (suc n) a h = get_elem?-set_self xs n a (omega arith)

  pub get_elem?-set_ne :
      (xs : List A) (m n : ℕ) (a : A) → m ≢ n → get_elem? (set xs m a) n ≡ get_elem? xs n
  get_elem?-set_ne [] m n a h = refl
  get_elem?-set_ne (x ∷ xs) zero zero a h = absurd (h refl)
  get_elem?-set_ne (x ∷ xs) zero (suc n) a h = refl
  get_elem?-set_ne (x ∷ xs) (suc m) zero a h = refl
  get_elem?-set_ne (x ∷ xs) (suc m) (suc n) a h = get_elem?-set_ne xs m n a (λ e. h (ap suc e))

  pub set_same : (xs : List A) (n : ℕ) (a : A) → get_elem? xs n ≡ some a → set xs n a ≡ xs
  set_same [] n a h = refl
  set_same (x ∷ xs) zero a h = ground arith
  set_same (x ∷ xs) (suc n) a h = ap (◌∷◌ x) (set_same xs n a h)

  pub lt_of_get_elem? : (xs : List A) (n : ℕ) (a : A) → get_elem? xs n ≡ some a → n < length xs
  lt_of_get_elem? [] n a h = cc
  lt_of_get_elem? (x ∷ xs) zero a h = omega arith
  lt_of_get_elem? (x ∷ xs) (suc n) a h = omega (arith, lt_of_get_elem? xs n a h)

  pub length-take-le : (n : ℕ) (xs : List A) → length (take n xs) ≤ n
  length-take-le zero xs = omega arith
  length-take-le (suc n) [] = omega arith
  length-take-le (suc n) (x ∷ xs) = omega (arith, length-take-le n xs)

  pub take-append : (n : ℕ) (xs ys : List A) → length xs ≡ n → take n (xs ++ ys) ≡ xs
  take-append zero [] ys h = refl
  take-append zero (x ∷ xs) ys h = absurd (omega arith)
  take-append (suc n) [] ys h = absurd (omega arith)
  take-append (suc n) (x ∷ xs) ys h = ap (◌∷◌ x) (take-append n xs ys (omega arith))

  pub drop-append : (n : ℕ) (xs ys : List A) → length xs ≡ n → drop n (xs ++ ys) ≡ ys
  drop-append zero [] ys h = refl
  drop-append zero (x ∷ xs) ys h = absurd (omega arith)
  drop-append (suc n) [] ys h = absurd (omega arith)
  drop-append (suc n) (x ∷ xs) ys h = drop-append n xs ys (omega arith)

  pub append_assoc : (xs ys zs : List A) → (xs ++ ys) ++ zs ≡ xs ++ (ys ++ zs)
  append_assoc [] ys zs = refl
  append_assoc (x ∷ xs) ys zs = ap (◌∷◌ x) (append_assoc xs ys zs)

  drop_nil : (n : ℕ) → drop {A = A} n [] ≡ []
  drop_nil zero = refl
  drop_nil (suc n) = refl

  pub drop_add : (m n : ℕ) (xs : List A) → drop (m + n) xs ≡ drop n (drop m xs)
  drop_add zero n xs = ap (λ (k : ℕ). drop k xs) (omega arith)
  drop_add (suc m) n [] = drop_nil (suc m + n) ∙ sym (drop_nil n)
  drop_add (suc m) n (x ∷ xs) =
      let step : suc m + n ≡ suc (m + n) = omega arith in
      ap (λ (k : ℕ). drop k (x ∷ xs)) step ∙ drop_add m n xs

  -- The entries from an index on begin with the entry at that index.
  pub drop-get_elem? :
      (xs : List A) (n : ℕ) (a : A) (ys : List A)
      → drop n xs ≡ a ∷ ys
      → (get_elem? xs n ≡ some a) × (drop (suc n) xs ≡ ys)
  drop-get_elem? [] zero a ys e = cc
  drop-get_elem? [] (suc n) a ys e = cc
  drop-get_elem? (x ∷ xs) zero a ys e = ground arith
  drop-get_elem? (x ∷ xs) (suc n) a ys e = drop-get_elem? xs n a ys e

  pub append_nil : (xs : List A) → xs ++ [] ≡ xs
  append_nil [] = refl
  append_nil (x ∷ xs) = ap (◌∷◌ x) (append_nil xs)

-- A row of zeros that is not empty begins with one.
pub zeros_cons : (n : ℕ) → 0 < n → replicate {A = ℕ} n 0 ≡ 0 ∷ replicate (n - 1) 0
zeros_cons zero h = absurd (omega arith)
zeros_cons (suc n) h = ap (λ (k : ℕ). 0 ∷ replicate k 0) (omega arith)
