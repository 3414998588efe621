-- ===== src/Prelude/Lists.antt =====
-- Lists measured and indexed by native numbers, under the library's names.
use Prim.Native.Nat.{ℕ, zero, suc, ◌+◌}
use mathlib.Core.Path.{◌≡◌, refl, ap, subst}
use mathlib.Core.Logic.{◌≢◌}
use mathlib.Core.Bool.{Bool, true, false}
use mathlib.Core.List.{List, [], ◌∷◌, ◌++◌}
use mathlib.Core.Option.{Option, none, some}
use native.Mathlib.Omega.{arith}

module _ {ℓ} {A : Type ℓ} where
  abbrev pub length : List A → ℕ
  length [] = 0
  length (x ∷ xs) = suc (length xs)

  abbrev pub get_elem? : List A → ℕ → Option A
  get_elem? [] i = none
  get_elem? (x ∷ xs) zero = some x
  get_elem? (x ∷ xs) (suc i) = get_elem? xs i

  -- A write out of bounds changes nothing.
  abbrev pub set : List A → ℕ → A → List A
  set [] i v = []
  set (x ∷ xs) zero v = v ∷ xs
  set (x ∷ xs) (suc i) v = x ∷ set xs i v

  abbrev pub replicate : ℕ → A → List A
  replicate zero a = []
  replicate (suc n) a = a ∷ replicate n a

  pub length-append : (xs ys : List A) → length (xs ++ ys) ≡ length xs + length ys
  length-append [] ys = omega arith
  length-append (x ∷ xs) ys = omega (arith, length-append xs ys)

  pub length-replicate : (n : ℕ) (a : A) → length (replicate n a) ≡ n
  length-replicate zero a = refl
  length-replicate (suc n) a = ap suc (length-replicate n a)

  pub length-set : (xs : List A) (i : ℕ) (v : A) → length (set xs i v) ≡ length xs
  length-set [] i v = refl
  length-set (x ∷ xs) zero v = refl
  length-set (x ∷ xs) (suc i) v = ap suc (length-set xs i v)

  pub get_elem?-set_self :
      (xs : List A) (i : ℕ) {x : A} (v : A)
      → get_elem? xs i ≡ some x
      → get_elem? (set xs i v) i ≡ some v
  get_elem?-set_self [] i v h = ground arith
  get_elem?-set_self (x ∷ xs) zero v h = refl
  get_elem?-set_self (x ∷ xs) (suc i) v h = get_elem?-set_self xs i v h

  pub get_elem?-set_ne :
      (xs : List A) (i j : ℕ) (v : A) → i ≢ j → get_elem? (set xs i v) j ≡ get_elem? xs j
  get_elem?-set_ne [] i j v h = refl
  get_elem?-set_ne (x ∷ xs) zero zero v h = absurd (h refl)
  get_elem?-set_ne (x ∷ xs) zero (suc j) v h = refl
  get_elem?-set_ne (x ∷ xs) (suc i) zero v h = refl
  get_elem?-set_ne (x ∷ xs) (suc i) (suc j) v h = get_elem?-set_ne xs i j v (λ e. h (ap suc e))

-- Predicates on lists by recursion.
abbrev pub All {ℓ κ} : {A : Type ℓ} → (A → Type κ) → List A → Type κ
All P [] = Unit
All P (x ∷ xs) = P x × All P xs

abbrev pub Pairwise {ℓ κ} : {A : Type ℓ} → (A → A → Type κ) → List A → Type κ
Pairwise R [] = Unit
Pairwise R (x ∷ xs) = All (R x) xs × Pairwise R xs

-- The elements that fail a test.
abbrev pub reject {ℓ} : {A : Type ℓ} → (A → Bool) → List A → List A
reject p [] = []
reject p (x ∷ xs) = elim (p x) [ true ↦ reject p xs | false ↦ x ∷ reject p xs ]

pub some_eq {ℓ} : {A : Type ℓ} (x y : A) → some x ≡ some y → x ≡ y
some_eq x y e = cc

module _ {ℓ κ} {A : Type ℓ} where
  pub All-map : {P Q : A → Type κ} → ((a : A) → P a → Q a) → (xs : List A) → All P xs → All Q xs
  All-map f [] h = tt
  All-map f (x ∷ xs) h = (f x h.0, All-map f xs h.1)

  pub All-zip :
      {P Q R : A → Type κ}
      → ((a : A) → P a → Q a → R a)
      → (xs : List A) → All P xs
      → All Q xs
      → All R xs
  All-zip f [] h g = tt
  All-zip f (x ∷ xs) h g = (f x h.0 g.0, All-zip f xs h.1 g.1)

  pub All-get :
      (P : A → Type κ) (xs : List A) (i : ℕ) {x : A} → All P xs → get_elem? xs i ≡ some x → P x
  All-get P [] i h e = cc
  All-get P (y ∷ xs) zero h e = subst (λ (o : Option A). elim o [ none ↦ P y | some a ↦ P a ]) e h.0
  All-get P (y ∷ xs) (suc i) h e = All-get P xs i h.1 e

  pub All-set : (P : A → Type κ) (xs : List A) (i : ℕ) (v : A) → All P xs → P v → All P (set xs i v)
  All-set P [] i v h p = tt
  All-set P (x ∷ xs) zero v h p = (p, h.1)
  All-set P (x ∷ xs) (suc i) v h p = (h.0, All-set P xs i v h.1 p)

  pub All-reject : (P : A → Type κ) (p : A → Bool) (xs : List A) → All P xs → All P (reject p xs)
  All-reject P p [] h = tt
  All-reject P p (x ∷ xs) h =
      elim (p x) as (λ b. All P (elim b [ true ↦ reject p xs | false ↦ x ∷ reject p xs ])) [
        | true ↦ All-reject P p xs h.1
        | false ↦ (h.0, All-reject P p xs h.1)
      ]

  pub Pairwise-reject :
      (R : A → A → Type κ) (p : A → Bool) (xs : List A) → Pairwise R xs → Pairwise R (reject p xs)
  Pairwise-reject R p [] h = tt
  Pairwise-reject R p (x ∷ xs) h =
      elim (p x) as (λ b. Pairwise R (elim b [ true ↦ reject p xs | false ↦ x ∷ reject p xs ])) [
        | true ↦ Pairwise-reject R p xs h.1
        | false ↦ (All-reject (R x) p xs h.0, Pairwise-reject R p xs h.1)
      ]

  -- A replacement that is as apart from the others as the element it replaces.
  pub Pairwise-set :
      (R : A → A → Type κ) (xs : List A) (i : ℕ) {x : A} (v : A)
      → get_elem? xs i ≡ some x
      → ((y : A) → R x y → R v y)
      → ((y : A) → R y x → R y v)
      → Pairwise R xs
      → Pairwise R (set xs i v)
  Pairwise-set R [] i v e l r h = tt
  Pairwise-set R (y ∷ xs) zero {x} v e l r h =
      (All-map (λ z p. l z (subst (λ (a : A). R a z) (some_eq y x e) p)) xs h.0, h.1)
  Pairwise-set R (y ∷ xs) (suc i) {x} v e l r h =
      (All-set (R y) xs i v h.0 (r y (All-get (R y) xs i h.0 e)), Pairwise-set R xs i v e l r h.1)

-- What is left has failed the test.
pub All-reject_with {ℓ κ} :
    {A : Type ℓ} (P Q : A → Type κ) (p : A → Bool)
    → ((a : A) → P a → p a ≡ false → Q a)
    → (xs : List A) → All P xs
    → All Q (reject p xs)
All-reject_with P Q p f [] h = tt
All-reject_with P Q p f (x ∷ xs) h =
    elim (p x) as (λ b. p x ≡ b → All Q (elim b [ true ↦ reject p xs | false ↦ x ∷ reject p xs ])) [
      | true ↦ λ e. All-reject_with P Q p f xs h.1
      | false ↦ λ e. (f x h.0 e, All-reject_with P Q p f xs h.1)
    ]
      refl
