-- ===== src/Prelude/Lists.antt =====
-- Lists: searching, predicates on every element, membership tests and sizes in native numbers.
use Prim.Native.Nat.{ℕ, zero, suc}
use mathlib.Core.Path.{◌≡◌, refl}
use mathlib.Core.Logic.{◌↔◌, inl, inr}
use mathlib.Core.Bool.{Bool, true, false, ◌&&◌, ◌||◌}
use mathlib.Core.Option.{Option, none, some}
use mathlib.Core.List.{List, [], ◌∷◌, ◌++◌}
use native.Mathlib.Omega.{arith}
use graphql_prisma_postgres.Prelude.Tests.{◌==◌, if◌then◌else◌, Bool-cases}

module _ {ℓ} {A : Type ℓ} where
  abbrev pub length : List A → ℕ
  length [] = 0
  length (x ∷ xs) = suc (length xs)

  -- `findFirst` and `Array.find`: the first element that passes.
  abbrev pub find? : (A → Bool) → List A → Option A
  find? p [] = none
  find? p (x ∷ xs) = if p x then some x else find? p xs

  abbrev pub all : (A → Bool) → List A → Bool
  all p [] = true
  all p (x ∷ xs) = p x && all p xs

  abbrev pub any : (A → Bool) → List A → Bool
  any p [] = false
  any p (x ∷ xs) = p x || any p xs

  abbrev pub keep : (A → Bool) → List A → List A
  keep p [] = []
  keep p (x ∷ xs) = let rest = keep p xs in if p x then x ∷ rest else rest

  -- `slice(0, n)`
  unfoldable pub take : ℕ → List A → List A
  take zero s = []
  take (suc n) [] = []
  take (suc n) (x ∷ s) = x ∷ take n s

  -- `updateMany` on a table: the rows that pass are rewritten.
  abbrev pub update_where : (A → Bool) → (A → A) → List A → List A
  update_where p f [] = []
  update_where p f (x ∷ xs) = (if p x then f x else x) ∷ update_where p f xs

module _ {ℓ κ} {A : Type ℓ} (P : A → Type κ) where
  abbrev pub All : List A → Type κ
  All [] = Unit
  All (x ∷ xs) = P x × All xs

-- `Array.includes` on texts.
abbrev pub elem : ℕ → List ℕ → Bool
elem a [] = false
elem a (x ∷ xs) = a == x || elem a xs

module _ {ℓ κ} {A : Type ℓ} (P : A → Type κ) where
  pub All-append : (xs ys : List A) → All P xs → All P ys → All P (xs ++ ys)
  All-append [] ys _ k = k
  All-append (x ∷ xs) ys (p, h) k = (p, All-append xs ys h k)

  pub All-keep : (q : A → Bool) (xs : List A) → All P xs → All P (keep q xs)
  All-keep q [] _ = tt
  All-keep q (x ∷ xs) (p, h) = ground (arith, All-keep q xs h)

  pub All-update_where :
      (q : A → Bool) (f : A → A) (xs : List A)
      → ((x : A) → P x → P (f x))
      → All P xs
      → All P (update_where q f xs)
  All-update_where q f [] k _ = tt
  All-update_where q f (x ∷ xs) k (p, h) = (
    elim (Bool-cases (q x)) [ inl e ↦ rw e (k x p) | inr e ↦ rw e p ],
    All-update_where q f xs k h,
  )

-- Every element keeps a weaker property.
pub All-map {ℓ κ μ} :
    {A : Type ℓ} (P : A → Type κ) (Q : A → Type μ) (xs : List A)
    → ((x : A) → P x → Q x)
    → All P xs
    → All Q xs
All-map P Q [] k _ = tt
All-map P Q (x ∷ xs) k (p, h) = (k x p, All-map P Q xs k h)

-- A property of every element, and a second one, as one.
pub All-both {ℓ κ μ ν} :
    {A : Type ℓ} (P : A → Type κ) (Q : A → Type μ) (R : A → Type ν) (xs : List A)
    → ((x : A) → P x → Q x → R x)
    → All P xs
    → All Q xs
    → All R xs
All-both P Q R [] k _ _ = tt
All-both P Q R (x ∷ xs) k (p, h) (q, g) = (k x p q, All-both P Q R xs k h g)

module _ {ℓ} {A : Type ℓ} where
  pub find?-none : (p : A → Bool) (xs : List A) → find? p xs ≡ none → All (λ x. p x ≡ false) xs
  find?-none p [] e = tt
  find?-none p (x ∷ xs) e = elim (Bool-cases (p x)) [
    | inl y ↦ absurd (ground arith)
    | inr n ↦ (n, find?-none p xs (ground arith))
  ]

  pub find?-some : (p : A → Bool) (xs : List A) (a : A) → find? p xs ≡ some a → p a ≡ true
  find?-some p [] a e = cc
  find?-some p (x ∷ xs) a e = elim (Bool-cases (p x)) [
    | inl y ↦ ground arith
    | inr n ↦ find?-some p xs a (ground arith)
  ]

  pub find?-All {κ} :
      (P : A → Type κ) (p : A → Bool) (xs : List A) (a : A) → All P xs → find? p xs ≡ some a → P a
  find?-All P p [] a h e = absurd (cc)
  find?-All P p (x ∷ xs) a (q, h) e = elim (Bool-cases (p x)) [
    | inl y ↦ let s : x ≡ a = ground arith in rw s at q
    | inr n ↦ find?-All P p xs a h (ground arith)
  ]

  pub all_iff : (p : A → Bool) (xs : List A) → (all p xs ≡ true) ↔ All (λ x. p x ≡ true) xs
  all_iff p [] = (λ _. tt, λ _. refl)
  all_iff p (x ∷ xs) = ground (arith, all_iff p xs)

  pub keep-nil : (p : A → Bool) (xs : List A) → keep p xs ≡ [] → All (λ x. p x ≡ false) xs
  keep-nil p [] e = tt
  keep-nil p (x ∷ xs) e = ground (arith, keep-nil p xs)

pub elem-append : (a : ℕ) (xs ys : List ℕ) → elem a (xs ++ ys) ≡ (elem a xs || elem a ys)
elem-append a [] ys = refl
elem-append a (x ∷ xs) ys = ground (arith, elem-append a xs ys)

module _ {ℓ} {A : Type ℓ} where
  pub keep-passes : (p : A → Bool) (xs : List A) → All (λ x. p x ≡ true) (keep p xs)
  keep-passes p [] = tt
  keep-passes p (x ∷ xs) = elim (Bool-cases (p x)) [
    | inl y ↦ rw y (y, keep-passes p xs)
    | inr n ↦ rw n (keep-passes p xs)
  ]
