-- ===== src/Storage/Rows.antt =====
-- The rows of a table: what is found, what is kept, and what a function makes of them.
use graphql_prisma_postgres.Prelude.{
  ◌≡◌, inl, inr, refl, sym, ap, ◌∙◌, Bool, true, false, some, List, [], ◌∷◌, arith, Bool-cases,
  if◌then◌else◌, any, find?, keep, All, update_where,
}
use mathlib.Core.List.{Memᴰ}
use mathlib.Core.List.Memᴰ

module _ {ℓ} {A : Type ℓ} where
  pub find?-Memᴰ : (p : A → Bool) (xs : List A) (a : A) → find? p xs ≡ some a → Memᴰ a xs
  find?-Memᴰ p [] a e = absurd (cc)
  find?-Memᴰ p (x ∷ xs) a e = elim (Bool-cases (p x)) [
    | inl y ↦ Memᴰ.head (ground (arith, y))
    | inr n ↦ Memᴰ.tail (find?-Memᴰ p xs a (ground (arith, n)))
  ]

  pub All-of {κ} : (P : A → Type κ) (xs : List A) → ((a : A) → Memᴰ a xs → P a) → All P xs
  All-of P [] h = tt
  All-of P (x ∷ xs) h = (h x (Memᴰ.head refl), All-of P xs (λ a m. h a (Memᴰ.tail m)))

  pub any-none : (p : A → Bool) (xs : List A) (a : A) → any p xs ≡ false → Memᴰ a xs → p a ≡ false
  any-none p [] a e m = absurd (Memᴰ.not-nil m)
  any-none p (x ∷ xs) a e (Memᴰ.head same) = rw same (ground (arith))
  any-none p (x ∷ xs) a e (Memᴰ.tail m) = any-none p xs a (ground arith) m

  pub any-one : (p : A → Bool) (xs : List A) (a : A) → Memᴰ a xs → p a ≡ true → any p xs ≡ true
  any-one p xs a m h = elim (Bool-cases (any p xs)) [
    | inl y ↦ y
    | inr n ↦ absurd (ground (arith, any-none p xs a n m, h))
  ]

  pub any-some :
      (p : A → Bool) (xs : List A) → any p xs ≡ true → (a : A) × (Memᴰ a xs × (p a ≡ true))
  any-some p [] e = absurd (ground arith)
  any-some p (x ∷ xs) e = elim (Bool-cases (p x)) [
    | inl y ↦ (x, (Memᴰ.head refl, y))
    | inr n ↦ let (a, (m, h)) = any-some p xs (ground (arith, n)) in (a, (Memᴰ.tail m, h))
  ]

  pub Memᴰ-keep : (p : A → Bool) (xs : List A) (a : A) → Memᴰ a xs → p a ≡ true → Memᴰ a (keep p xs)
  Memᴰ-keep p [] a m h = absurd (Memᴰ.not-nil m)
  Memᴰ-keep p (x ∷ xs) a (Memᴰ.head same) h =
      let passes : p x ≡ true = rw same at h in rw passes (Memᴰ.head same)
  Memᴰ-keep p (x ∷ xs) a (Memᴰ.tail m) h = elim (Bool-cases (p x)) [
    | inl y ↦ rw y (Memᴰ.tail (Memᴰ-keep p xs a m h))
    | inr n ↦ rw n (Memᴰ-keep p xs a m h)
  ]

  pub Memᴰ_of_keep :
      (p : A → Bool) (xs : List A) (a : A) → Memᴰ a (keep p xs) → Memᴰ a xs × (p a ≡ true)
  Memᴰ_of_keep p [] a m = absurd (Memᴰ.not-nil m)
  Memᴰ_of_keep p (x ∷ xs) a m = elim (Bool-cases (p x)) [
    | inl y ↦ elim (Memᴰ.cases_cons (rw y at m)) [
      | inl same ↦ (Memᴰ.head same, rw same y)
      | inr rest ↦ let (k, h) = Memᴰ_of_keep p xs a rest in (Memᴰ.tail k, h)
    ]
    | inr n ↦ let (k, h) = Memᴰ_of_keep p xs a (rw n at m) in (Memᴰ.tail k, h)
  ]

  -- The second table holds what a function makes of the rows of the first.
  abbrev pub Image : (A → A) → List A → List A → Type ℓ
  Image g xs ys =
      ((a : A) → Memᴰ a xs → Memᴰ (g a) ys)
      × ((b : A) → Memᴰ b ys → (a : A) × (Memᴰ a xs × (b ≡ g a)))

  pub Image-trans :
      (g h : A → A) (xs ys zs : List A) → Image g xs ys → Image h ys zs → Image (λ a. h (g a)) xs zs
  Image-trans g h xs ys zs (to, of) (to', of') = (
    λ a m. to' (g a) (to a m),
    λ c m. let (b, (k, e)) = of' c m in let (a, (j, e')) = of b k in (a, (j, e ∙ ap h e')),
  )

  pub Image-congr :
      (g h : A → A) (xs ys : List A)
      → ((a : A) → Memᴰ a xs → g a ≡ h a)
      → Image g xs ys
      → Image h xs ys
  Image-congr g h xs ys same (to, of) = (
    λ a m. Memᴰ.cast (sym (same a m)) (to a m),
    λ b m. let (a, (k, e)) = of b m in (a, (k, e ∙ same a k)),
  )

  -- One row of a table, or what becomes of it.
  abbrev pub changed : (A → Bool) → (A → A) → A → A
  changed p f a = if p a then f a else a

  pub update_where-Image :
      (p : A → Bool) (f : A → A) (xs : List A) → Image (changed p f) xs (update_where p f xs)
  update_where-Image p f [] = (λ a m. absurd (Memᴰ.not-nil m), λ b m. absurd (Memᴰ.not-nil m))
  update_where-Image p f (x ∷ xs) =
      let (to, of) = update_where-Image p f xs in
      (
        λ a m. elim (Memᴰ.cases_cons m) [
          | inl same ↦ Memᴰ.head (ap (changed p f) same)
          | inr rest ↦ Memᴰ.tail (to a rest)
        ],
        λ b m. elim (Memᴰ.cases_cons m) [
          | inl same ↦ (x, (Memᴰ.head refl, same))
          | inr rest ↦ let (a, (k, e)) = of b rest in (a, (Memᴰ.tail k, e))
        ],
      )
