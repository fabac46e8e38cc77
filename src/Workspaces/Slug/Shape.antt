-- ===== src/Workspaces/Slug/Shape.antt =====
-- The form of the slugs of utils/slug.util.ts.
use graphql_prisma_postgres.Prelude.{
  take, ℕ, zero, suc, ◌/◌, ◌≤◌, ◌<◌, ◌≡◌, ◌⊎◌, inl, inr, refl, ap, ◌∙◌, Bool, true, false, not,
  ◌&&◌, ◌||◌, List, [], ◌∷◌, ◌++◌, arith, Bool-cases, ◌==◌, ltb, length, codes, All, All-append,
}
use mathlib.Core.List.{reverse, reverse-cons, reverse-reverse}
use graphql_prisma_postgres.Effects.{World, Env, ok, Result-cases}
use graphql_prisma_postgres.Users.Input.{is_space, trim_start, trim}
use graphql_prisma_postgres.Workspaces.Slug.{
  is_slug_char, dash_runs, drop_leading, drop_trailing, is_nil, base36_within, base36, slugify,
  is_slug_after, is_slug, is_reserved_slug, validate_workspace_slug,
}

-- A character of a slug: a letter, a digit or the dash.
abbrev IsSlugUnit : ℕ → Type 0
IsSlugUnit c = (is_slug_char c || c == 45) ≡ true

not_space : (c : ℕ) → IsSlugUnit c → is_space c ≡ false
not_space c h = ground arith

slug_units : (b : Bool) (s : List ℕ) → is_slug_after b s ≡ true → All IsSlugUnit s
unfolding is_slug_after
slug_units b [] h = tt
slug_units b (c ∷ s) h = (ground arith, slug_units (is_slug_char c) s (ground arith))

trim_start-units : (s : List ℕ) → All IsSlugUnit s → trim_start s ≡ s
unfolding trim_start
trim_start-units [] h = refl
trim_start-units (c ∷ s) (p, h) = ground (arith, not_space c p)

All-reverse : (s : List ℕ) → All IsSlugUnit s → All IsSlugUnit (reverse s)
All-reverse [] h = tt
All-reverse (c ∷ s) (p, h) =
    rw (reverse-cons c s) (All-append IsSlugUnit (reverse s) (c ∷ []) (All-reverse s h) (p, tt))

trim-units : (s : List ℕ) → All IsSlugUnit s → trim s ≡ s
unfolding trim
trim-units s h =
    rw (trim_start-units s h, trim_start-units (reverse s) (All-reverse s h)) (reverse-reverse s)

dash_runs-slug :
    (b r : Bool) (s : List ℕ)
    → is_slug_after b s ≡ true
    → (b ≡ true → r ≡ false)
    → dash_runs r s ≡ s
unfolding dash_runs is_slug_after
dash_runs-slug b r [] h k = refl
dash_runs-slug b r (c ∷ s) h k = elim (Bool-cases (is_slug_char c)) [
  | inl y ↦ ground (arith, y, dash_runs-slug (is_slug_char c) (not (is_slug_char c)) s)
  | inr n ↦ ground (arith, n, dash_runs-slug (is_slug_char c) (not (is_slug_char c)) s)
]

drop_leading-slug : (s : List ℕ) → is_slug s ≡ true → drop_leading s ≡ s
unfolding drop_leading is_slug_after
drop_leading-slug [] h = refl
drop_leading-slug (c ∷ s) h = ground arith

slug-not_nil : (s : List ℕ) → is_slug s ≡ true → is_nil s ≡ false
unfolding is_slug_after
slug-not_nil [] h = absurd (cc)
slug-not_nil (c ∷ s) h = refl

no_dash_left :
    (b : Bool) (c : ℕ) (s : List ℕ) → is_slug_after b (c ∷ s) ≡ true → (c == 45 && is_nil s) ≡ false
unfolding is_slug_after
no_dash_left b c s h = elim (Bool-cases (is_slug_char c)) [
  | inl y ↦ ground (arith, y)
  | inr n ↦ let after : is_slug s ≡ true = ground (arith, n) in ground (arith, slug-not_nil s after)
]

drop_trailing-slug : (b : Bool) (s : List ℕ) → is_slug_after b s ≡ true → drop_trailing s ≡ s
unfolding drop_trailing is_slug_after
drop_trailing-slug b [] h = refl
drop_trailing-slug b (c ∷ s) h =
    let after : is_slug_after (is_slug_char c) s ≡ true = ground arith in
    let same = drop_trailing-slug (is_slug_char c) s after in rw (same, no_dash_left b c s h) refl

take-all : (n : ℕ) (s : List ℕ) → length s ≤ n → take n s ≡ s
unfolding take
take-all zero [] h = refl
take-all zero (c ∷ s) h = absurd (omega arith)
take-all (suc n) [] h = refl
take-all (suc n) (c ∷ s) h = ap (λ t. c ∷ t) (take-all n s (omega arith))

pub length-take : (n : ℕ) (s : List ℕ) → length (take n s) ≤ n
unfolding take
length-take zero s = omega arith
length-take (suc n) [] = omega arith
length-take (suc n) (c ∷ s) = ground (arith, length-take n s)

-- `toLowerCase` leaves the letters, digits and dashes of slugs alone.
abbrev pub KeepsSlugs : Env → Type 0
KeepsSlugs env = (s : List ℕ) → All IsSlugUnit s → env.to_lower s ≡ s

slugify-slug :
    (s : List ℕ) (env : Env) (w : World)
    → KeepsSlugs env
    → is_slug s ≡ true
    → length s ≤ 48
    → slugify s env w ≡ (ok s, w)
unfolding slugify
slugify-slug s env w keeps h short =
    let units = slug_units false s h in
    rw
      (
        trim-units s units,
        keeps s units,
        dash_runs-slug false false s h (λ _. refl),
        drop_leading-slug s h,
        drop_trailing-slug false s h,
        take-all 48 s short,
        slug-not_nil s h,
      )
      refl

-- A text is a slug that the validation lets pass.
pub record IsValidSlug (s : List ℕ) : Type 0 where
  pub form : is_slug s ≡ true
  pub long : 2 ≤ length s
  pub free : is_reserved_slug s ≡ false

two_fuels : (f g n : ℕ) → n < f → n < g → base36_within f n ≡ base36_within g n
unfolding base36_within
two_fuels zero g n h k = absurd (omega arith)
two_fuels (suc f) zero n h k = absurd (omega arith)
two_fuels (suc f) (suc g) n h k = elim (Bool-cases (ltb n 36)) [
  | inl y ↦ ground (arith, y)
  | inr m ↦
      let a : n / 36 < f = ground arith in
      let b : n / 36 < g = ground arith in ground (arith, m, two_fuels f g (n / 36) a b)
]

-- Any fuel above the number is enough for its digits.
pub base36-enough : (fuel n : ℕ) → n < fuel → base36_within fuel n ≡ base36 n
unfolding base36_within
base36-enough fuel n h = two_fuels fuel (suc n) n h (omega arith)

-- Where `slugify` has something left, that is at most 48 characters.
slugify-short :
    (raw s : List ℕ) (env : Env) (w : World)
    → (slugify raw env w).0 ≡ ok s
    → (length s ≤ 48) ⊎ (s ≡ codes "workspace-" ++ base36 w.clock)
unfolding slugify
slugify-short raw s env w e =
    let whole = drop_trailing (drop_leading (dash_runs false (env.to_lower (trim raw)))) in
    elim (Bool-cases (is_nil (take 48 whole))) [
      | inl y ↦ inr (ground (arith, y))
      | inr n ↦
          let same : s ≡ take 48 whole = ground (arith, n) in inl (rw same (length-take 48 whole))
    ]

-- Every slug that the validation returns is letters and digits in groups that single dashes join, of
-- two characters at least, and none of the reserved words; it has at most 48 characters or is made
-- of the date.
pub validate_workspace_slug-IsValidSlug :
    (raw s : List ℕ) (env : Env) (w : World)
    → (validate_workspace_slug raw env w).0 ≡ ok s
    → IsValidSlug s × ((length s ≤ 48) ⊎ (s ≡ codes "workspace-" ++ base36 w.clock))
unfolding validate_workspace_slug
validate_workspace_slug-IsValidSlug raw s env w e = elim (Result-cases (slugify raw env w).0) [
  | inr (thrown, q) ↦ absurd (ground (arith, q))
  | inl (t, q) ↦
      let same : t ≡ s = ground (arith, q) in
      (
        record { form = ground (arith, q); long = ground (arith, q); free = ground (arith, q) },
        slugify-short raw s env w (q ∙ ap ok same),
      )
]

-- A valid slug of at most 48 characters is returned as it is, where `toLowerCase` leaves the letters,
-- digits and dashes of slugs alone.
pub validate_workspace_slug-fixed :
    (s : List ℕ) (env : Env) (w : World)
    → KeepsSlugs env
    → IsValidSlug s
    → length s ≤ 48
    → validate_workspace_slug s env w ≡ (ok s, w)
unfolding validate_workspace_slug
validate_workspace_slug-fixed s env w keeps v short =
    let same : slugify s env w ≡ (ok s, w) = slugify-slug s env w keeps v.form short in
    let given : (slugify s env w).0 ≡ ok s = ap (λ p. p.0) same in
    let here : (slugify s env w).1 ≡ w = ap (λ p. p.1) same in
    ground (arith, given, here, v.long, v.free, v.form)
