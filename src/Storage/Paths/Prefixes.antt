-- ===== src/Storage/Paths/Prefixes.antt =====
-- Paths that lie under another path.
use graphql_prisma_postgres.Prelude.{
  ℕ, ◌+◌, ◌≡◌, ◌⊎◌, inl, inr, refl, ◌∙◌, Bool, true, none, some, List, [], ◌∷◌, ◌++◌, arith,
  Option-cases, length, any, ◌==◌, false, sym, after_prefix, after_prefix-append, after_prefix-some,
}
use mathlib.Core.Path.{ap₂}
use mathlib.Core.List.{append_assoc}
use graphql_prisma_postgres.Storage.Paths.{
  slash, starts_with, is_like, replace_first, before_last_slash,
}
use graphql_prisma_postgres.Storage.Paths.Names.{IsFlat}

pub length-append : (s t : List ℕ) → length (s ++ t) ≡ length s + length t
length-append [] t = omega arith
length-append (c ∷ s) t = omega (arith, length-append s t)

-- The path goes on behind the other one and a slash.
abbrev pub IsUnder : List ℕ → List ℕ → Type 0
IsUnder old s = (r : List ℕ) × (s ≡ old ++ (slash ∷ r))

abbrev pub is_under : List ℕ → List ℕ → Bool
is_under old s = starts_with (old ++ (slash ∷ [])) s

pub IsUnder-of : (old s : List ℕ) → is_under old s ≡ true → IsUnder old s
IsUnder-of old s h = elim (Option-cases (after_prefix (old ++ (slash ∷ [])) s)) [
  | inl missing ↦ absurd (ground (arith, missing))
  | inr (r, e) ↦
      (r, after_prefix-some (old ++ (slash ∷ [])) s r e ∙ append_assoc old (slash ∷ []) r)
]

pub is_under-of : (old r : List ℕ) → is_under old (old ++ (slash ∷ r)) ≡ true
is_under-of old r =
    let e = after_prefix-append (old ++ (slash ∷ [])) r in
    let e' : after_prefix (old ++ (slash ∷ [])) (old ++ (slash ∷ r)) ≡ some r =
      rw (append_assoc old (slash ∷ []) r) at e in
    ground (arith, e')

pub not-IsFlat : (x r : List ℕ) → ¬ IsFlat (x ++ (slash ∷ r))
not-IsFlat [] r (p, h) = ground (arith, p)
not-IsFlat (c ∷ x) r (p, h) = not-IsFlat x r h

-- Behind the last slash there is one name, so what is under a path is in it or in a folder under it.
pub split-IsUnder :
    (a n old r : List ℕ)
    → IsFlat n
    → a ++ (slash ∷ n) ≡ old ++ (slash ∷ r)
    → (a ≡ old) ⊎ IsUnder old a
split-IsUnder [] n [] r h e = inl refl
split-IsUnder [] n (d ∷ old) r h e =
    let same : n ≡ old ++ (slash ∷ r) = ground arith in absurd (not-IsFlat old r (rw same at h))
split-IsUnder (c ∷ a) n [] r h e = inr (a, ground arith)
split-IsUnder (c ∷ a) n (d ∷ old) r h e =
    let first : c ≡ d = ground arith in
    elim (split-IsUnder a n old r h (ground arith)) [
      | inl same ↦ inl (rw (first, same) refl)
      | inr (t, under) ↦ inr (t, rw (first, under) refl)
    ]

pub before_last_slash-flat : (n : List ℕ) → IsFlat n → before_last_slash n ≡ none
unfolding before_last_slash
before_last_slash-flat [] h = refl
before_last_slash-flat (c ∷ n) (p, h) = ground (arith, p, before_last_slash-flat n h)

pub before_last_slash-in : (a n : List ℕ) → IsFlat n → before_last_slash (a ++ (slash ∷ n)) ≡ some a
unfolding before_last_slash
before_last_slash-in [] n h = ground (arith, before_last_slash-flat n h)
before_last_slash-in (c ∷ a) n h = ground (arith, before_last_slash-in a n h)

replace_first-at : (p r s t : List ℕ) → after_prefix p s ≡ some t → replace_first p r s ≡ r ++ t
unfolding replace_first
replace_first-at p r [] t e = ground (arith, e)
replace_first-at p r (c ∷ s) t e = ground (arith, e)

-- The first occurrence of a prefix is the prefix.
pub replace_first-prefix : (p r t : List ℕ) → replace_first p r (p ++ t) ≡ r ++ t
replace_first-prefix p r t = replace_first-at p r (p ++ t) t (after_prefix-append p t)

is_like-append : (p r : List ℕ) → is_like p (p ++ r) ≡ true
unfolding is_like
is_like-append [] r = refl
is_like-append (c ∷ p) r = ground (arith, is_like-append p r)

abbrev pub has_wildcard : List ℕ → Bool
has_wildcard path = any (λ c. c == 95) path

-- What is like a text without a wildcard begins with it.
is_like-plain :
    (p s : List ℕ) → has_wildcard p ≡ false → is_like p s ≡ true → (r : List ℕ) × (s ≡ p ++ r)
unfolding is_like
is_like-plain [] s plain h = (s, refl)
is_like-plain (c ∷ p) [] plain h = absurd (ground (arith, h))
is_like-plain (c ∷ p) (d ∷ s) plain h =
    let (r, e) = is_like-plain p s (ground (arith, plain)) (ground (arith, h)) in
    let first : c ≡ d = ground (arith, plain, h) in (r, ap₂ ◌∷◌ (sym first) e)

-- What the database finds for a path, whatever its characters.
abbrev pub is_like_under : List ℕ → List ℕ → Bool
is_like_under old s = is_like (old ++ (slash ∷ [])) s

pub is_under-is_like : (old s : List ℕ) → is_under old s ≡ true → is_like_under old s ≡ true
is_under-is_like old s h =
    let (r, e) = IsUnder-of old s h in
    let found = is_like-append (old ++ (slash ∷ [])) r in
    rw (e, sym (append_assoc old (slash ∷ []) r)) found

has_wildcard-slash :
    (old : List ℕ) → has_wildcard old ≡ false → has_wildcard (old ++ (slash ∷ [])) ≡ false
has_wildcard-slash [] h = refl
has_wildcard-slash (c ∷ old) h = ground (arith, h, has_wildcard-slash old)

-- For a path without a wildcard the database finds what is under it.
pub is_like-is_under :
    (old s : List ℕ) → has_wildcard old ≡ false → is_like_under old s ≡ true → is_under old s ≡ true
is_like-is_under old s plain h =
    let (r, e) = is_like-plain (old ++ (slash ∷ [])) s (has_wildcard-slash old plain) h in
    rw (e, append_assoc old (slash ∷ []) r) (is_under-of old r)
