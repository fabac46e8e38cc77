-- ===== src/Storage/Paths/Names.antt =====
-- The names and the paths of folders.
use graphql_prisma_postgres.Prelude.{
  ℕ, ◌≡◌, inl, inr, refl, ◌∙◌, Bool, true, false, ◌||◌, List, [], ◌∷◌, ◌++◌, arith, Bool-cases,
  ◌==◌, keep, All, All-append, All-map, keep-passes,
}
use mathlib.Core.List.{reverse, reverse-cons, reverse-append, reverse-reverse}
use graphql_prisma_postgres.Users.Input.{is_space, trim_start, trim}
use graphql_prisma_postgres.Storage.Paths.{is_word_char, sanitize_folder_name, slash}

-- No slash in it.
abbrev pub IsFlat : List ℕ → Type 0
IsFlat s = All (λ c. (c == slash) ≡ false) s

abbrev IsNameChar : ℕ → Type 0
IsNameChar c = (is_word_char c || is_space c) ≡ true

flat_char : (c : ℕ) → IsNameChar c → (c == slash) ≡ false
flat_char c h = ground arith

module _ {κ} (P : ℕ → Type κ) where
  All-trim_start : (s : List ℕ) → All P s → All P (trim_start s)
  unfolding trim_start
  All-trim_start [] h = tt
  All-trim_start (c ∷ s) (p, h) = elim (Bool-cases (is_space c)) [
    | inl y ↦ rw y (All-trim_start s h)
    | inr n ↦ rw n (p, h)
  ]

  All-reverse : (s : List ℕ) → All P s → All P (reverse s)
  All-reverse [] h = tt
  All-reverse (c ∷ s) (p, h) =
      rw (reverse-cons c s) (All-append P (reverse s) (c ∷ []) (All-reverse s h) (p, tt))

  All-trim : (s : List ℕ) → All P s → All P (trim s)
  unfolding trim
  All-trim s h =
      All-reverse (trim_start (reverse (trim_start s)))
        (All-trim_start (reverse (trim_start s)) (All-reverse (trim_start s) (All-trim_start s h)))

-- The text does not begin with white space.
abbrev BeginsClean : List ℕ → Type 0
BeginsClean [] = Unit
BeginsClean (c ∷ s) = is_space c ≡ false

trim_start-BeginsClean : (s : List ℕ) → BeginsClean (trim_start s)
unfolding trim_start
trim_start-BeginsClean [] = tt
trim_start-BeginsClean (c ∷ s) = elim (Bool-cases (is_space c)) [
  | inl y ↦ rw y (trim_start-BeginsClean s)
  | inr n ↦ rw n n
]

trim_start-clean : (s : List ℕ) → BeginsClean s → trim_start s ≡ s
unfolding trim_start
trim_start-clean [] h = refl
trim_start-clean (c ∷ s) h = rw h refl

-- What ends in another character than white space keeps that end.
trim_start-end :
    (x : List ℕ) (c : ℕ)
    → is_space c ≡ false
    → (y : List ℕ) × (trim_start (x ++ (c ∷ [])) ≡ y ++ (c ∷ []))
unfolding trim_start
trim_start-end [] c h = ([], rw h refl)
trim_start-end (d ∷ x) c h = elim (Bool-cases (is_space d)) [
  | inl y ↦ rw y (trim_start-end x c h)
  | inr n ↦ (d ∷ x, rw n refl)
]

clean_back : (u : List ℕ) → BeginsClean u → BeginsClean (reverse (trim_start (reverse u)))
unfolding trim_start
clean_back [] h = tt
clean_back (c ∷ u) h =
    let (y, e) = trim_start-end (reverse u) c h in
    rw (reverse-cons c u, e, reverse-append y (c ∷ [])) h

trim-trim : (s : List ℕ) → trim (trim s) ≡ trim s
unfolding trim
trim-trim s =
    let u = trim_start s in
    let w = trim_start (reverse u) in
    let clean : BeginsClean (reverse w) = clean_back u (trim_start-BeginsClean s) in
    let kept : trim_start w ≡ w = trim_start-clean w (trim_start-BeginsClean (reverse u)) in
    rw (trim_start-clean (reverse w) clean, reverse-reverse w, kept) refl

keep-all : (p : ℕ → Bool) (s : List ℕ) → All (λ c. p c ≡ true) s → keep p s ≡ s
keep-all p [] h = refl
keep-all p (c ∷ s) (q, h) = rw (q, keep-all p s h) refl

sanitize-IsNameChar : (s : List ℕ) → All IsNameChar (sanitize_folder_name s)
unfolding sanitize_folder_name
sanitize-IsNameChar s =
    let p = λ (c : ℕ). is_word_char c || is_space c in
    All-trim IsNameChar (keep p s) (keep-passes p s)

sanitize_twice :
    (s : List ℕ) → sanitize_folder_name (sanitize_folder_name s) ≡ sanitize_folder_name s
unfolding sanitize_folder_name
sanitize_twice s =
    let p = λ (c : ℕ). is_word_char c || is_space c in
    let same : keep p (sanitize_folder_name s) ≡ sanitize_folder_name s =
      keep-all p (sanitize_folder_name s) (sanitize-IsNameChar s) in
    (λ i. trim (same i)) ∙ trim-trim (keep p s)

-- Cleaning a folder's name a second time changes nothing, and the name has no slash: so it is one
-- step of a path.
pub sanitize_folder_name-settled :
    (s : List ℕ)
    → (sanitize_folder_name (sanitize_folder_name s) ≡ sanitize_folder_name s)
      × IsFlat (sanitize_folder_name s)
sanitize_folder_name-settled s = (
  sanitize_twice s,
  All-map IsNameChar (λ c. (c == slash) ≡ false) (sanitize_folder_name s) flat_char
      (sanitize-IsNameChar s),
)
