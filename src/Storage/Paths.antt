-- ===== src/Storage/Paths.antt =====
-- services/storage/src/utils/path.util.ts, over code units.
pub mod Names
pub mod Prefixes
use graphql_prisma_postgres.Prelude.{
  ℕ, Bool, true, false, not, ◌&&◌, ◌||◌, Option, none, some, List, [], ◌∷◌, ◌++◌, leb, ◌==◌,
  if◌then◌else◌, keep, codes, after_prefix,
}
use graphql_prisma_postgres.Users.Input.{is_space, trim}
use graphql_prisma_postgres.Storage.State.{StoreEnv, Store, S, answer}

-- `[a-zA-Z0-9-_]`
abbrev pub is_word_char : ℕ → Bool
is_word_char c =
    (leb 97 c && leb c 122)
    || (leb 65 c && leb c 90)
    || (leb 48 c && leb c 57)
    || c == 45
    || c == 95

-- `sanitizeFolderName`
unfoldable pub sanitize_folder_name : List ℕ → List ℕ
sanitize_folder_name name = trim (keep (λ c. is_word_char c || is_space c) name)

abbrev pub slash : ℕ
slash = 47

abbrev pub is_empty : List ℕ → Bool
is_empty [] = true
is_empty (_ ∷ _) = false

-- A path in a folder, which may be missing or have no path.
abbrev pub join : Option (List ℕ) → List ℕ → List ℕ
join none name = name
join (some parent) name = if is_empty parent then name else parent ++ (slash ∷ name)

-- `buildFolderPath`
unfoldable pub build_folder_path : Option (List ℕ) → List ℕ → List ℕ
build_folder_path parent_path folder_name = join parent_path (sanitize_folder_name folder_name)

-- `replace(/[^a-zA-Z0-9-_]/g, '_')`
abbrev pub replace_others : List ℕ → List ℕ
replace_others [] = []
replace_others (c ∷ s) = (if is_word_char c then c else 95) ∷ replace_others s

-- `generateStorageKey`, whose owner is an identifier's text.
unfoldable pub generate_storage_key : List ℕ → Option (List ℕ) → List ℕ → S (List ℕ)
generate_storage_key owner folder_path filename env w =
    let ext = env.extname filename in
    let name = replace_others (env.basename filename ext) ++ (95 ∷ (env.uuid w.calls ++ ext)) in
    (answer (owner ++ (slash ∷ join folder_path name)), w)

-- `startsWith`
abbrev pub starts_with : List ℕ → List ℕ → Bool
starts_with p s = elim (after_prefix p s) [ none ↦ false | some _ ↦ true ]

-- A row that `startsWith` of the database finds: SQL's LIKE of the text and `%`. The text is not
-- escaped, so an underscore in it stands for any character; it holds no `%` and no backslash, since
-- `sanitizeFolderName` leaves none in a name.
unfoldable pub is_like : List ℕ → List ℕ → Bool
is_like [] s = true
is_like (p ∷ pattern) [] = false
is_like (p ∷ pattern) (c ∷ s) = (p == 95 || p == c) && is_like pattern s

-- `s.replace(p, r)`: the first occurrence, for a replacement without `$`.
unfoldable pub replace_first : List ℕ → List ℕ → List ℕ → List ℕ
replace_first p r [] = elim (after_prefix p []) [ some tail ↦ r ++ tail | none ↦ [] ]
replace_first p r (c ∷ s) =
    let rest = replace_first p r s in
    elim (after_prefix p (c ∷ s)) [ some tail ↦ r ++ tail | none ↦ c ∷ rest ]

-- The part before the last slash; nothing where there is none.
unfoldable pub before_last_slash : List ℕ → Option (List ℕ)
before_last_slash [] = none
before_last_slash (c ∷ s) = elim (before_last_slash s) [
  | some p ↦ some (c ∷ p)
  | none ↦ if c == slash then some [] else none
]
