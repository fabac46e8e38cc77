-- ===== src/Storage/Folders/Tree/Places.antt =====
-- The new place of a folder that is renamed or moved.
use graphql_prisma_postgres.Prelude.{
  ℕ, ◌≡◌, ◌≢◌, inl, inr, refl, ap, ◌∙◌, true, false, Option, none, some, List, [], ◌∷◌, ◌++◌, arith,
  Bool-cases, length, after_prefix-append,
}
use mathlib.Core.List.{Memᴰ, append-nil}
use graphql_prisma_postgres.Storage.State.{Folder}
use graphql_prisma_postgres.Storage.Paths.{
  is_empty, slash, build_folder_path, before_last_slash, starts_with,
}
use graphql_prisma_postgres.Storage.Paths.Prefixes.{
  is_under, IsUnder-of, length-append, before_last_slash-flat, before_last_slash-in,
}
use graphql_prisma_postgres.Storage.Folders.Relocation.{set_name_path, set_parent_path}
use graphql_prisma_postgres.Storage.Folders.Tree.{IsName, IsPlaced, IsTree}
use graphql_prisma_postgres.Storage.Folders.Tree.Moving.{
  IsName-IsFlat, IsPlacedOutside, IsRelocation,
}

-- The path in a folder, for a name that is settled.
pub build-top : (name : List ℕ) → IsName name → build_folder_path none name ≡ name
unfolding build_folder_path
build-top name (settled, _) = settled

pub build-in :
    (parent name : List ℕ)
    → IsName name
    → is_empty parent ≡ false
    → build_folder_path (some parent) name ≡ parent ++ (slash ∷ name)
unfolding build_folder_path
build-in parent name (settled, _) full = rw (full, settled) refl

not_empty_in : (a n : List ℕ) → is_empty (a ++ (slash ∷ n)) ≡ false
not_empty_in [] n = refl
not_empty_in (c ∷ a) n = refl

placed-not_empty :
    (fs : List Folder) (f : Folder) (q : Option ℕ)
    → IsName f.name
    → IsPlaced fs f q
    → is_empty f.path ≡ false
placed-not_empty fs f none (_, full) here = ap is_empty here ∙ full
placed-not_empty fs f (some p) name (g, (_, _, _, e)) = ap is_empty e ∙ not_empty_in g.path f.name

-- The folder that one is in has a shorter path.
not_below : (a n s : List ℕ) → s ≡ a ++ (slash ∷ n) → (a ≢ s) × (is_under s a ≡ false)
not_below a n s e = (
  λ same. absurd (omega (arith, ap length same, ap length e, length-append a (slash ∷ n))),
  elim (Bool-cases (is_under s a)) [
    | inr n ↦ n
    | inl y ↦
        let (r, e') = IsUnder-of s a y in
        absurd (
          omega (
            arith,
            ap length e,
            ap length e',
            length-append a (slash ∷ n),
            length-append s (slash ∷ r),
          ))
  ],
)

module _ (fs : List Folder) (tree : IsTree fs) (folder : Folder) (present : Memᴰ folder fs) where
  pub path-not_empty : (g : Folder) → Memᴰ g fs → is_empty g.path ≡ false
  path-not_empty g m = placed-not_empty fs g g.parent_id (tree.named g m) (tree.placed g m)

  renamed_place :
      (name : List ℕ) (q : Option ℕ)
      → IsName name
      → IsPlaced fs folder q
      → IsPlacedOutside fs folder.path
          (set_name_path name (build_folder_path (before_last_slash folder.path) name) folder)
          q
  renamed_place name none is_name here =
      let flat = IsName-IsFlat folder.name (tree.named folder present) in
      rw (here, before_last_slash-flat folder.name flat) (build-top name is_name)
  renamed_place name (some p) is_name (g, (m, ig, og, e)) =
      let flat = IsName-IsFlat folder.name (tree.named folder present) in
      let (other, out) = not_below g.path folder.name folder.path e in
      (
        g,
        (
          m,
          ig,
          og,
          ap (λ s. build_folder_path s name)
                (ap before_last_slash e ∙ before_last_slash-in g.path folder.name flat)
              ∙ build-in g.path name is_name (path-not_empty g m),
          other,
          out,
        ),
      )

  pub rename-IsRelocation :
      (name : List ℕ)
      → IsName name
      → IsRelocation fs tree folder present
          (set_name_path name (build_folder_path (before_last_slash folder.path) name))
  rename-IsRelocation name is_name = (
    λ f. refl,
    refl,
    is_name,
    renamed_place name folder.parent_id is_name (tree.placed folder present),
  )

  -- The path of the folder moved to, which does not begin with that of the folder.
  abbrev pub IsTarget : Option ℕ → Option (List ℕ) → Type 0
  IsTarget none path = path ≡ none
  IsTarget (some p) path =
      (g : Folder) × (Memᴰ g fs
        × (g.id ≡ p)
        × (g.owner_id ≡ folder.owner_id)
        × (path ≡ some g.path)
        × (starts_with folder.path g.path ≡ false))

  starts_with_self : (s : List ℕ) → starts_with s s ≡ true
  starts_with_self s = let e = after_prefix-append s [] in ground (arith, rw (append-nil s) at e)

  starts_with-under : (s a : List ℕ) → is_under s a ≡ true → starts_with s a ≡ true
  starts_with-under s a y =
      let (r, e) = IsUnder-of s a y in ground (arith, e, after_prefix-append s (slash ∷ r))

  moved_place :
      (parent : Option ℕ) (path : Option (List ℕ))
      → IsTarget parent path
      → IsPlacedOutside fs folder.path
          (set_parent_path parent (build_folder_path path folder.name) folder)
          parent
  moved_place none path e = rw e (build-top folder.name (tree.named folder present))
  moved_place (some p) path (g, (m, ig, og, e, apart)) = (
    g,
    (
      m,
      ig,
      og,
      ap (λ s. build_folder_path s folder.name) e
          ∙ build-in g.path folder.name (tree.named folder present) (path-not_empty g m),
      λ same. absurd (ground (arith, rw same at apart, starts_with_self folder.path)),
      elim (Bool-cases (is_under folder.path g.path)) [
        | inr n ↦ n
        | inl y ↦ absurd (ground (arith, apart, starts_with-under folder.path g.path y))
      ],
    ),
  )

  pub move-IsRelocation :
      (parent : Option ℕ) (path : Option (List ℕ))
      → IsTarget parent path
      → IsRelocation fs tree folder present
          (set_parent_path parent (build_folder_path path folder.name))
  move-IsRelocation parent path target =
      (λ f. refl, refl, tree.named folder present, moved_place parent path target)
