-- ===== src/Storage/Folders/Tree/Owners.antt =====
-- All that is under a folder belongs to the folder's owner.
use graphql_prisma_postgres.Prelude.{
  ℕ, zero, suc, ◌<◌, ◌≡◌, ◌≢◌, inl, inr, refl, sym, ap, ◌∙◌, Option, none, some, List, ◌∷◌, arith,
  Bool-cases, ◌==◌, length,
}
use mathlib.Core.Path.{subst}
use mathlib.Core.List.{Memᴰ}
use graphql_prisma_postgres.Storage.State.{Folder}
use graphql_prisma_postgres.Storage.Paths.{slash}
use graphql_prisma_postgres.Storage.Paths.Names.{IsFlat}
use graphql_prisma_postgres.Storage.Paths.Prefixes.{
  IsUnder, is_under, IsUnder-of, split-IsUnder, length-append, not-IsFlat,
}
use graphql_prisma_postgres.Storage.Folders.Below.{relocated}
use graphql_prisma_postgres.Storage.Folders.Tree.{IsPlaced, IsTree}
use graphql_prisma_postgres.Storage.Folders.Tree.Moving.{IsName-IsFlat}

-- The tree that is left has all that other owners had.
abbrev pub IsTreeBut : ℕ → List Folder → List Folder → Type 0
IsTreeBut owner fs gs = IsTree gs × ((f : Folder) → Memᴰ f fs → f.owner_id ≢ owner → Memᴰ f gs)

module _ (fs : List Folder) (tree : IsTree fs) (a : Folder) (present : Memᴰ a fs) where
  -- By the length of the path.
  owner_within :
      (n : ℕ) (f : Folder) (q : Option ℕ)
      → length f.path < n
      → Memᴰ f fs
      → IsUnder a.path f.path
      → IsPlaced fs f q
      → f.owner_id ≡ a.owner_id
  owner_within zero f q h m under here = absurd (omega (arith, h))
  owner_within (suc n) f none h m (r, e) here = absurd (
      not-IsFlat a.path r
        (subst (λ s. IsFlat s) (sym here ∙ e) (IsName-IsFlat f.name (tree.named f m))))
  owner_within (suc n) f (some p) h m (r, e) (g, (mg, ig, og, pg)) =
      elim (split-IsUnder g.path f.name a.path r (IsName-IsFlat f.name (tree.named f m))
        (sym pg ∙ e)) [
          | inl at_folder ↦
              sym og
              ∙ ap (λ b. b.owner_id)
                  (tree.keyed g a mg present (tree.pathed g a mg present at_folder))
          | inr under ↦
              sym og
              ∙ owner_within n g g.parent_id
                  (omega (arith, h, ap length pg, length-append g.path (slash ∷ f.name))) mg under
                  (tree.placed g mg)
        ]

  -- In a tree of folders, a folder whose path goes on behind the path of another has its owner.
  pub owner_under : (f : Folder) → Memᴰ f fs → IsUnder a.path f.path → f.owner_id ≡ a.owner_id
  owner_under f m under =
      owner_within (suc (length f.path)) f f.parent_id (omega arith) m under (tree.placed f m)

  -- A relocation leaves the rows of the others alone.
  pub relocated-others :
      (u : Folder → Folder) (new : List ℕ) (f : Folder)
      → Memᴰ f fs
      → f.owner_id ≢ a.owner_id
      → relocated a.id u a.path new f ≡ f
  relocated-others u new f m other = elim (Bool-cases (f.id == a.id)) [
    | inl y ↦ absurd (other (ap (λ h. h.owner_id) (tree.keyed f a m present (ground (arith, y)))))
    | inr n ↦ elim (Bool-cases (is_under a.path f.path)) [
      | inl under ↦ absurd (other (owner_under f m (IsUnder-of a.path f.path under)))
      | inr out ↦ rw (n, out) refl
    ]
  ]
