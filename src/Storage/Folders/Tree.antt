-- ===== src/Storage/Folders/Tree.antt =====
-- The folders form a tree: the path of each is that of the folder it is in, and its name.
pub mod Moving
pub mod Reading
pub mod Changes
pub mod Places
pub mod Owners
pub mod Operations
pub mod Rows
pub mod Removal
pub mod Uploads
pub mod Renamed
pub mod Reach
use graphql_prisma_postgres.Prelude.{
  ℕ, ◌≡◌, Bool, true, false, Option, none, some, List, ◌∷◌, ◌++◌, truthy,
}
use mathlib.Core.List.{Memᴰ}
use graphql_prisma_postgres.Storage.State.{Folder}
use graphql_prisma_postgres.Storage.Paths.{sanitize_folder_name, is_empty, slash}
use graphql_prisma_postgres.Storage.Folders.Tables.{IsKeyed, IsPathed}

abbrev pub IsName : List ℕ → Type 0
IsName name = (sanitize_folder_name name ≡ name) × (is_empty name ≡ false)

-- A folder that is in no other has its name as path; one that is in another has that one's owner.
abbrev pub IsPlaced : List Folder → Folder → Option ℕ → Type 0
IsPlaced fs f none = f.path ≡ f.name
IsPlaced fs f (some parent) =
    (g : Folder) × (Memᴰ g fs
      × (g.id ≡ parent)
      × (g.owner_id ≡ f.owner_id)
      × (f.path ≡ g.path ++ (slash ∷ f.name)))

pub record IsTree (fs : List Folder) : Type 0 where
  pub keyed : IsKeyed fs
  pub pathed : IsPathed fs
  pub named : (f : Folder) → Memᴰ f fs → IsName f.name
  pub real : (f : Folder) → Memᴰ f fs → truthy f.id ≡ true
  pub placed : (f : Folder) → Memᴰ f fs → IsPlaced fs f f.parent_id
