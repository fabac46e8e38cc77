-- ===== src/Storage/Folders/Relocation.antt =====
-- services/storage/src/services/folder.service.ts: a folder that is renamed or moved.
use graphql_prisma_postgres.Prelude.{
  ℕ, Bool, not, ◌&&◌, Option, none, some, List, [], ◌∷◌, ◌==◌, if◌then◌else◌, any, find?, keep,
  update_where, truthy, same_text,
}
use graphql_prisma_postgres.Effects.{p2002, p2003, p2025}
use graphql_prisma_postgres.Storage.State.{
  Folder, Store, bad_request, database, Answer, answer, failure, S, return, ◌>>=◌, ◌>>◌, demand,
  query, statement,
}
use graphql_prisma_postgres.Storage.Paths.{
  sanitize_folder_name, is_empty, build_folder_path, starts_with, replace_first, before_last_slash,
}
use graphql_prisma_postgres.Storage.Paths.Prefixes.{is_like_under}
use graphql_prisma_postgres.Storage.Folders.{
  is_folder, is_other_than, find_folder, own_folder, demand_free, parent_exists,
}

-- One `prisma.folder.update` of a transaction: the row, the key of the path, and the key of the
-- parent, which every row in the table keeps.
abbrev pub takes_path : ℕ → List ℕ → Folder → Bool
takes_path id path f = not (f.id == id) && same_text f.path path

unfoldable pub update_folder_row : ℕ → (Folder → Folder) → List Folder → Answer (List Folder)
update_folder_row id f fs = elim (find? (is_folder id) fs) [
  | none ↦ failure (database p2025)
  | some row ↦
      if any (takes_path id (f row).path) fs
      then failure (database p2002)
      else if parent_exists (f row).parent_id fs
      then answer (update_where (is_folder id) f fs)
      else failure (database p2003)
]

abbrev pub set_path : List ℕ → Folder → Folder
set_path path f = record f { path = path }

-- The updates of the folders below, one after the other.
unfoldable pub update_paths : List ℕ → List ℕ → List Folder → List Folder → Answer (List Folder)
update_paths old_path new_path [] fs = answer fs
update_paths old_path new_path (c ∷ cs) fs =
    elim (update_folder_row c.id (set_path (replace_first old_path new_path c.path)) fs) [
      | failure e ↦ failure e
      | answer fs' ↦ update_paths old_path new_path cs fs'
    ]

abbrev pub commit : Store → Answer (List Folder) → Answer (Unit {0}) × Store
commit w (failure e) = (failure e, w)
commit w (answer fs) = (answer tt, record w { folders = fs })

-- The transaction of `renameFolder` and `moveFolder`: the folder, then those below.
unfoldable pub relocate :
    ℕ → (Folder → Folder) → List ℕ → List ℕ → List Folder → Store → Answer (Unit {0}) × Store
relocate id f old_path new_path children w = elim (update_folder_row id f w.folders) [
  | failure e ↦ (failure e, w)
  | answer fs ↦ commit w (update_paths old_path new_path children fs)
]

-- What `renameFolder` and `moveFolder` end with: the folders that the database finds for the old path
-- are of any owner. The new path must be free of the owner's folders.
unfoldable pub relocate_folder : Folder → (Folder → Folder) → List ℕ → ℕ → S (Option Folder)
unfolding query statement
relocate_folder folder f new_path owner = do
  demand_free new_path owner (is_other_than folder.id)
  children ← query (λ w. keep (λ g. is_like_under folder.path g.path) w.folders)
  statement (relocate folder.id f folder.path new_path children)
  find_folder folder.id

abbrev pub set_name_path : List ℕ → List ℕ → Folder → Folder
set_name_path name path f = record f { name = name; path = path }

-- `renameFolder` for a name that was cleaned.
unfoldable pub rename_named : Folder → List ℕ → ℕ → S (Option Folder)
rename_named folder name owner =
    let new_path = build_folder_path (before_last_slash folder.path) name in
    relocate_folder folder (set_name_path name new_path) new_path owner

unfoldable pub rename_folder : ℕ → List ℕ → ℕ → S (Option Folder)
rename_folder id name owner = do
  folder ← own_folder id owner
  demand (not (is_empty (sanitize_folder_name name))) bad_request
  rename_named folder (sanitize_folder_name name) owner

abbrev pub set_parent_path : Option ℕ → List ℕ → Folder → Folder
set_parent_path parent path f = record f { parent_id = parent; path = path }

-- The path of the folder to move to, which must not begin with the path of the one that is moved.
unfoldable pub target_path_of : Option ℕ → ℕ → List ℕ → S (Option (List ℕ))
target_path_of none owner path = return none
target_path_of (some id) owner path =
    if truthy id
    then (do
      parent ← own_folder id owner
      demand (not (starts_with path parent.path)) bad_request
      return (some parent.path))
    else return none

unfoldable pub move_to : Folder → Option ℕ → Option (List ℕ) → ℕ → S (Option Folder)
move_to folder parent parent_path owner =
    let new_path = build_folder_path parent_path folder.name in
    relocate_folder folder (set_parent_path parent new_path) new_path owner

unfoldable pub move_folder : ℕ → Option ℕ → ℕ → S (Option Folder)
move_folder id parent owner = do
  folder ← own_folder id owner
  parent_path ← target_path_of parent owner folder.path
  move_to folder parent parent_path owner
