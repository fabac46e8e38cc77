-- ===== src/Storage/Folders.antt =====
-- services/storage/src/services/folder.service.ts: the folders of an owner, each with its path.
pub mod Relocation
pub mod Tables
pub mod Below
pub mod Tree
use graphql_prisma_postgres.Prelude.{
  ℕ, Bool, true, false, not, ◌&&◌, ◌||◌, Option, none, some, List, [], ◌∷◌, ◌++◌, ◌==◌,
  if◌then◌else◌, any, find?, keep, take, update_where, truthy, same_text,
}
use graphql_prisma_postgres.Effects.{p2002, p2003, p2025}
use graphql_prisma_postgres.Storage.State.{
  FileStatus, uploaded, StoredFile, Folder, ShareLink, Store, StoreEnv, bad_request, access_denied,
  missing_row, already_there, database, Answer, answer, failure, S, return, fail, ◌>>=◌, ◌>>◌,
  demand, or_fail, query, statement,
}
use graphql_prisma_postgres.Storage.Paths.{
  sanitize_folder_name, is_empty, build_folder_path, starts_with, replace_first, before_last_slash,
}
use graphql_prisma_postgres.Storage.Paths.Prefixes.{is_under}

abbrev pub is_folder : ℕ → Folder → Bool
is_folder id f = f.id == id

abbrev pub is_other_than : ℕ → Folder → Bool
is_other_than id f = not (f.id == id)

-- `prisma.folder.findUnique({ where: { id } })`
unfoldable pub find_folder : ℕ → S (Option Folder)
unfolding query
find_folder id = query (λ w. find? (is_folder id) w.folders)

-- A folder that is there and the owner's.
unfoldable pub own_folder : ℕ → ℕ → S Folder
own_folder id owner = do
  found ← find_folder id
  folder ← or_fail found missing_row
  demand (folder.owner_id == owner) access_denied
  return folder

unfoldable pub parent_path_of : Option ℕ → ℕ → S (Option (List ℕ))
parent_path_of none owner = return none
parent_path_of (some id) owner =
    if truthy id then (own_folder id owner >>= λ parent. return (some parent.path)) else return none

-- `prisma.folder.findFirst` by the path and the owner, of a folder other than some.
abbrev pub has_path_of : List ℕ → ℕ → (Folder → Bool) → Folder → Bool
has_path_of path owner is_other f = same_text f.path path && f.owner_id == owner && is_other f

unfoldable pub demand_free : List ℕ → ℕ → (Folder → Bool) → S (Unit {0})
unfolding query
demand_free path owner is_other = do
  existing ← query (λ w. any (has_path_of path owner is_other) w.folders)
  demand (not existing) already_there

-- The parent's key, where there is one, is a folder's.
abbrev pub parent_exists : Option ℕ → List Folder → Bool
parent_exists none fs = true
parent_exists (some id) fs = any (is_folder id) fs

-- The unique keys: the id and the path.
abbrev pub folder_clashes : Folder → Folder → Bool
folder_clashes f g = g.id == f.id || same_text g.path f.path

unfoldable pub add_folder : Folder → Store → Answer Folder × Store
add_folder f w =
    if any (folder_clashes f) w.folders
    then (failure (database p2002), w)
    else if parent_exists f.parent_id w.folders
    then (answer f, record w { folders = f ∷ w.folders })
    else (failure (database p2003), w)

-- `prisma.folder.create`; the database makes the id.
unfoldable pub insert_folder : List ℕ → List ℕ → Option ℕ → ℕ → Bool → S Folder
unfolding statement
insert_folder name path parent owner is_public env w =
    statement
      (add_folder (record {
        id = env.cuid w.calls;
        name = name;
        path = path;
        parent_id = parent;
        owner_id = owner;
        is_public = is_public;
      }))
      env w

abbrev pub anyone : Folder → Bool
anyone f = true

-- `createFolder` for a name that was cleaned.
unfoldable pub create_named : List ℕ → Option ℕ → Bool → ℕ → S Folder
create_named name parent is_public owner = do
  demand (not (is_empty name)) bad_request
  parent_path ← parent_path_of parent owner
  demand_free (build_folder_path parent_path name) owner anyone
  insert_folder name (build_folder_path parent_path name) parent owner is_public

unfoldable pub create_folder : List ℕ → Option ℕ → Bool → ℕ → S Folder
create_folder name parent is_public owner =
    create_named (sanitize_folder_name name) parent is_public owner

pub record FolderWithContents : Type 0 where
  pub folder : Folder
  pub files : List StoredFile
  pub children : List Folder

abbrev pub is_in : ℕ → Option ℕ → Bool
is_in id none = false
is_in id (some parent) = parent == id

abbrev pub is_uploaded_in : ℕ → StoredFile → Bool
is_uploaded_in id f = is_in id f.folder_id && elim f.status [ uploaded ↦ true | _ ↦ false ]

abbrev pub with_contents : Store → Option Folder → Option FolderWithContents
with_contents w none = none
with_contents w (some f) = some (record {
  folder = f;
  files = take 100 (keep (is_uploaded_in f.id) w.files);
  children = take 100 (keep (λ g. is_in f.id g.parent_id) w.folders);
})

abbrev pub visible : ℕ → FolderWithContents → S (Option FolderWithContents)
visible owner c =
    if not c.folder.is_public && not (c.folder.owner_id == owner)
    then fail access_denied
    else return (some c)

-- `getFolderById`
unfoldable pub get_folder_by_id : ℕ → ℕ → S (Option FolderWithContents)
unfolding query take
get_folder_by_id id owner = do
  found ← query (λ w. with_contents w (find? (is_folder id) w.folders))
  elim found [ none ↦ return none | some c ↦ visible owner c ]

abbrev pub is_share_of : ℕ → ShareLink → Bool
is_share_of id l = is_in id l.folder_id

-- The row goes, and the links to it; it has no files and no folders in it.
unfoldable pub remove_folder : ℕ → Store → Answer (Unit {0}) × Store
remove_folder id w = elim (find? (is_folder id) w.folders) [
  | none ↦ (failure (database p2025), w)
  | some _ ↦ (
    answer tt,
    record w {
      folders = keep (is_other_than id) w.folders;
      links = keep (λ l. not (is_share_of id l)) w.links;
    },
  )
]

-- `_count` of the files and the folders in it, whatever their status.
abbrev pub has_contents : ℕ → Store → Bool
has_contents id w =
    any (λ f. is_in id f.folder_id) w.files || any (λ g. is_in id g.parent_id) w.folders

abbrev pub counted_folder : ℕ → Store → Option Folder × Bool
counted_folder id w = (find? (is_folder id) w.folders, has_contents id w)

-- `deleteFolder`
unfoldable pub delete_folder : ℕ → ℕ → S Bool
unfolding query statement
delete_folder id owner = do
  found ← query (counted_folder id)
  folder ← or_fail found.0 missing_row
  demand (folder.owner_id == owner) access_denied
  demand (not found.1) bad_request
  statement (remove_folder id)
  return true
