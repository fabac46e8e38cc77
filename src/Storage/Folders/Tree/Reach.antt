-- ===== src/Storage/Folders/Tree/Reach.antt =====
-- The folders over any sequence of operations.
use graphql_prisma_postgres.Prelude.{ℕ, ◌≡◌, refl, sym, Bool, Option, List, []}
use mathlib.Core.Path.{subst}
use mathlib.Core.List.{Memᴰ}
use mathlib.Core.List.Memᴰ
use graphql_prisma_postgres.Storage.State.{Folder, Store, StoreEnv}
use graphql_prisma_postgres.Storage.Paths.Prefixes.{IsUnder}
use graphql_prisma_postgres.Storage.Folders.{create_folder, delete_folder}
use graphql_prisma_postgres.Storage.Folders.Below.{IsUnmistaken}
use graphql_prisma_postgres.Storage.Folders.Relocation.{rename_folder, move_folder}
use graphql_prisma_postgres.Storage.Uploads.{CreateSignedUrlInput, create_signed_upload_url}
use graphql_prisma_postgres.Storage.Folders.Tree.{IsTree}
use graphql_prisma_postgres.Storage.Folders.Tree.Owners.{IsTreeBut, owner_under}
use graphql_prisma_postgres.Storage.Folders.Tree.Operations.{
  rename_folder-LeavesTree, move_folder-LeavesTree,
}
use graphql_prisma_postgres.Storage.Folders.Tree.Uploads.{create_signed_upload_url-LeavesTree}
use graphql_prisma_postgres.Storage.Folders.Tree.Rows.{MakesIds, create_folder-LeavesTree}
use graphql_prisma_postgres.Storage.Folders.Tree.Removal.{delete_folder-LeavesTree}

-- A call that changes folders, by an owner.
pub data FolderCall : Type 0 where
  creates : List ℕ → Option ℕ → Bool → FolderCall
  renames : ℕ → List ℕ → FolderCall
  moves : ℕ → Option ℕ → FolderCall
  deletes : ℕ → FolderCall
  uploads : CreateSignedUrlInput → FolderCall

abbrev pub run_call : FolderCall → ℕ → StoreEnv → Store → Store
run_call (creates name parent is_public) owner env w =
    (create_folder name parent is_public owner env w).1
run_call (renames id name) owner env w = (rename_folder id name owner env w).1
run_call (moves id parent) owner env w = (move_folder id parent owner env w).1
run_call (deletes id) owner env w = (delete_folder id owner env w).1
run_call (uploads input) owner env w =
    (create_signed_upload_url (record input { owner_id = owner }) env w).1

-- A renamed or moved folder is one whose path no other folder is mistaken to be below.
abbrev pub IsUnmistakenCall : FolderCall → List Folder → Type 0
IsUnmistakenCall (creates name parent is_public) fs = Unit
IsUnmistakenCall (renames id name) fs = IsUnmistaken id fs
IsUnmistakenCall (moves id parent) fs = IsUnmistaken id fs
IsUnmistakenCall (deletes id) fs = Unit
IsUnmistakenCall (uploads input) fs = Unit

-- A call that creates, renames, moves or deletes a folder, or asks for an upload, leaves a tree of
-- folders, however each call of the database and of the provider ends, where the folders were a tree,
-- new identifiers are not empty, and no folder's path is like that of a renamed or moved folder and a
-- slash unless it begins with it (an underscore is like any character); and every folder of an owner other than the caller is as it was.
pub run_call-IsTreeBut :
    (c : FolderCall) (owner : ℕ) (env : StoreEnv) (w : Store)
    → MakesIds env
    → IsTree w.folders
    → IsUnmistakenCall c w.folders
    → IsTreeBut owner w.folders (run_call c owner env w).folders
run_call-IsTreeBut (creates name parent is_public) owner env w ids tree only =
    create_folder-LeavesTree w.folders tree owner name parent is_public env w ids refl
run_call-IsTreeBut (renames id name) owner env w ids tree only =
    rename_folder-LeavesTree w.folders tree owner id name env w only refl
run_call-IsTreeBut (moves id parent) owner env w ids tree only =
    move_folder-LeavesTree w.folders tree owner id parent env w only refl
run_call-IsTreeBut (deletes id) owner env w ids tree only =
    delete_folder-LeavesTree w.folders tree owner id env w refl
run_call-IsTreeBut (uploads input) owner env w ids tree only =
    create_signed_upload_url-LeavesTree w.folders tree owner env ids
      (record input { owner_id = owner }) w refl refl

-- The states that these calls reach from no folders, with anything else in between that leaves
-- the folders as they are.
pub data Reachable : Store → Type 0 where
  start : (w : Store) → w.folders ≡ [] → Reachable w
  call :
      (w : Store) (c : FolderCall) (owner : ℕ) (env : StoreEnv)
      → MakesIds env
      → IsUnmistakenCall c w.folders
      → Reachable w
      → Reachable (run_call c owner env w)
  meanwhile : (v w : Store) → w.folders ≡ v.folders → Reachable v → Reachable w

IsTree-nil : IsTree []
IsTree-nil = record {
  keyed = λ f g m _ _. absurd (Memᴰ.not-nil m);
  pathed = λ f g m _ _. absurd (Memᴰ.not-nil m);
  named = λ f m. absurd (Memᴰ.not-nil m);
  real = λ f m. absurd (Memᴰ.not-nil m);
  placed = λ f m. absurd (Memᴰ.not-nil m);
}

Reachable-IsTree' : (w : Store) → Reachable w → IsTree w.folders
Reachable-IsTree' _ (start w empty) = subst IsTree (sym empty) IsTree-nil
Reachable-IsTree' _ (call w c owner env ids only r) =
    (run_call-IsTreeBut c owner env w ids (Reachable-IsTree' w r) only).0
Reachable-IsTree' _ (meanwhile v w same r) = subst IsTree (sym same) (Reachable-IsTree' v r)

-- In every state that these calls reach from no folders, where the new identifiers are not empty and
-- no folder's path is like that of a renamed or moved folder and a slash unless it begins with it, the
-- path of a folder is the path of the folder it is in, a slash and its name; and a folder whose path
-- goes on behind the path of another folder and a slash has the owner of that one.
pub Reachable-IsTree :
    (w : Store)
    → Reachable w
    → IsTree w.folders
      × ((a f : Folder)
          → Memᴰ a w.folders
          → Memᴰ f w.folders
          → IsUnder a.path f.path
          → f.owner_id ≡ a.owner_id)
Reachable-IsTree w r = (
  Reachable-IsTree' w r,
  λ a f ma mf under. owner_under w.folders (Reachable-IsTree' w r) a ma f mf under,
)
