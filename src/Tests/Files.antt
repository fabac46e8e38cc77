-- ===== src/Tests/Files.antt =====
-- Folders and files of a concrete storage service.
use graphql_prisma_postgres.Prelude.{
  ◌≡◌, refl, ap, false, some, none, [], ◌∷◌, arith, text, codes, map, same_text, after_prefix,
}
use mathlib.Core.List.{Memᴰ}
use mathlib.Core.List.Memᴰ
use graphql_prisma_postgres.Storage.State.{
  deleted, uploaded, StoredFile, Folder, Store, answer, query, statement,
}
use graphql_prisma_postgres.Storage.Paths.{
  sanitize_folder_name, build_folder_path, before_last_slash, is_like, replace_first,
}
use graphql_prisma_postgres.Storage.Paths.Prefixes.{IsUnder, has_wildcard}
use graphql_prisma_postgres.Storage.Folders.Below.{IsUnmistaken, plain-IsUnmistaken}
use graphql_prisma_postgres.Storage.Paths.Names.{IsFlat, sanitize_folder_name-settled}
use graphql_prisma_postgres.Storage.Folders.{
  create_folder, create_named, parent_path_of, demand_free, insert_folder, add_folder, own_folder,
  find_folder,
}
use graphql_prisma_postgres.Storage.Folders.Relocation.{
  rename_folder, rename_named, relocate_folder, relocate, update_folder_row, update_paths,
}
use graphql_prisma_postgres.Storage.Folders.Tree.Owners.{IsTreeBut}
use graphql_prisma_postgres.Storage.Folders.Tree.{IsTree}
use graphql_prisma_postgres.Storage.Folders.Tree.Rows.{MakesIds}
use graphql_prisma_postgres.Storage.Folders.Tree.Renamed.{IsRenamed, rename_folder-IsRenamed}
use graphql_prisma_postgres.Storage.Folders.Tree.Reach.{
  creates, renames, run_call, run_call-IsTreeBut, Reachable, start, call, Reachable-IsTree,
}
use graphql_prisma_postgres.Storage.Files.{FileStream, find_file, get_file_stream, ask}
use graphql_prisma_postgres.Storage.Uploads.{CreateSignedUrlInput}
use graphql_prisma_postgres.Storage.Files.Lifecycle.{HasIds, IsStep}
use graphql_prisma_postgres.Storage.Files.Lifecycle.Reach.{
  signs, confirms_upload, run_file_call, MayChange, run_file_call-IsStep,
}
use graphql_prisma_postgres.Storage.Middleware.{
  Request, Verify, extract_service_bearer_token, verify_service_token, verify_file_view_token,
  auth_middleware, file_view_query_auth, streams, get_content,
}
use graphql_prisma_postgres.Storage.Middleware.Served.{IsServed, get_content-IsServed}
use graphql_prisma_postgres.Storage.Content.{evaluate_file_content_access}
use graphql_prisma_postgres.Users.Input.{trim, trim_start}
use graphql_prisma_postgres.Storage.ShareLinks.{get_share_link_by_token}
use graphql_prisma_postgres.Storage.ShareLinks.Shared.{
  file_in_root, file_of_shared, IsShared, file_of_shared-IsShared,
}
use graphql_prisma_postgres.Tests.Storage.{prompt, shelf, shared}

sanitize_folder_name-settled_example :
    (sanitize_folder_name (sanitize_folder_name (codes " a/b "))
      ≡ sanitize_folder_name (codes " a/b "))
    × IsFlat (sanitize_folder_name (codes " a/b "))
sanitize_folder_name-settled_example = sanitize_folder_name-settled (codes " a/b ")

prompt-MakesIds : MakesIds prompt
prompt-MakesIds n = ground arith

-- A folder of user 11 at the top, which gets the id 501.
abbrev with_docs : Store
with_docs = run_call (creates (codes "docs") none false) 11 prompt shelf

with_docs-Reachable : Reachable with_docs
with_docs-Reachable =
    call shelf (creates (codes "docs") none false) 11 prompt prompt-MakesIds tt (start shelf refl)

docs-IsUnmistaken : IsUnmistaken 501 with_docs.folders
unfolding create_folder create_named parent_path_of demand_free insert_folder add_folder
    sanitize_folder_name build_folder_path query statement trim trim_start after_prefix
docs-IsUnmistaken =
    plain-IsUnmistaken 501 with_docs.folders
      (λ f m _. ap (λ g. has_wildcard g.path) (Memᴰ.eq_of_singleton m))

Reachable-IsTree_example :
    IsTree with_docs.folders
    × ((a f : Folder)
        → Memᴰ a with_docs.folders
        → Memᴰ f with_docs.folders
        → IsUnder a.path f.path
        → f.owner_id ≡ a.owner_id)
Reachable-IsTree_example = Reachable-IsTree with_docs with_docs-Reachable

run_call-IsTreeBut_example :
    IsTreeBut 11 with_docs.folders
      (run_call (renames 501 (codes "papers")) 11 prompt with_docs).folders
run_call-IsTreeBut_example =
    run_call-IsTreeBut (renames 501 (codes "papers")) 11 prompt with_docs prompt-MakesIds
      (Reachable-IsTree with_docs with_docs-Reachable).0 docs-IsUnmistaken

renamed :
    map (λ f. f.path) (run_call (renames 501 (codes "pa/pers")) 11 prompt with_docs).folders
    ≡ codes "papers" ∷ []
unfolding create_folder create_named parent_path_of demand_free insert_folder add_folder
    rename_folder rename_named own_folder find_folder relocate_folder relocate update_folder_row
    update_paths sanitize_folder_name build_folder_path before_last_slash query statement same_text
    trim trim_start after_prefix is_like
renamed = refl

abbrev papers : Folder
papers = record {
  id = 501;
  name = codes "papers";
  path = codes "papers";
  parent_id = none;
  owner_id = 11;
  is_public = false;
}

rename-answers : (rename_folder 501 (codes "papers") 11 prompt with_docs).0 ≡ answer (some papers)
unfolding create_folder create_named parent_path_of demand_free insert_folder add_folder
    rename_folder rename_named own_folder find_folder relocate_folder relocate update_folder_row
    update_paths sanitize_folder_name build_folder_path before_last_slash query statement same_text
    trim trim_start after_prefix is_like
rename-answers = refl

rename_folder-IsRenamed_example :
    IsRenamed with_docs.folders 501
      (sanitize_folder_name (codes "papers"))
      11
      (rename_folder 501 (codes "papers") 11 prompt with_docs).1.folders
rename_folder-IsRenamed_example =
    rename_folder-IsRenamed 501 (codes "papers") 11 prompt with_docs (some papers)
      (Reachable-IsTree with_docs with_docs-Reachable).0 docs-IsUnmistaken rename-answers

-- A folder of user 11 that has an underscore in its name, and two folders of user 12.
abbrev alike : Store
alike = record shelf {
  folders =
      record papers { name = codes "a_b"; path = codes "a_b" }
      ∷ record papers { id = 601; name = codes "axb"; path = codes "axb"; owner_id = 12 }
      ∷ record papers {
        id = 602;
        name = codes "a_b";
        path = codes "axb/a_b";
        parent_id = some 601;
        owner_id = 12;
      }
      ∷ [];
}

-- Renaming the one changes the path of a folder of the other user.
mistaken :
    map (λ f. f.path) (run_call (renames 501 (codes "new")) 11 prompt alike).folders
    ≡ codes "new" ∷ codes "axb" ∷ codes "axb/new" ∷ []
unfolding rename_folder rename_named own_folder find_folder relocate_folder relocate
    update_folder_row update_paths sanitize_folder_name build_folder_path before_last_slash query
    statement same_text trim trim_start after_prefix is_like replace_first demand_free
mistaken = refl

-- An upload of user 11 at the top, which gets the id 501.
abbrev upload : CreateSignedUrlInput
upload = record {
  filename = codes "a.txt";
  mime_type = 1;
  size = 10;
  folder_id = none;
  folder_name = none;
  is_public = false;
  owner_id = 11;
}

nil-HasIds : HasIds []
nil-HasIds f g m _ _ = absurd (Memᴰ.not-nil m)

abbrev with_upload : Store
with_upload = run_file_call (signs upload) prompt shelf

run_file_call-IsStep_example :
    IsStep
      (MayChange (confirms_upload 501 11))
      with_upload.files
      (run_file_call (confirms_upload 501 11) prompt with_upload).files
run_file_call-IsStep_example =
    run_file_call-IsStep (confirms_upload 501 11) prompt with_upload
      (run_file_call-IsStep (signs upload) prompt shelf nil-HasIds).ids

-- A file that is public and uploaded, and the same when it was deleted.
abbrev report : StoredFile
report = record {
  id = 3;
  filename = codes "r";
  original_name = codes "r";
  mime_type = 1;
  size = 10;
  storage_key = codes "11/r";
  status = uploaded;
  folder_id = none;
  owner_id = 11;
  is_public = false;
  expires_at = none;
}

abbrev dropped : StoredFile
dropped = record report { status = deleted }

abbrev shelf_of : StoredFile → Store
shelf_of f = record shelf { files = f ∷ [] }

abbrev stream_of : StoredFile → FileStream
stream_of f = record {
  stream = 4;
  mime_type = f.mime_type;
  size = f.size;
  filename = f.original_name;
}

-- A token is good for the view of file 3, made for user 11.
abbrev reads_view : Verify
reads_view token = some (record {
  id = none;
  email = none;
  role = none;
  file_id = some 3;
  owner_id = some 11;
  token_type = some (text "file-view");
})

abbrev view_request : Request
view_request = record { authorization = none; query_token = some (codes "t") }

get_content-runs :
    (get_content reads_view view_request 3 prompt (shelf_of report)).0
    ≡ answer (streams (stream_of report))
unfolding get_content auth_middleware extract_service_bearer_token file_view_query_auth
    verify_service_token verify_file_view_token evaluate_file_content_access find_file query
    get_file_stream ask
get_content-runs = refl

get_content-IsServed_example : IsServed reads_view view_request 3 (report ∷ [])
get_content-IsServed_example =
    get_content-IsServed reads_view view_request 3 prompt (shelf_of report) (stream_of report)
      get_content-runs

-- The folder of user 11 with a file, and a link to it whose last view is left.
abbrev paper : StoredFile
paper = record report { folder_id = some 501 }

abbrev with_shared : Store
with_shared = record with_docs {
  files = paper ∷ [];
  links = record shared { file_id = none; folder_id = some 501 } ∷ [];
}

-- The file is served, and the view of it is not counted.
paper_is_served :
    ((file_of_shared 77 3 0 prompt with_shared).0 ≡ answer paper)
    × ((file_of_shared 77 3 0 prompt with_shared).1.links ≡ with_shared.links)
unfolding create_folder create_named parent_path_of demand_free insert_folder add_folder
    sanitize_folder_name build_folder_path query statement trim trim_start after_prefix
    file_of_shared file_in_root get_share_link_by_token
paper_is_served = (refl, refl)

file_of_shared-IsShared_example : IsShared 77 3 0 prompt with_shared paper
file_of_shared-IsShared_example =
    file_of_shared-IsShared 77 3 0 prompt with_shared paper
      (Reachable-IsTree with_docs with_docs-Reachable).0 (paper_is_served.0)
