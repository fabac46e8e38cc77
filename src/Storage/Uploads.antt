-- ===== src/Storage/Uploads.antt =====
-- services/storage/src/services/upload.service.ts: a file is pending from the signed URL on, until the
-- upload is confirmed, found missing, cancelled or too late.
pub mod Retrieval
pub mod Settling
use graphql_prisma_postgres.Prelude.{
  ℕ, Bool, true, false, not, ◌&&◌, ◌||◌, Option, none, some, List, [], ◌∷◌, ◌==◌, ltb,
  if◌then◌else◌, any, find?, keep, elem, length, truthy, same_text,
}
use graphql_prisma_postgres.Effects.{p2002, p2003, p2025, PrismaCode}
use graphql_prisma_postgres.Storage.State.{
  FileStatus, pending, uploaded, failed, deleted, StoredFile, Folder, ShareLink, SignedUpload,
  Store, StoreEnv, Failure, bad_request, missing_row, internal, database, Answer, answer, failure,
  S, return, fail, ◌>>=◌, ◌>>◌, demand, or_fail, query, statement,
}
use graphql_prisma_postgres.Storage.Paths.{
  slash, sanitize_folder_name, is_empty, build_folder_path, generate_storage_key,
}
use graphql_prisma_postgres.Storage.Folders.{own_folder, parent_exists, insert_folder, is_in}
use graphql_prisma_postgres.Storage.Files.{
  is_file, is_among, ask, attempt, quietly, own_file, update_file_row, set_file_status,
  delete_objects, FileWithUrl, with_url,
}

pub record CreateSignedUrlInput : Type 0 where
  pub filename : List ℕ
  pub mime_type : ℕ
  pub size : ℕ
  pub folder_id : Option ℕ
  pub folder_name : Option (List ℕ)
  pub is_public : Bool
  pub owner_id : ℕ

-- In proxy mode the public URL and the key are empty.
pub record SignedUrlResponse : Type 0 where
  pub signed_url : ℕ
  pub file_id : ℕ
  pub public_url : ℕ
  pub storage_key : List ℕ
  pub expires_at : ℕ

-- The folder of an upload, by its path and its id.
pub record Target : Type 0 where
  pub path : Option (List ℕ)
  pub id : Option ℕ

abbrev pub no_target : Target
no_target = record { path = none; id = none }

abbrev pub in_folder : Folder → Target
in_folder f = record { path = some f.path; id = some f.id }

abbrev pub is_top : Folder → Bool
is_top f = elim f.parent_id [ none ↦ true | some _ ↦ false ]

abbrev pub has_name_of : List ℕ → ℕ → Folder → Bool
has_name_of name owner f = same_text f.name name && f.owner_id == owner && is_top f

abbrev pub is_own_path : List ℕ → ℕ → Folder → Bool
is_own_path path owner f = same_text f.path path && f.owner_id == owner

-- The `catch` of the creation: another request may have made the folder first.
unfoldable pub retrieve_folder : List ℕ → ℕ → PrismaCode → S Folder
unfolding query
retrieve_folder path owner p2002 = do
  found ← query (λ w. find? (is_own_path path owner) w.folders)
  or_fail found internal
retrieve_folder path owner c = fail (database c)

abbrev pub or_retrieve : List ℕ → ℕ → StoreEnv → Answer Folder × Store → Answer Folder × Store
or_retrieve path owner env (answer f, w) = (answer f, w)
or_retrieve path owner env (failure (database c), w) = retrieve_folder path owner c env w
or_retrieve path owner env (failure e, w) = (failure e, w)

unfoldable pub create_or_retrieve : List ℕ → ℕ → S Folder
create_or_retrieve name owner env w =
    or_retrieve (build_folder_path none name) owner env
      (insert_folder name (build_folder_path none name) none owner false env w)

-- The owner's folder of that name at the top, which may be made.
unfoldable pub named_folder : List ℕ → ℕ → S Folder
unfolding query
named_folder name owner = do
  found ← query (λ w. find? (has_name_of name owner) w.folders)
  elim found [ some f ↦ return f | none ↦ create_or_retrieve name owner ]

abbrev pub target_named : List ℕ → ℕ → S Target
target_named name owner =
    if is_empty name
    then return no_target
    else (named_folder name owner >>= λ f. return (in_folder f))

abbrev pub target_by_name : Option (List ℕ) → ℕ → S Target
target_by_name none owner = return no_target
target_by_name (some name) owner = target_named (sanitize_folder_name name) owner

unfoldable pub target_of : Option ℕ → Option (List ℕ) → ℕ → S Target
target_of none name owner = target_by_name name owner
target_of (some id) name owner =
    if truthy id
    then (own_folder id owner >>= λ f. return (in_folder f))
    else target_by_name name owner

-- `split('/').pop()`
unfoldable pub after_last_slash : List ℕ → List ℕ
after_last_slash [] = []
after_last_slash (c ∷ s) =
    let rest = after_last_slash s in if any (λ d. d == slash) (c ∷ s) then rest else c ∷ s

abbrev pub or_else : List ℕ → List ℕ → List ℕ
or_else s default = if is_empty s then default else s

-- The unique keys of a file: the id and the key of its object.
abbrev pub file_clashes : StoredFile → StoredFile → Bool
file_clashes f g = g.id == f.id || same_text g.storage_key f.storage_key

-- `prisma.file.create`
unfoldable pub add_file : StoredFile → Store → Answer StoredFile × Store
add_file f w =
    if any (file_clashes f) w.files
    then (failure (database p2002), w)
    else if parent_exists f.folder_id w.folders
    then (answer f, record w { files = f ∷ w.files })
    else (failure (database p2003), w)

abbrev pub new_file : CreateSignedUrlInput → Target → List ℕ → ℕ → ℕ → StoredFile
new_file input target storage_key expires_at id = record {
  id = id;
  filename = or_else (after_last_slash storage_key) input.filename;
  original_name = input.filename;
  mime_type = input.mime_type;
  size = input.size;
  storage_key = storage_key;
  status = pending;
  folder_id = target.id;
  owner_id = input.owner_id;
  is_public = input.is_public;
  expires_at = some expires_at;
}

unfoldable pub insert_file : CreateSignedUrlInput → Target → List ℕ → ℕ → S StoredFile
unfolding statement
insert_file input target storage_key expires_at env w =
    statement (add_file (new_file input target storage_key expires_at (env.cuid w.calls))) env w

unfoldable pub respond : SignedUpload → List ℕ → StoredFile → S SignedUrlResponse
respond signed storage_key file env w = (
  answer (record {
    signed_url = signed.signed_url;
    file_id = file.id;
    public_url = if env.file_proxy_mode then 0 else signed.public_url;
    storage_key = if env.file_proxy_mode then [] else storage_key;
    expires_at = signed.expires_at;
  }),
  w,
)

abbrev pub storage_key_of : CreateSignedUrlInput → Target → S (List ℕ)
storage_key_of input target env w =
    generate_storage_key (env.id_text input.owner_id) target.path input.filename env w

-- `createSignedUploadUrl`
unfoldable pub create_signed_upload_url : CreateSignedUrlInput → S SignedUrlResponse
create_signed_upload_url input = do
  target ← target_of input.folder_id input.folder_name input.owner_id
  storage_key ← storage_key_of input target
  signed ← ask (λ p n. p.generate_signed_upload_url n storage_key)
  file ← insert_file input target storage_key signed.expires_at
  respond signed storage_key file
